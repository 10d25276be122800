-- ===== src/Hub/Results/Revisions.antt =====
-- The revision of a result (internal/hub/store/store.go) counts what was done to it.
use fast_spider.Prelude.{
  ℕ, suc, ◌+◌, ◌≡◌, refl, ◌∙◌, inl, inr, false, List, [], ◌∷◌, ◌++◌, none, some, String, arith,
  if◌then◌else◌, Option-cases, str_eq, eq_iff, eq_refl, inserted, ◌⊎◌, lookup, insert,
}
use fast_spider.Hub.Results.Rows.{ResultRecord, PageRow, Db, is_page_of, is_open, aborted, failed}
use fast_spider.Hub.Results.Store.{
  blank_result, create_row, attach_row, commit_row, transition_row, cleanup_results,
}
use fast_spider.Hub.Results.Changes.{
  Change, same, made, attached, sealed, create_row-Changes, attach_row-Changes, commit_row-Changes,
  transition_row-Changes, cleanup_deletes_nothing,
}

-- A call of the store, as any of its callers can make it at any time.
pub data Call : Type 0 where
  creates : ResultRecord → Call
  attaches : String → String → ℕ → String → ℕ → ℕ → Call
  commits : String → String → String → ℕ → ℕ → Call
  aborts : String → String → ℕ → ℕ → Call
  fails : String → String → String → String → ℕ → ℕ → Call
  cleans : ℕ → ℕ → Call

unfoldable pub apply : Db → Call → Db
apply db (creates r) = (create_row db r).0
apply db (attaches owner id page_no artifact_id expected now) =
    (attach_row db owner id page_no artifact_id expected now).0
apply db (commits owner id manifest expected now) = (commit_row db owner id manifest expected now).0
apply db (aborts owner id expected now) = (transition_row db owner id aborted "" "" expected now).0
apply db (fails owner id code message expected now) =
    (transition_row db owner id failed code message expected now).0
apply db (cleans now limit) = (cleanup_results db now limit).0

unfoldable pub replay : Db → List Call → Db
unfolding apply
replay db [] = db
replay db (call ∷ calls) = replay (apply db call) calls

unfoldable pub count_pages : String → List PageRow → ℕ
count_pages id [] = 0
count_pages id (p ∷ pages) =
    let rest = count_pages id pages in if is_page_of id p then suc rest else rest

count_pages-append :
    (id : String) (pages more : List PageRow)
    → count_pages id (pages ++ more) ≡ count_pages id pages + count_pages id more
unfolding count_pages
count_pages-append id [] more = omega arith
count_pages-append id (p ∷ pages) more = ground (arith, count_pages-append id pages more)

pub record IsCounted (db : Db) : Type 0 where
  pub counted :
      (id : String) (r : ResultRecord)
      → lookup id db.results ≡ some r
      → r.revision ≡ suc (count_pages id db.pages + (if is_open r.status then 0 else 1))
  pub no_orphan : (id : String) → lookup id db.results ≡ none → count_pages id db.pages ≡ 0

-- At the changed result its new record is to be counted right, at the others nothing changes.
insert-IsCounted :
    (db : Db) (id : String) (r : ResultRecord) (pages : List PageRow)
    → IsCounted db
    → r.revision ≡ suc (count_pages id pages + (if is_open r.status then 0 else 1))
    → ((other : String)
        → str_eq id other ≡ false
        → count_pages other pages ≡ count_pages other db.pages)
    → IsCounted (record db { results = insert id r db.results; pages = pages })
insert-IsCounted db id r pages c here there = record {
  counted = λ other q e. elim (inserted id other r db.results e) [
    | inl (s, p) ↦ let same_row : q ≡ r = ground arith in rw (← s, same_row) here
    | inr (s, old) ↦ rw (there other s) (c.counted other q old)
  ];
  no_orphan = λ other e. elim (inserted id other r db.results e) [
    | inl (s, p) ↦ absurd (ground arith)
    | inr (s, old) ↦ there other s ∙ c.no_orphan other old
  ];
}

count_pages_last :
    (id other : String) (row : PageRow) (pages : List PageRow)
    → row.result_id ≡ id
    → count_pages other (pages ++ row ∷ [])
      ≡ count_pages other pages + (if str_eq id other then 1 else 0)
unfolding count_pages
count_pages_last id other row pages e =
    ground (arith, count_pages-append other pages (row ∷ []), eq_iff row.result_id other)

Change-IsCounted : (db db' : Db) → Change db db' → IsCounted db → IsCounted db'
unfolding blank_result is_open
Change-IsCounted db db' (same e) c = rw e c
Change-IsCounted db db' (made r free e) c = rw e (
    insert-IsCounted db r.result_id (blank_result r) db.pages c
      (ground (arith, c.no_orphan r.result_id free)) (λ other s. refl))
Change-IsCounted db db' (attached id r row at is_open_ same_id e) c = rw e (
    insert-IsCounted db id (record r { revision = suc r.revision }) (db.pages ++ row ∷ []) c
      (ground (arith, c.counted id r at, count_pages_last id id row db.pages same_id, eq_refl id))
      (λ other s. ground (arith, count_pages_last id other row db.pages same_id)))
Change-IsCounted db db' (sealed id r r' at was is counts ids e) c =
    rw e
      (insert-IsCounted db id r' db.pages c (ground (arith, c.counted id r at)) (λ other s. refl))

apply-IsCounted : (db : Db) (call : Call) → IsCounted db → IsCounted (apply db call)
unfolding apply is_open
apply-IsCounted db (creates r) c = Change-IsCounted db _ (create_row-Changes db r) c
apply-IsCounted db (attaches owner id page_no artifact_id expected now) c =
    Change-IsCounted db _ (attach_row-Changes db owner id page_no artifact_id expected now) c
apply-IsCounted db (commits owner id manifest expected now) c =
    Change-IsCounted db _ (commit_row-Changes db owner id manifest expected now) c
apply-IsCounted db (aborts owner id expected now) c =
    Change-IsCounted db _ (transition_row-Changes db owner id aborted "" "" expected now refl) c
apply-IsCounted db (fails owner id code message expected now) c =
    Change-IsCounted db _ (transition_row-Changes db owner id failed code message expected now refl)
      c
apply-IsCounted db (cleans now limit) c = rw (cleanup_deletes_nothing db now limit) c

replay-IsCounted : (db : Db) (calls : List Call) → IsCounted db → IsCounted (replay db calls)
unfolding replay
replay-IsCounted db [] c = c
replay-IsCounted db (call ∷ calls) c =
    replay-IsCounted (apply db call) calls (apply-IsCounted db call c)

empty-IsCounted : (db : Db) → db.results ≡ [] → db.pages ≡ [] → IsCounted db
unfolding count_pages lookup
empty-IsCounted db no_results no_pages = record {
  counted = λ id r e. absurd (ground arith);
  no_orphan = λ id e. rw no_pages refl;
}

-- Over every order of the store's calls, from tables without results and pages: the revision of a
-- result is 1, and 1 more for each of its pages, and 1 more once it has ended; and a result that is
-- not in the table has no pages.
pub revision_counts :
    (db : Db) (calls : List Call) (id : String)
    → db.results ≡ []
    → db.pages ≡ []
    → ((r : ResultRecord) × (lookup id (replay db calls).results ≡ some r)
        × (r.revision
            ≡ suc (count_pages id (replay db calls).pages + (if is_open r.status then 0 else 1))))
      ⊎ ((lookup id (replay db calls).results ≡ none)
          × (count_pages id (replay db calls).pages ≡ 0))
revision_counts db calls id no_results no_pages =
    let c = replay-IsCounted db calls (empty-IsCounted db no_results no_pages) in
    elim (Option-cases (lookup id (replay db calls).results)) [
      | inl e ↦ inr (e, c.no_orphan id e)
      | inr (r, e) ↦ inl (r, e, c.counted id r e)
    ]
