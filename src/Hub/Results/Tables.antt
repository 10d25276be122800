-- ===== src/Hub/Results/Tables.antt =====
-- The tables of results, and what a change leaves of one that has ended (internal/hub/store/store.go).
use fast_spider.Prelude.{
  suc, ◌≡◌, refl, ap, sym, ◌∙◌, inl, inr, true, false, List, [], ◌∷◌, ◌++◌, none, some, String, Map,
  arith, Bool-cases, str_eq, eq_iff, lookup, insert, lookup-insert, inserted, UniqueKeys,
  insert-UniqueKeys, keep_if,
}
use fast_spider.Hub.Results.Rows.{ResultRecord, PageRow, Db, is_page_of, is_open}
use fast_spider.Hub.Results.Store.{blank_result}
use fast_spider.Hub.Results.Changes.{Change, same, made, attached, sealed}

-- The table's primary key: a row stands under its own identifier.
pub record IsTable (db : Db) : Type 0 where
  pub unique : UniqueKeys db.results
  pub named : (id : String) (r : ResultRecord) → lookup id db.results ≡ some r → r.result_id ≡ id

insert-IsTable :
    (db : Db) (r : ResultRecord) (pages : List PageRow)
    → IsTable db
    → IsTable (record db { results = insert r.result_id r db.results; pages = pages })
insert-IsTable db r pages t = record {
  unique = insert-UniqueKeys r.result_id r db.results t.unique;
  named = λ id q e. elim (inserted r.result_id id r db.results e) [
    | inl (s, p) ↦ let p' : q ≡ r = ground arith in rw (p', s) refl
    | inr (s, old) ↦ t.named id q old
  ];
}

pub Change-IsTable : (db db' : Db) → Change db db' → IsTable db → IsTable db'
unfolding blank_result
Change-IsTable db db' (same e) t = rw e t
Change-IsTable db db' (made r free e) t = rw e (insert-IsTable db (blank_result r) db.pages t)
Change-IsTable db db' (attached id r row at was same_id e) t =
    let here =
      insert-IsTable db (record r { revision = suc r.revision }) (db.pages ++ row ∷ []) t in
    rw (e, ← t.named id r at) here
Change-IsTable db db' (sealed id r r' at was is counts ids e) t =
    rw (e, ← t.named id r at, ← ids) (insert-IsTable db r' db.pages t)

unfoldable pub pages_of : String → List PageRow → List PageRow
pages_of id pages = keep_if (is_page_of id) pages

pages_of-append :
    (id other : String) (row : PageRow) (pages : List PageRow)
    → row.result_id ≡ id
    → str_eq id other ≡ false
    → pages_of other (pages ++ row ∷ []) ≡ pages_of other pages
unfolding pages_of
pages_of-append id other row [] e ne = ground (arith, ap (λ x. str_eq x other) e)
pages_of-append id other row (p ∷ pages) e ne = ground (arith, pages_of-append id other row pages)

-- The row and the pages of one result are the same in both.
pub record IsKept (id : String) (r : ResultRecord) (db db' : Db) : Type 0 where
  pub row_same : lookup id db'.results ≡ some r
  pub pages_same : pages_of id db'.pages ≡ pages_of id db.pages

-- A change elsewhere: the identifiers differ.
other_id :
    (id other : String) (m : Map ResultRecord) (r q : ResultRecord)
    → lookup id m ≡ some r
    → lookup other m ≡ some q
    → is_open r.status ≡ false
    → is_open q.status ≡ true
    → str_eq other id ≡ false
other_id id other m r q e f closed is = elim (Bool-cases (str_eq other id)) [
  | inl s ↦
      let p : other ≡ id = ground (arith, eq_iff other id) in
      let one : some q ≡ some r = sym f ∙ ap (λ x. lookup x m) p ∙ e in absurd (ground arith)
  | inr s ↦ s
]

pub Change-IsKept :
    (db db' : Db) (id : String) (r : ResultRecord)
    → Change db db'
    → lookup id db.results ≡ some r
    → is_open r.status ≡ false
    → IsKept id r db db'
Change-IsKept db db' id r (same e) at closed = rw e (record { row_same = at; pages_same = refl })
Change-IsKept db db' id r (made q free e) at closed = elim (Bool-cases (str_eq q.result_id id)) [
  | inl s ↦
      let p : q.result_id ≡ id = ground (arith, eq_iff q.result_id id) in
      let clash : none ≡ some r = sym free ∙ ap (λ x. lookup x db.results) p ∙ at in
      absurd (ground arith)
  | inr s ↦ rw e (record {
    row_same = ground (arith, lookup-insert q.result_id id (blank_result q) db.results);
    pages_same = refl;
  })
]
Change-IsKept db db' id r (attached other q row f was same_id e) at closed =
    let ne = other_id id other db.results r q at f closed was in
    rw e (record {
      row_same =
          ground
            (arith, ne, lookup-insert other id (record q { revision = suc q.revision }) db.results);
      pages_same = pages_of-append other id row db.pages same_id ne;
    })
Change-IsKept db db' id r (sealed other q q' f was is counts ids e) at closed =
    let ne = other_id id other db.results r q at f closed was in
    rw e (record {
      row_same = ground (arith, ne, lookup-insert other id q' db.results);
      pages_same = refl;
    })
