-- ===== src/Hub/Results/Changes.antt =====
-- What the store's calls on results (internal/hub/store/store.go) can do to the tables.
use fast_spider.Prelude.{
  ℕ, suc, ◌≡◌, refl, inl, inr, true, false, not, ◌&&◌, ◌||◌, [], ◌∷◌, ◌++◌, Option, none, some,
  String, arith, if-cases, Bool-cases, is_some, ltb, leb, ◌==◌, str_eq, lookup, insert, List, take,
}
use fast_spider.Hub.Results.Rows.{
  Answer, Status, is_open, ResultRecord, PageRow, ArtifactRow, MachineRow, Db, unix,
}
use fast_spider.Hub.Results.Store.{
  delete_by_ids, result_columns, cleanup_results, expired_rows, find_key, blank_result, create_for,
  create_row, matches, has_page, attach_artifact, attach_to, attach_row, update_row, sealed_ready,
  commit_row, ended, transition_row, get_result,
}

-- Nothing; a new open result under a free identifier; a page of an open result; the end of an open one.
pub data Change (db db' : Db) : Type 0 where
  same : db' ≡ db → Change db db'
  made :
      (r : ResultRecord)
      → lookup r.result_id db.results ≡ none
      → db' ≡ record db { results = insert r.result_id (blank_result r) db.results }
      → Change db db'
  attached :
      (id : String) (r : ResultRecord) (row : PageRow)
      → lookup id db.results ≡ some r
      → is_open r.status ≡ true
      → row.result_id ≡ id
      → db' ≡ record db {
        results = insert id (record r { revision = suc r.revision }) db.results;
        pages = db.pages ++ row ∷ [];
      }
      → Change db db'
  sealed :
      (id : String) (r r' : ResultRecord)
      → lookup id db.results ≡ some r
      → is_open r.status ≡ true
      → is_open r'.status ≡ false
      → r'.revision ≡ suc r.revision
      → r'.result_id ≡ r.result_id
      → db' ≡ record db { results = insert id r' db.results }
      → Change db db'

abbrev pub Changes : Db → Db × Answer ResultRecord → Type 0
Changes db x = Change db (x.0)

create_for-Changes :
    (db : Db) (r : ResultRecord) (o : Option MachineRow) → Changes db (create_for db r o)
unfolding create_for
create_for-Changes db r none = same refl
create_for-Changes db r (some machine) =
    if-cases (Changes db)
      (not (str_eq machine.owner_id r.owner_id) || not (str_eq machine.status "active"))
      (λ e. same refl)
      (λ e.
        if-cases (Changes db)
          (is_some (lookup r.result_id db.results)
            || is_some (find_key r.owner_id r.idempotency_key db.results))
          {y = (
            record db { results = insert r.result_id (blank_result r) db.results },
            get_result (record db { results = insert r.result_id (blank_result r) db.results })
                r.owner_id r.result_id,
          )}
          (λ f. same refl) (λ f. made r (ground arith) refl))

pub create_row-Changes : (db : Db) (r : ResultRecord) → Changes db (create_row db r)
unfolding create_row
create_row-Changes db r = create_for-Changes db r (lookup r.machine_id db.machines)

matches-is_open :
    (owner : String) (expected : ℕ) (r : ResultRecord)
    → matches owner expected r ≡ true
    → is_open r.status ≡ true
unfolding matches
matches-is_open owner expected r h = ground arith

attach_artifact-Changes :
    (db : Db) (r : ResultRecord) (owner id : String) (page_no : ℕ) (artifact_id : String)
    (expected now : ℕ) (o : Option ArtifactRow)
    → lookup id db.results ≡ some r
    → Changes db (attach_artifact db r owner id page_no artifact_id expected now o)
unfolding attach_artifact
attach_artifact-Changes db r owner id page_no artifact_id expected now none at = same refl
attach_artifact-Changes db r owner id page_no artifact_id expected now (some a) at =
    if-cases (Changes db)
      (not (str_eq a.owner_id owner)
        || not (str_eq a.status "complete")
        || str_eq a.storage_key ""
        || leb a.expires_at (unix now))
      (λ e. same refl)
      (λ e.
        if-cases (Changes db) (has_page id page_no db.pages) (λ f. same refl)
          (λ f. elim (Bool-cases (matches owner expected r)) [
            | inl m ↦ rw m (attached id r _ at (matches-is_open owner expected r m) refl refl)
            | inr m ↦ rw m (same refl)
          ]))

attach_to-Changes :
    (db : Db) (owner id : String) (page_no : ℕ) (artifact_id : String) (expected now : ℕ)
    (o : Option ResultRecord)
    → lookup id db.results ≡ o
    → Changes db (attach_to db owner id page_no artifact_id expected now o)
unfolding attach_to
attach_to-Changes db owner id page_no artifact_id expected now none at = same refl
attach_to-Changes db owner id page_no artifact_id expected now (some r) at =
    if-cases (Changes db) (not (str_eq r.owner_id owner)) (λ e. same refl)
      (λ e.
        if-cases (Changes db)
          (not (is_open r.status) || not (r.revision == expected) || leb r.expires_at (unix now))
          (λ f. same refl)
          (λ f.
            attach_artifact-Changes db r owner id page_no artifact_id expected now
              (lookup artifact_id db.artifacts) at))

pub attach_row-Changes :
    (db : Db) (owner id : String) (page_no : ℕ) (artifact_id : String) (expected now : ℕ)
    → Changes db (attach_row db owner id page_no artifact_id expected now)
unfolding attach_row
attach_row-Changes db owner id page_no artifact_id expected now =
    attach_to-Changes db owner id page_no artifact_id expected now (lookup id db.results) refl

update_row-Changes :
    (change : ResultRecord → ResultRecord) (db : Db) (owner id : String) (expected now : ℕ)
    (o : Option ResultRecord)
    → lookup id db.results ≡ o
    → ((r : ResultRecord) → is_open (change r).status ≡ false)
    → ((r : ResultRecord) → (change r).result_id ≡ r.result_id)
    → Changes db (update_row change db owner id expected now o)
unfolding update_row
update_row-Changes change db owner id expected now none at closes keeps = same refl
update_row-Changes change db owner id expected now (some r) at closes keeps =
    elim (Bool-cases (matches owner expected r && ltb (unix now) r.expires_at)) [
      | inl m ↦ rw m (
          sealed id r (record (change r) { revision = suc r.revision }) at
            (matches-is_open owner expected r (ground arith)) (closes r) refl (keeps r) refl)
      | inr m ↦ rw m (same refl)
    ]

pub commit_row-Changes :
    (db : Db) (owner id manifest : String) (expected now : ℕ)
    → Changes db (commit_row db owner id manifest expected now)
unfolding commit_row sealed_ready is_open
commit_row-Changes db owner id manifest expected now =
    update_row-Changes (sealed_ready manifest now) db owner id expected now (lookup id db.results)
      refl (λ r. refl) (λ r. refl)

pub transition_row-Changes :
    (db : Db) (owner id : String) (status : Status) (code message : String) (expected now : ℕ)
    → is_open status ≡ false
    → Changes db (transition_row db owner id status code message expected now)
unfolding transition_row ended
transition_row-Changes db owner id status code message expected now h =
    update_row-Changes (ended status code message) db owner id expected now (lookup id db.results)
      refl (λ r. h) (λ r. refl)

refused_statement :
    (rows : List ResultRecord) (db : Db) → (delete_by_ids "id" result_columns rows db).0 ≡ db
unfolding delete_by_ids
refused_statement [] db = refl
refused_statement (r ∷ rows) db = refl

-- The statement of a cleanup is refused, so the tables stay as they are.
pub cleanup_deletes_nothing : (db : Db) (now limit : ℕ) → (cleanup_results db now limit).0 ≡ db
unfolding cleanup_results
cleanup_deletes_nothing db now limit =
    refused_statement (take limit (expired_rows now db.results)) db
