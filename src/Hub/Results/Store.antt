-- ===== src/Hub/Results/Store.antt =====
-- The store's calls on results (internal/hub/store/store.go), each a statement or a transaction of
-- the only connection to the database, which runs no two at once.
use Prim.Native.String.{compare}
use Prim.Native.Nat.{Ordering}
use fast_spider.Prelude.{
  ℕ, suc, ◌+◌, Bool, true, false, not, ◌&&◌, ◌||◌, List, [], ◌∷◌, ◌++◌, Option, none, some, String,
  Map, if◌then◌else◌, ltb, leb, ◌==◌, str_eq, lookup, insert, delete, is_some, keep_if, take,
  one_of,
}
use fast_spider.Hub.Results.Rows.{
  Answer, StoreError, ok, fail, not_found, unauthorized, conflict, database, opened, ready, Status,
  is_open, is_ready, ResultRecord, PageRow, ArtifactRow, MachineRow, Db, unix, is_page_of,
}

unfoldable pub of_owner : String → Option ResultRecord → Answer ResultRecord
of_owner owner none = fail not_found
of_owner owner (some r) = if str_eq r.owner_id owner then ok r else fail not_found

unfoldable pub get_result : Db → String → String → Answer ResultRecord
unfolding of_owner
get_result db owner id = of_owner owner (lookup id db.results)

-- `WHERE owner_id = ? AND idempotency_key = ?`, which the table's UNIQUE makes one row at most.
unfoldable pub find_key : String → String → Map ResultRecord → Option ResultRecord
find_key owner key [] = none
find_key owner key ((id, r) ∷ rows) =
    if str_eq r.owner_id owner && str_eq r.idempotency_key key
    then some r
    else find_key owner key rows

unfoldable pub found : Option ResultRecord → Answer ResultRecord
found none = fail not_found
found (some r) = ok r

unfoldable pub lookup_result : Db → String → String → Answer ResultRecord
unfolding find_key found
lookup_result db owner key = found (find_key owner key db.results)

unfoldable pub blank_result : ResultRecord → ResultRecord
blank_result r = record r {
  status = opened;
  manifest_json = "";
  revision = 1;
  error_code = "";
  error_message = "";
  committed_at = none;
}

unfoldable pub create_for : Db → ResultRecord → Option MachineRow → Db × Answer ResultRecord
unfolding find_key blank_result get_result
create_for db r none = (db, fail not_found)
create_for db r (some machine) =
    if not (str_eq machine.owner_id r.owner_id) || not (str_eq machine.status "active")
    then (db, fail unauthorized)
    else if is_some (lookup r.result_id db.results)
        || is_some (find_key r.owner_id r.idempotency_key db.results)
    then (db, fail database)
    else (let db' = record db { results = insert r.result_id (blank_result r) db.results } in
        (db', get_result db' r.owner_id r.result_id))

-- `Store.CreateResult`; `r` has its times in seconds. GetResult, also in attach_row and update_row, is a
-- statement after the committed transaction, read here in the same step: it changes no table, and as
-- no call takes a result away, a request in between can only make the row that it answers newer.
unfoldable pub create_row : Db → ResultRecord → Db × Answer ResultRecord
unfolding create_for
create_row db r = create_for db r (lookup r.machine_id db.machines)

-- `WHERE owner_id = ? AND status = 'open' AND revision = ?` at the row of a result.
unfoldable pub matches : String → ℕ → ResultRecord → Bool
unfolding is_open
matches owner expected r = str_eq r.owner_id owner && (is_open r.status && (r.revision == expected))

unfoldable pub has_page : String → ℕ → List PageRow → Bool
has_page id page_no [] = false
has_page id page_no (p ∷ pages) =
    (is_page_of id p && (p.page_no == page_no)) || has_page id page_no pages

unfoldable pub attach_artifact :
    Db
    → ResultRecord
    → String
    → String
    → ℕ
    → String
    → ℕ
    → ℕ
    → Option ArtifactRow
    → Db × Answer ResultRecord
unfolding has_page matches get_result
attach_artifact db r owner id page_no artifact_id expected now none = (db, fail not_found)
attach_artifact db r owner id page_no artifact_id expected now (some a) =
    if not (str_eq a.owner_id owner)
      || not (str_eq a.status "complete")
      || str_eq a.storage_key ""
      || leb a.expires_at (unix now)
    then (db, fail conflict)
    else if has_page id page_no db.pages
    then (db, fail database)
    else if not (matches owner expected r)
    then (db, fail conflict)
    else (let row : PageRow = record {
      result_id = id;
      page_no = page_no;
      owner_id = owner;
      artifact_id = artifact_id;
      created_at = unix now;
    } in
        let db' = record db {
          results = insert id (record r { revision = suc r.revision }) db.results;
          pages = db.pages ++ row ∷ [];
        } in
        (db', get_result db' owner id))

unfoldable pub attach_to :
    Db → String → String → ℕ → String → ℕ → ℕ → Option ResultRecord → Db × Answer ResultRecord
unfolding attach_artifact is_open
attach_to db owner id page_no artifact_id expected now none = (db, fail not_found)
attach_to db owner id page_no artifact_id expected now (some r) =
    if not (str_eq r.owner_id owner)
    then (db, fail unauthorized)
    else if not (is_open r.status) || not (r.revision == expected) || leb r.expires_at (unix now)
    then (db, fail conflict)
    else attach_artifact db r owner id page_no artifact_id expected now
        (lookup artifact_id db.artifacts)

-- `Store.AttachResultPage`
unfoldable pub attach_row : Db → String → String → ℕ → String → ℕ → ℕ → Db × Answer ResultRecord
unfolding attach_to
attach_row db owner id page_no artifact_id expected now =
    attach_to db owner id page_no artifact_id expected now (lookup id db.results)

-- An UPDATE of the row of a result that is open, of this revision and not expired.
unfoldable pub update_row :
    (ResultRecord → ResultRecord)
    → Db
    → String
    → String
    → ℕ
    → ℕ
    → Option ResultRecord
    → Db × Answer ResultRecord
unfolding matches get_result
update_row change db owner id expected now none = (db, fail conflict)
update_row change db owner id expected now (some r) =
    if matches owner expected r && ltb (unix now) r.expires_at
    then (let db' = record db {
      results = insert id (record (change r) { revision = suc r.revision }) db.results;
    } in
        (db', get_result db' owner id))
    else (db, fail conflict)

unfoldable pub sealed_ready : String → ℕ → ResultRecord → ResultRecord
sealed_ready manifest now r = record r {
  status = ready;
  manifest_json = manifest;
  committed_at = some (unix now);
}

-- `Store.CommitResult`
unfoldable pub commit_row : Db → String → String → String → ℕ → ℕ → Db × Answer ResultRecord
unfolding update_row sealed_ready
commit_row db owner id manifest expected now =
    update_row (sealed_ready manifest now) db owner id expected now (lookup id db.results)

unfoldable pub ended : Status → String → String → ResultRecord → ResultRecord
ended status code message r = record r {
  status = status;
  error_code = code;
  error_message = message;
}

-- `Store.transitionResult`
unfoldable pub transition_row :
    Db → String → String → Status → String → String → ℕ → ℕ → Db × Answer ResultRecord
unfolding update_row ended
transition_row db owner id status code message expected now =
    update_row (ended status code message) db owner id expected now (lookup id db.results)

abbrev pub size_of : Option ArtifactRow → ℕ
size_of none = 0
size_of (some a) = a.size_bytes

unfoldable pub page_bytes : Map ArtifactRow → String → String → List PageRow → ℕ
page_bytes artifacts owner id [] = 0
page_bytes artifacts owner id (p ∷ pages) =
    let rest = page_bytes artifacts owner id pages in
    if is_page_of id p && str_eq p.owner_id owner
    then size_of (lookup p.artifact_id artifacts) + rest
    else rest

-- `Store.ResultPageBytes`
unfoldable pub result_page_bytes : Db → String → String → ℕ
unfolding page_bytes
result_page_bytes db owner id = page_bytes db.artifacts owner id db.pages

unfoldable pub find_page : String → String → ℕ → List PageRow → Option PageRow
find_page owner id page_no [] = none
find_page owner id page_no (p ∷ pages) =
    if is_page_of id p && ((p.page_no == page_no) && str_eq p.owner_id owner)
    then some p
    else find_page owner id page_no pages

unfoldable pub readable : String → ℕ → PageRow → Option ArtifactRow → Answer (PageRow × ArtifactRow)
readable owner now p none = fail not_found
readable owner now p (some a) =
    if not (str_eq a.owner_id owner)
      || not (str_eq a.status "complete")
      || str_eq a.storage_key ""
      || leb a.expires_at (unix now)
    then fail not_found
    else ok (p, a)

unfoldable pub page_of :
    Db → String → ℕ → Option ResultRecord → Option PageRow → Answer (PageRow × ArtifactRow)
unfolding is_ready readable
page_of db owner now none page = fail not_found
page_of db owner now (some r) none = fail not_found
page_of db owner now (some r) (some p) =
    if is_ready r.status && ltb (unix now) r.expires_at
    then readable owner now p (lookup p.artifact_id db.artifacts)
    else fail not_found

-- `Store.GetResultPage`
unfoldable pub get_result_page : Db → String → String → ℕ → ℕ → Answer (PageRow × ArtifactRow)
unfolding page_of find_page
get_result_page db owner id page_no now =
    page_of db owner now (lookup id db.results) (find_page owner id page_no db.pages)

-- `ORDER BY expires_at, result_id`
unfoldable pub expires_before : ResultRecord → ResultRecord → Bool
expires_before a b =
    ltb a.expires_at b.expires_at
    || ((a.expires_at == b.expires_at)
        && elim (compare a.result_id b.result_id) [ Ordering.gt ↦ false | _ ↦ true ])

unfoldable pub insert_by_expiry : ResultRecord → List ResultRecord → List ResultRecord
unfolding expires_before
insert_by_expiry r [] = r ∷ []
insert_by_expiry r (q ∷ rows) =
    let rest = insert_by_expiry r rows in if expires_before r q then r ∷ q ∷ rows else q ∷ rest

unfoldable pub expired_rows : ℕ → Map ResultRecord → List ResultRecord
unfolding insert_by_expiry
expired_rows now [] = []
expired_rows now ((id, r) ∷ rows) =
    let rest = expired_rows now rows in
    if leb r.expires_at (unix now) then insert_by_expiry r rest else rest

-- The columns of the table of results (internal/hub/store/migrations/014_result_pool.sql).
abbrev pub result_columns : List String
result_columns =
    "result_id" ∷ "owner_id" ∷ "machine_id" ∷ "idempotency_key" ∷ "request_hash" ∷ "status"
    ∷ "manifest_json" ∷ "revision" ∷ "error_code" ∷ "error_message" ∷ "created_at" ∷ "committed_at"
    ∷ "expires_at" ∷ []

-- A deleted result takes its pages with it (ON DELETE CASCADE).
unfoldable pub without_rows : List ResultRecord → Map ResultRecord → Map ResultRecord
without_rows [] results = results
without_rows (r ∷ rows) results = without_rows rows (delete r.result_id results)

unfoldable pub without_pages : List ResultRecord → List PageRow → List PageRow
without_pages [] pages = pages
without_pages (r ∷ rows) pages =
    without_pages rows (keep_if (λ p. not (is_page_of r.result_id p)) pages)

-- `deleteByIDs` on the table of results. Its statement names the column `id`: where the table has no
-- column of a name, SQLite refuses the statement. Where it had one, all named rows would go.
unfoldable pub delete_by_ids :
    String → List String → List ResultRecord → Db → Db × Option StoreError
unfolding without_rows without_pages
delete_by_ids column columns [] db = (db, none)
delete_by_ids column columns (r ∷ rows) db =
    if one_of column columns
    then (
      record db {
        results = without_rows (r ∷ rows) db.results;
        pages = without_pages (r ∷ rows) db.pages;
      },
      none,
    )
    else (db, some database)

-- `Store.CleanupResults`: the rows to delete, then the deletion; an error rolls the transaction back.
unfoldable pub cleanup_results : Db → ℕ → ℕ → Db × Option StoreError
unfolding expired_rows delete_by_ids
cleanup_results db now limit =
    delete_by_ids "id" result_columns (take limit (expired_rows now db.results)) db
