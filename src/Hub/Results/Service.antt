-- ===== src/Hub/Results/Service.antt =====
-- The service's calls on results (internal/hub/core/result_pool.go). Each makes several calls of the
-- store; `meanwhile` is what other requests do to the tables between two of them.
use fast_spider.Prelude.{
  ℕ, ◌+◌, ◌*◌, Bool, not, ◌||◌, Option, none, some, String, if◌then◌else◌, ltb, leb, str_eq, lookup,
}
use fast_spider.Node.Jobs.Job.{Text}
use fast_spider.Hub.Results.Rows.{
  Answer, ok, fail, not_found, unauthorized, expired, conflict, resource_limit, database,
  StoreError, Status, opened, aborted, failed, ResultRecord, ArtifactRow, Db, second, unix,
}
use fast_spider.Hub.Results.Store.{
  get_result, lookup_result, create_row, attach_row, commit_row, transition_row, result_page_bytes,
}
use fast_spider.Hub.Results.Manifest.{Json, manifest_is_valid}

pub record Session : Type 0 where
  pub owner_id : String
  pub machine_id : String

pub record ResultSummary : Type 0 where
  pub result_id : String
  pub revision : ℕ
  pub status : Status
  pub expires_at : ℕ

-- 1 << 20 and 100 << 20
abbrev pub max_result_page_bytes : ℕ
max_result_page_bytes = 1048576

abbrev pub max_result_bytes : ℕ
max_result_bytes = 104857600

-- 30 days, in seconds
abbrev pub result_retention : ℕ
result_retention = 2592000

unfoldable pub summary : ResultRecord → ResultSummary
summary r = record {
  result_id = r.result_id;
  revision = r.revision;
  status = r.status;
  expires_at = r.expires_at;
}

unfoldable pub summarized : Answer ResultRecord → Answer ResultSummary
unfolding summary
summarized (ok r) = ok (summary r)
summarized (fail e) = fail e

-- A result of the same key that is already there.
unfoldable pub resolve : Session → String → ResultRecord → Answer ResultSummary
unfolding summary
resolve session hash r =
    if not (str_eq r.request_hash hash)
    then fail conflict
    else if not (str_eq r.machine_id session.machine_id)
    then fail unauthorized
    else ok (summary r)

unfoldable pub resolve_again :
    Session → String → StoreError → Answer ResultRecord → Answer ResultSummary
unfolding resolve
resolve_again session hash e (ok r) = resolve session hash r
resolve_again session hash e (fail _) = fail e

unfoldable pub created :
    Session → String → String → Db × Answer ResultRecord → Db × Answer ResultSummary
unfolding resolve_again lookup_result summary
created session key hash (db, ok r) = (db, ok (summary r))
created session key hash (db, fail e) =
    (db, resolve_again session hash e (lookup_result db session.owner_id key))

unfoldable pub new_result : Session → String → String → String → ℕ → ResultRecord
new_result session key hash id now = record {
  result_id = id;
  owner_id = session.owner_id;
  machine_id = session.machine_id;
  idempotency_key = key;
  request_hash = hash;
  status = opened;
  manifest_json = "";
  revision = 1;
  error_code = "";
  error_message = "";
  created_at = unix now;
  committed_at = none;
  expires_at = unix now + result_retention;
}

unfoldable pub create_after :
    (Db → Db)
    → Db
    → Session
    → String
    → String
    → String
    → ℕ
    → Answer ResultRecord
    → Db × Answer ResultSummary
unfolding created resolve create_row new_result
create_after meanwhile db session key hash id now (ok r) = (db, resolve session hash r)
create_after meanwhile db session key hash id now (fail unauthorized) = (db, fail unauthorized)
create_after meanwhile db session key hash id now (fail expired) = (db, fail expired)
create_after meanwhile db session key hash id now (fail conflict) = (db, fail conflict)
create_after meanwhile db session key hash id now (fail resource_limit) = (db, fail resource_limit)
create_after meanwhile db session key hash id now (fail database) = (db, fail database)
create_after meanwhile db session key hash id now (fail not_found) =
    created session key hash (create_row (meanwhile db) (new_result session key hash id now))

unfoldable pub wrong_length : ℕ → ℕ → Bool
wrong_length key_bytes hash_bytes =
    ltb key_bytes 12 || ltb 128 key_bytes || ltb hash_bytes 1 || ltb 128 hash_bytes

-- `strings.TrimSpace` and `len` of a text are arguments.
module _ (trim_space : String → String) (byte_length : String → ℕ) where
  -- `CreateResult`, with the identifier that was drawn.
  unfoldable pub create_result :
      (Db → Db) → Db → Session → String → String → String → ℕ → Db × Answer ResultSummary
  unfolding create_after lookup_result wrong_length
  create_result meanwhile db session raw_key raw_hash id now =
      let key = trim_space raw_key in
      let hash = trim_space raw_hash in
      if wrong_length (byte_length key) (byte_length hash)
      then (db, fail conflict)
      else create_after meanwhile db session key hash id now (lookup_result db session.owner_id key)

-- The test of the session at the head of the other calls.
unfoldable pub with_result :
    Db → Session → Answer ResultRecord → Db × Answer ResultSummary → Db × Answer ResultSummary
with_result db session (fail e) rest = (db, fail e)
with_result db session (ok r) rest =
    if not (str_eq r.machine_id session.machine_id) then (db, fail unauthorized) else rest

unfoldable pub attach_checked :
    (Db → Db)
    → Db
    → Session
    → String
    → ℕ
    → String
    → ℕ
    → ℕ
    → Option ArtifactRow
    → Db × Answer ResultSummary
unfolding summarized result_page_bytes attach_row
attach_checked meanwhile db session id page_no artifact_id expected now none = (db, fail not_found)
attach_checked meanwhile db session id page_no artifact_id expected now (some a) =
    if not (str_eq a.machine_id session.machine_id)
    then (db, fail not_found)
    else if not (str_eq a.owner_id session.owner_id)
        || not (str_eq a.status "complete")
        || str_eq a.storage_key ""
        || ltb max_result_page_bytes a.size_bytes
        || leb (a.expires_at * second) now
    then (db, fail conflict)
    else if ltb max_result_bytes (result_page_bytes db session.owner_id id + a.size_bytes)
    then (db, fail resource_limit)
    else (let r = attach_row (meanwhile db) session.owner_id id page_no artifact_id expected now in
        (r.0, summarized r.1))

module _ (trim_space : String → String) (byte_length : String → ℕ) where
  -- `AttachResultPage`; `page_no` is not negative.
  unfoldable pub attach_result_page :
      (Db → Db) → Db → Session → String → ℕ → String → ℕ → ℕ → Db × Answer ResultSummary
  unfolding with_result attach_checked get_result
  attach_result_page meanwhile db session id page_no artifact_id expected now =
      if ltb 1000000 page_no
        || str_eq (trim_space id) ""
        || str_eq (trim_space artifact_id) ""
        || ltb expected 1
      then (db, fail conflict)
      else with_result db session (get_result db session.owner_id id) (
          attach_checked meanwhile db session id page_no artifact_id expected now
            (lookup artifact_id db.artifacts))

  -- `transitionResult`
  unfoldable pub transition_result :
      Db → Session → String → Status → String → String → ℕ → ℕ → Db × Answer ResultSummary
  unfolding with_result summarized transition_row get_result
  transition_result db session id status code message expected now =
      if ltb expected 1 || str_eq (trim_space id) ""
      then (db, fail conflict)
      else with_result db session (get_result db session.owner_id id) (
          let r = transition_row db session.owner_id id status code message expected now in
          (r.0, summarized r.1))

  unfoldable pub abort_result : Db → Session → String → ℕ → ℕ → Db × Answer ResultSummary
  unfolding transition_result
  abort_result db session id expected now =
      transition_result db session id aborted "" "" expected now

  unfoldable pub fail_result :
      Db → Session → String → String → String → ℕ → ℕ → Db × Answer ResultSummary
  unfolding transition_result
  fail_result db session id raw_code raw_message expected now =
      let code = trim_space raw_code in
      let message = trim_space raw_message in
      if ltb expected 1
        || str_eq code ""
        || ltb 64 (byte_length code)
        || ltb 512 (byte_length message)
      then (db, fail conflict)
      else transition_result db session id failed code message expected now

-- `text_of` makes a column's text of the manifest's bytes.
module _ (is_artifact_key : String → Bool) (unmarshal : Text → Option Json)
    (text_of : Text → String) where
  unfoldable pub commit_result : Db → Session → String → Text → ℕ → ℕ → Db × Answer ResultSummary
  unfolding with_result summarized commit_row get_result manifest_is_valid
  commit_result db session id manifest expected now =
      if ltb expected 1
      then (db, fail conflict)
      else if not (manifest_is_valid is_artifact_key unmarshal manifest)
      then (db, fail conflict)
      else with_result db session (get_result db session.owner_id id) (
          let r = commit_row db session.owner_id id (text_of manifest) expected now in
          (r.0, summarized r.1))

unfoldable pub unexpired : ℕ → Answer ResultRecord → Answer ResultRecord
unexpired now (fail e) = fail e
unexpired now (ok r) = if leb (r.expires_at * second) now then fail not_found else ok r

unfoldable pub get_result_manifest : Db → String → String → ℕ → Answer ResultRecord
unfolding unexpired get_result
get_result_manifest db owner id now = unexpired now (get_result db owner id)
