-- ===== src/Tests/ResultTests.antt =====
-- The result pool at concrete inputs.
use fast_spider.Prelude.{
  ℕ, suc, ◌+◌, ◌≤◌, ◌≡◌, ◌⊎◌, refl, false, List, [], ◌∷◌, none, some, Option, String, Bool, lookup,
  insert, if◌then◌else◌, str_eq, arith, eq_iff,
}
use fast_spider.Node.Jobs.Job.{Text}
use fast_spider.Hub.Results.Rows.{
  ok, fail, conflict, opened, ready, is_open, ResultRecord, Db, ArtifactRow,
}
use fast_spider.Hub.Results.Store.{
  of_owner, get_result, find_key, found, lookup_result, blank_result, create_for, create_row,
  matches, has_page, attach_artifact, attach_to, attach_row, update_row, sealed_ready, commit_row,
  page_bytes, result_page_bytes,
}
use fast_spider.Hub.Results.Manifest.{
  Json, object, no_members, contains_artifact_id, is_object_without, manifest_is_valid, keys_of,
  AllPlain, max_result_manifest_bytes,
}
use fast_spider.Hub.Results.Service.{
  Session, ResultSummary, max_result_bytes, summary, summarized, created, create_after, new_result,
  wrong_length, create_result, with_result, attach_checked, attach_result_page, abort_result,
  fail_result, commit_result,
}
use fast_spider.Hub.Results.Revisions.{
  Call, creates, attaches, commits, aborts, cleans, replay, count_pages, revision_counts,
}
use fast_spider.Hub.Results.Keys.{same_key_same_result}
use fast_spider.Hub.Results.Sealed.{sealed_for_good}
use fast_spider.Hub.Results.Tables.{IsTable, pages_of}
use fast_spider.Hub.Results.Promises.{
  IsRefused, strangers_change_nothing, committed_manifest_is_plain,
}
use fast_spider.Hub.Results.Pages.{pages_bounded}

abbrev no_trim : String → String
no_trim s = s

abbrev twelve : String → ℕ
twelve s = 12

abbrev nobody : Db → Db
nobody db = db

abbrev artifact : ArtifactRow
artifact = record {
  owner_id = "own";
  machine_id = "m1";
  size_bytes = 700;
  status = "complete";
  storage_key = "k";
  expires_at = 9000000;
}

abbrev empty_db : Db
empty_db = record {
  results = [];
  pages = [];
  artifacts = ("a1", artifact) ∷ [];
  machines = ("m1", record { owner_id = "own"; status = "active" }) ∷ [];
}

abbrev session : Session
session = record { owner_id = "own"; machine_id = "m1" }

abbrev open_result : ResultRecord
open_result = record {
  result_id = "r1";
  owner_id = "own";
  machine_id = "m1";
  idempotency_key = "key";
  request_hash = "h";
  status = opened;
  manifest_json = "";
  revision = 1;
  error_code = "";
  error_message = "";
  created_at = 0;
  committed_at = none;
  expires_at = 2592000;
}

abbrev filled_db : Db
filled_db = record empty_db { results = ("r1", open_result) ∷ [] }

abbrev day : List Call
day =
    creates open_result
    ∷ attaches "own" "r1" 0 "a1" 1 5
    ∷ commits "own" "r1" "{}" 2 6
    ∷ aborts "own" "r1" 3 7
    ∷ cleans 8 10
    ∷ []

revision_counts_example :
    ((r : ResultRecord) × (lookup "r1" (replay empty_db day).results ≡ some r)
      × (r.revision
          ≡ suc
              (count_pages "r1" (replay empty_db day).pages + (if is_open r.status then 0 else 1))))
    ⊎ ((lookup "r1" (replay empty_db day).results ≡ none)
        × (count_pages "r1" (replay empty_db day).pages ≡ 0))
revision_counts_example = revision_counts empty_db day "r1" refl refl

abbrev ready_result : ResultRecord
ready_result = record open_result { status = ready; revision = 2; manifest_json = "{}" }

abbrev sealed_db : Db
sealed_db = record empty_db { results = ("r1", ready_result) ∷ [] }

sealed_db-IsTable : IsTable sealed_db
unfolding lookup
sealed_db-IsTable = record { unique = (refl, tt); named = λ id r e. ground (arith, eq_iff "r1" id) }

sealed_db-row : lookup "r1" sealed_db.results ≡ some ready_result
unfolding lookup
sealed_db-row = refl

ready_result-ended : is_open ready_result.status ≡ false
unfolding is_open
ready_result-ended = refl

abbrev late_calls : List Call
late_calls = attaches "own" "r1" 0 "a1" 2 5 ∷ aborts "own" "r1" 2 7 ∷ cleans 8 10 ∷ []

filled_db-row : lookup "r1" filled_db.results ≡ some open_result
unfolding lookup
filled_db-row = refl

-- Every manifest is read as an object without members.
abbrev no_key : String → Bool
no_key k = str_eq k "artifactId"

abbrev plain_json : Text → Option Json
plain_json raw = some (object no_members)

abbrev some_text : Text → String
some_text raw = "{}"

sealed_for_good_example :
    (lookup "r1" (replay sealed_db late_calls).results ≡ some ready_result)
    × (pages_of "r1" (replay sealed_db late_calls).pages ≡ pages_of "r1" sealed_db.pages)
sealed_for_good_example =
    sealed_for_good sealed_db late_calls "r1" ready_result sealed_db-IsTable sealed_db-row
      ready_result-ended

strangers_change_nothing_example :
    IsRefused filled_db (
      attach_result_page no_trim twelve nobody filled_db
        (record session { machine_id = "m2" })
        "r1"
        0
        "a1"
        1
        5)
    × IsRefused filled_db (
        commit_result no_key plain_json some_text filled_db
          (record session { machine_id = "m2" })
          "r1"
          []
          1
          5)
    × IsRefused filled_db
        (abort_result no_trim twelve filled_db (record session { machine_id = "m2" }) "r1" 1 5)
    × IsRefused filled_db (
        fail_result no_trim twelve filled_db (record session { machine_id = "m2" }) "r1" "E" "" 1 5)
strangers_change_nothing_example =
    strangers_change_nothing no_trim twelve no_key plain_json some_text nobody filled_db
      (record session { machine_id = "m2" }) "r1" 0 "a1" "E" "" [] 1 5 open_result filled_db-row
      refl

abbrev first_answer : ResultSummary
first_answer = record { result_id = "r1"; revision = 1; status = opened; expires_at = 2592000 }

created_first :
    (create_result no_trim twelve nobody empty_db session "key" "h" "r1" 0).1 ≡ ok first_answer
unfolding create_result wrong_length create_after lookup_result found find_key created new_result
    create_row create_for blank_result get_result of_owner summary lookup insert
created_first = refl

same_key_same_result_example :
    create_result no_trim twelve nobody
      (create_result no_trim twelve nobody empty_db session "key" "h" "r1" 0).0
      session
      "key"
      "other"
      "r2"
      3
    ≡ (
      (create_result no_trim twelve nobody empty_db session "key" "h" "r1" 0).0,
      if str_eq "h" "other" then ok first_answer else fail conflict,
    )
same_key_same_result_example =
    same_key_same_result no_trim twelve nobody nobody empty_db session "key" "h" "other" "r1" "r2" 0
      3 first_answer created_first

abbrev second_answer : ResultSummary
second_answer = record { result_id = "r1"; revision = 2; status = opened; expires_at = 2592000 }

attached_first :
    (attach_result_page no_trim twelve nobody filled_db session "r1" 0 "a1" 1 5).1
    ≡ ok second_answer
unfolding attach_result_page with_result attach_checked result_page_bytes page_bytes attach_row
    attach_to attach_artifact has_page matches is_open get_result of_owner summarized summary lookup
    insert
attached_first = refl

pages_bounded_example :
    result_page_bytes
      (attach_result_page no_trim twelve nobody filled_db session "r1" 0 "a1" 1 5).0
      "own"
      "r1"
    ≤ max_result_bytes
pages_bounded_example =
    pages_bounded no_trim twelve nobody filled_db session "r1" 0 "a1" 1 5 second_answer refl refl
      attached_first

abbrev last_answer : ResultSummary
last_answer = record { result_id = "r1"; revision = 2; status = ready; expires_at = 2592000 }

committed_first :
    (commit_result no_key plain_json some_text filled_db session "r1" (123 ∷ 125 ∷ []) 1 5).1
    ≡ ok last_answer
unfolding commit_result manifest_is_valid is_object_without contains_artifact_id with_result
    commit_row update_row sealed_ready matches is_open get_result of_owner summarized summary lookup
    insert
committed_first = refl

committed_manifest_is_plain_example :
    (1 ≤ 2)
    × (2 ≤ max_result_manifest_bytes)
    × ((j : Json) × (plain_json (123 ∷ 125 ∷ []) ≡ some j) × AllPlain no_key (keys_of j))
committed_manifest_is_plain_example =
    committed_manifest_is_plain no_key plain_json some_text filled_db session "r1" (123 ∷ 125 ∷ [])
      1 5 last_answer committed_first
