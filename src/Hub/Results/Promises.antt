-- ===== src/Hub/Results/Promises.antt =====
-- What the service promises of results (internal/hub/core/result_pool.go).
use fast_spider.Prelude.{
  ℕ, ◌≤◌, ◌≡◌, refl, inl, inr, Bool, false, not, ◌&&◌, ◌||◌, length, Option, some, String, arith,
  if-cases, Bool-cases, ltb, str_eq, lookup,
}
use fast_spider.Node.Jobs.Job.{Text}
use fast_spider.Hub.Results.Rows.{
  StoreError, unauthorized, conflict, not_found, Answer, ok, fail, Status, aborted, failed,
  ResultRecord, Db,
}
use fast_spider.Hub.Results.Store.{of_owner, get_result}
use fast_spider.Hub.Results.Manifest.{
  Json, manifest_is_valid, manifest_is_valid-keys, max_result_manifest_bytes, keys_of, AllPlain,
}
use fast_spider.Hub.Results.Service.{
  Session, ResultSummary, with_result, attach_result_page, transition_result, abort_result,
  fail_result, commit_result,
}

-- An error, and the tables as they were.
abbrev pub IsRefused : {A : Type 0} → Db → Db × Answer A → Type 0
IsRefused db out = (fault : StoreError) × (out ≡ (db, fail fault))

with_result-stranger :
    (db : Db) (session : Session) (id : String) (r : ResultRecord)
    (rest : Db × Answer ResultSummary)
    → lookup id db.results ≡ some r
    → str_eq r.owner_id session.owner_id && str_eq r.machine_id session.machine_id ≡ false
    → IsRefused db (with_result db session (get_result db session.owner_id id) rest)
unfolding with_result get_result of_owner
with_result-stranger db session id r rest at foreign =
    elim (Bool-cases (str_eq r.owner_id session.owner_id)) [
      | inl own ↦
          let other : str_eq r.machine_id session.machine_id ≡ false =
            ground (arith, own, foreign) in
          (unauthorized, rw (at, of_owner, own, with_result, other) refl)
      | inr stranger ↦ (not_found, rw (at, of_owner, stranger, with_result) refl)
    ]

module _ (trim_space : String → String) (byte_length : String → ℕ) where
  transition_result-stranger :
      (db : Db) (session : Session) (id : String) (status : Status) (code message : String)
      (expected now : ℕ) (r : ResultRecord)
      → lookup id db.results ≡ some r
      → str_eq r.owner_id session.owner_id && str_eq r.machine_id session.machine_id ≡ false
      → IsRefused db
          (transition_result trim_space byte_length db session id status code message expected now)
  unfolding transition_result
  transition_result-stranger db session id status code message expected now r at foreign =
      if-cases (IsRefused db) (ltb expected 1 || str_eq (trim_space id) "") (λ e. (conflict, refl))
        (λ e. with_result-stranger db session id r _ at foreign)

  -- A session with another owner or another machine than a result's gets an error from attaching a page
  -- to it, committing, aborting and failing it, and each leaves all tables as they are.
  pub strangers_change_nothing :
      (is_artifact_key : String → Bool) (unmarshal : Text → Option Json) (text_of : Text → String)
      (meanwhile : Db → Db) (db : Db) (session : Session) (id : String) (page_no : ℕ)
      (artifact_id code message : String) (manifest : Text) (expected now : ℕ) (r : ResultRecord)
      → lookup id db.results ≡ some r
      → str_eq r.owner_id session.owner_id && str_eq r.machine_id session.machine_id ≡ false
      → IsRefused db (
          attach_result_page trim_space byte_length meanwhile db session id page_no artifact_id
            expected now)
        × IsRefused db
            (commit_result is_artifact_key unmarshal text_of db session id manifest expected now)
        × IsRefused db (abort_result trim_space byte_length db session id expected now)
        × IsRefused db (fail_result trim_space byte_length db session id code message expected now)
  unfolding attach_result_page commit_result abort_result fail_result
  strangers_change_nothing is_artifact_key unmarshal text_of meanwhile db session id page_no
        artifact_id code message manifest expected now r at foreign =
      let P : Db × Answer ResultSummary → Type 0 = IsRefused db in
      let stranger : (rest : Db × Answer ResultSummary)
          → P (with_result db session (get_result db session.owner_id id) rest) =
        λ rest. with_result-stranger db session id r rest at foreign in
      let ends : (status : Status) (c m : String)
          → P (transition_result trim_space byte_length db session id status c m expected now) =
        λ status c m.
          transition_result-stranger db session id status c m expected now r at foreign in
      (
        if-cases P
            (ltb 1000000 page_no
              || str_eq (trim_space id) ""
              || str_eq (trim_space artifact_id) ""
              || ltb expected 1)
            (λ e. (conflict, refl)) (λ e. stranger _),
        if-cases P (ltb expected 1) (λ e. (conflict, refl))
            (λ e.
              if-cases P (not (manifest_is_valid is_artifact_key unmarshal manifest))
                (λ f. (conflict, refl)) (λ f. stranger _)),
        ends aborted "" "",
        if-cases P
            (ltb expected 1
              || str_eq (trim_space code) ""
              || ltb 64 (byte_length (trim_space code))
              || ltb 512 (byte_length (trim_space message)))
            (λ e. (conflict, refl)) (λ e. ends failed (trim_space code) (trim_space message)),
      )

module _ (is_artifact_key : String → Bool) (unmarshal : Text → Option Json)
    (text_of : Text → String) where
  -- A manifest that CommitResult accepted has 1 to 65536 bytes, is JSON, and no key of it, at any
  -- depth, is an artifact identifier's.
  pub committed_manifest_is_plain :
      (db : Db) (session : Session) (id : String) (manifest : Text) (expected now : ℕ)
      (s : ResultSummary)
      → (commit_result is_artifact_key unmarshal text_of db session id manifest expected now).1
        ≡ ok s
      → (1 ≤ length manifest)
        × (length manifest ≤ max_result_manifest_bytes)
        × ((j : Json) × (unmarshal manifest ≡ some j) × AllPlain is_artifact_key (keys_of j))
  unfolding commit_result
  committed_manifest_is_plain db session id manifest expected now s e =
      elim (Bool-cases (manifest_is_valid is_artifact_key unmarshal manifest)) [
        | inl b ↦ manifest_is_valid-keys is_artifact_key unmarshal manifest b
        | inr b ↦ absurd (ground arith)
      ]
