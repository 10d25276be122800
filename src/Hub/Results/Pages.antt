-- ===== src/Hub/Results/Pages.antt =====
-- The size of a result's pages (internal/hub/core/result_pool.go, AttachResultPage).
use fast_spider.Prelude.{
  ℕ, ◌+◌, ◌*◌, ◌≤◌, ◌≡◌, refl, not, ◌||◌, List, [], ◌∷◌, ◌++◌, Option, none, some, String, Map,
  arith, if-cases, ltb, leb, ◌==◌, str_eq, lookup,
}
use fast_spider.Hub.Results.Rows.{
  Answer, ok, fail, ResultRecord, PageRow, ArtifactRow, Db, second, unix,
}
use fast_spider.Hub.Results.Store.{get_result, attach_row, page_bytes, result_page_bytes}
use fast_spider.Hub.Results.Service.{
  Session, ResultSummary, max_result_bytes, max_result_page_bytes, with_result, attach_checked,
  attach_result_page,
}
use fast_spider.Hub.Results.Store.{size_of, attach_artifact, attach_to, has_page, matches}
use fast_spider.Hub.Results.Rows.{is_open}

page_bytes-append :
    (artifacts : Map ArtifactRow) (owner id : String) (row : PageRow) (pages : List PageRow)
    → page_bytes artifacts owner id (pages ++ row ∷ [])
      ≤ page_bytes artifacts owner id pages + size_of (lookup row.artifact_id artifacts)
unfolding page_bytes
page_bytes-append artifacts owner id row [] = ground arith
page_bytes-append artifacts owner id row (p ∷ pages) =
    ground (arith, page_bytes-append artifacts owner id row pages)

-- A call adds at most the size of the artifact.
abbrev AddsAtMost : Db → String → String → String → Db → Type 0
AddsAtMost db owner id artifact_id db' =
    page_bytes db'.artifacts owner id db'.pages
    ≤ page_bytes db.artifacts owner id db.pages + size_of (lookup artifact_id db.artifacts)

attach_artifact-adds :
    (db : Db) (r : ResultRecord) (owner id : String) (page_no : ℕ) (artifact_id : String)
    (expected now : ℕ) (o : Option ArtifactRow)
    → AddsAtMost db owner id artifact_id
        (attach_artifact db r owner id page_no artifact_id expected now o).0
unfolding attach_artifact
attach_artifact-adds db r owner id page_no artifact_id expected now none = omega arith
attach_artifact-adds db r owner id page_no artifact_id expected now (some a) =
    let P : Db × Answer ResultRecord → Type 0 = λ x. AddsAtMost db owner id artifact_id x.0 in
    if-cases P
      (not (str_eq a.owner_id owner)
        || not (str_eq a.status "complete")
        || str_eq a.storage_key ""
        || leb a.expires_at (unix now))
      (λ e. omega arith)
      (λ e.
        if-cases P (has_page id page_no db.pages) (λ f. omega arith)
          (λ f.
            if-cases P (not (matches owner expected r)) (λ g. omega arith)
              (λ g. page_bytes-append db.artifacts owner id _ db.pages)))

attach_to-adds :
    (db : Db) (owner id : String) (page_no : ℕ) (artifact_id : String) (expected now : ℕ)
    (o : Option ResultRecord)
    → AddsAtMost db owner id artifact_id
        (attach_to db owner id page_no artifact_id expected now o).0
unfolding attach_to
attach_to-adds db owner id page_no artifact_id expected now none = omega arith
attach_to-adds db owner id page_no artifact_id expected now (some r) =
    let P : Db × Answer ResultRecord → Type 0 = λ x. AddsAtMost db owner id artifact_id x.0 in
    if-cases P (not (str_eq r.owner_id owner)) (λ e. omega arith)
      (λ e.
        if-cases P
          (not (is_open r.status) || not (r.revision == expected) || leb r.expires_at (unix now))
          (λ f. omega arith)
          (λ f.
            attach_artifact-adds db r owner id page_no artifact_id expected now
              (lookup artifact_id db.artifacts)))

attach_row-adds :
    (db : Db) (owner id : String) (page_no : ℕ) (artifact_id : String) (expected now : ℕ)
    → AddsAtMost db owner id artifact_id (attach_row db owner id page_no artifact_id expected now).0
unfolding attach_row
attach_row-adds db owner id page_no artifact_id expected now =
    attach_to-adds db owner id page_no artifact_id expected now (lookup id db.results)

attach_checked-bytes :
    (meanwhile : Db → Db) (db : Db) (session : Session) (id : String) (page_no : ℕ)
    (artifact_id : String) (expected now : ℕ) (o : Option ArtifactRow) (s : ResultSummary)
    → lookup artifact_id db.artifacts ≡ o
    → (meanwhile db).pages ≡ db.pages
    → (meanwhile db).artifacts ≡ db.artifacts
    → (attach_checked meanwhile db session id page_no artifact_id expected now o).1 ≡ ok s
    → result_page_bytes
        (attach_checked meanwhile db session id page_no artifact_id expected now o).0
        session.owner_id
        id
      ≤ max_result_bytes
unfolding attach_checked result_page_bytes
attach_checked-bytes meanwhile db session id page_no artifact_id expected now none s at p q e =
    absurd (ground arith)
attach_checked-bytes meanwhile db session id page_no artifact_id expected now (some a) s at p q e =
    let P : Db × Answer ResultSummary → Type 0 =
      λ x. x.1 ≡ ok s → page_bytes x.0.artifacts session.owner_id id x.0.pages ≤ max_result_bytes in
    let more =
      attach_row-adds (meanwhile db) session.owner_id id page_no artifact_id expected now in
    let before : page_bytes (meanwhile db).artifacts session.owner_id id (meanwhile db).pages
        ≡ page_bytes db.artifacts session.owner_id id db.pages =
      rw (p, q) refl in
    let size : size_of (lookup artifact_id (meanwhile db).artifacts) ≡ a.size_bytes =
      rw (q, at) refl in
    if-cases P (not (str_eq a.machine_id session.machine_id)) (λ g h. absurd (ground arith))
      (λ g.
        if-cases P
          (not (str_eq a.owner_id session.owner_id)
            || not (str_eq a.status "complete")
            || str_eq a.storage_key ""
            || ltb max_result_page_bytes a.size_bytes
            || leb (a.expires_at * second) now)
          (λ g' h. absurd (ground arith))
          (λ g'.
            if-cases P
              (ltb max_result_bytes
                (page_bytes db.artifacts session.owner_id id db.pages + a.size_bytes))
              (λ f h. absurd (ground arith))
              (λ f h.
                let room : page_bytes db.artifacts session.owner_id id db.pages + a.size_bytes
                    ≤ max_result_bytes =
                  ground arith in
                omega (arith, more, before, size, room))))
      e

with_result-ok :
    (db : Db) (session : Session) (a : Answer ResultRecord) (rest : Db × Answer ResultSummary)
    (s : ResultSummary) (Q : Db → Type 0)
    → (rest.1 ≡ ok s → Q rest.0)
    → (with_result db session a rest).1 ≡ ok s
    → Q (with_result db session a rest).0
unfolding with_result
with_result-ok db session (fail e) rest s Q h f = absurd (ground arith)
with_result-ok db session (ok r) rest s Q h k =
    if-cases (λ (x : Db × Answer ResultSummary). x.1 ≡ ok s → Q x.0)
      (not (str_eq r.machine_id session.machine_id)) (λ g f. absurd (ground arith)) (λ g f. h f) k

module _ (trim_space : String → String) (byte_length : String → ℕ) where
  -- After an answer with a result, while the pages and the artifacts stay as they are during the call,
  -- the pages of that result hold at most 100 MiB.
  pub pages_bounded :
      (meanwhile : Db → Db) (db : Db) (session : Session) (id : String) (page_no : ℕ)
      (artifact_id : String) (expected now : ℕ) (s : ResultSummary)
      → (meanwhile db).pages ≡ db.pages
      → (meanwhile db).artifacts ≡ db.artifacts
      → (attach_result_page trim_space byte_length meanwhile db session id page_no artifact_id
          expected now).1
        ≡ ok s
      → result_page_bytes
          (attach_result_page trim_space byte_length meanwhile db session id page_no artifact_id
            expected now).0
          session.owner_id
          id
        ≤ max_result_bytes
  unfolding attach_result_page
  pages_bounded meanwhile db session id page_no artifact_id expected now s p q e =
      let P : Db × Answer ResultSummary → Type 0 =
        λ x. x.1 ≡ ok s → result_page_bytes x.0 session.owner_id id ≤ max_result_bytes in
      let checked =
        attach_checked meanwhile db session id page_no artifact_id expected now
          (lookup artifact_id db.artifacts) in
      if-cases P
        (ltb 1000000 page_no
          || str_eq (trim_space id) ""
          || str_eq (trim_space artifact_id) ""
          || ltb expected 1)
        (λ g h. absurd (ground arith))
        (λ g.
          with_result-ok db session (get_result db session.owner_id id) checked s
            (λ d. result_page_bytes d session.owner_id id ≤ max_result_bytes)
            (λ h.
              attach_checked-bytes meanwhile db session id page_no artifact_id expected now
                (lookup artifact_id db.artifacts) s refl p q h))
        e
