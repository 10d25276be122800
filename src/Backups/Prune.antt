-- ===== src/Backups/Prune.antt =====
-- One pruning (internal/opsbackup/prune.go: pruneReleaseBackups, recheckReleaseBackupCandidate,
-- inspectReleaseBackupCandidate). It runs under the directory's lock. What the file system, the
-- context and the check of an archive answer about a name are arguments, and so is whether a name
-- matches the pattern of a backup's name.
use fast_spider.Prelude.{
  ℕ, ◌+◌, Bool, true, false, not, ◌||◌, List, [], ◌∷◌, ◌++◌, Option, none, some, ◌⊎◌, inl, inr,
  if◌then◌else◌, ltb, ◌==◌, length, take, drop, map, keep_if,
}
use fast_spider.Node.Jobs.Job.{Text}
use fast_spider.Backups.Order.{FileFacts, Candidate, text_lt, precedes, sort_by}

abbrev pub max_release_backup_keep : ℕ
max_release_backup_keep = 100

abbrev pub max_release_backup_candidates : ℕ
max_release_backup_candidates = 256

pub data PruneError : Type 0 where
  keep_out_of_range bad_directory too_many cancelled file_failed not_a_file : PruneError
  not_verified bad_time changed_meanwhile remove_failed : PruneError

pub record PruneResult : Type 0 where
  pub candidate_count : ℕ
  pub kept_count : ℕ
  pub planned_count : ℕ
  pub deleted_count : ℕ
  pub applied : Bool
  pub kept : List Text
  pub planned : List Text
  pub deleted : List Text

-- What a look at a path finds: Lstat's mode, whether it is a reparse point, and the opened file;
-- `none` is an error.
pub record Look : Type 0 where
  pub path_regular : Option Bool
  pub reparse : Option Bool
  pub opened : Option FileFacts

-- What the first pass over the candidates finds.
pub record Inspection : Type 0 where
  pub is_cancelled : Bool
  pub look : Look
  pub is_verified : Bool
  pub created_at : Option ℕ

-- What the removal of a candidate finds.
pub record Removal : Type 0 where
  pub is_cancelled : Bool
  pub look : Look
  pub is_removed : Bool

-- The names in the directory and what is found there; `directory_ok` is whether its checks pass.
pub record Disk : Type 0 where
  pub directory_ok : Bool
  pub entries : Option (List Text)
  pub is_backup_name : Text → Bool
  pub inspection : Text → Inspection
  pub second_look : Text → Look
  pub removal : Text → Removal

unfoldable pub opened_file : Option FileFacts → PruneError ⊎ FileFacts
opened_file none = inl file_failed
opened_file (some facts) = if not facts.is_regular then inl not_a_file else inr facts

unfoldable pub checked_path : Bool → Option Bool → Option FileFacts → PruneError ⊎ FileFacts
unfolding opened_file
checked_path regular none opened = inl file_failed
checked_path regular (some reparse) opened =
    if reparse || not regular then inl not_a_file else opened_file opened

-- The checks that both passes share.
unfoldable pub look_at : Option Bool → Look → PruneError ⊎ FileFacts
unfolding checked_path
look_at none look = inl file_failed
look_at (some regular) look = checked_path regular look.reparse look.opened

unfoldable pub dated : Text → FileFacts → Option ℕ → PruneError ⊎ Candidate
dated name facts none = inl bad_time
dated name facts (some created_at) =
    inr (record { name = name; facts = facts; created_at = created_at })

unfoldable pub verified : Text → Inspection → PruneError ⊎ FileFacts → PruneError ⊎ Candidate
unfolding dated
verified name found (inl fault) = inl fault
verified name found (inr facts) =
    if not found.is_verified then inl not_verified else dated name facts found.created_at

unfoldable pub inspect : Text → Inspection → PruneError ⊎ Candidate
unfolding look_at verified
inspect name found =
    if found.is_cancelled
    then inl cancelled
    else verified name found (look_at found.look.path_regular found.look)

unfoldable pub cons_candidate :
    PruneError ⊎ Candidate → PruneError ⊎ List Candidate → PruneError ⊎ List Candidate
cons_candidate (inl fault) rest = inl fault
cons_candidate (inr candidate) (inl fault) = inl fault
cons_candidate (inr candidate) (inr candidates) = inr (candidate ∷ candidates)

-- The first pass; the first error ends it.
unfoldable pub inspect_all : (Text → Inspection) → List Text → PruneError ⊎ List Candidate
unfolding inspect cons_candidate
inspect_all inspection [] = inr []
inspect_all inspection (name ∷ names) =
    cons_candidate (inspect name (inspection name)) (inspect_all inspection names)

unfoldable pub compare_facts : FileFacts → PruneError ⊎ FileFacts → Option PruneError
compare_facts old (inl fault) = some fault
compare_facts old (inr new) =
    if not (old.identity == new.identity)
      || not (old.size == new.size)
      || not (old.mod_time == new.mod_time)
    then some changed_meanwhile
    else none

-- `none` is no error.
unfoldable pub recheck : Candidate → Look → Option PruneError
unfolding look_at compare_facts
recheck candidate look = compare_facts candidate.facts (look_at look.path_regular look)

unfoldable pub first_error : Option PruneError → Option PruneError → Option PruneError
first_error none rest = rest
first_error (some fault) rest = some fault

unfoldable pub recheck_all : (Text → Look) → List Candidate → Option PruneError
unfolding recheck first_error
recheck_all look [] = none
recheck_all look (candidate ∷ candidates) =
    first_error (recheck candidate (look candidate.name)) (recheck_all look candidates)

abbrev pub names_of : List Candidate → List Text
names_of candidates = map (λ (c : Candidate). c.name) candidates

-- A pruning's answer: its result and its errors, of which there are none where it succeeds.
abbrev pub Answer : Type 0
Answer = PruneResult × List PruneError

unfoldable pub failure_result : Bool → List Text → PruneResult
unfolding sort_by text_lt
failure_result apply names = record {
  candidate_count = length names;
  kept_count = length names;
  planned_count = 0;
  deleted_count = 0;
  applied = apply;
  kept = sort_by text_lt names;
  planned = [];
  deleted = [];
}

-- The lists that the removals build: kept, deleted, errors.
pub record Progress : Type 0 where
  pub kept : List Text
  pub deleted : List Text
  pub errors : List PruneError

-- The rest of the planned candidates stays.
unfoldable pub stop_removing : Progress → PruneError → List Candidate → Progress
stop_removing so_far fault rest = record so_far {
  kept = so_far.kept ++ names_of rest;
  errors = so_far.errors ++ fault ∷ [];
}

unfoldable pub remove_one : Progress → Text → Bool → Progress
remove_one so_far name true = record so_far { deleted = so_far.deleted ++ name ∷ [] }
remove_one so_far name false = record so_far {
  kept = so_far.kept ++ name ∷ [];
  errors = so_far.errors ++ remove_failed ∷ [];
}

unfoldable pub stop_or_go : Option PruneError → Progress → List Candidate → Progress → Progress
unfolding stop_removing
stop_or_go none so_far rest next = next
stop_or_go (some fault) so_far rest next = stop_removing so_far fault rest

-- What ends the loop before a candidate is removed.
unfoldable pub stop_reason : Candidate → Removal → Option PruneError
unfolding recheck
stop_reason candidate found =
    if found.is_cancelled then some cancelled else recheck candidate found.look

-- The loop over the planned candidates.
unfoldable pub remove_all : (Text → Removal) → Progress → List Candidate → Progress
unfolding stop_or_go stop_reason remove_one
remove_all removal so_far [] = so_far
remove_all removal so_far (candidate ∷ rest) =
    let found : Removal = removal candidate.name in
    stop_or_go (stop_reason candidate found) so_far (candidate ∷ rest)
      (remove_all removal (remove_one so_far candidate.name found.is_removed) rest)

-- From the sort on.
unfoldable pub prune_sorted : Disk → ℕ → Bool → List Candidate → Answer
unfolding remove_all
prune_sorted disk keep apply candidates =
    let kept : List Text = names_of (take keep candidates) in
    let planned : List Candidate = drop keep candidates in
    let begun : Progress = record { kept = kept; deleted = []; errors = [] } in
    let done : Progress = if apply then remove_all disk.removal begun planned else begun in
    (
      record {
        candidate_count = length candidates;
        kept_count = length done.kept;
        planned_count = length planned;
        deleted_count = length done.deleted;
        applied = apply;
        kept = done.kept;
        planned = names_of planned;
        deleted = done.deleted;
      },
      done.errors,
    )

unfoldable pub prune_rechecked :
    Disk → ℕ → Bool → List Text → List Candidate → Option PruneError → Answer
unfolding failure_result sort_by precedes prune_sorted
prune_rechecked disk keep apply names candidates (some fault) =
    (failure_result apply names, fault ∷ [])
prune_rechecked disk keep apply names candidates none =
    prune_sorted disk keep apply (sort_by precedes candidates)

unfoldable pub prune_inspected : Disk → ℕ → Bool → List Text → PruneError ⊎ List Candidate → Answer
unfolding failure_result recheck_all prune_rechecked
prune_inspected disk keep apply names (inl fault) = (failure_result apply names, fault ∷ [])
prune_inspected disk keep apply names (inr candidates) =
    prune_rechecked disk keep apply names candidates (recheck_all disk.second_look candidates)

-- No list has a name.
abbrev pub empty_result : ℕ → Bool → PruneResult
empty_result count apply = record {
  candidate_count = count;
  kept_count = 0;
  planned_count = 0;
  deleted_count = 0;
  applied = apply;
  kept = [];
  planned = [];
  deleted = [];
}

-- The count is one more than the limit where the listing stops.
unfoldable pub prune_entries : Disk → ℕ → Bool → Option (List Text) → Answer
unfolding inspect_all prune_inspected
prune_entries disk keep apply none = (empty_result 0 false, file_failed ∷ [])
prune_entries disk keep apply (some entries) =
    let names : List Text = keep_if disk.is_backup_name entries in
    if ltb max_release_backup_candidates (length names)
    then (empty_result (max_release_backup_candidates + 1) apply, too_many ∷ [])
    else if length names == 0
    then (empty_result 0 apply, [])
    else prune_inspected disk keep apply names (inspect_all disk.inspection names)

unfoldable pub prune_release_backups : Disk → ℕ → Bool → Answer
unfolding prune_entries
prune_release_backups disk keep apply =
    if ltb keep 1 || ltb max_release_backup_keep keep
    then (empty_result 0 false, keep_out_of_range ∷ [])
    else if not disk.directory_ok
    then (empty_result 0 false, bad_directory ∷ [])
    else prune_entries disk keep apply disk.entries
