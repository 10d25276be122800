-- ===== src/Tests/BackupTests.antt =====
-- A pruning at a concrete directory.
use fast_spider.Prelude.{ℕ, ◌≡◌, refl, true, false, [], ◌∷◌, some, ltb}
use fast_spider.Node.Jobs.Job.{Text}
use fast_spider.Backups.Order.{text_lt, precedes, insert_by, sort_by}
use fast_spider.Backups.Prune.{
  remove_failed, Look, Disk, opened_file, checked_path, look_at, dated, verified, inspect,
  cons_candidate, inspect_all, compare_facts, recheck, first_error, recheck_all, failure_result,
  stop_removing, remove_one, stop_or_go, stop_reason, remove_all, prune_sorted, prune_rechecked,
  prune_inspected, prune_entries, prune_release_backups,
}
use fast_spider.Backups.Pruned.{IsFair, prune_keeps_newest}

abbrev look : Look
look = record {
  path_regular = some true;
  reparse = some false;
  opened = some (record { is_regular = true; identity = 1; size = 2; mod_time = 3 });
}

abbrev head_byte : Text → ℕ
head_byte [] = 0
head_byte (c ∷ cs) = c

-- Three backups, made at the times that their names say; the oldest cannot be removed.
abbrev disk : Disk
disk = record {
  directory_ok = true;
  entries = some ((1 ∷ []) ∷ (3 ∷ []) ∷ (2 ∷ []) ∷ []);
  is_backup_name = λ name. true;
  inspection = λ name. record {
    is_cancelled = false;
    look = look;
    is_verified = true;
    created_at = some (head_byte name);
  };
  second_look = λ name. look;
  removal =
      λ name. record { is_cancelled = false; look = look; is_removed = ltb 1 (head_byte name) };
}

test_prune : prune_release_backups disk 1 true ≡ (
  record {
    candidate_count = 3;
    kept_count = 2;
    planned_count = 2;
    deleted_count = 1;
    applied = true;
    kept = (3 ∷ []) ∷ (1 ∷ []) ∷ [];
    planned = (2 ∷ []) ∷ (1 ∷ []) ∷ [];
    deleted = (2 ∷ []) ∷ [];
  },
  remove_failed ∷ [],
)
unfolding text_lt precedes insert_by sort_by opened_file checked_path look_at dated verified inspect
    cons_candidate inspect_all compare_facts recheck first_error recheck_all failure_result
    stop_removing remove_one stop_or_go stop_reason remove_all prune_sorted prune_rechecked
    prune_inspected prune_entries prune_release_backups
test_prune = refl

prune_keeps_newest_example : IsFair disk 1 true (prune_release_backups disk 1 true)
prune_keeps_newest_example = prune_keeps_newest disk 1 true
