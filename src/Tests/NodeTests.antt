-- ===== src/Tests/NodeTests.antt =====
-- The Node's jobs at concrete inputs.
use fast_spider.Prelude.{
  ℕ, ◌≡◌, ◌↔◌, refl, true, false, List, [], ◌∷◌, none, some, String, arith, eq_iff, length, map,
  drop, max,
}
use native.Mathlib.Nat.{le_refl}
use fast_spider.Node.Jobs.Job.{
  Text, Job, Writer, Ending, finish, set_stop_reason, snapshot_after, is_terminal_job_state,
}
use fast_spider.Node.Jobs.Spec.{pos, IsAcceptable, validate_shell_spec, accepts_exactly}
use fast_spider.Node.Jobs.Events.{IsBounded, IsWriter}
use fast_spider.Node.Jobs.Watch.{payload, append_all, watcher_sees_rest}
use fast_spider.Node.Jobs.Finish.{finish_ends, first_reason_decides}

abbrev pub stamp : ℕ → Text
stamp t = t ∷ []

-- A log file that takes everything.
abbrev pub full_write : Writer
full_write line = (length line, none)

full_write-IsWriter : IsWriter full_write
full_write-IsWriter line = le_refl (length line)

abbrev pub blank_job : Job
blank_job = record {
  id = "job_1";
  idempotency_key = "key-000000001";
  state = "running";
  exit_code = none;
  err_text = [];
  received_at = 1;
  started_at = 2;
  finished_at = 0;
  events = [];
  event_bytes = 0;
  next_sequence = 0;
  truncated_before = 0;
  notify = 0;
  stop = none;
  stop_reason = "";
  log_path = "";
  log_file = true;
  log_bytes = 0;
  log_truncated = false;
  log_err = none;
}

blank_job-IsBounded : IsBounded blank_job
blank_job-IsBounded = record {
  numbered = refl;
  counted = refl;
  few = omega arith;
  small = omega arith;
  log_small = omega arith;
}

abbrev output : List (Text × Text × ℕ)
output = (1 ∷ [], 65 ∷ 66 ∷ [], 3) ∷ (1 ∷ [], 67 ∷ [], 4) ∷ (2 ∷ [], 68 ∷ [], 5) ∷ []

watcher_sees_rest_example :
    (j' : Job) × (append_all stamp full_write full_write-IsWriter output blank_job ≡ some j')
    × IsBounded j'
    × (j'.next_sequence ≡ length output)
    × (map payload (snapshot_after 1 j').0.events
        ≡ drop (max 1 j'.truncated_before) (map (λ p. (p.0, p.1)) output))
watcher_sees_rest_example =
    watcher_sees_rest stamp full_write full_write-IsWriter blank_job output 1
      (record { bounded = blank_job-IsBounded; total = refl; newest = refl })

abbrev crash : Ending
crash = record { wait_err = some (9 ∷ []); exit = some "1"; now = 8; synced = none; closed = none }

abbrev pub no_codes : String → Text
no_codes s = []

finish_ends_example :
    (j' : Job) × (finish stamp full_write no_codes crash blank_job ≡ some j')
    × IsBounded j'
    × (is_terminal_job_state j'.state ≡ true)
    × ((crash.wait_err ≡ none) ↔ (j'.state ≡ "completed"))
    × (j'.log_file ≡ false)
    × (j'.finished_at ≡ 8)
    × (j'.next_sequence ≡ 1)
finish_ends_example =
    finish_ends stamp full_write no_codes crash blank_job full_write-IsWriter blank_job-IsBounded

test_first_reason :
    finish stamp full_write no_codes crash
      (set_stop_reason "timeout" (set_stop_reason "user" blank_job))
    ≡ finish stamp full_write no_codes crash (record blank_job { stop_reason = "user" })
test_first_reason =
    first_reason_decides stamp full_write no_codes crash blank_job "user" "timeout" refl
      (λ e. ground (arith, eq_iff "user" ""))

-- One argument of two bytes, no timeout, a key of 13 bytes.
accepts_exactly_example :
    (validate_shell_spec ((108 ∷ 115 ∷ []) ∷ []) (pos 0) 13 ≡ none)
    ↔ IsAcceptable ((108 ∷ 115 ∷ []) ∷ []) (pos 0) 13
accepts_exactly_example = accepts_exactly ((108 ∷ 115 ∷ []) ∷ []) (pos 0) 13
