-- ===== src/Tests/ManagerTests.antt =====
-- The Node's job manager at concrete inputs.
use fast_spider.Prelude.{
  ℕ, ◌+◌, ◌≤◌, ◌≡◌, refl, true, false, List, [], ◌∷◌, none, some, length, get_elem?, lookup, insert,
  if◌then◌else◌, str_eq, inl,
}
use fast_spider.Node.Jobs.Job.{is_terminal_job_state, snapshot_after}
use fast_spider.Node.Jobs.Manager.Tables.{
  JobManager, new_job_manager, cleanup_locked, cleanup_steps, note_persist, max_concurrent_jobs,
  max_retained_jobs,
}
use fast_spider.Node.Jobs.Manager.Starting.{
  Launch, refused, replayed, conflict, admit, admit_at, reserve, commit, enter_job, owns,
  is_cancelled,
}
use fast_spider.Node.Jobs.Manager.System.{
  preparing, Starter, System, Event, asks, fails, releases, commits, new_system, asked, step, run,
}
use fast_spider.Node.Jobs.Manager.Slots.{releasing_count}
use fast_spider.Node.Jobs.Manager.Limits.{slots_and_places, one_start_per_key}
use fast_spider.Node.Jobs.Manager.Cleanup.{cleanup_keeps, committed_key_replays}
use fast_spider.Node.Jobs.Manager.Closed.{closed_starts_nothing}
use fast_spider.Tests.NodeTests.{stamp, full_write, no_codes, blank_job}

abbrev launch : Launch
launch = record {
  job_id = "job_1";
  context_ended = false;
  recorded = none;
  started = none;
  stored = none;
  received_at = 4;
  now = 5;
  log_path = "";
  log_file = false;
}

-- Two requests; the first one starts its process and the second one fails.
abbrev morning : List Event
morning =
    asks "key-000000001" "aa" 3 none
    ∷ asks "key-000000002" "bb" 3 none
    ∷ commits 0 launch
    ∷ fails 1
    ∷ releases 1
    ∷ []

slots_and_places_example :
    ((run stamp full_write no_codes new_system morning).manager.semaphore
      ≡ length (run stamp full_write no_codes new_system morning).manager.starting
        + length (run stamp full_write no_codes new_system morning).runners
        + releasing_count (run stamp full_write no_codes new_system morning).starters)
    × ((run stamp full_write no_codes new_system morning).manager.semaphore ≤ max_concurrent_jobs)
    × (length (run stamp full_write no_codes new_system morning).manager.jobs
          + length (run stamp full_write no_codes new_system morning).manager.starting
        ≤ max_retained_jobs)
slots_and_places_example = slots_and_places stamp full_write no_codes morning

abbrev first_start : Starter
first_start = record { key = "key-000000001"; spec_hash = "aa"; phase = preparing }

-- The same key twice: only the first request is a start.
abbrev twice : List Event
twice = asks "key-000000001" "aa" 3 none ∷ asks "key-000000001" "aa" 3 none ∷ []

twice-start :
    get_elem? (run stamp full_write no_codes new_system twice).starters 0 ≡ some first_start
unfolding run step new_system new_job_manager asked admit admit_at reserve cleanup_locked
    cleanup_steps note_persist insert lookup
twice-start = refl

one_start_per_key_example : ◌≡◌ {A = ℕ} 0 0
one_start_per_key_example =
    one_start_per_key stamp full_write no_codes twice 0 0 first_start first_start twice-start
      twice-start refl refl refl

abbrev with_job : JobManager
with_job = record {
  jobs = ("job_1", blank_job) ∷ [];
  order = "job_1" ∷ [];
  idempotency = [];
  starting = [];
  semaphore = 1;
  store_err = none;
  closed = false;
}

with_job-runs : lookup "job_1" with_job.jobs ≡ some blank_job
unfolding lookup
with_job-runs = refl

-- The job runs.
blank_job-stays : is_terminal_job_state blank_job.state ≡ false
unfolding is_terminal_job_state
blank_job-stays = refl

cleanup_keeps_example :
    lookup "job_1" (cleanup_locked 900000000000000 none with_job).jobs ≡ some blank_job
cleanup_keeps_example =
    cleanup_keeps 900000000000000 none with_job "job_1" blank_job with_job-runs
      (inl blank_job-stays)

abbrev about_to_start : JobManager
about_to_start = record {
  jobs = [];
  order = [];
  idempotency = [];
  starting = ("key-000000001", record { number = 0; spec_hash = "aa"; cancelled = false }) ∷ [];
  semaphore = 1;
  store_err = none;
  closed = false;
}

about_to_start-succeeds : (commit "key-000000001" "aa" 0 launch blank_job about_to_start).1 ≡ none
unfolding commit lookup owns is_cancelled enter_job
about_to_start-succeeds = refl

committed_key_replays_example :
    admit 9 none "key-000000001" "bb" 1
      (commit "key-000000001" "aa" 0 launch blank_job about_to_start).0
    ≡ (
      (commit "key-000000001" "aa" 0 launch blank_job about_to_start).0,
      if str_eq "aa" "bb"
          then replayed (record ((snapshot_after 0 blank_job).0) { events = [] })
          else refused conflict,
    )
committed_key_replays_example =
    committed_key_replays "key-000000001" "aa" "bb" 0 1 9 none launch blank_job about_to_start
      about_to_start-succeeds refl

abbrev shut_down : System
shut_down = record {
  manager = record about_to_start { closed = true };
  starters = first_start ∷ [];
  runners = [];
}

shut_down-empty : lookup "job_1" shut_down.manager.jobs ≡ none
unfolding lookup
shut_down-empty = refl

closed_starts_nothing_example :
    ((run stamp full_write no_codes shut_down morning).manager.closed ≡ true)
    × (length (run stamp full_write no_codes shut_down morning).starters ≡ 1)
    × (lookup "job_1" (run stamp full_write no_codes shut_down morning).manager.jobs ≡ none)
closed_starts_nothing_example =
    closed_starts_nothing stamp full_write no_codes shut_down morning "job_1" refl shut_down-empty
