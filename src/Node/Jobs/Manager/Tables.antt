-- ===== src/Node/Jobs/Manager/Tables.antt =====
-- The tables of the job manager (internal/node/jobs.go, type JobManager) and what it forgets. A
-- reservation is a pointer, told apart by `number`; its channel `done` is closed when it leaves
-- `starting`. `semaphore` is the number of taken slots. What the store answered is an argument.
use fast_spider.Prelude.{
  ℕ, ◌+◌, Bool, false, ◌&&◌, ◌||◌, not, List, [], ◌∷◌, ◌++◌, Option, none, some, String, Map,
  if◌then◌else◌, ltb, leb, ◌==◌, length, lookup, delete,
}
use fast_spider.Node.Jobs.Job.{Text, Job, is_terminal_job_state}

abbrev pub max_concurrent_jobs : ℕ
max_concurrent_jobs = 16

abbrev pub max_retained_jobs : ℕ
max_retained_jobs = 128

-- 24 hours in nanoseconds
abbrev pub job_retention : ℕ
job_retention = 86400000000000

pub record IdempotencyRecord : Type 0 where
  pub job_id : String
  pub spec_hash : String

-- `cancelled` is whether its context was cancelled.
pub record Reservation : Type 0 where
  pub number : ℕ
  pub spec_hash : String
  pub cancelled : Bool

pub record JobManager : Type 0 where
  pub jobs : Map Job
  pub order : List String
  pub idempotency : Map IdempotencyRecord
  pub starting : Map Reservation
  pub semaphore : ℕ
  pub store_err : Option Text
  pub closed : Bool

-- `NewJobManager` without a data directory.
unfoldable pub new_job_manager : JobManager
new_job_manager = record {
  jobs = [];
  order = [];
  idempotency = [];
  starting = [];
  semaphore = 0;
  store_err = none;
  closed = false;
}

unfoldable pub note_persist : Option Text → JobManager → JobManager
note_persist none m = m
note_persist (some e) m = record m { store_err = some e }

-- `expired`, with the retention added to the other side.
unfoldable pub is_expired : ℕ → Job → Bool
is_expired now j = not (j.finished_at == 0) && ltb (j.finished_at + job_retention) now

-- One round of the loop of `cleanupLocked`; `order` holds the identifiers kept so far.
unfoldable pub cleanup_step : ℕ → JobManager → String → Option Job → JobManager
unfolding is_expired
cleanup_step now m id none = m
cleanup_step now m id (some j) =
    if is_terminal_job_state j.state && (is_expired now j || leb max_retained_jobs (length m.jobs))
    then record m { jobs = delete id m.jobs; idempotency = delete j.idempotency_key m.idempotency }
    else record m { order = m.order ++ id ∷ [] }

unfoldable pub cleanup_steps : ℕ → List String → JobManager → JobManager
unfolding cleanup_step
cleanup_steps now [] m = m
cleanup_steps now (id ∷ ids) m = cleanup_steps now ids (cleanup_step now m id (lookup id m.jobs))

unfoldable pub cleanup_locked : ℕ → Option Text → JobManager → JobManager
unfolding cleanup_steps note_persist
cleanup_locked now persisted m =
    note_persist persisted (cleanup_steps now m.order (record m { order = [] }))
