-- ===== src/Node/Jobs/Manager/Starting.antt =====
-- How a request starts a process (internal/node/jobs.go, StartExecution). Each function that takes
-- the manager is one critical section of its mutex.
use fast_spider.Prelude.{
  ℕ, suc, ◌+◌, ◌-◌, Bool, false, ◌||◌, not, [], ◌∷◌, ◌++◌, Option, none, some, String,
  if◌then◌else◌, leb, ◌==◌, str_eq, length, take, lookup, insert, delete, is_some,
}
use fast_spider.Node.Jobs.Job.{Text, Writer, Job, JobSnapshot, append_event, snapshot_after}
use fast_spider.Node.Jobs.Manager.Tables.{
  max_concurrent_jobs, max_retained_jobs, IdempotencyRecord, Reservation, JobManager, note_persist,
  cleanup_locked,
}

pub data Refusal : Type 0 where
  manager_closed persistence conflict job_not_found job_limit context_ended start_failed : Refusal

-- What a request meets: an error, the job of an earlier request, a request that is being started, or
-- a reservation of its own.
pub data Admission : Type 0 where
  refused : Refusal → Admission
  replayed : JobSnapshot → Admission
  waits : ℕ → Admission
  reserved : Admission

unfoldable pub replay_job : Option Job → Admission
unfolding snapshot_after
replay_job none = refused job_not_found
replay_job (some j) = replayed (record ((snapshot_after 0 j).0) { events = [] })

unfoldable pub reserve : String → String → ℕ → JobManager → JobManager × Admission
reserve key hash number m =
    if is_some m.store_err
    then (m, refused persistence)
    else if leb max_retained_jobs (length m.jobs + length m.starting)
        || leb max_concurrent_jobs m.semaphore
    then (m, refused job_limit)
    else (
      record m {
        starting =
            insert key (record { number = number; spec_hash = hash; cancelled = false }) m.starting;
        semaphore = suc m.semaphore;
      },
      reserved,
    )

-- The head of `StartExecution`: the record of the key, then a pending start of the key, then a new
-- reservation with the given number, after a cleanup.
unfoldable pub admit_at :
    ℕ
    → Option Text
    → String
    → String
    → ℕ
    → JobManager
    → Option IdempotencyRecord
    → Option Reservation
    → JobManager × Admission
unfolding replay_job reserve
admit_at now persisted key hash number m (some previous) pending = (
  m,
  if str_eq previous.spec_hash hash
      then replay_job (lookup previous.job_id m.jobs)
      else refused conflict,
)
admit_at now persisted key hash number m none (some r) =
    (m, if str_eq r.spec_hash hash then waits r.number else refused conflict)
admit_at now persisted key hash number m none none =
    reserve key hash number (cleanup_locked now persisted m)

unfoldable pub admit : ℕ → Option Text → String → String → ℕ → JobManager → JobManager × Admission
unfolding admit_at
admit now persisted key hash number m =
    if m.closed
    then (m, refused manager_closed)
    else if is_some m.store_err
    then (m, refused persistence)
    else admit_at now persisted key hash number m (lookup key m.idempotency) (lookup key m.starting)

-- `m.starting[idempotencyKey] == reservation`
unfoldable pub owns : ℕ → Option Reservation → Bool
owns number none = false
owns number (some r) = r.number == number

-- The critical section of the deferred function of a start that was not committed.
unfoldable pub release : String → ℕ → JobManager → JobManager
unfolding owns
release key number m = record m {
  starting = if owns number (lookup key m.starting) then delete key m.starting else m.starting;
}

-- `<-m.semaphore`, outside the mutex
unfoldable pub give_slot : JobManager → JobManager
give_slot m = record m { semaphore = m.semaphore - 1 }

-- What a start finds outside: the identifier it drew, whether the caller's context has ended, and
-- the answers of the store, of the process and of the store again.
pub record Launch : Type 0 where
  pub job_id : String
  pub context_ended : Bool
  pub recorded : Option Text
  pub started : Option Text
  pub stored : Option Text
  pub received_at : ℕ
  pub now : ℕ
  pub log_path : String
  pub log_file : Bool

-- The new job with its first event.
unfoldable pub start_job : (ℕ → Text) → Writer → (String → Text) → String → Launch → Option Job
unfolding append_event
start_job format_time write codes key launch =
    append_event format_time write (codes "started") (codes "process started") launch.now (record {
      id = launch.job_id;
      idempotency_key = key;
      state = "running";
      exit_code = none;
      err_text = [];
      received_at = launch.received_at;
      started_at = launch.now;
      finished_at = 0;
      events = [];
      event_bytes = 0;
      next_sequence = 0;
      truncated_before = 0;
      notify = 0;
      stop = none;
      stop_reason = "";
      log_path = launch.log_path;
      log_file = launch.log_file;
      log_bytes = 0;
      log_truncated = false;
      log_err = none;
    })

-- The job enters the tables; if the store fails it is taken out again.
unfoldable pub enter_job : String → String → Launch → Job → JobManager → JobManager × Option Refusal
enter_job key hash launch j m =
    let id = launch.job_id in
    let jobs = insert id j m.jobs in
    let order = m.order ++ id ∷ [] in
    let idempotency = insert key (record { job_id = id; spec_hash = hash }) m.idempotency in
    if is_some launch.stored
    then (
      record m {
        jobs = delete id jobs;
        order = take (length order - 1) order;
        idempotency = delete key idempotency;
        store_err = launch.stored;
      },
      some persistence,
    )
    else (
      record m {
        jobs = jobs;
        order = order;
        idempotency = idempotency;
        starting = delete key m.starting;
      },
      none,
    )

unfoldable pub is_cancelled : Option Reservation → Bool
is_cancelled none = false
is_cancelled (some r) = r.cancelled

-- The second critical section of `StartExecution`, with the job that a started process gets.
unfoldable pub commit :
    String → String → ℕ → Launch → Job → JobManager → JobManager × Option Refusal
unfolding owns is_cancelled enter_job note_persist
commit key hash number launch j m =
    if m.closed || not (owns number (lookup key m.starting))
    then (m, some manager_closed)
    else if is_cancelled (lookup key m.starting) || launch.context_ended
    then (m, some context_ended)
    else if is_some launch.recorded
    then (record m { store_err = launch.recorded }, some persistence)
    else if is_some launch.started
    then (note_persist launch.stored m, some start_failed)
    else enter_job key hash launch j m
