-- ===== src/Node/Jobs/Manager/Stopping.antt =====
-- How jobs are changed, cancelled and read through the manager (internal/node/jobs.go: Cancel,
-- CancelAll, JobLog).
use fast_spider.Prelude.{
  ℕ, Bool, true, ◌||◌, not, [], ◌∷◌, Option, none, some, String, Map, if◌then◌else◌, str_eq, lookup,
  insert, is_some,
}
use fast_spider.Node.Jobs.Job.{Job, request_stop, is_terminal_job_state}
use fast_spider.Node.Jobs.Manager.Tables.{Reservation, JobManager}

-- A change of one job through its pointer; `none` is a panic.
unfoldable pub update_job : (Job → Option Job) → String → JobManager → JobManager
update_job f id m = elim (lookup id m.jobs) [
  | none ↦ m
  | some j ↦ elim (f j) [ none ↦ m | some j' ↦ record m { jobs = insert id j' m.jobs } ]
]

-- The request to stop that `Cancel` and `CancelAll` send to a job that has not ended.
unfoldable pub ask_to_stop : String → Job → Job
unfolding request_stop
ask_to_stop reason j = if is_terminal_job_state j.state then j else request_stop reason j

unfoldable pub stop_all : Map Job → Map Job
unfolding ask_to_stop
stop_all [] = []
stop_all ((id, j) ∷ jobs) = (id, ask_to_stop "shutdown" j) ∷ stop_all jobs

unfoldable pub cancel_starting : Map Reservation → Map Reservation
cancel_starting [] = []
cancel_starting ((key, r) ∷ starting) =
    (key, record r { cancelled = true }) ∷ cancel_starting starting

-- The three parts of `CancelAll` before its waits: it closes the manager, then cancels the starts
-- that it met and asks the jobs to stop.
unfoldable pub close_manager : JobManager → JobManager
close_manager m = record m { closed = true }

unfoldable pub cancel_starts : JobManager → JobManager
unfolding cancel_starting
cancel_starts m = record m { starting = cancel_starting m.starting }

unfoldable pub stop_jobs : JobManager → JobManager
unfolding stop_all
stop_jobs m = record m { jobs = stop_all m.jobs }

pub data LogAnswer : Type 0 where
  no_job not_complete : LogAnswer
  unavailable : Bool → LogAnswer
  available : String → ℕ → Bool → LogAnswer

unfoldable pub log_of : Option Job → LogAnswer
log_of none = no_job
log_of (some j) =
    if not (is_terminal_job_state j.state)
    then not_complete
    else if str_eq j.log_path "" || is_some j.log_err
    then unavailable j.log_truncated
    else available j.log_path j.log_bytes j.log_truncated

unfoldable pub job_log : JobManager → String → LogAnswer
unfolding log_of
job_log m id = log_of (lookup id m.jobs)
