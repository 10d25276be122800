-- ===== src/Node/Jobs/Job.antt =====
-- One job (internal/node/jobs.go, type Job): its event log, its end and what a watcher sees. Texts
-- are lists of bytes; a time is a number of nanoseconds, 0 for Go's zero time; `format_time` is
-- `Format(time.RFC3339Nano)`. The log file is outside: what a write of it answers is an argument.
use fast_spider.Prelude.{
  ℕ, suc, ◌+◌, ◌-◌, Bool, true, false, ◌&&◌, ◌||◌, not, List, [], ◌∷◌, ◌++◌, Option, none, some,
  String, if◌then◌else◌, ltb, leb, ◌==◌, str_eq, one_of, length, take, keep_if, is_some,
}

abbrev pub Text : Type 0
Text = List ℕ

abbrev pub max_job_events : ℕ
max_job_events = 1024

-- 96 << 10
abbrev pub max_job_event_bytes : ℕ
max_job_event_bytes = 98304

-- 10 << 20
abbrev pub max_job_log_bytes : ℕ
max_job_log_bytes = 10485760

pub record JobEvent : Type 0 where
  pub sequence : ℕ
  pub kind : Text
  pub text : Text
  pub timestamp : ℕ

-- The fields that change. `notify` numbers the channel on which watchers wait: closing it and making
-- a new one is the next number, and a watcher of a smaller number is awake. `stop` is a channel of
-- capacity 1. `log_file` is whether the file is open. `exit_code` is the process's code as text.
pub record Job : Type 0 where
  pub id : String
  pub idempotency_key : String
  pub state : String
  pub exit_code : Option String
  pub err_text : Text
  pub received_at : ℕ
  pub started_at : ℕ
  pub finished_at : ℕ
  pub events : List JobEvent
  pub event_bytes : ℕ
  pub next_sequence : ℕ
  pub truncated_before : ℕ
  pub notify : ℕ
  pub stop : Option String
  pub stop_reason : String
  pub log_path : String
  pub log_file : Bool
  pub log_bytes : ℕ
  pub log_truncated : Bool
  pub log_err : Option Text

-- What the log file's `Write` answers: how much was written, and the error's text.
abbrev pub Writer : Type 0
Writer = Text → ℕ × Option Text

unfoldable pub log_line : (ℕ → Text) → JobEvent → Text
log_line format_time e = format_time e.timestamp ++ (9 ∷ (e.kind ++ (9 ∷ e.text)))

unfoldable pub write_line : Writer → Text → Bool → Job → Job
write_line write line cut j =
    let (n, failed) = write line in
    record j {
      log_truncated = cut;
      log_bytes = j.log_bytes + n;
      log_err = if is_some failed then failed else j.log_err;
    }

unfoldable pub write_log : Writer → Text → Job → Job
unfolding write_line
write_log write line j =
    if j.log_file && not j.log_truncated && not (is_some j.log_err)
    then (let remaining = max_job_log_bytes - j.log_bytes in
        if leb max_job_log_bytes j.log_bytes
        then record j { log_truncated = true }
        else if ltb remaining (length line)
        then write_line write (take remaining line) true j
        else write_line write line j.log_truncated j)
    else j

-- The loop that drops the oldest events; `none` is the panic of `j.events[0]` on an empty slice.
unfoldable pub drop_oldest : List JobEvent → ℕ → ℕ → Option (List JobEvent × ℕ × ℕ)
drop_oldest [] bytes truncated_before =
    if ltb max_job_events 0 || ltb max_job_event_bytes bytes
    then none
    else some ([], bytes, truncated_before)
drop_oldest (e ∷ es) bytes truncated_before =
    let rest = drop_oldest es (bytes - length e.text) e.sequence in
    if ltb max_job_events (length (e ∷ es)) || ltb max_job_event_bytes bytes
    then rest
    else some (e ∷ es, bytes, truncated_before)

unfoldable pub wake : Job → Option (List JobEvent × ℕ × ℕ) → Option Job
wake j none = none
wake j (some (events, bytes, truncated_before)) = some (record j {
  events = events;
  event_bytes = bytes;
  truncated_before = truncated_before;
  notify = suc j.notify;
})

-- `appendEventLocked`.
unfoldable pub append_event : (ℕ → Text) → Writer → Text → Text → ℕ → Job → Option Job
unfolding log_line write_log drop_oldest wake
append_event format_time write kind text now j =
    let event : JobEvent = record {
      sequence = suc j.next_sequence;
      kind = kind;
      text = text;
      timestamp = now;
    } in
    let j1 = record j {
      next_sequence = suc j.next_sequence;
      events = j.events ++ event ∷ [];
      event_bytes = j.event_bytes + length text;
    } in
    let j2 = write_log write (log_line format_time event) j1 in
    wake j2 (drop_oldest j2.events j2.event_bytes j2.truncated_before)

-- The first reason stays.
unfoldable pub set_stop_reason : String → Job → Job
set_stop_reason reason j = if str_eq j.stop_reason "" then record j { stop_reason = reason } else j

-- `select { case job.stop <- reason: default: }`
unfoldable pub request_stop : String → Job → Job
request_stop reason j = if is_some j.stop then j else record j { stop = some reason }

unfoldable pub is_terminal_job_state : String → Bool
is_terminal_job_state state =
    one_of state ("completed" ∷ "failed" ∷ "canceled" ∷ "expired" ∷ "interrupted" ∷ [])

-- The `switch` of `finish`: the state and the error text, from the reason for stopping and the
-- error of `Wait`.
unfoldable pub finish_state : String → Text → Text → Option Text → String × Text
finish_state reason revoked old none = ("completed", old)
finish_state reason revoked old (some wait_err) =
    if one_of reason ("user" ∷ "shutdown" ∷ [])
    then ("canceled", old)
    else if str_eq reason "permission_revoked"
    then ("canceled", revoked)
    else if str_eq reason "timeout"
    then ("expired", old)
    else ("failed", wait_err)

unfoldable pub or_log_err : Option Text → Option Text → Option Text
or_log_err none failed = failed
or_log_err (some e) failed = some e

-- `Sync` and `Close` of the log file, with what they answered.
unfoldable pub close_log : Option Text → Option Text → Job → Job
unfolding or_log_err
close_log synced closed j =
    if j.log_file
    then record j { log_err = or_log_err (or_log_err j.log_err synced) closed; log_file = false }
    else j

-- What the process and the files answer at the end of a job.
pub record Ending : Type 0 where
  pub wait_err : Option Text
  pub exit : Option String
  pub now : ℕ
  pub synced : Option Text
  pub closed : Option Text

unfoldable pub option_map_job : (Job → Job) → Option Job → Option Job
option_map_job f none = none
option_map_job f (some j) = some (f j)

-- `codes` gives the bytes of a literal text.
unfoldable pub finish : (ℕ → Text) → Writer → (String → Text) → Ending → Job → Option Job
unfolding finish_state close_log option_map_job
finish format_time write codes ending j =
    let (state, err_text) =
      finish_state j.stop_reason (codes "operation permission revoked") j.err_text
        ending.wait_err in
    let j1 = record j {
      exit_code = if is_some ending.exit then ending.exit else j.exit_code;
      finished_at = ending.now;
      state = state;
      err_text = err_text;
    } in
    option_map_job (close_log ending.synced ending.closed)
      (append_event format_time write (codes state) err_text ending.now j1)

-- The part of a snapshot that depends on the event log and on the end.
pub record JobSnapshot : Type 0 where
  pub job_id : String
  pub state : String
  pub exit_code : Option String
  pub error : Text
  pub events : List JobEvent
  pub next_cursor : ℕ
  pub truncated_before : ℕ
  pub started_at : ℕ
  pub finished_at : Option ℕ

unfoldable pub snapshot_after : ℕ → Job → JobSnapshot × ℕ
snapshot_after cursor j = (
  record {
    job_id = j.id;
    state = j.state;
    exit_code = j.exit_code;
    error = j.err_text;
    events = keep_if (λ e. ltb cursor e.sequence) j.events;
    next_cursor = j.next_sequence;
    truncated_before = j.truncated_before;
    started_at = j.started_at;
    finished_at = if j.finished_at == 0 then none else some j.finished_at;
  },
  j.notify,
)
