-- ===== src/Node/Jobs/Events.antt =====
-- The bounded event log of a job: numbering, limits, and what a watcher with a cursor gets.
use fast_spider.Prelude.{
  ℕ, suc, ◌+◌, ◌-◌, ◌≡◌, ◌≤◌, refl, ap, List, [], ◌∷◌, ◌++◌, some, ltb, length, take, length-take,
  arith, inl, inr, Bool-cases, ◌||◌,
}
use fast_spider.Node.Jobs.Job.{
  Text, Job, JobEvent, Writer, max_job_events, max_job_event_bytes, max_job_log_bytes, write_log,
  drop_oldest,
}

-- The events are numbered one by one, after `from` and up to `to`.
abbrev pub Numbered : ℕ → List JobEvent → ℕ → Type 0
Numbered from [] to = from ≡ to
Numbered from (e ∷ es) to = (e.sequence ≡ suc from) × Numbered (suc from) es to

abbrev pub text_bytes : List JobEvent → ℕ
text_bytes [] = 0
text_bytes (e ∷ es) = length e.text + text_bytes es

pub record IsBounded (j : Job) : Type 0 where
  pub numbered : Numbered j.truncated_before j.events j.next_sequence
  pub counted : j.event_bytes ≡ text_bytes j.events
  pub few : length j.events ≤ max_job_events
  pub small : j.event_bytes ≤ max_job_event_bytes
  pub log_small : j.log_bytes ≤ max_job_log_bytes

pub text_bytes-append :
    (es fs : List JobEvent) → text_bytes (es ++ fs) ≡ text_bytes es + text_bytes fs
text_bytes-append [] fs = omega arith
text_bytes-append (e ∷ es) fs = omega (arith, text_bytes-append es fs)

pub Numbered-append :
    (from to : ℕ) (es : List JobEvent) (e : JobEvent)
    → Numbered from es to
    → e.sequence ≡ suc to
    → Numbered from (es ++ e ∷ []) (suc to)
Numbered-append from to [] e h n = (rw h n, ap suc h)
Numbered-append from to (d ∷ es) e h n = (h.0, Numbered-append (suc from) to es e h.1 n)

-- What the drop loop leaves: a numbered tail within the limits.
abbrev pub Dropped : List JobEvent → ℕ → List JobEvent × ℕ × ℕ → Type 0
Dropped es to (events, bytes, truncated_before) =
    Numbered truncated_before events to
    × (bytes ≡ text_bytes events)
    × (length events ≤ max_job_events)
    × (bytes ≤ max_job_event_bytes)
    × ((gone : List JobEvent) × (es ≡ gone ++ events))

pub drop_oldest_ends :
    (es : List JobEvent) (bytes from to : ℕ)
    → Numbered from es to
    → bytes ≡ text_bytes es
    → (out : List JobEvent × ℕ × ℕ) × (drop_oldest es bytes from ≡ some out) × Dropped es to out
unfolding drop_oldest
drop_oldest_ends [] bytes from to n b =
    (([], bytes, from), ground arith, (n, b, omega arith, omega arith, ([], refl)))
drop_oldest_ends (e ∷ es) bytes from to n b =
    let over = ltb max_job_events (length (e ∷ es)) || ltb max_job_event_bytes bytes in
    elim (Bool-cases over) [
      | inl t ↦
          let (out, found, (m, c, few, small, (gone, split))) =
            drop_oldest_ends es (bytes - length e.text) (suc from) to n.1 (omega arith) in
          (out, rw (t, n.0) found, (m, c, few, small, (e ∷ gone, ap (◌∷◌ e) split)))
      | inr t ↦ ((e ∷ es, bytes, from), rw t refl, (n, b, ground arith, ground arith, ([], refl)))
    ]

-- Neither part of a log write touches the events, and the log's size stays within its limit.
pub write_log_same :
    (write : Writer) (line : Text) (j : Job)
    → let j' = write_log write line j in
      (j'.events ≡ j.events)
      × (j'.event_bytes ≡ j.event_bytes)
      × (j'.next_sequence ≡ j.next_sequence)
      × (j'.truncated_before ≡ j.truncated_before)
unfolding write_log
write_log_same write line j = ground arith

-- `io.Writer`: no more is written than was given.
abbrev pub IsWriter : Writer → Type 0
IsWriter write = (line : Text) → (write line).0 ≤ length line

pub write_log_small :
    (write : Writer) (line : Text) (j : Job)
    → IsWriter write
    → j.log_bytes ≤ max_job_log_bytes
    → (write_log write line j).log_bytes ≤ max_job_log_bytes
unfolding write_log
write_log_small write line j fits small =
    let remaining = max_job_log_bytes - j.log_bytes in
    ground (arith, fits line, fits (take remaining line), length-take remaining line)
