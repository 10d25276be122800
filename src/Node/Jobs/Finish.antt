-- ===== src/Node/Jobs/Finish.antt =====
-- The end of a job (Job.finish and Job.setStopReason in internal/node/jobs.go).
use fast_spider.Prelude.{
  ℕ, suc, ◌+◌, ◌++◌, length, ◌≡◌, ◌≢◌, ◌↔◌, refl, ap, ◌∙◌, true, false, Option, none, some, String,
  arith, str_eq, eq_iff, if◌then◌else◌, if-cases, inl, inr, Bool-cases, one_of, is_some, List, [],
  ◌∷◌,
}
use fast_spider.Node.Jobs.Job.{
  Text, Job, JobEvent, wake, write_log, log_line, Writer, Ending, finish, finish_state, close_log,
  set_stop_reason, is_terminal_job_state, append_event, option_map_job,
}
use fast_spider.Node.Jobs.Events.{IsBounded, IsWriter}
use fast_spider.Node.Jobs.Watch.{append_event-IsBounded}

finish_state_terminal :
    (reason : String) (revoked old : Text) (wait_err : Option Text)
    → is_terminal_job_state (finish_state reason revoked old wait_err).0 ≡ true
unfolding is_terminal_job_state finish_state
finish_state_terminal reason revoked old none = refl
finish_state_terminal reason revoked old (some e) =
    elim (Bool-cases (one_of reason ("user" ∷ "shutdown" ∷ []))) [
      | inl t ↦ rw t
      | inr t ↦ elim (Bool-cases (str_eq reason "permission_revoked")) [
        | inl u ↦ rw (t, u)
        | inr u ↦ elim (Bool-cases (str_eq reason "timeout")) [
          | inl v ↦ rw (t, u, v)
          | inr v ↦ rw (t, u, v)
        ]
      ]
    ]

not_completed : (s : String) → str_eq s "completed" ≡ false → s ≡ "completed" → ⊥
not_completed s h e = ground (arith, eq_iff s "completed")

finish_state_completed :
    (reason : String) (revoked old : Text) (wait_err : Option Text)
    → (wait_err ≡ none) ↔ ((finish_state reason revoked old wait_err).0 ≡ "completed")
unfolding finish_state
finish_state_completed reason revoked old none = (λ _. refl, λ _. refl)
finish_state_completed reason revoked old (some e) =
    (λ h. absurd (ground arith), λ h. absurd (never h))
  where
    never : (finish_state reason revoked old (some e)).0 ≡ "completed" → ⊥
    never = elim (Bool-cases (one_of reason ("user" ∷ "shutdown" ∷ []))) [
      | inl t ↦ rw t (not_completed "canceled" refl)
      | inr t ↦ elim (Bool-cases (str_eq reason "permission_revoked")) [
        | inl u ↦ rw (t, u) (not_completed "canceled" refl)
        | inr u ↦ elim (Bool-cases (str_eq reason "timeout")) [
          | inl v ↦ rw (t, u, v) (not_completed "expired" refl)
          | inr v ↦ rw (t, u, v) (not_completed "failed" refl)
        ]
      ]
    ]

abbrev SameEnd : Job → Job → Type 0
SameEnd j j' =
    (j'.state ≡ j.state)
    × (j'.err_text ≡ j.err_text)
    × (j'.finished_at ≡ j.finished_at)
    × (j'.exit_code ≡ j.exit_code)

wake-SameEnd :
    (j : Job) (o : Option (List JobEvent × ℕ × ℕ)) {j' : Job} → wake j o ≡ some j' → SameEnd j j'
unfolding wake
wake-SameEnd j none e = ground arith
wake-SameEnd j (some (events, bytes, before)) e = ground arith

write_log-SameEnd : (write : Writer) (line : Text) (j : Job) → SameEnd j (write_log write line j)
unfolding write_log
write_log-SameEnd write line j = ground arith

append_event-SameEnd :
    (format_time : ℕ → Text) (write : Writer) (kind text : Text) (now : ℕ) (j : Job) {j' : Job}
    → append_event format_time write kind text now j ≡ some j'
    → SameEnd j j'
unfolding append_event
append_event-SameEnd format_time write kind text now j e =
    let event : JobEvent = record {
      sequence = suc j.next_sequence;
      kind = kind;
      text = text;
      timestamp = now;
    } in
    let j1 = record j {
      next_sequence = suc j.next_sequence;
      events = j.events ++ event ∷ [];
      event_bytes = j.event_bytes + length text;
    } in
    let line = log_line format_time event in
    let (a, b, c, d) = wake-SameEnd (write_log write line j1) _ e in
    let (a', b', c', d') = write_log-SameEnd write line j1 in (a ∙ a', b ∙ b', c ∙ c', d ∙ d')

close_log-IsBounded :
    (synced closed : Option Text) (j : Job) → IsBounded j → IsBounded (close_log synced closed j)
unfolding close_log
close_log-IsBounded synced closed j b =
    if-cases IsBounded j.log_file
      (λ t. record {
        numbered = b.numbered;
        counted = b.counted;
        few = b.few;
        small = b.small;
        log_small = b.log_small;
      })
      (λ t. b)

close_log_end :
    (synced closed : Option Text) (j : Job)
    → SameEnd j (close_log synced closed j)
      × ((close_log synced closed j).log_file ≡ false)
      × ((close_log synced closed j).next_sequence ≡ j.next_sequence)
unfolding close_log
close_log_end synced closed j = ground arith

-- `finish` never panics, keeps the limits of the event log, adds one event, and leaves the job in a
-- terminal state with its log file closed and its end time set; the state is "completed" exactly
-- when the process ended without an error, whatever the reason for stopping was.
pub finish_ends :
    (format_time : ℕ → Text) (write : Writer) (codes : String → Text) (ending : Ending) (j : Job)
    → IsWriter write
    → IsBounded j
    → (j' : Job) × (finish format_time write codes ending j ≡ some j')
      × IsBounded j'
      × (is_terminal_job_state j'.state ≡ true)
      × ((ending.wait_err ≡ none) ↔ (j'.state ≡ "completed"))
      × (j'.log_file ≡ false)
      × (j'.finished_at ≡ ending.now)
      × (j'.next_sequence ≡ suc j.next_sequence)
unfolding finish
finish_ends format_time write codes ending j fits b =
    let (state, err_text) =
      finish_state j.stop_reason (codes "operation permission revoked") j.err_text
        ending.wait_err in
    let j1 = record j {
      exit_code = if is_some ending.exit then ending.exit else j.exit_code;
      finished_at = ending.now;
      state = state;
      err_text = err_text;
    } in
    let (j2, found, b2, next, _, _) =
      append_event-IsBounded format_time write fits (codes state) err_text ending.now j1 (record {
        numbered = b.numbered;
        counted = b.counted;
        few = b.few;
        small = b.small;
        log_small = b.log_small;
      }) in
    let (same_state, _, same_time, _) =
      append_event-SameEnd format_time write (codes state) err_text ending.now j1 found in
    let ((kept_state, _, kept_time, _), closed, kept_next) =
      close_log_end ending.synced ending.closed j2 in
    let whole : (close_log ending.synced ending.closed j2).state ≡ state =
      kept_state ∙ same_state in
    (
      close_log ending.synced ending.closed j2,
      ap (option_map_job (close_log ending.synced ending.closed)) found,
      close_log-IsBounded ending.synced ending.closed j2 b2,
      ap is_terminal_job_state whole
          ∙ finish_state_terminal j.stop_reason _ j.err_text ending.wait_err,
      rw whole (finish_state_completed j.stop_reason _ j.err_text ending.wait_err),
      closed,
      kept_time ∙ same_time,
      kept_next ∙ next,
    )

-- The first reason that is recorded for stopping a job decides its end: later ones change nothing.
pub first_reason_decides :
    (format_time : ℕ → Text) (write : Writer) (codes : String → Text) (ending : Ending) (j : Job)
    (first later : String)
    → j.stop_reason ≡ ""
    → first ≢ ""
    → finish format_time write codes ending (set_stop_reason later (set_stop_reason first j))
      ≡ finish format_time write codes ending (record j { stop_reason = first })
unfolding set_stop_reason
first_reason_decides format_time write codes ending j first later e n =
    ap (finish format_time write codes ending)
      (ground (arith, eq_iff first "", eq_iff j.stop_reason ""))
