-- ===== src/Node/Jobs/Manager/Closed.antt =====
-- After CancelAll has closed the job manager (internal/node/jobs.go) nothing new is started.
use fast_spider.Prelude.{
  ℕ, ◌≡◌, refl, ◌∙◌, inl, inr, true, List, [], ◌∷◌, Option, none, some, String, Bool-cases, length,
  get_elem?, modify, lookup, length-modify,
}
use fast_spider.Node.Jobs.Job.{Text, Writer, Job, Ending, append_event, set_stop_reason, finish}
use fast_spider.Node.Jobs.Manager.Tables.{JobManager}
use fast_spider.Node.Jobs.Manager.Starting.{Launch, release, give_slot, start_job}
use fast_spider.Node.Jobs.Manager.Stopping.{stop_jobs, close_manager, cancel_starts, ask_to_stop}
use fast_spider.Node.Jobs.Manager.System.{
  StartPhase, failing, releasing, gone, Starter, Runner, System, Event, asks, fails, releases,
  returns, commits, outputs, stops, ends, frees, cancels, cleans, persists, closes, cancels_starts,
  stops_jobs, in_phase, asked, committed, launched, start_step, start_at, end_runner, free_runner,
  on_manager, step, run,
}
use fast_spider.Node.Jobs.Manager.Limits.{phase-cases}
use fast_spider.Node.Jobs.Manager.Shut.{
  IsShut, IsShut-refl, note_persist-IsShut, cleanup_locked-IsShut, update_job-IsShut,
  lookup-stop_all, commit_closed, admit_closed,
}

-- A step of the system that starts nothing.
record IsCalm (s s' : System) : Type 0 where
  pub shut : IsShut s.manager s'.manager
  pub no_start : length s'.starters ≡ length s.starters

still : (s : System) (m : JobManager) → IsShut s.manager m → IsCalm s (record s { manager = m })
still s m p = record { shut = p; no_start = refl }

module _ (s : System) (c : s.manager.closed ≡ true) where
  moved :
      (i : ℕ) (p : StartPhase) → IsCalm s (record s { starters = modify s.starters i (in_phase p) })
  moved i p = record {
    shut = IsShut-refl s.manager c;
    no_start = length-modify s.starters i (in_phase p);
  }

  launched-IsCalm :
      (i : ℕ) (k : Starter) (launch : Launch) (o : Option Job) → IsCalm s (launched s i k launch o)
  unfolding launched committed
  launched-IsCalm i k launch none = still s s.manager (IsShut-refl s.manager c)
  launched-IsCalm i k launch (some job) =
      rw (commit_closed k.key k.spec_hash i launch job s.manager c) (moved i failing)

  free_runner-IsCalm :
      (i : ℕ) (e : Option Text) (o : Option Runner) → IsCalm s (free_runner s i e o)
  unfolding free_runner
  free_runner-IsCalm i e none = still s s.manager (IsShut-refl s.manager c)
  free_runner-IsCalm i e (some r) = elim (Bool-cases r.ended) [
    | inl f ↦
        let p = note_persist-IsShut e s.manager c in
        rw f (record {
          shut = record { still_closed = p.still_closed; no_new = p.no_new };
          no_start = refl;
        })
    | inr f ↦ rw f (still s s.manager (IsShut-refl s.manager c))
  ]

  module _ (format_time : ℕ → Text) (write : Writer) (codes : String → Text) where
    start_step-IsCalm :
        (i : ℕ) (k : Starter) (e : Event) → IsCalm s (start_step format_time write codes s i k e)
    unfolding start_step release give_slot
    start_step-IsCalm i k (commits j launch) = elim (phase-cases k.phase) [
      | inl p ↦ rw p (launched-IsCalm i k launch (start_job format_time write codes k.key launch))
      | inr (inl p) ↦ rw p (still s s.manager (IsShut-refl s.manager c))
      | inr (inr (inl p)) ↦ rw p (still s s.manager (IsShut-refl s.manager c))
      | inr (inr (inr p)) ↦ rw p (still s s.manager (IsShut-refl s.manager c))
    ]
    start_step-IsCalm i k (returns j) = elim (phase-cases k.phase) [
      | inl p ↦ rw p (still s s.manager (IsShut-refl s.manager c))
      | inr (inl p) ↦ rw p (still s s.manager (IsShut-refl s.manager c))
      | inr (inr (inl p)) ↦ rw p (record {
        shut = record { still_closed = c; no_new = λ id e. e };
        no_start = length-modify s.starters i (in_phase gone);
      })
      | inr (inr (inr p)) ↦ rw p (still s s.manager (IsShut-refl s.manager c))
    ]
    start_step-IsCalm i k (releases j) = elim (phase-cases k.phase) [
      | inl p ↦ rw p (still s s.manager (IsShut-refl s.manager c))
      | inr (inl p) ↦ rw p (record {
        shut = record { still_closed = c; no_new = λ id e. e };
        no_start = length-modify s.starters i (in_phase releasing);
      })
      | inr (inr (inl p)) ↦ rw p (still s s.manager (IsShut-refl s.manager c))
      | inr (inr (inr p)) ↦ rw p (still s s.manager (IsShut-refl s.manager c))
    ]
    start_step-IsCalm i k (fails j) = elim (phase-cases k.phase) [
      | inl p ↦ rw p (moved i failing)
      | inr (inl p) ↦ rw p (still s s.manager (IsShut-refl s.manager c))
      | inr (inr (inl p)) ↦ rw p (still s s.manager (IsShut-refl s.manager c))
      | inr (inr (inr p)) ↦ rw p (still s s.manager (IsShut-refl s.manager c))
    ]
    start_step-IsCalm i k _ = still s s.manager (IsShut-refl s.manager c)

    start_at-IsCalm :
        (i : ℕ) (o : Option Starter) (e : Event)
        → IsCalm s (start_at format_time write codes s i o e)
    unfolding start_at
    start_at-IsCalm i none e = still s s.manager (IsShut-refl s.manager c)
    start_at-IsCalm i (some k) e = start_step-IsCalm i k e

    end_runner-IsCalm :
        (i : ℕ) (ending : Ending) (o : Option Runner)
        → IsCalm s (end_runner format_time write codes s i ending o)
    unfolding end_runner
    end_runner-IsCalm i ending none = still s s.manager (IsShut-refl s.manager c)
    end_runner-IsCalm i ending (some r) = elim (Bool-cases r.ended) [
      | inl f ↦ rw f (still s s.manager (IsShut-refl s.manager c))
      | inr f ↦
          let p = update_job-IsShut (finish format_time write codes ending) r.job_id s.manager c in
          rw f (record { shut = p; no_start = refl })
    ]

    step-IsCalm : (e : Event) → IsCalm s (step format_time write codes s e)
    unfolding step on_manager asked close_manager cancel_starts stop_jobs
    step-IsCalm (asks key hash now persisted) =
        rw (admit_closed now persisted key hash (length s.starters) s.manager c)
          (still s s.manager (IsShut-refl s.manager c))
    step-IsCalm (fails i) = start_at-IsCalm i (get_elem? s.starters i) (fails i)
    step-IsCalm (releases i) = start_at-IsCalm i (get_elem? s.starters i) (releases i)
    step-IsCalm (returns i) = start_at-IsCalm i (get_elem? s.starters i) (returns i)
    step-IsCalm (commits i launch) = start_at-IsCalm i (get_elem? s.starters i) (commits i launch)
    step-IsCalm (outputs id kind text now) =
        still s _ (update_job-IsShut (append_event format_time write kind text now) id s.manager c)
    step-IsCalm (stops id reason) =
        still s _ (update_job-IsShut (λ j. some (set_stop_reason reason j)) id s.manager c)
    step-IsCalm (ends i ending) = end_runner-IsCalm i ending (get_elem? s.runners i)
    step-IsCalm (frees i persisted) = free_runner-IsCalm i persisted (get_elem? s.runners i)
    step-IsCalm (cancels id) =
        still s _ (update_job-IsShut (λ j. some (ask_to_stop "user" j)) id s.manager c)
    step-IsCalm (cleans now persisted) = still s _ (cleanup_locked-IsShut now persisted s.manager c)
    step-IsCalm (persists persisted) = still s _ (note_persist-IsShut persisted s.manager c)
    step-IsCalm closes = still s _ (record { still_closed = refl; no_new = λ id e. e })
    step-IsCalm cancels_starts = still s _ (record { still_closed = c; no_new = λ id e. e })
    step-IsCalm stops_jobs =
        still s _
          (record { still_closed = c; no_new = λ id e. lookup-stop_all id s.manager.jobs e })

module _ (format_time : ℕ → Text) (write : Writer) (codes : String → Text) where
  -- From a closed manager, over every further order of steps, the manager stays closed, no request
  -- gets a reservation, and no job enters the table that was not in it.
  pub closed_starts_nothing :
      (s : System) (es : List Event) (id : String)
      → s.manager.closed ≡ true
      → lookup id s.manager.jobs ≡ none
      → let s' = run format_time write codes s es in
        (s'.manager.closed ≡ true)
        × (length s'.starters ≡ length s.starters)
        × (lookup id s'.manager.jobs ≡ none)
  unfolding run
  closed_starts_nothing s [] id c e = (c, refl, e)
  closed_starts_nothing s (event ∷ es) id c e =
      let calm = step-IsCalm s c format_time write codes event in
      let (p, q, r) =
        closed_starts_nothing (step format_time write codes s event) es id calm.shut.still_closed
          (calm.shut.no_new id e) in
      (p, q ∙ calm.no_start, r)
