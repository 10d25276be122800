-- ===== src/Node/Jobs/Manager/Limits.antt =====
-- The limits of the job manager (internal/node/jobs.go) over every order of steps.
use fast_spider.Prelude.{
  ℕ, zero, suc, ◌+◌, ◌≤◌, ◌≡◌, refl, ap, ◌∙◌, ◌⊎◌, inl, inr, true, List, [], ◌∷◌, Option, none,
  some, String, arith, Bool-cases, length, get_elem?, lookup, length-modify,
}
use fast_spider.Node.Jobs.Job.{Text, Writer, Job, Ending, append_event, set_stop_reason, finish}
use fast_spider.Node.Jobs.Manager.Tables.{max_retained_jobs, max_concurrent_jobs}
use fast_spider.Node.Jobs.Manager.Starting.{Launch, start_job}
use fast_spider.Node.Jobs.Manager.Stopping.{cancel_starts, ask_to_stop}
use fast_spider.Node.Jobs.Manager.System.{
  StartPhase, preparing, failing, releasing, gone, Starter, Runner, System, Event, asks, fails,
  releases, returns, commits, outputs, stops, ends, frees, cancels, cleans, persists, closes,
  cancels_starts, stops_jobs, remove_at, start_step, start_at, end_runner, free_runner, launched,
  on_manager, step, run, new_system,
}
use fast_spider.Node.Jobs.Manager.Steady.{
  note_persist-IsSteady, cleanup_locked-IsSteady, update_job-IsSteady, stop_jobs-IsSteady,
  close_manager-IsSteady, length-cancel_starting, owns-cancel_starting, cancel_starting-UniqueKeys,
}
use fast_spider.Node.Jobs.Manager.Slots.{
  is_active, IsAdmitted, owns_once, steady-IsAdmitted, kept-IsAdmitted, release-IsAdmitted,
  give_slot-IsAdmitted, releasing_count, commit-IsAdmitted,
}
use fast_spider.Node.Jobs.Manager.Requests.{admit-IsAdmitted}

pub phase-cases :
    (p : StartPhase) → (p ≡ preparing) ⊎ ((p ≡ failing) ⊎ ((p ≡ releasing) ⊎ (p ≡ gone)))
phase-cases preparing = inl refl
phase-cases failing = inr (inl refl)
phase-cases releasing = inr (inr (inl refl))
phase-cases gone = inr (inr (inr refl))

length-remove_at :
    {A : Type 0} (i : ℕ) (xs : List A) {x : A}
    → get_elem? xs i ≡ some x
    → suc (length (remove_at i xs)) ≡ length xs
unfolding remove_at
length-remove_at i [] e = ground arith
length-remove_at zero (x ∷ xs) e = refl
length-remove_at (suc i) (x ∷ xs) e = ap suc (length-remove_at i xs e)

cancel_starts-IsAdmitted :
    (s : System) → IsAdmitted s → IsAdmitted (on_manager s (cancel_starts s.manager))
unfolding cancel_starts on_manager
cancel_starts-IsAdmitted s a =
    let same = length-cancel_starting s.manager.starting in
    record {
      unique = cancel_starting-UniqueKeys s.manager.starting a.unique;
      held = λ i k e active. owns-cancel_starting i k.key s.manager.starting ∙ a.held i k e active;
      slots = omega (arith, same, a.slots);
      few = a.few;
      kept = omega (arith, same, a.kept);
    }

free_runner-IsAdmitted :
    (s : System) (i : ℕ) (persisted : Option Text) (o : Option Runner)
    → get_elem? s.runners i ≡ o
    → IsAdmitted s
    → IsAdmitted (free_runner s i persisted o)
unfolding free_runner
free_runner-IsAdmitted s i persisted none e a = a
free_runner-IsAdmitted s i persisted (some r) e a = elim (Bool-cases r.ended) [
  | inl f ↦
      let b = steady-IsAdmitted s _ (note_persist-IsSteady persisted s.manager) a in
      let fewer = length-remove_at i s.runners e in
      rw f (record {
        unique = b.unique;
        held = b.held;
        slots = omega (arith, b.slots, fewer);
        few = omega (arith, b.few);
        kept = b.kept;
      })
  | inr f ↦ rw f a
]

launched-IsAdmitted :
    (s : System) (i : ℕ) (k : Starter) (launch : Launch) (o : Option Job)
    → get_elem? s.starters i ≡ some k
    → is_active k.phase ≡ true
    → IsAdmitted s
    → IsAdmitted (launched s i k launch o)
unfolding launched
launched-IsAdmitted s i k launch none at active a = a
launched-IsAdmitted s i k launch (some job) at active a =
    commit-IsAdmitted s.starters i k at s.manager s.runners launch job a active

module _ (format_time : ℕ → Text) (write : Writer) (codes : String → Text) where
  start_step-IsAdmitted :
      (s : System) (i : ℕ) (k : Starter) (e : Event)
      → get_elem? s.starters i ≡ some k
      → IsAdmitted s
      → IsAdmitted (start_step format_time write codes s i k e)
  unfolding start_step
  start_step-IsAdmitted s i k (commits j launch) at a = elim (phase-cases k.phase) [
    | inl p ↦ rw p (
        launched-IsAdmitted s i k launch (start_job format_time write codes k.key launch) at
          (ap is_active p) a)
    | inr (inl p) ↦ rw p a
    | inr (inr (inl p)) ↦ rw p a
    | inr (inr (inr p)) ↦ rw p a
  ]
  start_step-IsAdmitted s i k (returns j) at a = elim (phase-cases k.phase) [
    | inl p ↦ rw p a
    | inr (inl p) ↦ rw p a
    | inr (inr (inl p)) ↦ rw p (give_slot-IsAdmitted s.starters i k at s.manager s.runners a p)
    | inr (inr (inr p)) ↦ rw p a
  ]
  start_step-IsAdmitted s i k (releases j) at a = elim (phase-cases k.phase) [
    | inl p ↦ rw p a
    | inr (inl p) ↦
        rw p (release-IsAdmitted s.starters i k at s.manager s.runners a (ap is_active p))
    | inr (inr (inl p)) ↦ rw p a
    | inr (inr (inr p)) ↦ rw p a
  ]
  start_step-IsAdmitted s i k (fails j) at a = elim (phase-cases k.phase) [
    | inl p ↦
        rw p (kept-IsAdmitted s.starters i k at s.manager s.runners failing a (ap is_active p) refl)
    | inr (inl p) ↦ rw p a
    | inr (inr (inl p)) ↦ rw p a
    | inr (inr (inr p)) ↦ rw p a
  ]
  start_step-IsAdmitted s i k _ at a = a

  start_at-IsAdmitted :
      (s : System) (i : ℕ) (o : Option Starter) (e : Event)
      → get_elem? s.starters i ≡ o
      → IsAdmitted s
      → IsAdmitted (start_at format_time write codes s i o e)
  unfolding start_at
  start_at-IsAdmitted s i none e at a = a
  start_at-IsAdmitted s i (some k) e at a = start_step-IsAdmitted s i k e at a

  end_runner-IsAdmitted :
      (s : System) (i : ℕ) (ending : Ending) (o : Option Runner)
      → IsAdmitted s
      → IsAdmitted (end_runner format_time write codes s i ending o)
  unfolding end_runner
  end_runner-IsAdmitted s i ending none a = a
  end_runner-IsAdmitted s i ending (some r) a = elim (Bool-cases r.ended) [
    | inl f ↦ rw f a
    | inr f ↦
        let b =
          steady-IsAdmitted s _
            (update_job-IsSteady (finish format_time write codes ending) r.job_id s.manager) a in
        rw f (record {
          unique = b.unique;
          held = b.held;
          slots =
              omega (arith, b.slots, length-modify s.runners i (λ r'. record r' { ended = true }));
          few = b.few;
          kept = b.kept;
        })
  ]

  step-IsAdmitted :
      (s : System) (e : Event) → IsAdmitted s → IsAdmitted (step format_time write codes s e)
  unfolding step on_manager
  step-IsAdmitted s (asks key hash now persisted) a = admit-IsAdmitted s now persisted key hash a
  step-IsAdmitted s (fails i) a = start_at-IsAdmitted s i (get_elem? s.starters i) (fails i) refl a
  step-IsAdmitted s (releases i) a =
      start_at-IsAdmitted s i (get_elem? s.starters i) (releases i) refl a
  step-IsAdmitted s (returns i) a =
      start_at-IsAdmitted s i (get_elem? s.starters i) (returns i) refl a
  step-IsAdmitted s (commits i launch) a =
      start_at-IsAdmitted s i (get_elem? s.starters i) (commits i launch) refl a
  step-IsAdmitted s (outputs id kind text now) a =
      steady-IsAdmitted s _
        (update_job-IsSteady (append_event format_time write kind text now) id s.manager) a
  step-IsAdmitted s (stops id reason) a =
      steady-IsAdmitted s _
        (update_job-IsSteady (λ j. some (set_stop_reason reason j)) id s.manager) a
  step-IsAdmitted s (ends i ending) a = end_runner-IsAdmitted s i ending (get_elem? s.runners i) a
  step-IsAdmitted s (frees i persisted) a =
      free_runner-IsAdmitted s i persisted (get_elem? s.runners i) refl a
  step-IsAdmitted s (cancels id) a =
      steady-IsAdmitted s _ (update_job-IsSteady (λ j. some (ask_to_stop "user" j)) id s.manager) a
  step-IsAdmitted s (cleans now persisted) a =
      steady-IsAdmitted s _ (cleanup_locked-IsSteady now persisted s.manager) a
  step-IsAdmitted s (persists persisted) a =
      steady-IsAdmitted s _ (note_persist-IsSteady persisted s.manager) a
  step-IsAdmitted s closes a = steady-IsAdmitted s _ (close_manager-IsSteady s.manager) a
  step-IsAdmitted s cancels_starts a = cancel_starts-IsAdmitted s a
  step-IsAdmitted s stops_jobs a = steady-IsAdmitted s _ (stop_jobs-IsSteady s.manager) a

  run-IsAdmitted :
      (s : System) (es : List Event) → IsAdmitted s → IsAdmitted (run format_time write codes s es)
  unfolding run
  run-IsAdmitted s [] a = a
  run-IsAdmitted s (e ∷ es) a =
      run-IsAdmitted (step format_time write codes s e) es (step-IsAdmitted s e a)

  new_system-IsAdmitted : IsAdmitted new_system
  unfolding new_system releasing_count
  new_system-IsAdmitted = record {
    unique = tt;
    held = λ i k e active. ground arith;
    slots = refl;
    few = omega arith;
    kept = omega arith;
  }

  -- Over every order of requests, starts, ends, cancellations and cleanups on a new manager: the
  -- taken slots are the reservations, the goroutines that attend a job, and the failed starts that
  -- have given up their reservation and not yet their slot; they are at most 16; and the kept jobs and
  -- the reservations together are at most 128.
  pub slots_and_places :
      (es : List Event)
      → let s = run format_time write codes new_system es in
        (s.manager.semaphore
          ≡ length s.manager.starting + length s.runners + releasing_count s.starters)
        × (s.manager.semaphore ≤ max_concurrent_jobs)
        × (length s.manager.jobs + length s.manager.starting ≤ max_retained_jobs)
  slots_and_places es =
      let a = run-IsAdmitted new_system es new_system-IsAdmitted in (a.slots, a.few, a.kept)

  -- Over every order of steps on a new manager, two starts that have not given up their reservation
  -- have different idempotency keys.
  pub one_start_per_key :
      (es : List Event) (i j : ℕ) (k q : Starter)
      → let s = run format_time write codes new_system es in
        get_elem? s.starters i ≡ some k
        → get_elem? s.starters j ≡ some q
        → is_active k.phase ≡ true
        → is_active q.phase ≡ true
        → k.key ≡ q.key
        → i ≡ j
  one_start_per_key es i j k q e f active other same =
      let a = run-IsAdmitted new_system es new_system-IsAdmitted in
      owns_once i j (lookup k.key (run format_time write codes new_system es).manager.starting)
        (a.held i k e active) (rw same (a.held j q f other))
