-- ===== src/Node/Jobs/Manager/System.antt =====
-- The job manager (internal/node/jobs.go) with the requests that are starting a process and the
-- goroutines (`runJob`) that attend one, as steps in any order.
use fast_spider.Prelude.{
  ℕ, zero, suc, Bool, true, false, List, [], ◌∷◌, ◌++◌, Option, none, some, String, length,
  get_elem?, modify,
}
use fast_spider.Node.Jobs.Job.{Text, Writer, Ending, Job, append_event, set_stop_reason, finish}
use fast_spider.Node.Jobs.Manager.Tables.{JobManager, new_job_manager, note_persist, cleanup_locked}
use fast_spider.Node.Jobs.Manager.Starting.{
  Launch, Refusal, Admission, reserved, admit, release, give_slot, start_job, commit,
}
use fast_spider.Node.Jobs.Manager.Stopping.{
  update_job, close_manager, cancel_starts, stop_jobs, ask_to_stop,
}

-- A start is under way, or it failed and its deferred function is still to run, or that has given up
-- the reservation and is still to give back the slot, or the start has returned.
pub data StartPhase : Type 0 where
  preparing failing releasing gone : StartPhase

-- The number of its reservation is its place in the list of all starts.
pub record Starter : Type 0 where
  pub key : String
  pub spec_hash : String
  pub phase : StartPhase

pub record Runner : Type 0 where
  pub job_id : String
  pub ended : Bool

pub record System : Type 0 where
  pub manager : JobManager
  pub starters : List Starter
  pub runners : List Runner

unfoldable pub new_system : System
unfolding new_job_manager
new_system = record { manager = new_job_manager; starters = []; runners = [] }

pub data Event : Type 0 where
  -- A request with its key and the hash of what it asks for.
  asks : String → String → ℕ → Option Text → Event
  -- A start meets an error outside, runs the critical section of its deferred function, or gives back
  -- its slot and returns.
  fails releases returns : ℕ → Event
  commits : ℕ → Launch → Event
  -- Output of a job, the reason of its watchdog, its end, and the end of its goroutine.
  outputs : String → Text → Text → ℕ → Event
  stops : String → String → Event
  ends : ℕ → Ending → Event
  frees : ℕ → Option Text → Event
  cancels : String → Event
  cleans : ℕ → Option Text → Event
  persists : Option Text → Event
  closes cancels_starts stops_jobs : Event

unfoldable pub remove_at {ℓ} : {A : Type ℓ} → ℕ → List A → List A
remove_at i [] = []
remove_at zero (x ∷ xs) = xs
remove_at (suc i) (x ∷ xs) = x ∷ remove_at i xs

unfoldable pub in_phase : StartPhase → Starter → Starter
in_phase phase k = record k { phase = phase }

unfoldable pub asked : System → String → String → JobManager × Admission → System
asked s key hash (m, reserved) = record s {
  manager = m;
  starters = s.starters ++ record { key = key; spec_hash = hash; phase = preparing } ∷ [];
}
asked s key hash (m, _) = record s { manager = m }

unfoldable pub committed : System → ℕ → String → JobManager × Option Refusal → System
unfolding in_phase
committed s i id (m, some refusal) = record s {
  manager = m;
  starters = modify s.starters i (in_phase failing);
}
committed s i id (m, none) = record {
  manager = m;
  starters = modify s.starters i (in_phase gone);
  runners = s.runners ++ record { job_id = id; ended = false } ∷ [];
}

-- A panic in making the job leaves all as it is.
unfoldable pub launched : System → ℕ → Starter → Launch → Option Job → System
unfolding committed commit
launched s i k launch none = s
launched s i k launch (some job) =
    committed s i launch.job_id (commit k.key k.spec_hash i launch job s.manager)

unfoldable pub free_runner : System → ℕ → Option Text → Option Runner → System
unfolding note_persist give_slot remove_at
free_runner s i persisted none = s
free_runner s i persisted (some r) = elim r.ended [
  | false ↦ s
  | true ↦
      let m = note_persist persisted s.manager in
      record s { manager = give_slot m; runners = remove_at i s.runners }
]

unfoldable pub on_manager : System → JobManager → System
on_manager s m = record s { manager = m }

-- `format_time`, `write` and `codes` are as for one job.
module _ (format_time : ℕ → Text) (write : Writer) (codes : String → Text) where
  -- One step of the start at a place of the list.
  unfoldable pub start_step : System → ℕ → Starter → Event → System
  unfolding in_phase release give_slot launched
  start_step s i k (commits j launch) = elim k.phase [
    | preparing ↦ launched s i k launch (start_job format_time write codes k.key launch)
    | failing ↦ s
    | releasing ↦ s
    | gone ↦ s
  ]
  start_step s i k (releases j) = elim k.phase [
    | preparing ↦ s
    | failing ↦ record s {
      manager = release k.key i s.manager;
      starters = modify s.starters i (in_phase releasing);
    }
    | releasing ↦ s
    | gone ↦ s
  ]
  start_step s i k (returns j) = elim k.phase [
    | preparing ↦ s
    | failing ↦ s
    | releasing ↦ record s {
      manager = give_slot s.manager;
      starters = modify s.starters i (in_phase gone);
    }
    | gone ↦ s
  ]
  start_step s i k (fails j) = elim k.phase [
    | preparing ↦ record s { starters = modify s.starters i (in_phase failing) }
    | failing ↦ s
    | releasing ↦ s
    | gone ↦ s
  ]
  start_step s i k e = s

  unfoldable pub start_at : System → ℕ → Option Starter → Event → System
  unfolding start_step
  start_at s i none e = s
  start_at s i (some k) e = start_step s i k e

  unfoldable pub end_runner : System → ℕ → Ending → Option Runner → System
  unfolding update_job finish
  end_runner s i ending none = s
  end_runner s i ending (some r) = elim r.ended [
    | true ↦ s
    | false ↦ record s {
      manager = update_job (finish format_time write codes ending) r.job_id s.manager;
      runners = modify s.runners i (λ r'. record r' { ended = true });
    }
  ]

  unfoldable pub step : System → Event → System
  unfolding asked start_at end_runner free_runner on_manager
  step s (asks key hash now persisted) =
      asked s key hash (admit now persisted key hash (length s.starters) s.manager)
  step s (fails i) = start_at s i (get_elem? s.starters i) (fails i)
  step s (releases i) = start_at s i (get_elem? s.starters i) (releases i)
  step s (returns i) = start_at s i (get_elem? s.starters i) (returns i)
  step s (commits i launch) = start_at s i (get_elem? s.starters i) (commits i launch)
  step s (outputs id kind text now) =
      on_manager s (update_job (append_event format_time write kind text now) id s.manager)
  step s (stops id reason) =
      on_manager s (update_job (λ j. some (set_stop_reason reason j)) id s.manager)
  step s (ends i ending) = end_runner s i ending (get_elem? s.runners i)
  step s (frees i persisted) = free_runner s i persisted (get_elem? s.runners i)
  step s (cancels id) = on_manager s (update_job (λ j. some (ask_to_stop "user" j)) id s.manager)
  step s (cleans now persisted) = on_manager s (cleanup_locked now persisted s.manager)
  step s (persists persisted) = on_manager s (note_persist persisted s.manager)
  step s closes = on_manager s (close_manager s.manager)
  step s cancels_starts = on_manager s (cancel_starts s.manager)
  step s stops_jobs = on_manager s (stop_jobs s.manager)

  unfoldable pub run : System → List Event → System
  unfolding step
  run s [] = s
  run s (e ∷ es) = run (step s e) es
