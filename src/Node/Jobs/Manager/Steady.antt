-- ===== src/Node/Jobs/Manager/Steady.antt =====
-- Steps of the job manager (internal/node/jobs.go) that take no slot, and the tables under them.
use fast_spider.Prelude.{
  ℕ, suc, ◌≤◌, ◌≡◌, refl, ap, ◌∙◌, inl, inr, true, ◌&&◌, ◌||◌, List, [], ◌∷◌, Option, none, some,
  String, Map, arith, Bool-cases, Option-cases, is_some, length, lookup, insert, delete, leb,
  eq_iff, UniqueKeys, length-insert, length-delete-le,
}
use fast_spider.Node.Jobs.Job.{Text, Job, is_terminal_job_state}
use fast_spider.Node.Jobs.Manager.Tables.{
  JobManager, Reservation, note_persist, is_expired, cleanup_step, cleanup_steps, cleanup_locked,
  max_retained_jobs,
}
use fast_spider.Node.Jobs.Manager.Starting.{owns}
use fast_spider.Node.Jobs.Manager.Stopping.{
  update_job, stop_all, stop_jobs, close_manager, cancel_starting,
}

-- A change that takes no slot and no place.
pub record IsSteady (m m' : JobManager) : Type 0 where
  pub same_starting : m'.starting ≡ m.starting
  pub same_semaphore : m'.semaphore ≡ m.semaphore
  pub no_more : length m'.jobs ≤ length m.jobs

pub IsSteady-refl : (m : JobManager) → IsSteady m m
IsSteady-refl m = record { same_starting = refl; same_semaphore = refl; no_more = omega arith }

pub IsSteady-trans : {a b c : JobManager} → IsSteady a b → IsSteady b c → IsSteady a c
IsSteady-trans p q = record {
  same_starting = q.same_starting ∙ p.same_starting;
  same_semaphore = q.same_semaphore ∙ p.same_semaphore;
  no_more = omega (arith, p.no_more, q.no_more);
}

pub note_persist-IsSteady : (e : Option Text) (m : JobManager) → IsSteady m (note_persist e m)
unfolding note_persist
note_persist-IsSteady none m = IsSteady-refl m
note_persist-IsSteady (some e) m = record {
  same_starting = refl;
  same_semaphore = refl;
  no_more = omega arith;
}

pub cleanup_step-IsSteady :
    (now : ℕ) (m : JobManager) (id : String) (o : Option Job) → IsSteady m (cleanup_step now m id o)
unfolding cleanup_step
cleanup_step-IsSteady now m id none = IsSteady-refl m
cleanup_step-IsSteady now m id (some j) =
    elim (Bool-cases (
      is_terminal_job_state j.state
      && (is_expired now j || leb max_retained_jobs (length m.jobs)))) [
        | inl e ↦ rw e (record {
          same_starting = refl;
          same_semaphore = refl;
          no_more = length-delete-le id m.jobs;
        })
        | inr e ↦
            rw e (record { same_starting = refl; same_semaphore = refl; no_more = omega arith })
      ]

cleanup_steps-IsSteady :
    (now : ℕ) (ids : List String) (m : JobManager) → IsSteady m (cleanup_steps now ids m)
unfolding cleanup_steps
cleanup_steps-IsSteady now [] m = IsSteady-refl m
cleanup_steps-IsSteady now (id ∷ ids) m =
    IsSteady-trans (cleanup_step-IsSteady now m id (lookup id m.jobs))
      (cleanup_steps-IsSteady now ids (cleanup_step now m id (lookup id m.jobs)))

pub cleanup_locked-IsSteady :
    (now : ℕ) (e : Option Text) (m : JobManager) → IsSteady m (cleanup_locked now e m)
unfolding cleanup_locked
cleanup_locked-IsSteady now e m =
    IsSteady-trans
      (IsSteady-trans
        (record { same_starting = refl; same_semaphore = refl; no_more = omega arith })
        (cleanup_steps-IsSteady now m.order (record m { order = [] })))
      (note_persist-IsSteady e (cleanup_steps now m.order (record m { order = [] })))

length-insert_known :
    {V : Type 0} (k : String) (v : V) (m : Map V) {w : V}
    → lookup k m ≡ some w
    → length (insert k v m) ≡ length m
length-insert_known k v m e = ground (arith, length-insert k v m)

pub update_job-IsSteady :
    (f : Job → Option Job) (id : String) (m : JobManager) → IsSteady m (update_job f id m)
unfolding update_job
update_job-IsSteady f id m = elim (Option-cases (lookup id m.jobs)) [
  | inl e ↦ rw (e, update_job) (IsSteady-refl m)
  | inr (j, e) ↦
      rw (e, update_job)
        (elim (Option-cases (f j)) [
          | inl g ↦ rw g (IsSteady-refl m)
          | inr (j', g) ↦ rw g (record {
            same_starting = refl;
            same_semaphore = refl;
            no_more = omega (arith, length-insert_known id j' m.jobs e);
          })
        ])
]

length-stop_all : (jobs : Map Job) → length (stop_all jobs) ≡ length jobs
unfolding stop_all
length-stop_all [] = refl
length-stop_all ((id, j) ∷ jobs) = ap suc (length-stop_all jobs)

pub stop_jobs-IsSteady : (m : JobManager) → IsSteady m (stop_jobs m)
unfolding stop_jobs
stop_jobs-IsSteady m = record {
  same_starting = refl;
  same_semaphore = refl;
  no_more = omega (arith, length-stop_all m.jobs);
}

pub close_manager-IsSteady : (m : JobManager) → IsSteady m (close_manager m)
unfolding close_manager
close_manager-IsSteady m = record {
  same_starting = refl;
  same_semaphore = refl;
  no_more = omega arith;
}

-- Cancelling changes neither who holds a key nor the number of reservations.
pub length-cancel_starting :
    (starting : Map Reservation) → length (cancel_starting starting) ≡ length starting
unfolding cancel_starting
length-cancel_starting [] = refl
length-cancel_starting ((key, r) ∷ starting) = ap suc (length-cancel_starting starting)

lookup-cancel_starting-none :
    (key : String) (starting : Map Reservation)
    → lookup key starting ≡ none
    → lookup key (cancel_starting starting) ≡ none
unfolding cancel_starting lookup
lookup-cancel_starting-none key [] e = refl
lookup-cancel_starting-none key ((k, r) ∷ starting) e =
    ground (arith, lookup-cancel_starting-none key starting)

pub owns-cancel_starting :
    (number : ℕ) (key : String) (starting : Map Reservation)
    → owns number (lookup key (cancel_starting starting)) ≡ owns number (lookup key starting)
unfolding cancel_starting lookup owns
owns-cancel_starting number key [] = refl
owns-cancel_starting number key ((k, r) ∷ starting) =
    ground (arith, owns-cancel_starting number key starting)

pub cancel_starting-UniqueKeys :
    (starting : Map Reservation) → UniqueKeys starting → UniqueKeys (cancel_starting starting)
unfolding cancel_starting
cancel_starting-UniqueKeys [] u = tt
cancel_starting-UniqueKeys ((k, r) ∷ starting) u =
    (lookup-cancel_starting-none k starting u.0, cancel_starting-UniqueKeys starting u.1)

length-delete_absent :
    {V : Type 0} (k : String) (m : Map V) → lookup k m ≡ none → length (delete k m) ≡ length m
unfolding delete lookup
length-delete_absent k [] h = refl
length-delete_absent k ((j, w) ∷ m) h = ground (arith, length-delete_absent k m)

-- Deleting a key that is there takes one entry.
pub length-delete_known :
    {V : Type 0} (k : String) (m : Map V)
    → UniqueKeys m
    → is_some (lookup k m) ≡ true
    → suc (length (delete k m)) ≡ length m
unfolding delete lookup
length-delete_known k [] u h = ground arith
length-delete_known k ((j, w) ∷ m) u h =
    ground (arith, eq_iff j k, length-delete_absent k m, length-delete_known k m u.1)
