-- ===== src/Node/Jobs/Manager/Shut.antt =====
-- Changes of a closed job manager (internal/node/jobs.go), which add no job.
use fast_spider.Prelude.{
  ℕ, ◌≡◌, refl, sym, ap, ◌∙◌, inl, inr, true, ◌&&◌, ◌||◌, List, [], ◌∷◌, Option, none, some, String,
  Map, arith, Bool-cases, Option-cases, length, lookup, insert, leb, str_eq, eq_iff, lookup-insert,
  lookup-delete,
}
use fast_spider.Node.Jobs.Job.{Text, Job, is_terminal_job_state}
use fast_spider.Node.Jobs.Manager.Tables.{
  JobManager, max_retained_jobs, is_expired, cleanup_step, cleanup_steps, cleanup_locked,
  note_persist,
}
use fast_spider.Node.Jobs.Manager.Starting.{Launch, refused, manager_closed, commit, admit}
use fast_spider.Node.Jobs.Manager.Stopping.{update_job, stop_all}

-- The manager stays closed and gets no job that it does not have.
pub record IsShut (m m' : JobManager) : Type 0 where
  pub still_closed : m'.closed ≡ true
  pub no_new : (id : String) → lookup id m.jobs ≡ none → lookup id m'.jobs ≡ none

pub IsShut-refl : (m : JobManager) → m.closed ≡ true → IsShut m m
IsShut-refl m c = record { still_closed = c; no_new = λ id e. e }

IsShut-trans : {a b c : JobManager} → IsShut a b → IsShut b c → IsShut a c
IsShut-trans p q = record {
  still_closed = q.still_closed;
  no_new = λ id e. q.no_new id (p.no_new id e);
}

pub note_persist-IsShut :
    (e : Option Text) (m : JobManager) → m.closed ≡ true → IsShut m (note_persist e m)
unfolding note_persist
note_persist-IsShut none m c = IsShut-refl m c
note_persist-IsShut (some e) m c = record { still_closed = c; no_new = λ id e. e }

cleanup_step-IsShut :
    (now : ℕ) (m : JobManager) (at : String) (o : Option Job)
    → m.closed ≡ true
    → IsShut m (cleanup_step now m at o)
unfolding cleanup_step
cleanup_step-IsShut now m at none c = IsShut-refl m c
cleanup_step-IsShut now m at (some j) c =
    elim (Bool-cases (
      is_terminal_job_state j.state
      && (is_expired now j || leb max_retained_jobs (length m.jobs)))) [
        | inl e ↦ rw e (record {
          still_closed = c;
          no_new = λ id f. ground (arith, lookup-delete at id m.jobs, f);
        })
        | inr e ↦ rw e (record { still_closed = c; no_new = λ id f. f })
      ]

cleanup_steps-IsShut :
    (now : ℕ) (ids : List String) (m : JobManager)
    → m.closed ≡ true
    → IsShut m (cleanup_steps now ids m)
unfolding cleanup_steps
cleanup_steps-IsShut now [] m c = IsShut-refl m c
cleanup_steps-IsShut now (at ∷ ids) m c =
    let p = cleanup_step-IsShut now m at (lookup at m.jobs) c in
    IsShut-trans p
      (cleanup_steps-IsShut now ids (cleanup_step now m at (lookup at m.jobs)) p.still_closed)

pub cleanup_locked-IsShut :
    (now : ℕ) (e : Option Text) (m : JobManager)
    → m.closed ≡ true
    → IsShut m (cleanup_locked now e m)
unfolding cleanup_locked
cleanup_locked-IsShut now e m c =
    let p = cleanup_steps-IsShut now m.order (record m { order = [] }) c in
    let q =
      note_persist-IsShut e (cleanup_steps now m.order (record m { order = [] })) p.still_closed in
    record { still_closed = q.still_closed; no_new = λ id f. q.no_new id (p.no_new id f) }

lookup-insert_absent :
    {V : Type 0} (at id : String) (v w : V) (m : Map V)
    → lookup at m ≡ some w
    → lookup id m ≡ none
    → lookup id (insert at v m) ≡ none
lookup-insert_absent at id v w m e f = elim (Bool-cases (str_eq at id)) [
  | inl same ↦
      let p : at ≡ id = ground (arith, eq_iff at id) in
      let clash : some w ≡ none = sym e ∙ ap (λ x. lookup x m) p ∙ f in absurd (ground arith)
  | inr other ↦ rw (lookup-insert at id v m, other) f
]

pub update_job-IsShut :
    (f : Job → Option Job) (at : String) (m : JobManager)
    → m.closed ≡ true
    → IsShut m (update_job f at m)
unfolding update_job
update_job-IsShut f at m c = elim (Option-cases (lookup at m.jobs)) [
  | inl e ↦ rw (e, update_job) (IsShut-refl m c)
  | inr (j, e) ↦
      rw (e, update_job)
        (elim (Option-cases (f j)) [
          | inl g ↦ rw g (IsShut-refl m c)
          | inr (j', g) ↦ rw g (record {
            still_closed = c;
            no_new = λ id h. lookup-insert_absent at id j' j m.jobs e h;
          })
        ])
]

pub lookup-stop_all :
    (id : String) (jobs : Map Job) → lookup id jobs ≡ none → lookup id (stop_all jobs) ≡ none
unfolding stop_all lookup
lookup-stop_all id [] e = refl
lookup-stop_all id ((at, j) ∷ jobs) e = ground (arith, lookup-stop_all id jobs)

pub commit_closed :
    (key hash : String) (number : ℕ) (launch : Launch) (j : Job) (m : JobManager)
    → m.closed ≡ true
    → commit key hash number launch j m ≡ (m, some manager_closed)
unfolding commit
commit_closed key hash number launch j m c = ground arith

pub admit_closed :
    (now : ℕ) (e : Option Text) (key hash : String) (number : ℕ) (m : JobManager)
    → m.closed ≡ true
    → admit now e key hash number m ≡ (m, refused manager_closed)
unfolding admit
admit_closed now e key hash number m c = ground arith
