-- ===== src/Node/Jobs/Manager/Slots.antt =====
-- What the limits of the job manager (internal/node/jobs.go) rest on, and that a start keeps it.
use fast_spider.Prelude.{
  ℕ, suc, ◌+◌, ◌≤◌, ◌≡◌, refl, sym, ap, ◌∙◌, ◌≢◌, inl, inr, Bool, true, false, ◌||◌, not, List, [],
  ◌∷◌, Option, none, some, String, Map, arith, if-cases, Bool-cases, is_some, length, get_elem?,
  modify, lookup, insert, delete, str_eq, eq_iff, UniqueKeys, delete-UniqueKeys, lookup-delete,
  lookup-insert_self, length-insert, length-delete-lt, length-append, modified, zero, ◌++◌,
}
use native.Mathlib.Nat.{le_refl}
use fast_spider.Node.Jobs.Job.{Job}
use fast_spider.Node.Jobs.Manager.Tables.{
  JobManager, Reservation, max_retained_jobs, max_concurrent_jobs, note_persist,
}
use fast_spider.Node.Jobs.Manager.Starting.{
  Launch, Refusal, manager_closed, context_ended, persistence, start_failed, owns, is_cancelled,
  enter_job, commit, release, give_slot,
}
use fast_spider.Node.Jobs.Manager.System.{
  StartPhase, preparing, failing, releasing, gone, Starter, Runner, System, in_phase, committed,
}
use fast_spider.Node.Jobs.Manager.Steady.{
  IsSteady, IsSteady-refl, note_persist-IsSteady, length-delete_known,
}

abbrev pub is_active : StartPhase → Bool
is_active preparing = true
is_active failing = true
is_active releasing = false
is_active gone = false

-- Whether a start has given up its reservation and still has its slot.
abbrev pub slots_of : StartPhase → ℕ
slots_of preparing = 0
slots_of failing = 0
slots_of releasing = 1
slots_of gone = 0

-- The starts that have given up their reservation and not yet their slot.
unfoldable pub releasing_count : List Starter → ℕ
releasing_count [] = 0
releasing_count (k ∷ starters) = slots_of k.phase + releasing_count starters

releasing_count-modify :
    (starters : List Starter) (i : ℕ) (p : StartPhase) {k : Starter}
    → get_elem? starters i ≡ some k
    → releasing_count (modify starters i (in_phase p)) + slots_of k.phase
      ≡ releasing_count starters + slots_of p
unfolding releasing_count in_phase
releasing_count-modify [] i p e = absurd (ground arith)
releasing_count-modify (q ∷ starters) zero p {k} e =
    let same : q ≡ k = ground (arith, e) in
    omega (arith, ap (λ (x : Starter). slots_of x.phase) same)
releasing_count-modify (q ∷ starters) (suc i) p e =
    omega (arith, releasing_count-modify starters i p e)

pub releasing_count-append :
    (starters more : List Starter)
    → releasing_count (starters ++ more) ≡ releasing_count starters + releasing_count more
unfolding releasing_count
releasing_count-append [] more = omega arith
releasing_count-append (k ∷ starters) more = omega (arith, releasing_count-append starters more)

active-slots_of : (p : StartPhase) → is_active p ≡ true → slots_of p ≡ 0
active-slots_of preparing e = refl
active-slots_of failing e = refl
active-slots_of releasing e = absurd (ground arith)
active-slots_of gone e = refl

-- Every start that has not returned has its own reservation in the table.
abbrev pub AllHeld : Map Reservation → List Starter → Type 0
AllHeld starting starters =
    (i : ℕ) (k : Starter)
    → get_elem? starters i ≡ some k
    → is_active k.phase ≡ true
    → owns i (lookup k.key starting) ≡ true

pub record IsAdmitted (s : System) : Type 0 where
  pub unique : UniqueKeys s.manager.starting
  pub held : AllHeld s.manager.starting s.starters
  pub slots :
      s.manager.semaphore
      ≡ length s.manager.starting + length s.runners + releasing_count s.starters
  pub few : s.manager.semaphore ≤ max_concurrent_jobs
  pub kept : length s.manager.jobs + length s.manager.starting ≤ max_retained_jobs

pub owns-is_some : (i : ℕ) (o : Option Reservation) → owns i o ≡ true → is_some o ≡ true
unfolding owns
owns-is_some i none h = ground arith
owns-is_some i (some r) h = refl

pub owns_once : (i j : ℕ) (o : Option Reservation) → owns i o ≡ true → owns j o ≡ true → i ≡ j
unfolding owns
owns_once i j none h k = ground arith
owns_once i j (some r) h k = ground arith

pub length-insert_new :
    {V : Type 0} (k : String) (v : V) (m : Map V)
    → lookup k m ≡ none
    → length (insert k v m) ≡ suc (length m)
length-insert_new k v m e = ground (arith, length-insert k v m)

length-insert-le :
    (id : String) (j : Job) (jobs : Map Job) → length (insert id j jobs) ≤ suc (length jobs)
length-insert-le id j jobs = ground (arith, length-insert id j jobs)

undone-le :
    (id : String) (j : Job) (jobs : Map Job) → length (delete id (insert id j jobs)) ≤ length jobs
undone-le id j jobs = omega (
  arith,
  length-insert-le id j jobs,
  length-delete-lt id (insert id j jobs) (ap is_some (lookup-insert_self id j jobs)),
)

pub steady-IsAdmitted :
    (s : System) (m : JobManager)
    → IsSteady s.manager m
    → IsAdmitted s
    → IsAdmitted (record s { manager = m })
steady-IsAdmitted s m p a = record {
  unique = rw p.same_starting a.unique;
  held = rw p.same_starting a.held;
  slots = p.same_semaphore ∙ rw p.same_starting a.slots;
  few = omega (arith, p.same_semaphore, a.few);
  kept = rw p.same_starting (omega (arith, p.no_more, a.kept));
}

module _ (starters : List Starter) (i : ℕ) (k : Starter) (at : get_elem? starters i ≡ some k) where
  -- One start moves on and another table comes in.
  AllHeld-moved :
      (old new : Map Reservation) (p : StartPhase)
      → AllHeld old starters
      → (is_active p ≡ true → owns i (lookup k.key new) ≡ true)
      → ((j : ℕ) (q : String) → i ≢ j → owns j (lookup q old) ≡ true → owns j (lookup q new) ≡ true)
      → AllHeld new (modify starters i (in_phase p))
  unfolding in_phase
  AllHeld-moved old new p h mine others j k' e active =
      elim (modified starters i j (in_phase p) e) [
        | inl (same, (q, found, out)) ↦
            let known : q ≡ k = ground (arith, at, found, ap (get_elem? starters) same) in
            let here : owns i (lookup k.key new) ≡ true =
              mine (sym (ap (λ x. is_active x.phase) out) ∙ active) in
            rw (← same, ap (λ x. x.key) out, known) here
        | inr (ne, found) ↦ others j k'.key ne (h j k' found active)
      ]

  owns-delete :
      (starting : Map Reservation)
      → owns i (lookup k.key starting) ≡ true
      → (j : ℕ) (q : String) → i ≢ j
      → owns j (lookup q starting) ≡ true
      → owns j (lookup q (delete k.key starting)) ≡ true
  owns-delete starting mine j q ne h = elim (Bool-cases (str_eq k.key q)) [
    | inl e ↦
        let same : k.key ≡ q = ground (arith, eq_iff k.key q) in
        absurd (ne (owns_once i j (lookup k.key starting) mine (rw same h)))
    | inr e ↦ rw (lookup-delete k.key q starting, e) h
  ]

  -- The start at the place moves on without leaving the table.
  pub kept-IsAdmitted :
      (m : JobManager) (runners : List Runner) (p : StartPhase)
      → IsAdmitted (record { manager = m; starters = starters; runners = runners })
      → is_active k.phase ≡ true
      → slots_of p ≡ 0
      → IsAdmitted
          (record { manager = m; starters = modify starters i (in_phase p); runners = runners })
  kept-IsAdmitted m runners p a active none_freed = record {
    unique = a.unique;
    held = AllHeld-moved m.starting m.starting p a.held (λ _. a.held i k at active) (λ j q ne h. h);
    slots = omega (
      arith,
      a.slots,
      releasing_count-modify starters i p at,
      active-slots_of k.phase active,
      none_freed,
    );
    few = a.few;
    kept = a.kept;
  }

  -- It leaves the table and keeps its slot.
  pub release-IsAdmitted :
      (m : JobManager) (runners : List Runner)
      → IsAdmitted (record { manager = m; starters = starters; runners = runners })
      → is_active k.phase ≡ true
      → IsAdmitted (record {
        manager = release k.key i m;
        starters = modify starters i (in_phase releasing);
        runners = runners;
      })
  unfolding release
  release-IsAdmitted m runners a active =
      let mine = a.held i k at active in
      let fewer =
        length-delete_known k.key m.starting a.unique
          (owns-is_some i (lookup k.key m.starting) mine) in
      rw mine (record {
        unique = delete-UniqueKeys k.key m.starting a.unique;
        held =
            AllHeld-moved m.starting (delete k.key m.starting) releasing a.held (λ f. ground arith)
              (owns-delete m.starting mine);
        slots = omega (
          arith,
          a.slots,
          fewer,
          releasing_count-modify starters i releasing at,
          active-slots_of k.phase active,
        );
        few = a.few;
        kept = omega (arith, a.kept);
      })

  -- It gives its slot back.
  pub give_slot-IsAdmitted :
      (m : JobManager) (runners : List Runner)
      → IsAdmitted (record { manager = m; starters = starters; runners = runners })
      → k.phase ≡ releasing
      → IsAdmitted (record {
        manager = give_slot m;
        starters = modify starters i (in_phase gone);
        runners = runners;
      })
  unfolding give_slot
  give_slot-IsAdmitted m runners a phase =
      let one : slots_of k.phase ≡ 1 = ap slots_of phase in
      let moved = releasing_count-modify starters i gone at in
      record {
        unique = a.unique;
        held = AllHeld-moved m.starting m.starting gone a.held (λ f. ground arith) (λ j q ne h. h);
        slots = omega (arith, a.slots, moved, one);
        few = omega (arith, a.few);
        kept = a.kept;
      }

  -- A job takes its place in the table and its slot.
  enter_job-IsAdmitted :
      (m : JobManager) (runners : List Runner) (hash : String) (launch : Launch) (job : Job)
      → IsAdmitted (record { manager = m; starters = starters; runners = runners })
      → is_active k.phase ≡ true
      → IsAdmitted (
          committed
            (record { manager = m; starters = starters; runners = runners })
            i
            launch.job_id
            (enter_job k.key hash launch job m))
  unfolding enter_job committed
  enter_job-IsAdmitted m runners hash launch job a active =
      let mine = a.held i k at active in
      let fewer =
        length-delete_known k.key m.starting a.unique
          (owns-is_some i (lookup k.key m.starting) mine) in
      elim (Bool-cases (is_some launch.stored)) [
        | inl e ↦ rw e (
            kept-IsAdmitted _ runners failing
              (steady-IsAdmitted (record { manager = m; starters = starters; runners = runners }) _
                (record {
                  same_starting = refl;
                  same_semaphore = refl;
                  no_more = undone-le launch.job_id job m.jobs;
                })
                a)
              active refl)
        | inr e ↦ rw e (record {
          unique = delete-UniqueKeys k.key m.starting a.unique;
          held =
              AllHeld-moved m.starting (delete k.key m.starting) gone a.held (λ f. ground arith)
                (owns-delete m.starting mine);
          slots = omega (
            arith,
            a.slots,
            length-append runners (record { job_id = launch.job_id; ended = false } ∷ []),
            releasing_count-modify starters i gone at,
            active-slots_of k.phase active,
          );
          few = a.few;
          kept = omega (arith, a.kept, length-insert-le launch.job_id job m.jobs);
        })
      ]

  refused-IsAdmitted :
      (m m' : JobManager) (runners : List Runner) (id : String) (refusal : Refusal)
      → IsAdmitted (record { manager = m; starters = starters; runners = runners })
      → is_active k.phase ≡ true
      → IsSteady m m'
      → IsAdmitted (
          committed
            (record { manager = m; starters = starters; runners = runners })
            i
            id
            (m', some refusal))
  unfolding committed
  refused-IsAdmitted m m' runners id refusal a active p =
      kept-IsAdmitted m' runners failing
        (steady-IsAdmitted (record { manager = m; starters = starters; runners = runners }) m' p a)
        active refl

  pub commit-IsAdmitted :
      (m : JobManager) (runners : List Runner) (launch : Launch) (job : Job)
      → IsAdmitted (record { manager = m; starters = starters; runners = runners })
      → is_active k.phase ≡ true
      → IsAdmitted (
          committed
            (record { manager = m; starters = starters; runners = runners })
            i
            launch.job_id
            (commit k.key k.spec_hash i launch job m))
  unfolding commit
  commit-IsAdmitted m runners launch job a active =
      let s : System = record { manager = m; starters = starters; runners = runners } in
      let P : JobManager × Option Refusal → Type 0 =
        λ r. IsAdmitted (committed s i launch.job_id r) in
      let no : (m' : JobManager) (refusal : Refusal) → IsSteady m m' → P (m', some refusal) =
        λ m' refusal p. refused-IsAdmitted m m' runners launch.job_id refusal a active p in
      if-cases P (m.closed || not (owns i (lookup k.key m.starting)))
        (λ e. no m manager_closed (IsSteady-refl m))
        (λ e.
          if-cases P (is_cancelled (lookup k.key m.starting) || launch.context_ended)
            (λ e. no m context_ended (IsSteady-refl m))
            (λ e.
              if-cases P (is_some launch.recorded)
                (λ e.
                  no (record m { store_err = launch.recorded }) persistence
                    (record {
                      same_starting = refl;
                      same_semaphore = refl;
                      no_more = le_refl (length m.jobs);
                    }))
                (λ e.
                  if-cases P (is_some launch.started)
                    (λ e.
                      no (note_persist launch.stored m) start_failed
                        (note_persist-IsSteady launch.stored m))
                    (λ e. enter_job-IsAdmitted m runners k.spec_hash launch job a active))))
