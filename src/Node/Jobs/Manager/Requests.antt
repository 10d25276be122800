-- ===== src/Node/Jobs/Manager/Requests.antt =====
-- A request to the job manager (internal/node/jobs.go, StartExecution) keeps its limits.
use fast_spider.Prelude.{
  ℕ, ◌+◌, ◌<◌, ◌≡◌, refl, ap, subst, ◌∙◌, inl, inr, true, false, ◌||◌, List, [], ◌∷◌, ◌++◌, Option,
  none, some, String, Map, arith, if-cases, Bool-cases, is_some, length, lookup, insert, leb,
  str_eq, eq_iff, insert-UniqueKeys, lookup-insert, lookup-insert_self, appended,
}
use fast_spider.Node.Jobs.Job.{Text, Job}
use fast_spider.Node.Jobs.Manager.Tables.{
  JobManager, Reservation, IdempotencyRecord, max_retained_jobs, max_concurrent_jobs,
  cleanup_locked,
}
use fast_spider.Node.Jobs.Manager.Starting.{
  conflict, replay_job, Refusal, Admission, manager_closed, persistence, refused, waits, owns,
  reserve, admit_at, admit,
}
use fast_spider.Node.Jobs.Manager.System.{preparing, Starter, System, asked}
use fast_spider.Node.Jobs.Manager.Steady.{IsSteady, IsSteady-refl, cleanup_locked-IsSteady}
use fast_spider.Node.Jobs.Manager.Slots.{
  AllHeld, IsAdmitted, owns-is_some, releasing_count, releasing_count-append, steady-IsAdmitted,
  length-insert_new,
}

AllHeld-asked :
    (old : Map Reservation) (starters : List Starter) (key hash : String) (r : Reservation)
    → lookup key old ≡ none
    → r.number ≡ length starters
    → AllHeld old starters
    → AllHeld
        (insert key r old)
        (starters ++ record { key = key; spec_hash = hash; phase = preparing } ∷ [])
unfolding owns
AllHeld-asked old starters key hash r free n h i k e active = elim (appended starters i e) [
  | inl found ↦
      let mine = h i k found active in
      rw (lookup-insert key k.key r old) (elim (Bool-cases (str_eq key k.key)) [
        | inl same ↦
            let p : key ≡ k.key = ground (arith, eq_iff key k.key) in
            let none_there : lookup k.key old ≡ none = subst (λ x. lookup x old ≡ none) p free in
            let some_there : is_some (lookup k.key old) ≡ true =
              owns-is_some i (lookup k.key old) mine in
            absurd (ground arith)
        | inr other ↦ rw other mine
      ])
  | inr (last, new) ↦
      let here : owns i (some r) ≡ true = ground arith in
      rw (ap (λ x. x.key) new, lookup-insert_self key r old) here
]

reserve-IsAdmitted :
    (s : System) (key hash : String)
    → IsAdmitted s
    → lookup key s.manager.starting ≡ none
    → IsAdmitted (asked s key hash (reserve key hash (length s.starters) s.manager))
unfolding reserve asked releasing_count
reserve-IsAdmitted s key hash a free =
    let m = s.manager in
    elim (Bool-cases (is_some m.store_err)) [
      | inl e ↦ rw e a
      | inr e ↦
          elim (Bool-cases (
            leb max_retained_jobs (length m.jobs + length m.starting)
            || leb max_concurrent_jobs m.semaphore)) [
              | inl f ↦ rw (e, f) a
              | inr f ↦
                  let longer =
                    length-insert_new key
                      (record { number = length s.starters; spec_hash = hash; cancelled = false })
                      m.starting free in
                  let room : length m.jobs + length m.starting < max_retained_jobs = ground arith in
                  rw (e, f)
                    (record {
                      unique = insert-UniqueKeys key _ m.starting a.unique;
                      held = AllHeld-asked m.starting s.starters key hash _ free refl a.held;
                      slots = omega (
                        arith,
                        a.slots,
                        longer,
                        releasing_count-append s.starters
                            (record { key = key; spec_hash = hash; phase = preparing } ∷ []),
                      );
                      few = ground (arith, a.few);
                      kept = omega (arith, longer, room);
                    })
            ]
    ]

-- Any answer but a reservation leaves the starts as they are.
answered-IsAdmitted :
    (s : System) (key hash : String) (m : JobManager) (r : Refusal)
    → IsAdmitted s
    → IsSteady s.manager m
    → IsAdmitted (asked s key hash (m, refused r))
unfolding asked
answered-IsAdmitted s key hash m r a p = steady-IsAdmitted s m p a

waiting-IsAdmitted :
    (s : System) (key hash : String) (n : ℕ)
    → IsAdmitted s
    → IsAdmitted (asked s key hash (s.manager, waits n))
unfolding asked
waiting-IsAdmitted s key hash n a = a

replayed-IsAdmitted :
    (s : System) (key hash : String) (o : Option Job)
    → IsAdmitted s
    → IsAdmitted (asked s key hash (s.manager, replay_job o))
unfolding asked replay_job
replayed-IsAdmitted s key hash none a = a
replayed-IsAdmitted s key hash (some j) a = a

admit_at-IsAdmitted :
    (s : System) (now : ℕ) (persisted : Option Text) (key hash : String)
    (previous : Option IdempotencyRecord) (pending : Option Reservation)
    → IsAdmitted s
    → lookup key s.manager.starting ≡ pending
    → IsAdmitted (
        asked s key hash
          (admit_at now persisted key hash (length s.starters) s.manager previous pending))
unfolding admit_at asked
admit_at-IsAdmitted s now persisted key hash (some previous) pending a e =
    if-cases (λ r. IsAdmitted (asked s key hash (s.manager, r))) (str_eq previous.spec_hash hash)
      (λ f. replayed-IsAdmitted s key hash (lookup previous.job_id s.manager.jobs) a)
      (λ f. answered-IsAdmitted s key hash s.manager conflict a (IsSteady-refl s.manager))
admit_at-IsAdmitted s now persisted key hash none (some r) a e =
    if-cases (λ x. IsAdmitted (asked s key hash (s.manager, x))) (str_eq r.spec_hash hash)
      (λ f. waiting-IsAdmitted s key hash r.number a)
      (λ f. answered-IsAdmitted s key hash s.manager conflict a (IsSteady-refl s.manager))
admit_at-IsAdmitted s now persisted key hash none none a e =
    let p = cleanup_locked-IsSteady now persisted s.manager in
    let m = cleanup_locked now persisted s.manager in
    reserve-IsAdmitted (record s { manager = m }) key hash (steady-IsAdmitted s m p a)
      (ap (lookup key) p.same_starting ∙ e)

pub admit-IsAdmitted :
    (s : System) (now : ℕ) (persisted : Option Text) (key hash : String)
    → IsAdmitted s
    → IsAdmitted (asked s key hash (admit now persisted key hash (length s.starters) s.manager))
unfolding admit
admit-IsAdmitted s now persisted key hash a =
    let P : JobManager × Admission → Type 0 = λ r. IsAdmitted (asked s key hash r) in
    let no : (r : Refusal) → P (s.manager, refused r) =
      λ r. answered-IsAdmitted s key hash s.manager r a (IsSteady-refl s.manager) in
    if-cases P s.manager.closed (λ e. no manager_closed)
      (λ e.
        if-cases P (is_some s.manager.store_err) (λ e. no persistence)
          (λ e.
            admit_at-IsAdmitted s now persisted key hash (lookup key s.manager.idempotency)
              (lookup key s.manager.starting) a refl))
