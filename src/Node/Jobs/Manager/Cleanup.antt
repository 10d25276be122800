-- ===== src/Node/Jobs/Manager/Cleanup.antt =====
-- What the job manager forgets (internal/node/jobs.go, cleanupLocked) and remembers by its
-- idempotency keys (StartExecution).
use fast_spider.Prelude.{
  ℕ, ◌≤◌, ◌≡◌, refl, sym, ap, ◌∙◌, inl, inr, Bool, false, ◌&&◌, ◌||◌, List, [], ◌∷◌, Option, none,
  some, String, arith, if◌then◌else◌, Bool-cases, length, lookup, leb, str_eq, eq_iff,
  lookup-delete, lookup-insert_self, ◌+◌, ◌<◌, ◌⊎◌,
}
use fast_spider.Node.Jobs.Job.{Text, Job, is_terminal_job_state, snapshot_after}
use fast_spider.Node.Jobs.Manager.Tables.{
  JobManager, max_retained_jobs, job_retention, is_expired, cleanup_step, cleanup_steps,
  cleanup_locked, note_persist,
}
use fast_spider.Node.Jobs.Manager.Starting.{
  Launch, refused, replayed, conflict, commit, enter_job, admit, admit_at, replay_job,
}
use fast_spider.Node.Jobs.Manager.Steady.{cleanup_step-IsSteady}

-- The loop may forget this job when that many jobs are kept.
unfoldable may_forget : ℕ → ℕ → Job → Bool
may_forget now kept j =
    is_terminal_job_state j.state && (is_expired now j || leb max_retained_jobs kept)

may_forget_mono :
    (now a b : ℕ) (j : Job) → a ≤ b → may_forget now b j ≡ false → may_forget now a j ≡ false
unfolding may_forget
may_forget_mono now a b j le h = ground arith

cleanup_step-lookup :
    (now : ℕ) (m : JobManager) (at id : String) (o : Option Job) (j : Job)
    → lookup at m.jobs ≡ o
    → lookup id m.jobs ≡ some j
    → may_forget now (length m.jobs) j ≡ false
    → lookup id (cleanup_step now m at o).jobs ≡ some j
unfolding cleanup_step may_forget
cleanup_step-lookup now m at id none j e f h = f
cleanup_step-lookup now m at id (some q) j e f h =
    elim (Bool-cases (may_forget now (length m.jobs) q)) [
      | inl g ↦ elim (Bool-cases (str_eq at id)) [
        | inl same ↦
            let p : at ≡ id = ground (arith, eq_iff at id) in
            let known : some j ≡ some q = sym f ∙ ap (λ x. lookup x m.jobs) (sym p) ∙ e in
            absurd (ground (arith, h, g, known))
        | inr other ↦ rw (g, lookup-delete at id m.jobs, other) f
      ]
      | inr g ↦ rw g f
    ]

cleanup_steps-lookup :
    (now : ℕ) (ids : List String) (m : JobManager) (id : String) (j : Job)
    → lookup id m.jobs ≡ some j
    → may_forget now (length m.jobs) j ≡ false
    → lookup id (cleanup_steps now ids m).jobs ≡ some j
unfolding cleanup_steps
cleanup_steps-lookup now [] m id j f h = f
cleanup_steps-lookup now (at ∷ ids) m id j f h =
    let o = lookup at m.jobs in
    cleanup_steps-lookup now ids (cleanup_step now m at o) id j
      (cleanup_step-lookup now m at id o j refl f h)
      (may_forget_mono now _ (length m.jobs) j (cleanup_step-IsSteady now m at o).no_more h)

note_persist-jobs : (e : Option Text) (m : JobManager) → (note_persist e m).jobs ≡ m.jobs
unfolding note_persist
note_persist-jobs none m = refl
note_persist-jobs (some e) m = refl

kept_reason :
    (now kept : ℕ) (j : Job)
    → (is_terminal_job_state j.state ≡ false)
      ⊎ ((kept < max_retained_jobs) × ((j.finished_at ≡ 0) ⊎ (now ≤ j.finished_at + job_retention)))
    → may_forget now kept j ≡ false
unfolding may_forget is_expired
kept_reason now kept j (inl running) = rw running refl
kept_reason now kept j (inr (few, inl blank)) = ground (arith, few, blank)
kept_reason now kept j (inr (few, inr recent)) = ground (arith, few, recent)

-- A cleanup keeps, unchanged, every job that has not ended, and, while fewer than 128 jobs are kept at
-- its start, every one without an end time or whose end is at most the retention time ago.
pub cleanup_keeps :
    (now : ℕ) (persisted : Option Text) (m : JobManager) (id : String) (j : Job)
    → lookup id m.jobs ≡ some j
    → (is_terminal_job_state j.state ≡ false)
      ⊎ ((length m.jobs < max_retained_jobs)
          × ((j.finished_at ≡ 0) ⊎ (now ≤ j.finished_at + job_retention)))
    → lookup id (cleanup_locked now persisted m).jobs ≡ some j
unfolding cleanup_locked
cleanup_keeps now persisted m id j f h =
    ap (lookup id)
      (note_persist-jobs persisted (cleanup_steps now m.order (record m { order = [] })))
    ∙ cleanup_steps-lookup now m.order (record m { order = [] }) id j f
        (kept_reason now (length m.jobs) j h)

enter_job-replay :
    (key hash other : String) (launch : Launch) (j : Job) (m : JobManager) (o : Option Text)
    (now number : ℕ)
    → launch.stored ≡ none
    → m.closed ≡ false
    → m.store_err ≡ none
    → admit now o key other number (enter_job key hash launch j m).0 ≡ (
      (enter_job key hash launch j m).0,
      if str_eq hash other
          then replayed (record ((snapshot_after 0 j).0) { events = [] })
          else refused conflict,
    )
unfolding enter_job admit admit_at replay_job
enter_job-replay key hash other launch j m o now number stored not_closed fine =
    rw (stored, not_closed, fine, lookup-insert_self, lookup-insert_self) refl

-- A commit that answers no error found the manager open and the store working.
commit_succeeds :
    (key hash : String) (number : ℕ) (launch : Launch) (j : Job) (m : JobManager)
    → (commit key hash number launch j m).1 ≡ none
    → (m.closed ≡ false)
      × (launch.stored ≡ none)
      × (commit key hash number launch j m ≡ enter_job key hash launch j m)
unfolding commit enter_job
commit_succeeds key hash number launch j m e = (ground arith, ground arith, ground arith)

-- After a start was committed while the store worked, a request with its key starts nothing: with
-- the same hash it gets the snapshot of that job without events, with another one the conflict error.
pub committed_key_replays :
    (key hash other : String) (number n now : ℕ) (o : Option Text) (launch : Launch) (j : Job)
    (m : JobManager)
    → (commit key hash number launch j m).1 ≡ none
    → m.store_err ≡ none
    → admit now o key other n (commit key hash number launch j m).0 ≡ (
      (commit key hash number launch j m).0,
      if str_eq hash other
          then replayed (record ((snapshot_after 0 j).0) { events = [] })
          else refused conflict,
    )
committed_key_replays key hash other number n now o launch j m e fine =
    let (not_closed, stored, same) = commit_succeeds key hash number launch j m e in
    rw same (enter_job-replay key hash other launch j m o now n stored not_closed fine)
