-- ===== src/Node/FileEdit/Promises.antt =====
-- What an edit promises its caller (internal/node/file_edit.go, fileEdit).
use fast_spider.Prelude.{
  ◌≡◌, refl, ap, subst, sym, ◌∙◌, Bool, true, false, not, ◌&&◌, Option, none, some, ◌⊎◌, inl, inr,
  String, str_eq, arith, if◌then◌else◌, Bool-cases, ltb, length,
}
use fast_spider.Node.Jobs.Job.{Text}
use fast_spider.Node.FileEdit.Bytes.{text_eq}
use fast_spider.Node.FileEdit.Ranges.{EditError, invalid, file_system, max_editable_file_bytes}
use fast_spider.Node.FileEdit.Plan.{EditInput, PlannedEdit, FileInfo, System, plan_file_edit}
use fast_spider.Node.FileEdit.PlanFacts.{text_eq_sound, IsPlanOf, only_named_pieces_change}
use fast_spider.Node.FileEdit.Diff.{bounded_edit_diff}
use fast_spider.Node.FileEdit.Edit.{
  EditResult, WriteAnswers, Installed, Write, refused, hash_text, bounded_file_sha256,
  replace_checked, write_atomic_edited_file, write_atomic_created_file, requested_action,
  is_known_action, resolve_file_edit_lock_target, is_changed, edit_result, answer_write, write_plan,
  run_plan, under_lock, run_action, file_edit,
}

if-fst :
    {A B : Type 0} (test : Bool) (x y : A × B) {a : A}
    → (if test then x else y).0 ≡ a
    → ((test ≡ true) × (x.0 ≡ a)) ⊎ ((test ≡ false) × (y.0 ≡ a))
if-fst true x y e = inl (refl, e)
if-fst false x y e = inr (refl, e)

hash_text-inr :
    (os : System) (text : Option Text) (hash : Text)
    → hash_text os text ≡ inr hash
    → (now : Text) × (text ≡ some now) × (os.sha256 now ≡ hash)
unfolding hash_text
hash_text-inr os none hash e = absurd (ground arith)
hash_text-inr os (some now) hash e = elim (Bool-cases (ltb max_editable_file_bytes (length now))) [
  | inl b ↦ absurd (ground (arith, b, e))
  | inr b ↦ (now, refl, ground (arith, b, e))
]

bounded_file_sha256-inr :
    (os : System) (info : Option FileInfo) (text : Option Text) (hash : Text)
    → bounded_file_sha256 os info text ≡ inr hash
    → (now : Text) × (text ≡ some now) × (os.sha256 now ≡ hash)
unfolding bounded_file_sha256
bounded_file_sha256-inr os none text hash e = absurd (ground arith)
bounded_file_sha256-inr os (some info) text hash e = hash_text-inr os text hash (ground arith)

replace_checked-installs :
    (answers : WriteAnswers) (plan : PlannedEdit) (o : EditError ⊎ Text) (w : Installed)
    → (replace_checked answers plan o).0 ≡ some w
    → (o ≡ inr plan.before_sha) × (w ≡ record { target = plan.target; text = plan.after })
unfolding replace_checked
replace_checked-installs answers plan (inl fault) w e = absurd (ground arith)
replace_checked-installs answers plan (inr current) w e =
    elim (Bool-cases (text_eq current plan.before_sha)) [
      | inl same ↦ (ap inr (text_eq_sound current plan.before_sha same), ground (arith, same, e))
      | inr other ↦ absurd (ground (arith, other, e))
    ]

write_edited-installs :
    (os : System) (answers : WriteAnswers) (plan : PlannedEdit) (w : Installed)
    → (write_atomic_edited_file os answers plan).0 ≡ some w
    → ((now : Text) × (answers.target_text ≡ some now) × (os.sha256 now ≡ plan.before_sha))
      × (w ≡ record { target = plan.target; text = plan.after })
unfolding write_atomic_edited_file
write_edited-installs os answers plan w e =
    elim (if-fst (not answers.is_prepared) (refused file_system)
      (replace_checked answers plan
        (bounded_file_sha256 os answers.target_info answers.target_text))
      e) [
        | inl (b, f) ↦ absurd (ground arith)
        | inr (b, f) ↦
            let (hashed, wrote) = replace_checked-installs answers plan _ w f in
            (
              bounded_file_sha256-inr os answers.target_info answers.target_text plan.before_sha
                  hashed,
              wrote,
            )
      ]

answer_write-fst : (result : EditResult) (w : Write) → (answer_write result w).0 ≡ w.0
unfolding answer_write
answer_write-fst result (wrote, none) = refl
answer_write-fst result (wrote, some fault) = refl

and_not : (a b : Bool) → (a && not b) ≡ true → b ≡ false
and_not a b e = ground arith

answer_write-snd :
    (result r : EditResult) (w : Write) → (answer_write result w).1 ≡ inr r → r ≡ result
unfolding answer_write
answer_write-snd result r (wrote, none) e = ground arith
answer_write-snd result r (wrote, some fault) e = absurd (ground arith)

dry :
    (a : Bool) (result : EditResult) (w : Write)
    → answer_write result (if a && false then w else (none, none)) ≡ (none, inr result)
unfolding answer_write
dry true result w = refl
dry false result w = refl

preview_requests :
    (input : EditInput)
    → str_eq input.preview_of "preview" ≡ false
    → requested_action input "preview" ≡ requested_action input input.preview_of
unfolding requested_action
preview_requests input real = sym (
    ap
      (λ (t : Bool).
        if t
        then (if str_eq input.preview_of "edit" then "replace" else input.preview_of)
        else if str_eq input.preview_of "edit"
        then "replace"
        else input.preview_of)
      real)

-- The answer of a preview that shows this diff instead of writing.
abbrev pub as_preview : EditResult → Text × Bool → EditResult
as_preview r shown = record r { preview = true; diff = shown.0; diff_truncated = shown.1 }

module _ (bytes_of : String → Text) (os : System) (answers : WriteAnswers) where
  run_plan-installs :
      (preview : Bool) (requested : String) (o : EditError ⊎ PlannedEdit) (w : Installed)
      → (run_plan bytes_of os answers preview requested o).0 ≡ some w
      → (plan : PlannedEdit) × (o ≡ inr plan)
        × (preview ≡ false)
        × ((write_plan os answers requested plan).0 ≡ some w)
  unfolding run_plan
  run_plan-installs preview requested (inl fault) w e = absurd (ground arith)
  run_plan-installs preview requested (inr plan) w e =
      let test : Bool = is_changed requested plan && not preview in
      let written = sym (answer_write-fst (edit_result bytes_of os preview requested plan) _) ∙ e in
      elim (if-fst test (write_plan os answers requested plan) (none, none) written) [
        | inl (b, f) ↦ (plan, refl, and_not (is_changed requested plan) preview b, f)
        | inr (b, f) ↦ absurd (ground (arith, f))
      ]

  under_lock-installs :
      (input : EditInput) (preview : Bool) (requested : String) (o : EditError ⊎ Text)
      (w : Installed)
      → (under_lock bytes_of os answers input preview requested o).0 ≡ some w
      → (plan : PlannedEdit) × (plan_file_edit os input requested ≡ inr plan)
        × (preview ≡ false)
        × ((write_plan os answers requested plan).0 ≡ some w)
  unfolding under_lock
  under_lock-installs input preview requested (inl fault) w e = absurd (ground arith)
  under_lock-installs input preview requested (inr target) w e =
      run_plan-installs preview requested (plan_file_edit os input requested) w e

  file_edit-installs :
      (input : EditInput) (action : String) (w : Installed)
      → (file_edit bytes_of os answers input action).0 ≡ some w
      → (plan : PlannedEdit) × (plan_file_edit os input (requested_action input action) ≡ inr plan)
        × (str_eq action "preview" ≡ false)
        × ((write_plan os answers (requested_action input action) plan).0 ≡ some w)
  unfolding file_edit run_action
  file_edit-installs input action w e =
      let requested : String = requested_action input action in
      let locked = resolve_file_edit_lock_target os input.path requested in
      elim (if-fst (not (is_known_action requested)) (none, inl invalid)
        (under_lock bytes_of os answers input (str_eq action "preview") requested locked) e) [
          | inl (b, f) ↦ absurd (ground (arith, f))
          | inr (b, f) ↦ under_lock-installs input (str_eq action "preview") requested locked w f
        ]

  -- When an edit of an existing file installs a text, it is the planned text at the planned place, and
  -- the file's text, read once more at the write, still had the hash that the caller expects.
  pub no_lost_update :
      (input : EditInput) (action : String) (w : Installed)
      → str_eq (requested_action input action) "create" ≡ false
      → (file_edit bytes_of os answers input action).0 ≡ some w
      → (plan : PlannedEdit) × IsPlanOf os (requested_action input action) input plan
        × (w ≡ record { target = plan.target; text = plan.after })
        × ((now : Text) × (answers.target_text ≡ some now)
            × (os.sha256 now ≡ input.expected_sha256))
  unfolding write_plan
  no_lost_update input action w change e =
      let requested : String = requested_action input action in
      let (plan, planned, real, wrote) = file_edit-installs input action w e in
      let facts = only_named_pieces_change os requested input plan change planned in
      let edited : (write_atomic_edited_file os answers plan).0 ≡ some w =
        subst
          (λ (t : Bool).
            (if t
              then write_atomic_created_file answers plan
              else write_atomic_edited_file os answers plan).0
            ≡ some w)
          change wrote in
      let ((now, found, hash), same) = write_edited-installs os answers plan w edited in
      (plan, facts, same, (now, found, hash ∙ facts.hash_kept))

  run_plan-preview :
      (requested : String) (o : EditError ⊎ PlannedEdit) (r : EditResult)
      → (run_plan bytes_of os answers false requested o).1 ≡ inr r
      → (shown : Text × Bool) × (run_plan bytes_of os answers true requested o
          ≡ (none, inr (as_preview r shown)))
  unfolding run_plan edit_result
  run_plan-preview requested (inl fault) r e = absurd (ground arith)
  run_plan-preview requested (inr plan) r e =
      let same = answer_write-snd (edit_result bytes_of os false requested plan) r _ e in
      let shown : Text × Bool =
        bounded_edit_diff os.valid_utf8 (os.base plan.target) (bytes_of requested) plan.changes in
      (
        shown,
        dry (is_changed requested plan) (edit_result bytes_of os true requested plan)
              (write_plan os answers requested plan)
            ∙ ap (λ q. (none, inr (as_preview q shown))) (sym same),
      )

  under_lock-preview :
      (input : EditInput) (requested : String) (o : EditError ⊎ Text) (r : EditResult)
      → (under_lock bytes_of os answers input false requested o).1 ≡ inr r
      → (shown : Text × Bool) × (under_lock bytes_of os answers input true requested o
          ≡ (none, inr (as_preview r shown)))
  unfolding under_lock
  under_lock-preview input requested (inl fault) r e = absurd (ground arith)
  under_lock-preview input requested (inr target) r e =
      run_plan-preview requested (plan_file_edit os input requested) r e

  run_action-preview :
      (input : EditInput) (requested : String) (r : EditResult)
      → (run_action bytes_of os answers input false requested).1 ≡ inr r
      → (shown : Text × Bool) × (run_action bytes_of os answers input true requested
          ≡ (none, inr (as_preview r shown)))
  unfolding run_action
  run_action-preview input requested r e = elim (Bool-cases (not (is_known_action requested))) [
    | inl b ↦ absurd (ground (arith, b, e))
    | inr b ↦
        let locked = resolve_file_edit_lock_target os input.path requested in
        let taken : (under_lock bytes_of os answers input false requested locked).1 ≡ inr r =
          subst
            (λ (t : Bool).
              (if t
                then (none, inl invalid)
                else under_lock bytes_of os answers input false requested locked).1
              ≡ inr r)
            b e in
        let (shown, same) = under_lock-preview input requested locked r taken in
        (
          shown,
          ap
                (λ (t : Bool).
                  if t
                  then (none, inl invalid)
                  else under_lock bytes_of os answers input true requested locked)
                b
              ∙ same,
        )
  ]

  -- Where an edit succeeds, its preview under the same answers of the system installs nothing and
  -- answers the same, but for the mark of a preview and its diff.
  pub preview_predicts :
      (input : EditInput) (r : EditResult)
      → str_eq input.preview_of "preview" ≡ false
      → (file_edit bytes_of os answers input input.preview_of).1 ≡ inr r
      → (shown : Text × Bool) × (file_edit bytes_of os answers input "preview"
          ≡ (none, inr (as_preview r shown)))
  unfolding file_edit
  preview_predicts input r real e =
      let same = preview_requests input real in
      let run : (run_action bytes_of os answers input false
            (requested_action input input.preview_of)).1
          ≡ inr r =
        subst
          (λ preview.
            (run_action bytes_of os answers input preview
              (requested_action input input.preview_of)).1
            ≡ inr r)
          real e in
      let (shown, dry_run) =
        run_action-preview input (requested_action input input.preview_of) r run in
      (shown, ap (run_action bytes_of os answers input true) same ∙ dry_run)
