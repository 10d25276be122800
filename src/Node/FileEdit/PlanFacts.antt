-- ===== src/Node/FileEdit/PlanFacts.antt =====
-- What a plan says of the file it was made for (internal/node/file_edit.go, planFileEdit).
use fast_spider.Prelude.{
  ℕ, ◌≤◌, ◌≡◌, refl, subst, sym, ◌∙◌, Bool, true, false, not, List, [], ◌∷◌, Option, none, some,
  ◌⊎◌, inl, inr, String, str_eq, arith, if◌then◌else◌, ltb, ◌==◌, length, map,
}
use mathlib.Core.List.{Permᴰ}
use fast_spider.Node.Jobs.Job.{Text}
use fast_spider.Node.FileEdit.Bytes.{text_eq}
use fast_spider.Node.FileEdit.Newlines.{dominant_is_crlf}
use fast_spider.Node.FileEdit.Ranges.{
  TextEdit, EditError, invalid, read_limit, not_regular, binary_text, revision_conflict,
  max_editable_file_bytes, max_file_edits, normalized, find_ranges, sort_and_apply,
}
use fast_spider.Node.FileEdit.Plan.{
  EditInput, PlannedEdit, FileInfo, System, resolve_machine_path, valid_editable_text,
  requested_edits, planned_edit, plan_edits, plan_content, plan_stat, plan_target, plan_file_create,
  plan_file_edit,
}
use fast_spider.Node.FileEdit.Splice.{IsReplaced, sort_and_apply-IsReplaced}

pub text_eq_sound : (a b : Text) → text_eq a b ≡ true → a ≡ b
unfolding text_eq
text_eq_sound [] [] e = refl
text_eq_sound [] (c ∷ cs) e = absurd (ground arith)
text_eq_sound (b ∷ bs) [] e = absurd (ground arith)
text_eq_sound (b ∷ bs) (c ∷ cs) e =
    let heads : b ≡ c = ground arith in
    let tails = text_eq_sound bs cs (ground arith) in cc (heads, tails)

-- A result behind a guard has passed it.
pub guarded :
    (test : Bool) (fault : EditError) (o : EditError ⊎ PlannedEdit) (b : PlannedEdit)
    → (if test then inl fault else o) ≡ inr b
    → (test ≡ false) × (o ≡ inr b)
guarded true fault o b e = absurd (ground arith)
guarded false fault o b e = (refl, e)

-- The plan replaces exactly the given pieces of the text that the file had, whose hash is the given one.
pub record IsPlanOf (os : System) (action : String) (input : EditInput) (plan : PlannedEdit)
    : Type 0 where
  pub edits : List TextEdit
  pub requested : requested_edits action input ≡ inr edits
  pub few : length edits ≤ max_file_edits
  pub read : os.read_file plan.target ≡ some plan.before
  pub hashed : os.sha256 plan.before ≡ input.expected_sha256
  pub hash_kept : plan.before_sha ≡ input.expected_sha256
  pub replaced : IsReplaced plan.before plan.after plan.changes
  pub all_applied : Permᴰ plan.changes (map (normalized (dominant_is_crlf plan.before)) edits)
  pub bounded : length plan.after ≤ max_editable_file_bytes

planned_edit-inr :
    (target before sha : Text) (mode : ℕ) (o : EditError ⊎ (Text × List TextEdit))
    (plan : PlannedEdit)
    → planned_edit target before sha mode o ≡ inr plan
    → (o ≡ inr (plan.after, plan.changes))
      × (plan.target ≡ target)
      × (plan.before ≡ before)
      × (plan.before_sha ≡ sha)
unfolding planned_edit
planned_edit-inr target before sha mode (inl fault) plan e = absurd (ground arith)
planned_edit-inr target before sha mode (inr (after, changes)) plan e =
    (ground arith, ground arith, ground arith, ground arith)

module _ (os : System) (action : String) (input : EditInput) (plan : PlannedEdit) where
  plan_edits-IsPlanOf :
      (target before : Text) (mode : ℕ) (o : EditError ⊎ List TextEdit)
      → requested_edits action input ≡ o
      → os.read_file target ≡ some before
      → input.expected_sha256 ≡ os.sha256 before
      → plan_edits os target before mode o ≡ inr plan
      → IsPlanOf os action input plan
  unfolding plan_edits
  plan_edits-IsPlanOf target before mode (inl fault) asked found hash e = absurd (ground arith)
  plan_edits-IsPlanOf target before mode (inr edits) asked found hash e =
      let outcome : EditError ⊎ (Text × List TextEdit) =
        sort_and_apply before
          (find_ranges os.valid_utf8 (dominant_is_crlf before) before 0 edits) in
      let (few, e1) =
        guarded (ltb max_file_edits (length edits)) invalid
          (planned_edit target before (os.sha256 before) mode outcome) plan e in
      let (made, at, old, sha) =
        planned_edit-inr target before (os.sha256 before) mode outcome plan e1 in
      let (replaced, all, short) =
        sort_and_apply-IsReplaced os.valid_utf8 (dominant_is_crlf before) before plan.after edits
          plan.changes made in
      record {
        edits = edits;
        requested = asked;
        few = ground (arith, few);
        read = rw (at, old) found;
        hashed = rw old (sym hash);
        hash_kept = sha ∙ sym hash;
        replaced = rw old replaced;
        all_applied = rw old all;
        bounded = short;
      }

  plan_content-IsPlanOf :
      (target : Text) (mode : ℕ) (o : Option Text)
      → os.read_file target ≡ o
      → plan_content os action input target mode o ≡ inr plan
      → IsPlanOf os action input plan
  unfolding plan_content
  plan_content-IsPlanOf target mode none found e = absurd (ground arith)
  plan_content-IsPlanOf target mode (some before) found e =
      let hash_test : Bool = not (text_eq input.expected_sha256 (os.sha256 before)) in
      let planned : EditError ⊎ PlannedEdit =
        plan_edits os target before mode (requested_edits action input) in
      let (text_ok, e1) =
        guarded (not (valid_editable_text os before)) binary_text
          (if hash_test then inl revision_conflict else planned) plan e in
      let (hash_ok, e2) = guarded hash_test revision_conflict planned plan e1 in
      plan_edits-IsPlanOf target before mode (requested_edits action input) refl found
        (text_eq_sound input.expected_sha256 (os.sha256 before) (ground (arith, hash_ok))) e2

  plan_stat-IsPlanOf :
      (target : Text) (o : Option FileInfo)
      → plan_stat os action input target o ≡ inr plan
      → IsPlanOf os action input plan
  unfolding plan_stat
  plan_stat-IsPlanOf target none e = absurd (ground arith)
  plan_stat-IsPlanOf target (some info) e =
      let large : Bool = ltb max_editable_file_bytes info.size in
      let planned : EditError ⊎ PlannedEdit =
        plan_content os action input target info.mode (os.read_file target) in
      let (regular, e1) =
        guarded (not info.is_regular) not_regular (if large then inl read_limit else planned) plan
          e in
      let (small, e2) = guarded large read_limit planned plan e1 in
      plan_content-IsPlanOf target info.mode (os.read_file target) refl e2

  plan_target-IsPlanOf :
      (o : EditError ⊎ Text)
      → plan_target os action input o ≡ inr plan
      → IsPlanOf os action input plan
  unfolding plan_target
  plan_target-IsPlanOf (inl fault) e = absurd (ground arith)
  plan_target-IsPlanOf (inr target) e = plan_stat-IsPlanOf target (os.stat target) e

-- A plan for an existing file has the text that the file had when it was read, whose hash is the one
-- that the caller expects; the new text is the old one with the old text of every requested edit
-- replaced by its new text and every other byte kept; all requested edits are in it, in the file's
-- newlines, at most 64; and it has at most 2 MiB.
pub only_named_pieces_change :
    (os : System) (action : String) (input : EditInput) (plan : PlannedEdit)
    → str_eq action "create" ≡ false
    → plan_file_edit os input action ≡ inr plan
    → IsPlanOf os action input plan
unfolding plan_file_edit
only_named_pieces_change os action input plan change e =
    let planned : EditError ⊎ PlannedEdit =
      plan_target os action input (resolve_machine_path os input.path) in
    let unhashed : Bool = length input.expected_sha256 == 0 in
    let rest : EditError ⊎ PlannedEdit = if unhashed then inl invalid else planned in
    let (named, e1) =
      guarded (length (os.trim_space input.path) == 0) invalid
        (if str_eq action "create" then plan_file_create os input else rest) plan e in
    let (hashed, e2) = guarded unhashed invalid planned plan (
      subst (λ (t : Bool). (if t then plan_file_create os input else rest) ≡ inr plan) change e1) in
    plan_target-IsPlanOf os action input plan (resolve_machine_path os input.path) e2
