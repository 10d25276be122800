-- ===== src/Node/FileEdit/DiffText.antt =====
-- What a preview's diff shows (internal/node/file_edit.go: boundedEditDiff, appendDiffLines).
use fast_spider.Prelude.{
  ℕ, zero, suc, ◌-◌, ◌≤◌, ◌≡◌, refl, ap, subst, sym, ◌∙◌, ◌⊎◌, inl, inr, Bool, true, false, not,
  List, [], ◌∷◌, ◌++◌, arith, if◌then◌else◌, if-cases, Bool-cases, ltb, ◌==◌, length, take, drop,
  length-append, length-take, take-append-drop,
}
use mathlib.Core.List.{append-nil, append_assoc}
use fast_spider.Node.Jobs.Job.{Text}
use fast_spider.Node.FileEdit.Newlines.{lf}
use fast_spider.Node.FileEdit.Ranges.{TextEdit}
use fast_spider.Node.FileEdit.Diff.{
  max_returned_diff_bytes, cut_line, diff_line, and_then, diff_header, edit_header, valid_prefix,
  append_diff, append_diff_lines, append_side, append_edit, append_edits, bounded_edit_diff,
}

-- A byte goes to the front of the first line.
lengthen : ℕ → List Text → List Text
lengthen c [] = (c ∷ []) ∷ []
lengthen c (line ∷ more) = (c ∷ line) ∷ more

-- The lines of a text; a newline ends a line.
unfoldable pub lines : Text → List Text
unfolding lengthen
lines [] = []
lines (c ∷ cs) = if c == lf then [] ∷ lines cs else lengthen c (lines cs)

unfoldable pub side_text : Text → List Text → Text
side_text prefix [] = []
side_text prefix (line ∷ more) = diff_line prefix line ++ side_text prefix more

unfoldable pub edits_text : Text → List TextEdit → Text
edits_text action [] = []
edits_text action (edit ∷ edits) =
    (edit_header action
      ++ (side_text (b'-' ∷ []) (lines edit.old_text)
          ++ side_text (b'+' ∷ []) (lines edit.new_text)))
    ++ edits_text action edits

-- The diff without a bound.
unfoldable pub full_diff : Text → Text → List TextEdit → Text
full_diff path action edits = diff_header path ++ edits_text action edits

-- The outcome of writing `value` behind `text`: all of it went in, or a part of it did; and the bound
-- is kept.
abbrev IsWritten : Text → Text → Text × Bool → Type 0
IsWritten text value out =
    ((out ≡ (text ++ value, true))
      ⊎ ((left : Text) × (out.1 ≡ false) × (text ++ value ≡ out.0 ++ left)))
    × (length out.0 ≤ max_returned_diff_bytes)

cut_line-length : (c : ℕ) (cs : Text) → length (cut_line (c ∷ cs)).1 ≤ length cs
unfolding cut_line
cut_line-length c [] = ground arith
cut_line-length c (d ∷ cs) = ground (arith, cut_line-length d cs)

lines-cut_line :
    (c : ℕ) (cs : Text) → lines (c ∷ cs) ≡ (cut_line (c ∷ cs)).0 ∷ lines (cut_line (c ∷ cs)).1
unfolding lines cut_line lengthen
lines-cut_line c [] = elim (Bool-cases (c == lf)) [ inl e ↦ rw e refl | inr e ↦ rw e refl ]
lines-cut_line c (d ∷ cs) = elim (Bool-cases (c == lf)) [
  | inl e ↦ rw e refl
  | inr e ↦ rw e (ap (lengthen c) (lines-cut_line d cs))
]

module _ (valid : Text → Bool) where
  valid_prefix-take :
      (n : ℕ) (value : Text)
      → (left : Text) × (value ≡ valid_prefix valid n value ++ left)
        × (length (valid_prefix valid n value) ≤ n)
  unfolding valid_prefix
  valid_prefix-take zero value = (value, refl, omega arith)
  valid_prefix-take (suc n) value =
      if-cases (λ p. (left : Text) × (value ≡ p ++ left) × (length p ≤ suc n))
        (valid (take (suc n) value))
        (λ e. (
          drop (suc n) value,
          sym (take-append-drop (suc n) value),
          omega (arith, length-take (suc n) value),
        ))
        (λ e. let (left, split, short) = valid_prefix-take n value in (left, split, omega arith))

  append_diff-IsWritten :
      (value text : Text)
      → length text ≤ max_returned_diff_bytes
      → IsWritten text value (append_diff valid value text)
  unfolding append_diff
  append_diff-IsWritten value text h =
      let remaining : ℕ = max_returned_diff_bytes - length text in
      if-cases (IsWritten text value) (remaining == 0) (λ e. (inr (value, refl, refl), h))
        (λ e.
          if-cases (IsWritten text value) (ltb remaining (length value))
            (λ over.
              let (left, split, short) = valid_prefix-take remaining value in
              (
                inr (left, refl, ap (◌++◌ text) split ∙ sym (append_assoc text _ left)),
                omega (arith, length-append text (valid_prefix valid remaining value)),
              ))
            (λ fits. (inl refl, ground (arith, length-append text value))))

  IsWritten-append :
      (text value more : Text) (out : Text × Bool)
      → IsWritten (text ++ value) more out
      → IsWritten text (value ++ more) out
  IsWritten-append text value more out (inl e, short) =
      (inl (e ∙ ap (λ t. (t, true)) (append_assoc text value more)), short)
  IsWritten-append text value more out (inr (left, cut, split), short) =
      (inr (left, cut, sym (append_assoc text value more) ∙ split), short)

  -- Writing two values one after the other writes both.
  and_then-IsWritten :
      (text value more : Text) (out : Text × Bool) (next : Text → Text × Bool)
      → IsWritten text value out
      → ((t : Text) → length t ≤ max_returned_diff_bytes → IsWritten t more (next t))
      → IsWritten text (value ++ more) (and_then out next)
  and_then-IsWritten text value more (t, true) next (inl e, short) writes =
      let same : text ++ value ≡ t = ground (arith, e) in
      IsWritten-append text value more (next t)
        (subst (λ u. IsWritten u more (next t)) (sym same) (writes t short))
  and_then-IsWritten text value more (t, false) next (inl e, short) writes =
      absurd (ground (arith, e))
  and_then-IsWritten text value more (t, true) next (inr (left, e, split), short) writes =
      absurd (ground (arith, e))
  and_then-IsWritten text value more (t, false) next (inr (left, e, split), short) writes = (
    inr (
      left ++ more,
      refl,
      sym (append_assoc text value more) ∙ ap (λ u. u ++ more) split ∙ append_assoc t left more,
    ),
    short,
  )

  nothing-IsWritten :
      (text : Text) → length text ≤ max_returned_diff_bytes → IsWritten text [] (text, true)
  nothing-IsWritten text h = (inl (ap (λ t. (t, true)) (sym (append-nil text))), h)

  -- With a round for every byte the loop writes every line, however many rounds more there are.
  append_diff_lines-IsWritten :
      (fuel : ℕ) (prefix value text : Text)
      → length value ≤ fuel
      → length text ≤ max_returned_diff_bytes
      → IsWritten text
          (side_text prefix (lines value))
          (append_diff_lines valid fuel prefix value text)
  unfolding append_diff_lines lines side_text
  append_diff_lines-IsWritten fuel prefix [] text enough h = nothing-IsWritten text h
  append_diff_lines-IsWritten zero prefix (c ∷ cs) text enough h = absurd (omega arith)
  append_diff_lines-IsWritten (suc fuel) prefix (c ∷ cs) text enough h =
      let line : Text = (cut_line (c ∷ cs)).0 in
      let following : Text = (cut_line (c ∷ cs)).1 in
      rw (lines-cut_line c cs) (
        and_then-IsWritten text (diff_line prefix line) (side_text prefix (lines following))
          (append_diff valid (diff_line prefix line) text)
          (append_diff_lines valid fuel prefix following)
          (append_diff-IsWritten (diff_line prefix line) text h)
          (λ t short.
            append_diff_lines-IsWritten fuel prefix following t
              (omega (arith, cut_line-length c cs)) short))

  and_then-cong :
      (out : Text × Bool) (f g : Text → Text × Bool)
      → ((t : Text) → f t ≡ g t)
      → and_then out f ≡ and_then out g
  and_then-cong (t, true) f g h = h t
  and_then-cong (t, false) f g h = refl

  -- The loop over a value's lines has ended once it may take a round for every byte: any two such
  -- numbers of rounds give the same text.
  pub diff_loop_ends :
      (fuel other : ℕ) (prefix value text : Text)
      → length value ≤ fuel
      → length value ≤ other
      → append_diff_lines valid fuel prefix value text
        ≡ append_diff_lines valid other prefix value text
  unfolding append_diff_lines
  diff_loop_ends fuel other prefix [] text h k = refl
  diff_loop_ends zero other prefix (c ∷ cs) text h k = absurd (omega arith)
  diff_loop_ends (suc fuel) zero prefix (c ∷ cs) text h k = absurd (omega arith)
  diff_loop_ends (suc fuel) (suc other) prefix (c ∷ cs) text h k =
      let following : Text = (cut_line (c ∷ cs)).1 in
      let shorter = cut_line-length c cs in
      and_then-cong (append_diff valid (diff_line prefix (cut_line (c ∷ cs)).0) text)
        (append_diff_lines valid fuel prefix following)
        (append_diff_lines valid other prefix following)
        (λ t. diff_loop_ends fuel other prefix following t (omega arith) (omega arith))

  append_side-IsWritten :
      (prefix value text : Text)
      → length text ≤ max_returned_diff_bytes
      → IsWritten text (side_text prefix (lines value)) (append_side valid prefix value text)
  unfolding append_side lines side_text
  append_side-IsWritten prefix [] text h = nothing-IsWritten text h
  append_side-IsWritten prefix (c ∷ cs) text h =
      if-cases (IsWritten text (side_text prefix (lines (c ∷ cs)))) (length (c ∷ cs) == 0)
        (λ e. absurd (ground (arith, e)))
        (λ e. append_diff_lines-IsWritten (length (c ∷ cs)) prefix (c ∷ cs) text (omega arith) h)

  append_edit-IsWritten :
      (action : Text) (edit : TextEdit) (text : Text)
      → length text ≤ max_returned_diff_bytes
      → IsWritten text
          (edit_header action
            ++ (side_text (b'-' ∷ []) (lines edit.old_text)
                ++ side_text (b'+' ∷ []) (lines edit.new_text)))
          (append_edit valid action edit text)
  unfolding append_edit
  append_edit-IsWritten action edit text h =
      and_then-IsWritten text (edit_header action) _ (append_diff valid (edit_header action) text) _
        (append_diff-IsWritten (edit_header action) text h)
        (λ t short.
          and_then-IsWritten t _ _ (append_side valid (b'-' ∷ []) edit.old_text t)
            (append_side valid (b'+' ∷ []) edit.new_text)
            (append_side-IsWritten (b'-' ∷ []) edit.old_text t short)
            (append_side-IsWritten (b'+' ∷ []) edit.new_text))

  append_edits-IsWritten :
      (action : Text) (edits : List TextEdit) (text : Text)
      → length text ≤ max_returned_diff_bytes
      → IsWritten text (edits_text action edits) (append_edits valid action edits text)
  unfolding append_edits edits_text
  append_edits-IsWritten action [] text h = nothing-IsWritten text h
  append_edits-IsWritten action (edit ∷ edits) text h =
      and_then-IsWritten text _ (edits_text action edits) (append_edit valid action edit text)
        (append_edits valid action edits) (append_edit-IsWritten action edit text h)
        (append_edits-IsWritten action edits)

  -- A preview's diff has at most 16384 bytes. Either it is not marked as cut off and is the whole
  -- unbounded diff, or it is marked and is a first part of it.
  pub diff_is_honest :
      (path action : Text) (edits : List TextEdit)
      → (length (bounded_edit_diff valid path action edits).0 ≤ max_returned_diff_bytes)
        × ((((bounded_edit_diff valid path action edits).1 ≡ false)
              × (full_diff path action edits ≡ (bounded_edit_diff valid path action edits).0))
            ⊎ (((bounded_edit_diff valid path action edits).1 ≡ true)
                × ((left : Text) × (full_diff path action edits
                      ≡ (bounded_edit_diff valid path action edits).0 ++ left))))
  unfolding bounded_edit_diff full_diff
  diff_is_honest path action edits =
      let (outcome, short) =
        and_then-IsWritten [] (diff_header path) (edits_text action edits)
          (append_diff valid (diff_header path) []) (append_edits valid action edits)
          (append_diff-IsWritten (diff_header path) [] (omega arith))
          (append_edits-IsWritten action edits) in
      (
        short,
        elim outcome [
          | inl e ↦ inl (ap (λ w. not w.1) e, sym (ap (λ w. w.0) e))
          | inr (left, cut, split) ↦ inr (ap not cut, (left, split))
        ],
      )
