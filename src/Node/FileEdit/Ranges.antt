-- ===== src/Node/FileEdit/Ranges.antt =====
-- The core of planFileEdit (internal/node/file_edit.go): from the edits to the ranges they replace,
-- their order, and the new text. `valid_utf8` is `utf8.ValidString`.
use fast_spider.Prelude.{
  ℕ, ◌+◌, Bool, false, not, ◌||◌, List, [], ◌∷◌, ◌++◌, Option, none, some, ◌⊎◌, inl, inr,
  if◌then◌else◌, ltb, leb, ◌==◌, length, drop, map,
}
use fast_spider.Node.Jobs.Job.{Text}
use fast_spider.Node.FileEdit.Bytes.{index, count, has_byte, slice}
use fast_spider.Node.FileEdit.Newlines.{normalize_newlines}

-- 2 << 20
abbrev pub max_editable_file_bytes : ℕ
max_editable_file_bytes = 2097152

-- 64 << 10
abbrev pub max_edit_text_bytes : ℕ
max_edit_text_bytes = 65536

-- 512 << 10
abbrev pub max_edit_total_bytes : ℕ
max_edit_total_bytes = 524288

abbrev pub max_file_edits : ℕ
max_file_edits = 64

pub record TextEdit : Type 0 where
  pub old_text : Text
  pub new_text : Text

-- The errors that callers tell apart, and `invalid` for those that are only a message.
pub data EditError : Type 0 where
  invalid read_limit not_regular binary_text revision_conflict not_unique overlap : EditError
  already_exists absolute_path_required file_system : EditError

-- The bytes from `start` to `finish` give way to `change.new_text`.
pub record EditRange : Type 0 where
  pub start : ℕ
  pub finish : ℕ
  pub change : TextEdit

unfoldable pub cons_range : EditRange → EditError ⊎ List EditRange → EditError ⊎ List EditRange
cons_range range (inl fault) = inl fault
cons_range range (inr ranges) = inr (range ∷ ranges)

unfoldable pub range_at : TextEdit → Option ℕ → EditError ⊎ EditRange
range_at change none = inl not_unique
range_at change (some start) =
    inr (record { start = start; finish = start + length change.old_text; change = change })

unfoldable pub normalized : Bool → TextEdit → TextEdit
unfolding normalize_newlines
normalized crlf edit = record {
  old_text = normalize_newlines crlf edit.old_text;
  new_text = normalize_newlines crlf edit.new_text;
}

-- The place of one edit, once its texts are checked.
unfoldable pub locate : Text → TextEdit → EditError ⊎ EditRange
unfolding index count range_at
locate before change =
    if not (count change.old_text before == 1)
    then inl not_unique
    else range_at change (index change.old_text before)

unfoldable pub then_range :
    EditError ⊎ EditRange → EditError ⊎ List EditRange → EditError ⊎ List EditRange
unfolding cons_range
then_range (inl fault) rest = inl fault
then_range (inr range) rest = cons_range range rest

-- The lengths one edit may have.
unfoldable pub is_oversized : TextEdit → Bool
is_oversized edit =
    (length edit.old_text == 0)
    || ltb max_edit_text_bytes (length edit.old_text)
    || ltb max_edit_text_bytes (length edit.new_text)

module _ (valid_utf8 : Text → Bool) where
  unfoldable pub is_not_text : TextEdit → Bool
  unfolding has_byte
  is_not_text edit =
      not (valid_utf8 edit.old_text)
      || not (valid_utf8 edit.new_text)
      || has_byte 0 edit.old_text
      || has_byte 0 edit.new_text

  -- The loop over the edits; `total` is the length of the texts before.
  unfoldable pub find_ranges : Bool → Text → ℕ → List TextEdit → EditError ⊎ List EditRange
  unfolding normalized locate then_range is_oversized is_not_text
  find_ranges crlf before total [] = inr []
  find_ranges crlf before total (edit ∷ edits) =
      let sum : ℕ = total + length edit.old_text + length edit.new_text in
      let rest : EditError ⊎ List EditRange = find_ranges crlf before sum edits in
      if is_oversized edit
      then inl invalid
      else if ltb max_edit_total_bytes sum || is_not_text edit
      then inl invalid
      else then_range (locate before (normalized crlf edit)) rest

-- `sort.Slice` by start; the order of ranges of one start does not matter, since they overlap.
unfoldable pub insert_range : EditRange → List EditRange → List EditRange
insert_range range [] = range ∷ []
insert_range range (r ∷ rs) =
    let rest = insert_range range rs in if leb range.start r.start then range ∷ r ∷ rs else r ∷ rest

unfoldable pub sort_ranges : List EditRange → List EditRange
unfolding insert_range
sort_ranges [] = []
sort_ranges (range ∷ ranges) = insert_range range (sort_ranges ranges)

-- Whether some range starts before the end of the one before; `last` is that end, at first 0.
unfoldable pub has_overlap : ℕ → List EditRange → Bool
has_overlap last [] = false
has_overlap last (r ∷ rs) = ltb r.start last || has_overlap r.finish rs

-- The loop that builds the new text.
unfoldable pub splice : Text → ℕ → List EditRange → Text
unfolding slice
splice before cursor [] = drop cursor before
splice before cursor (r ∷ rs) =
    slice cursor r.start before ++ (r.change.new_text ++ splice before r.finish rs)

abbrev pub changes_of : List EditRange → List TextEdit
changes_of ranges = map (λ (r : EditRange). r.change) ranges

unfoldable pub apply_ranges : Text → List EditRange → EditError ⊎ (Text × List TextEdit)
unfolding has_overlap splice
apply_ranges before ranges =
    if has_overlap 0 ranges
    then inl overlap
    else let result : Text = splice before 0 ranges in
      if ltb max_editable_file_bytes (length result)
      then inl read_limit
      else inr (result, changes_of ranges)

unfoldable pub sort_and_apply :
    Text → EditError ⊎ List EditRange → EditError ⊎ (Text × List TextEdit)
unfolding sort_ranges apply_ranges
sort_and_apply before (inl fault) = inl fault
sort_and_apply before (inr ranges) = apply_ranges before (sort_ranges ranges)
