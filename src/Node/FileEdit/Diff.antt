-- ===== src/Node/FileEdit/Diff.antt =====
-- The bounded diff of a preview (internal/node/file_edit.go: boundedEditDiff, appendDiffLines).
-- `valid` is `utf8.ValidString`. A builder's text and whether the whole value went in are a pair.
use fast_spider.Prelude.{
  ℕ, zero, suc, ◌-◌, Bool, true, false, not, List, [], ◌∷◌, ◌++◌, if◌then◌else◌, ltb, ◌==◌, length,
  take,
}
use fast_spider.Node.Jobs.Job.{Text}
use fast_spider.Node.FileEdit.Newlines.{lf, cr}
use fast_spider.Node.FileEdit.Ranges.{TextEdit}

-- 16 << 10
abbrev pub max_returned_diff_bytes : ℕ
max_returned_diff_bytes = 16384

-- The line before the first newline, and what follows it.
unfoldable pub cut_line : Text → Text × Text
cut_line [] = ([], [])
cut_line (c ∷ cs) =
    let more : Text × Text = cut_line cs in if c == lf then ([], cs) else (c ∷ more.0, more.1)

-- `strings.TrimSuffix(line, "\r")`
unfoldable pub trim_cr : Text → Text
trim_cr [] = []
trim_cr (c ∷ []) = if c == cr then [] else c ∷ []
trim_cr (c ∷ d ∷ rest) = c ∷ trim_cr (d ∷ rest)

abbrev pub diff_line : Text → Text → Text
diff_line prefix line = prefix ++ (trim_cr line ++ lf ∷ [])

-- Goes on if the whole value went in.
abbrev pub and_then : Text × Bool → (Text → Text × Bool) → Text × Bool
and_then (text, true) next = next text
and_then (text, false) next = (text, false)

-- "--- a/" + path + "\n+++ b/" + path + "\n"
abbrev pub diff_header : Text → Text
diff_header path =
    b'-'
    ∷ b'-'
    ∷ b'-'
    ∷ b' '
    ∷ b'a'
    ∷ b'/'
    ∷ (path ++ lf ∷ b'+' ∷ b'+' ∷ b'+' ∷ b' ' ∷ b'b' ∷ b'/' ∷ (path ++ lf ∷ []))

-- "@@ " + action + " @@\n"
abbrev pub edit_header : Text → Text
edit_header action = b'@' ∷ b'@' ∷ b' ' ∷ (action ++ b' ' ∷ b'@' ∷ b'@' ∷ lf ∷ [])

module _ (valid : Text → Bool) where
  -- The loop that shortens a text to valid UTF-8, which the empty text is.
  unfoldable pub valid_prefix : ℕ → Text → Text
  valid_prefix zero value = []
  valid_prefix (suc n) value =
      let shorter : Text = valid_prefix n value in
      if valid (take (suc n) value) then take (suc n) value else shorter

  -- appendDiff
  unfoldable pub append_diff : Text → Text → Text × Bool
  unfolding valid_prefix
  append_diff value text =
      let remaining : ℕ = max_returned_diff_bytes - length text in
      if remaining == 0
      then (text, false)
      else if ltb remaining (length value)
      then (text ++ valid_prefix remaining value, false)
      else (text ++ value, true)

  -- The loop; it ends within as many rounds as the value has bytes.
  unfoldable pub append_diff_lines : ℕ → Text → Text → Text → Text × Bool
  unfolding append_diff trim_cr cut_line
  append_diff_lines fuel prefix [] text = (text, true)
  append_diff_lines zero prefix (c ∷ cs) text = (text, false)
  append_diff_lines (suc fuel) prefix (c ∷ cs) text =
      let parts : Text × Text = cut_line (c ∷ cs) in
      and_then (append_diff (diff_line prefix parts.0) text) (append_diff_lines fuel prefix parts.1)

  unfoldable pub append_side : Text → Text → Text → Text × Bool
  unfolding append_diff_lines
  append_side prefix value text =
      if length value == 0 then (text, true) else append_diff_lines (length value) prefix value text

  -- One round of the loop over the edits.
  unfoldable pub append_edit : Text → TextEdit → Text → Text × Bool
  unfolding append_side
  append_edit action edit text = and_then (append_diff (edit_header action) text) λ headed.
      and_then (append_side (b'-' ∷ []) edit.old_text headed)
        (append_side (b'+' ∷ []) edit.new_text)

  unfoldable pub append_edits : Text → List TextEdit → Text → Text × Bool
  unfolding append_edit
  append_edits action [] text = (text, true)
  append_edits action (edit ∷ edits) text =
      and_then (append_edit action edit text) (append_edits action edits)

  -- The diff, and whether it is cut off.
  unfoldable pub bounded_edit_diff : Text → Text → List TextEdit → Text × Bool
  unfolding append_edits
  bounded_edit_diff path action edits =
      let written : Text × Bool =
        and_then (append_diff (diff_header path) []) (append_edits action edits) in
      (written.0, not written.1)
