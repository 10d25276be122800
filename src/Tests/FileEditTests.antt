-- ===== src/Tests/FileEditTests.antt =====
-- Edits of a file at concrete inputs.
use fast_spider.Prelude.{
  ◌≤◌, ◌≡◌, refl, ap, Bool, true, false, ◌⊎◌, inr, [], get_elem?, ◌∷◌, ◌++◌, Option, none, some,
  String, arith, length,
}
use fast_spider.Node.Jobs.Job.{Text}
use fast_spider.Node.FileEdit.Bytes.{
  has_prefix, text_eq, later, index, count_from, count, has_byte, slice,
}
use fast_spider.Node.FileEdit.Newlines.{
  newline_count, crlf_count, dominant_is_crlf, join_crlf, cr_to_lf, lf_to_crlf, normalize_newlines,
  is_unfinished, logical_line_count,
}
use fast_spider.Node.FileEdit.Ranges.{
  TextEdit, EditError, EditRange, cons_range, range_at, normalized, locate, then_range,
  is_oversized, is_not_text, find_ranges, insert_range, sort_ranges, has_overlap, splice,
  apply_ranges, sort_and_apply,
}
use fast_spider.Node.FileEdit.Plan.{
  EditInput, PlannedEdit, FileInfo, present, System, real_path, resolve_machine_path,
  valid_editable_text, requested_edits, planned_edit, plan_edits, plan_content, plan_stat,
  plan_target, plan_file_edit,
}
use fast_spider.Node.FileEdit.PlanFacts.{IsPlanOf, only_named_pieces_change}
use fast_spider.Node.FileEdit.Edit.{
  EditResult, grown, line_delta, WriteAnswers, Installed, hash_text, bounded_file_sha256,
  replace_checked, write_atomic_edited_file, requested_action, resolve_file_edit_lock_target,
  sum_bytes, changed_byte_count, edit_result, answer_write, write_plan, run_plan, under_lock,
  run_action, file_edit,
}
use fast_spider.Node.FileEdit.Diff.{append_diff_lines, bounded_edit_diff, max_returned_diff_bytes}
use fast_spider.Node.FileEdit.DiffText.{diff_is_honest, diff_loop_ends, full_diff}
use fast_spider.Node.FileEdit.Matches.{IsFirstPlace, found_places_are_first}
use fast_spider.Node.FileEdit.Promises.{no_lost_update, preview_predicts, as_preview}

-- "ab\ncd"
abbrev old_file : Text
old_file = b'a' ∷ b'b' ∷ 10 ∷ b'c' ∷ b'd' ∷ []

-- "xyz\ncd\n"
abbrev new_file : Text
new_file = b'x' ∷ b'y' ∷ b'z' ∷ 10 ∷ b'c' ∷ b'd' ∷ 10 ∷ []

abbrev keep : Text → Text
keep text = text

abbrev keeps_all : Text → Bool
keeps_all text = true

abbrev file_info : FileInfo
file_info = record { is_regular = true; is_dir = false; size = 5; mode = 0 }

-- A system in which every path is that of the same file, and a text's hash is the text behind an 's'.
abbrev machine : System
machine = record {
  trim_space = keep;
  normalize_input = keep;
  clean = keep;
  is_abs = λ path. true;
  dir = keep;
  base = keep;
  join = λ parent name. name;
  eval_symlinks = some;
  stat = λ path. some file_info;
  lstat = λ path. present;
  read_file = λ path. some old_file;
  valid_utf8 = λ text. true;
  sha256 = λ text. b's' ∷ text;
}

abbrev edit_cd : TextEdit
edit_cd = record { old_text = b'd' ∷ []; new_text = b'd' ∷ 10 ∷ [] }

abbrev edit_ab : TextEdit
edit_ab = record { old_text = b'a' ∷ b'b' ∷ []; new_text = b'x' ∷ b'y' ∷ b'z' ∷ [] }

-- The later piece comes first.
abbrev request : EditInput
request = record {
  path = b'/' ∷ [];
  preview_of = "editMany";
  content = [];
  old_text = [];
  new_text = [];
  edits = edit_cd ∷ edit_ab ∷ [];
  expected_sha256 = b's' ∷ old_file;
  expected_absent = none;
}

abbrev planned : PlannedEdit
planned = record {
  target = b'/' ∷ [];
  before = old_file;
  after = new_file;
  before_sha = b's' ∷ old_file;
  mode = 0;
  changes = edit_ab ∷ edit_cd ∷ [];
}

abbrev answers : WriteAnswers
answers = record {
  is_prepared = true;
  target_info = some file_info;
  target_text = some old_file;
  target_lookup = present;
  is_installed = true;
  lookup_after = present;
  is_synced = true;
}

abbrev bytes_of : String → Text
bytes_of s = []

test_plan : plan_file_edit machine request "editMany" ≡ inr planned
unfolding has_prefix text_eq later index count_from count has_byte slice newline_count crlf_count
    dominant_is_crlf join_crlf cr_to_lf lf_to_crlf normalize_newlines cons_range range_at normalized
    locate then_range is_oversized is_not_text find_ranges insert_range sort_ranges has_overlap
    splice apply_ranges sort_and_apply real_path resolve_machine_path valid_editable_text
    requested_edits planned_edit plan_edits plan_content plan_stat plan_target plan_file_edit
test_plan = refl

only_named_pieces_change_example : IsPlanOf machine "editMany" request planned
only_named_pieces_change_example =
    only_named_pieces_change machine "editMany" request planned refl test_plan

abbrev answered : EditResult
answered = record {
  changed = true;
  path = b'/' ∷ [];
  operation = "editMany";
  preview = false;
  edits_applied = 2;
  old_sha256 = b's' ∷ old_file;
  new_sha256 = b's' ∷ new_file;
  bytes_changed = 8;
  lines = grown 0;
  diff = [];
  diff_truncated = false;
}

abbrev new_content : Installed
new_content = record { target = b'/' ∷ []; text = new_file }

test_edit : file_edit bytes_of machine answers request "editMany" ≡ (some new_content, inr answered)
unfolding has_prefix text_eq later index count_from count has_byte slice newline_count crlf_count
    dominant_is_crlf join_crlf cr_to_lf lf_to_crlf normalize_newlines is_unfinished
    logical_line_count cons_range range_at normalized locate then_range is_oversized is_not_text
    find_ranges insert_range sort_ranges has_overlap splice apply_ranges sort_and_apply real_path
    resolve_machine_path valid_editable_text requested_edits planned_edit plan_edits plan_content
    plan_stat plan_target plan_file_edit line_delta hash_text bounded_file_sha256 replace_checked
    write_atomic_edited_file requested_action resolve_file_edit_lock_target sum_bytes
    changed_byte_count edit_result answer_write write_plan run_plan under_lock run_action file_edit
test_edit = refl

no_lost_update_example :
    (plan : PlannedEdit) × IsPlanOf machine (requested_action request "editMany") request plan
    × (new_content ≡ record { target = plan.target; text = plan.after })
    × ((now : Text) × (answers.target_text ≡ some now)
        × (machine.sha256 now ≡ request.expected_sha256))
unfolding requested_action
no_lost_update_example =
    no_lost_update bytes_of machine answers request "editMany" new_content refl
      (ap (λ (w : Option Installed × (EditError ⊎ EditResult)). w.0) test_edit)

preview_predicts_example :
    (shown : Text × Bool) × (file_edit bytes_of machine answers request "preview"
      ≡ (none, inr (as_preview answered shown)))
preview_predicts_example =
    preview_predicts bytes_of machine answers request answered refl
      (ap (λ (w : Option Installed × (EditError ⊎ EditResult)). w.1) test_edit)

-- "aaa" holds "aa" at 0 and, inside that place, at 1.
abbrev edit_aa : TextEdit
edit_aa = record { old_text = b'a' ∷ b'a' ∷ []; new_text = b'b' ∷ [] }

abbrev place_aa : EditRange
place_aa = record { start = 0; finish = 2; change = edit_aa }

test_places :
    find_ranges keeps_all false (b'a' ∷ b'a' ∷ b'a' ∷ []) 0 (edit_aa ∷ []) ≡ inr (place_aa ∷ [])
unfolding has_prefix later index count_from count has_byte join_crlf cr_to_lf lf_to_crlf
    normalize_newlines cons_range range_at normalized locate then_range is_oversized is_not_text
    find_ranges
test_places = refl

found_places_are_first_example :
    (r : EditRange) × (get_elem? (place_aa ∷ []) 0 ≡ some r)
    × IsFirstPlace (b'a' ∷ b'a' ∷ b'a' ∷ []) (normalized false edit_aa) r
found_places_are_first_example =
    found_places_are_first keeps_all false (b'a' ∷ b'a' ∷ b'a' ∷ []) 0 (edit_aa ∷ [])
      (place_aa ∷ []) 0 edit_aa test_places refl

diff_is_honest_example :
    (length (bounded_edit_diff machine.valid_utf8 [] [] (edit_ab ∷ [])).0 ≤ max_returned_diff_bytes)
    × ((((bounded_edit_diff machine.valid_utf8 [] [] (edit_ab ∷ [])).1 ≡ false)
          × (full_diff [] [] (edit_ab ∷ [])
              ≡ (bounded_edit_diff machine.valid_utf8 [] [] (edit_ab ∷ [])).0))
        ⊎ (((bounded_edit_diff machine.valid_utf8 [] [] (edit_ab ∷ [])).1 ≡ true)
            × ((left : Text) × (full_diff [] [] (edit_ab ∷ [])
                  ≡ (bounded_edit_diff machine.valid_utf8 [] [] (edit_ab ∷ [])).0 ++ left))))
diff_is_honest_example = diff_is_honest machine.valid_utf8 [] [] (edit_ab ∷ [])

diff_loop_ends_example :
    append_diff_lines machine.valid_utf8 7 (b'+' ∷ []) new_file []
    ≡ append_diff_lines machine.valid_utf8 9 (b'+' ∷ []) new_file []
diff_loop_ends_example =
    diff_loop_ends machine.valid_utf8 7 9 (b'+' ∷ []) new_file [] (omega arith) (omega arith)
