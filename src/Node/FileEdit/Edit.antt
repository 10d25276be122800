-- ===== src/Node/FileEdit/Edit.antt =====
-- One edit from request to write (internal/node/file_edit.go: fileEdit, resolveFileEditLockTarget,
-- changedByteCount; internal/node/file_edit_atomic.go). Edits of one path run one after the other,
-- under its lock. The request is decoded; the time it took is left out.
use fast_spider.Prelude.{
  ℕ, ◌+◌, ◌-◌, Bool, false, not, ◌&&◌, ◌||◌, List, [], ◌∷◌, Option, none, some, ◌⊎◌, inl, inr,
  String, str_eq, if◌then◌else◌, ltb, leb, length,
}
use fast_spider.Node.Jobs.Job.{Text}
use fast_spider.Node.FileEdit.Bytes.{has_byte, text_eq}
use fast_spider.Node.FileEdit.Newlines.{logical_line_count}
use fast_spider.Node.FileEdit.Ranges.{
  TextEdit, EditError, invalid, not_regular, revision_conflict, already_exists,
  absolute_path_required, file_system, max_editable_file_bytes,
}
use fast_spider.Node.FileEdit.Plan.{
  EditInput, PlannedEdit, FileInfo, Lookup, present, absent, unknown, System, is_absolute_input,
  resolve_machine_path, plan_file_edit,
}
use fast_spider.Node.FileEdit.Diff.{bounded_edit_diff}

-- A difference of two counts.
pub data LineDelta : Type 0 where
  grown shrunk : ℕ → LineDelta

unfoldable pub line_delta : ℕ → ℕ → LineDelta
line_delta after before =
    if leb before after then grown (after - before) else shrunk (before - after)

pub record EditResult : Type 0 where
  pub changed : Bool
  pub path : Text
  pub operation : String
  pub preview : Bool
  pub edits_applied : ℕ
  pub old_sha256 : Text
  pub new_sha256 : Text
  pub bytes_changed : ℕ
  pub lines : LineDelta
  pub diff : Text
  pub diff_truncated : Bool

-- What the calls of the write answer: whether the temporary file was written (and what could be
-- read of the target then), whether the rename or link and the directory's sync succeeded.
pub record WriteAnswers : Type 0 where
  pub is_prepared : Bool
  pub target_info : Option FileInfo
  pub target_text : Option Text
  pub target_lookup : Lookup
  pub is_installed : Bool
  pub lookup_after : Lookup
  pub is_synced : Bool

-- A file that now has this path and this text.
pub record Installed : Type 0 where
  pub target : Text
  pub text : Text

-- What one write did to the directory, and its error.
abbrev pub Write : Type 0
Write = Option Installed × Option EditError

abbrev pub refused : EditError → Write
refused fault = (none, some fault)

unfoldable pub hash_text : System → Option Text → EditError ⊎ Text
hash_text os none = inl file_system
hash_text os (some text) =
    if ltb max_editable_file_bytes (length text)
    then inl revision_conflict
    else inr (os.sha256 text)

-- boundedFileSHA256, of a file with this metadata and this text
unfoldable pub bounded_file_sha256 : System → Option FileInfo → Option Text → EditError ⊎ Text
unfolding hash_text
bounded_file_sha256 os none text = inl file_system
bounded_file_sha256 os (some info) text =
    if not info.is_regular
    then inl not_regular
    else if ltb max_editable_file_bytes info.size
    then inl revision_conflict
    else hash_text os text

-- The end of writePreparedEdit, after a successful install.
abbrev pub installed_at : WriteAnswers → PlannedEdit → Write
installed_at answers plan = (
  some (record { target = plan.target; text = plan.after }),
  if answers.is_synced then none else some file_system,
)

-- `install` runs once the temporary file is written; without that there is an error and no file.
abbrev pub write_prepared_edit : WriteAnswers → Write → Write
write_prepared_edit answers install =
    if not answers.is_prepared then refused file_system else install

unfoldable pub replace_checked : WriteAnswers → PlannedEdit → EditError ⊎ Text → Write
unfolding text_eq
replace_checked answers plan (inl fault) = refused fault
replace_checked answers plan (inr current) =
    if not (text_eq current plan.before_sha)
    then refused revision_conflict
    else if not answers.is_installed
    then refused file_system
    else installed_at answers plan

unfoldable pub write_atomic_edited_file : System → WriteAnswers → PlannedEdit → Write
unfolding bounded_file_sha256 replace_checked
write_atomic_edited_file os answers plan =
    write_prepared_edit answers (
      replace_checked answers plan (bounded_file_sha256 os answers.target_info answers.target_text))

unfoldable pub failed_create : Lookup → EditError
failed_create present = already_exists
failed_create absent = file_system
failed_create unknown = file_system

unfoldable pub create_looked_up : WriteAnswers → PlannedEdit → Lookup → Write
unfolding failed_create
create_looked_up answers plan present = refused already_exists
create_looked_up answers plan unknown = refused file_system
create_looked_up answers plan absent =
    if not answers.is_installed
    then refused (failed_create answers.lookup_after)
    else installed_at answers plan

unfoldable pub write_atomic_created_file : WriteAnswers → PlannedEdit → Write
unfolding create_looked_up
write_atomic_created_file answers plan =
    write_prepared_edit answers (create_looked_up answers plan answers.target_lookup)

-- The action whose plan is made.
unfoldable pub requested_action : EditInput → String → String
requested_action input action =
    if str_eq action "preview"
    then (if str_eq input.preview_of "edit" then "replace" else input.preview_of)
    else if str_eq action "edit"
    then "replace"
    else action

abbrev pub is_known_action : String → Bool
is_known_action action =
    str_eq action "create" || str_eq action "replace" || str_eq action "editMany"

unfoldable pub joined_to : System → Text → EditError ⊎ Text → EditError ⊎ Text
joined_to os clean (inl fault) = inl fault
joined_to os clean (inr parent) = inr (os.join parent (os.base clean))

unfoldable pub resolve_file_edit_lock_target : System → Text → String → EditError ⊎ Text
unfolding has_byte resolve_machine_path joined_to
resolve_file_edit_lock_target os path action =
    let input : Text = os.normalize_input (os.trim_space path) in
    let clean : Text = os.clean input in
    if not (is_absolute_input os input)
    then inl absolute_path_required
    else if not (str_eq action "create")
    then resolve_machine_path os clean
    else joined_to os clean (resolve_machine_path os (os.dir clean))

unfoldable pub sum_bytes : List TextEdit → ℕ
sum_bytes [] = 0
sum_bytes (edit ∷ edits) = length edit.old_text + length edit.new_text + sum_bytes edits

unfoldable pub changed_byte_count : List TextEdit → Bool → ℕ
unfolding sum_bytes
changed_byte_count edits changed = if changed then sum_bytes edits else 0

abbrev pub is_changed : String → PlannedEdit → Bool
is_changed requested plan = not (text_eq plan.before plan.after) || str_eq requested "create"

-- `bytes_of` is the conversion from a string to its bytes.
unfoldable pub edit_result : (String → Text) → System → Bool → String → PlannedEdit → EditResult
unfolding text_eq changed_byte_count line_delta logical_line_count bounded_edit_diff
edit_result bytes_of os preview requested plan =
    let changed : Bool = is_changed requested plan in
    let shown : Text × Bool =
      if preview
      then bounded_edit_diff os.valid_utf8 (os.base plan.target) (bytes_of requested) plan.changes
      else ([], false) in
    record {
      changed = changed;
      path = os.clean plan.target;
      operation = requested;
      preview = preview;
      edits_applied = if changed then length plan.changes else 0;
      old_sha256 = plan.before_sha;
      new_sha256 = os.sha256 plan.after;
      bytes_changed = changed_byte_count plan.changes changed;
      lines = line_delta (logical_line_count plan.after) (logical_line_count plan.before);
      diff = shown.0;
      diff_truncated = shown.1;
    }

-- What an edit did to the directory, and its answer.
abbrev pub Outcome : Type 0
Outcome = Option Installed × (EditError ⊎ EditResult)

unfoldable pub answer_write : EditResult → Write → Outcome
answer_write result (wrote, none) = (wrote, inr result)
answer_write result (wrote, some fault) = (wrote, inl fault)

-- The write of a plan that is no preview.
unfoldable pub write_plan : System → WriteAnswers → String → PlannedEdit → Write
unfolding write_atomic_created_file write_atomic_edited_file
write_plan os answers requested plan =
    if str_eq requested "create"
    then write_atomic_created_file answers plan
    else write_atomic_edited_file os answers plan

unfoldable pub run_plan :
    (String → Text) → System → WriteAnswers → Bool → String → EditError ⊎ PlannedEdit → Outcome
unfolding text_eq edit_result write_plan answer_write
run_plan bytes_of os answers preview requested (inl fault) = (none, inl fault)
run_plan bytes_of os answers preview requested (inr plan) =
    answer_write (edit_result bytes_of os preview requested plan) (
      if is_changed requested plan && not preview
      then write_plan os answers requested plan
      else (none, none))

unfoldable pub under_lock :
    (String → Text) → System → WriteAnswers → EditInput → Bool → String → EditError ⊎ Text → Outcome
unfolding plan_file_edit run_plan
under_lock bytes_of os answers input preview requested (inl fault) = (none, inl fault)
under_lock bytes_of os answers input preview requested (inr target) =
    run_plan bytes_of os answers preview requested (plan_file_edit os input requested)

-- From the check of the action on.
unfoldable pub run_action :
    (String → Text) → System → WriteAnswers → EditInput → Bool → String → Outcome
unfolding resolve_file_edit_lock_target under_lock
run_action bytes_of os answers input preview requested =
    if not (is_known_action requested)
    then (none, inl invalid)
    else under_lock bytes_of os answers input preview requested
        (resolve_file_edit_lock_target os input.path requested)

unfoldable pub file_edit : (String → Text) → System → WriteAnswers → EditInput → String → Outcome
unfolding requested_action run_action
file_edit bytes_of os answers input action =
    run_action bytes_of os answers input (str_eq action "preview") (requested_action input action)
