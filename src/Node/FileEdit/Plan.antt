-- ===== src/Node/FileEdit/Plan.antt =====
-- The plan of an edit (internal/node/file_edit.go: planFileEdit, planFileCreate, validEditableText;
-- internal/node/pathguard.go: ResolveMachinePath). What the file system answers is a record of
-- functions; an error of it is `file_system`. `sha256` is sha256String.
use fast_spider.Prelude.{
  ℕ, Bool, false, not, ◌&&◌, ◌||◌, List, [], ◌∷◌, Option, none, some, ◌⊎◌, inl, inr, String, str_eq,
  if◌then◌else◌, ltb, ◌==◌, length,
}
use fast_spider.Node.Jobs.Job.{Text}
use fast_spider.Node.FileEdit.Bytes.{has_byte, text_eq}
use fast_spider.Node.FileEdit.Newlines.{dominant_is_crlf}
use fast_spider.Node.FileEdit.Ranges.{
  TextEdit, EditError, invalid, read_limit, not_regular, binary_text, revision_conflict,
  already_exists, absolute_path_required, file_system, max_editable_file_bytes, max_file_edits,
  find_ranges, sort_and_apply,
}

pub record EditInput : Type 0 where
  pub path : Text
  pub preview_of : String
  pub content : Text
  pub old_text : Text
  pub new_text : Text
  pub edits : List TextEdit
  pub expected_sha256 : Text
  pub expected_absent : Option Bool

pub record PlannedEdit : Type 0 where
  pub target : Text
  pub before : Text
  pub after : Text
  pub before_sha : Text
  pub mode : ℕ
  pub changes : List TextEdit

pub record FileInfo : Type 0 where
  pub is_regular : Bool
  pub is_dir : Bool
  pub size : ℕ
  pub mode : ℕ

-- What os.Lstat answers for a name that should be free.
pub data Lookup : Type 0 where
  present absent unknown : Lookup

-- The packages strings, filepath, utf8, sha256 and os. Of a failing call only that it fails is kept.
pub record System : Type 0 where
  pub trim_space : Text → Text
  pub normalize_input : Text → Text
  pub clean : Text → Text
  pub is_abs : Text → Bool
  pub dir : Text → Text
  pub base : Text → Text
  pub join : Text → Text → Text
  pub eval_symlinks : Text → Option Text
  pub stat : Text → Option FileInfo
  pub lstat : Text → Lookup
  pub read_file : Text → Option Text
  pub valid_utf8 : Text → Bool
  pub sha256 : Text → Text

abbrev pub is_absolute_input : System → Text → Bool
is_absolute_input os path = not (length path == 0) && not (has_byte 0 path) && os.is_abs path

unfoldable pub real_path : System → Option Text → EditError ⊎ Text
real_path os none = inl file_system
real_path os (some real) = inr (os.clean real)

unfoldable pub resolve_machine_path : System → Text → EditError ⊎ Text
unfolding has_byte real_path
resolve_machine_path os raw =
    let path : Text = os.normalize_input (os.trim_space raw) in
    if not (is_absolute_input os path)
    then inl absolute_path_required
    else real_path os (os.eval_symlinks (os.clean path))

unfoldable pub valid_editable_text : System → Text → Bool
unfolding has_byte
valid_editable_text os text = not (has_byte 0 text) && os.valid_utf8 text

-- The edits asked for, by action.
unfoldable pub requested_edits : String → EditInput → EditError ⊎ List TextEdit
requested_edits action input =
    if str_eq action "replace"
    then (if not (length input.edits == 0) || (length input.old_text == 0)
        then inl invalid
        else inr (record { old_text = input.old_text; new_text = input.new_text } ∷ []))
    else if (length input.edits == 0)
        || not (length input.old_text == 0)
        || not (length input.new_text == 0)
    then inl invalid
    else inr input.edits

unfoldable pub planned_edit :
    Text → Text → Text → ℕ → EditError ⊎ (Text × List TextEdit) → EditError ⊎ PlannedEdit
planned_edit target before sha mode (inl fault) = inl fault
planned_edit target before sha mode (inr (after, changes)) = inr (record {
  target = target;
  before = before;
  after = after;
  before_sha = sha;
  mode = mode;
  changes = changes;
})

-- From the edits to the plan.
unfoldable pub plan_edits :
    System → Text → Text → ℕ → EditError ⊎ List TextEdit → EditError ⊎ PlannedEdit
unfolding dominant_is_crlf find_ranges sort_and_apply planned_edit
plan_edits os target before mode (inl fault) = inl fault
plan_edits os target before mode (inr edits) =
    if ltb max_file_edits (length edits)
    then inl invalid
    else planned_edit target before (os.sha256 before) mode
        (sort_and_apply before (find_ranges os.valid_utf8 (dominant_is_crlf before) before 0 edits))

-- From os.ReadFile on.
unfoldable pub plan_content :
    System → String → EditInput → Text → ℕ → Option Text → EditError ⊎ PlannedEdit
unfolding valid_editable_text text_eq requested_edits plan_edits
plan_content os action input target mode none = inl file_system
plan_content os action input target mode (some before) =
    if not (valid_editable_text os before)
    then inl binary_text
    else if not (text_eq input.expected_sha256 (os.sha256 before))
    then inl revision_conflict
    else plan_edits os target before mode (requested_edits action input)

-- From os.Stat on.
unfoldable pub plan_stat :
    System → String → EditInput → Text → Option FileInfo → EditError ⊎ PlannedEdit
unfolding plan_content
plan_stat os action input target none = inl file_system
plan_stat os action input target (some info) =
    if not info.is_regular
    then inl not_regular
    else if ltb max_editable_file_bytes info.size
    then inl read_limit
    else plan_content os action input target info.mode (os.read_file target)

unfoldable pub plan_target :
    System → String → EditInput → EditError ⊎ Text → EditError ⊎ PlannedEdit
unfolding plan_stat
plan_target os action input (inl fault) = inl fault
plan_target os action input (inr target) = plan_stat os action input target (os.stat target)

-- From os.Lstat on.
unfoldable pub create_at : EditInput → Text → Lookup → EditError ⊎ PlannedEdit
create_at input target present = inl already_exists
create_at input target unknown = inl file_system
create_at input target absent = inr (record {
  target = target;
  before = [];
  after = input.content;
  before_sha = [];
  mode = 0;
  changes = record { old_text = []; new_text = input.content } ∷ [];
})

unfoldable pub create_in :
    System → EditInput → Text → Text → Option FileInfo → EditError ⊎ PlannedEdit
unfolding create_at
create_in os input clean parent none = inl file_system
create_in os input clean parent (some info) =
    let target : Text = os.join parent (os.base clean) in
    if not info.is_dir then inl not_regular else create_at input target (os.lstat target)

unfoldable pub create_under : System → EditInput → Text → EditError ⊎ Text → EditError ⊎ PlannedEdit
unfolding create_in
create_under os input clean (inl fault) = inl fault
create_under os input clean (inr parent) = create_in os input clean parent (os.stat parent)

unfoldable pub expects_absent : Option Bool → Bool
expects_absent none = false
expects_absent (some b) = b

unfoldable pub plan_file_create : System → EditInput → EditError ⊎ PlannedEdit
unfolding expects_absent valid_editable_text has_byte resolve_machine_path create_under
plan_file_create os input =
    let clean : Text = os.normalize_input (os.trim_space input.path) in
    if not (expects_absent input.expected_absent)
    then inl invalid
    else if not (length input.expected_sha256 == 0)
        || not (length input.old_text == 0)
        || not (length input.new_text == 0)
        || not (length input.edits == 0)
    then inl invalid
    else if ltb max_editable_file_bytes (length input.content)
    then inl read_limit
    else if not (valid_editable_text os input.content)
    then inl binary_text
    else if not (is_absolute_input os clean)
    then inl absolute_path_required
    else create_under os input clean (resolve_machine_path os (os.dir (os.clean clean)))

unfoldable pub plan_file_edit : System → EditInput → String → EditError ⊎ PlannedEdit
unfolding plan_file_create resolve_machine_path plan_target
plan_file_edit os input action =
    if length (os.trim_space input.path) == 0
    then inl invalid
    else if str_eq action "create"
    then plan_file_create os input
    else if length input.expected_sha256 == 0
    then inl invalid
    else plan_target os action input (resolve_machine_path os input.path)
