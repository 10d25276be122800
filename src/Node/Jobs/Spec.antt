-- ===== src/Node/Jobs/Spec.antt =====
-- What a job's request has to look like (internal/node/jobs.go, validateShellSpec). An argument is a
-- list of bytes, the timeout a signed number of nanoseconds, and of the key only its length counts.
use fast_spider.Prelude.{
  ℕ, ◌+◌, ◌≤◌, ◌≡◌, refl, ◌↔◌, Bool, false, ◌||◌, not, List, [], ◌∷◌, Option, none, some, arith,
  if◌then◌else◌, ltb, leb, ◌==◌, length, All,
}
use fast_spider.Node.Jobs.Job.{Text}

pub data ℤ : Type 0 where
  pos negsuc : ℕ → ℤ

abbrev pub max_job_arg_count : ℕ
max_job_arg_count = 64

abbrev pub max_job_arg_bytes : ℕ
max_job_arg_bytes = 4096

-- 64 << 10
abbrev pub max_job_arg_total_bytes : ℕ
max_job_arg_total_bytes = 65536

-- 30 minutes in nanoseconds
abbrev pub max_job_timeout : ℕ
max_job_timeout = 1800000000000

pub data SpecError : Type 0 where
  argument_count invalid_argument arguments_too_long timeout_limit key_length : SpecError

unfoldable pub has_zero : Text → Bool
has_zero [] = false
has_zero (b ∷ bs) = b == 0 || has_zero bs

-- The loop over the arguments, with the bytes counted so far.
unfoldable pub check_arguments : ℕ → List Text → Option SpecError
unfolding has_zero
check_arguments total [] = none
check_arguments total (arg ∷ argv) =
    let rest = check_arguments (total + length arg) argv in
    if length arg == 0 || ltb max_job_arg_bytes (length arg) || has_zero arg
    then some invalid_argument
    else if ltb max_job_arg_total_bytes (total + length arg)
    then some arguments_too_long
    else rest

unfoldable pub timeout_fits : ℤ → Bool
timeout_fits (pos t) = leb t max_job_timeout
timeout_fits (negsuc t) = false

unfoldable pub check_rest : Option SpecError → ℤ → ℕ → Option SpecError
unfolding timeout_fits
check_rest (some e) timeout key_bytes = some e
check_rest none timeout key_bytes =
    if not (timeout_fits timeout)
    then some timeout_limit
    else if ltb key_bytes 12 || ltb 128 key_bytes
    then some key_length
    else none

unfoldable pub validate_shell_spec : List Text → ℤ → ℕ → Option SpecError
unfolding check_arguments check_rest
validate_shell_spec argv timeout key_bytes =
    if length argv == 0 || ltb max_job_arg_count (length argv)
    then some argument_count
    else check_rest (check_arguments 0 argv) timeout key_bytes

-- The same in words of its own.
unfoldable pub total_bytes : List Text → ℕ
total_bytes [] = 0
total_bytes (arg ∷ argv) = length arg + total_bytes argv

abbrev pub IsArgument : Text → Type 0
IsArgument arg = (1 ≤ length arg) × (length arg ≤ max_job_arg_bytes) × (has_zero arg ≡ false)

check_arguments_sound :
    (total : ℕ) (argv : List Text)
    → total ≤ max_job_arg_total_bytes
    → check_arguments total argv ≡ none
    → All IsArgument argv × (total + total_bytes argv ≤ max_job_arg_total_bytes)
unfolding check_arguments total_bytes
check_arguments_sound total [] h e = (tt, omega arith)
check_arguments_sound total (arg ∷ argv) h e =
    let ok : IsArgument arg = (ground arith, ground arith, ground arith) in
    let fits : total + length arg ≤ max_job_arg_total_bytes = ground arith in
    let rest : check_arguments (total + length arg) argv ≡ none = ground arith in
    let (all, sum) = check_arguments_sound (total + length arg) argv fits rest in
    ((ok, all), omega arith)

check_arguments_complete :
    (total : ℕ) (argv : List Text)
    → All IsArgument argv
    → total + total_bytes argv ≤ max_job_arg_total_bytes
    → check_arguments total argv ≡ none
unfolding check_arguments total_bytes
check_arguments_complete total [] a h = refl
check_arguments_complete total (arg ∷ argv) a h =
    let rest = check_arguments_complete (total + length arg) argv a.1 (omega arith) in
    let (low, high, clean) = a.0 in ground arith

abbrev pub IsAcceptable : List Text → ℤ → ℕ → Type 0
IsAcceptable argv timeout key_bytes =
    (1 ≤ length argv)
    × (length argv ≤ max_job_arg_count)
    × All IsArgument argv
    × (total_bytes argv ≤ max_job_arg_total_bytes)
    × ((t : ℕ) × (timeout ≡ pos t) × (t ≤ max_job_timeout))
    × (12 ≤ key_bytes)
    × (key_bytes ≤ 128)

check_rest_sound :
    (o : Option SpecError) (timeout : ℤ) (key_bytes : ℕ)
    → check_rest o timeout key_bytes ≡ none
    → (o ≡ none)
      × ((t : ℕ) × (timeout ≡ pos t) × (t ≤ max_job_timeout))
      × (12 ≤ key_bytes)
      × (key_bytes ≤ 128)
unfolding check_rest timeout_fits
check_rest_sound (some e) timeout key_bytes h = absurd (ground arith)
check_rest_sound none (negsuc t) key_bytes h = absurd (ground arith)
check_rest_sound none (pos t) key_bytes h =
    (refl, (t, refl, ground arith), ground arith, ground arith)

accepted :
    (argv : List Text) (timeout : ℤ) (key_bytes : ℕ)
    → validate_shell_spec argv timeout key_bytes ≡ none
    → IsAcceptable argv timeout key_bytes
unfolding validate_shell_spec
accepted argv timeout key_bytes h =
    let low : 1 ≤ length argv = ground arith in
    let high : length argv ≤ max_job_arg_count = ground arith in
    let inner : check_rest (check_arguments 0 argv) timeout key_bytes ≡ none = ground arith in
    let (fine, time, key_low, key_high) =
      check_rest_sound (check_arguments 0 argv) timeout key_bytes inner in
    let (all, sum) = check_arguments_sound 0 argv (omega arith) fine in
    (low, high, all, omega (arith, sum), time, key_low, key_high)

accepting :
    (argv : List Text) (t : ℕ) (key_bytes : ℕ)
    → IsAcceptable argv (pos t) key_bytes
    → t ≤ max_job_timeout
    → validate_shell_spec argv (pos t) key_bytes ≡ none
unfolding validate_shell_spec check_rest timeout_fits
accepting argv t key_bytes (low, high, all, sum, time, key_low, key_high) le =
    let fine = check_arguments_complete 0 argv all (omega (arith, sum)) in ground (arith, fine)

-- A request is accepted exactly when it has 1 to 64 arguments, each of 1 to 4096 bytes without a zero
-- byte and together of at most 65536, a timeout from 0 to 30 minutes, and a key of 12 to 128 bytes.
pub accepts_exactly :
    (argv : List Text) (timeout : ℤ) (key_bytes : ℕ)
    → (validate_shell_spec argv timeout key_bytes ≡ none) ↔ IsAcceptable argv timeout key_bytes
accepts_exactly argv timeout key_bytes = (
  accepted argv timeout key_bytes,
  λ h.
      let (low, high, all, sum, (t, same, le), key_low, key_high) = h in
      rw same
        (accepting argv t key_bytes (low, high, all, sum, (t, refl, le), key_low, key_high) le),
)
