-- ===== src/Releases/Version.antt =====
-- Versions (internal/releaseinfo/release.go: ParseVersion, Compare). A text is a list of bytes.
-- `trim_space` is `strings.TrimSpace`. Of `strconv.Atoi` the code uses texts of at most 6 bytes in which
-- no '-' is left: an optional '+', then digits.
use fast_spider.Prelude.{
  ℕ, ◌+◌, ◌-◌, ◌*◌, Bool, ◌&&◌, ◌||◌, List, [], ◌∷◌, Option, none, some, if◌then◌else◌, ltb, leb,
  ◌==◌, length,
}
use fast_spider.Node.Jobs.Job.{Text}

pub record Version : Type 0 where
  pub major : ℕ
  pub minor : ℕ
  pub patch : ℕ

abbrev pub is_digit : ℕ → Bool
is_digit c = leb b'0' c && leb c b'9'

unfoldable pub digits_value : ℕ → Text → Option ℕ
digits_value value [] = some value
digits_value value (c ∷ cs) =
    let rest = digits_value (10 * value + (c - b'0')) cs in if is_digit c then rest else none

unfoldable pub atoi : Text → Option ℕ
unfolding digits_value
atoi [] = none
atoi (c ∷ []) = digits_value 0 (c ∷ [])
atoi (c ∷ d ∷ cs) = if c == b'+' then digits_value 0 (d ∷ cs) else digits_value 0 (c ∷ d ∷ cs)

-- What stands before the first byte `stop`; all if there is none.
unfoldable pub before : ℕ → Text → Text
before stop [] = []
before stop (c ∷ cs) = let rest = before stop cs in if c == stop then [] else c ∷ rest

unfoldable pub cons_part : ℕ → List Text → List Text
cons_part c [] = (c ∷ []) ∷ []
cons_part c (part ∷ parts) = (c ∷ part) ∷ parts

-- `strings.Split(s, ".")`
unfoldable pub split_dots : Text → List Text
unfolding cons_part
split_dots [] = [] ∷ []
split_dots (c ∷ cs) = let rest = split_dots cs in if c == b'.' then [] ∷ rest else cons_part c rest

unfoldable pub bounded_value : Option ℕ → Option ℕ
bounded_value none = none
bounded_value (some value) = if ltb 999999 value then none else some value

unfoldable pub parse_part : Text → Option ℕ
unfolding atoi bounded_value
parse_part part =
    if length part == 0 || ltb 6 (length part) then none else bounded_value (atoi part)

unfoldable pub version_of : Option ℕ → Option ℕ → Option ℕ → Option Version
version_of (some a) (some b) (some c) = some (record { major = a; minor = b; patch = c })
version_of (some a) (some b) none = none
version_of (some a) none c = none
version_of none b c = none

unfoldable pub parse_parts : List Text → Option Version
unfolding parse_part version_of
parse_parts (a ∷ b ∷ c ∷ []) = version_of (parse_part a) (parse_part b) (parse_part c)
parse_parts [] = none
parse_parts (a ∷ []) = none
parse_parts (a ∷ b ∷ []) = none
parse_parts (a ∷ b ∷ c ∷ d ∷ more) = none

-- The sign of what `Compare` answers.
pub data Sign : Type 0 where
  less equal greater : Sign

unfoldable pub compare_numbers : ℕ → ℕ → Sign → Sign
compare_numbers a b rest = if ltb a b then less else if ltb b a then greater else rest

unfoldable pub compare_parsed : Option Version → Option Version → Option Sign
unfolding compare_numbers
compare_parsed none right = none
compare_parsed (some v) none = none
compare_parsed (some v) (some w) = some (
    compare_numbers v.major w.major
      (compare_numbers v.minor w.minor (compare_numbers v.patch w.patch equal)))

module _ (trim_space : Text → Text) where
  unfoldable pub parse_version : Text → Option Version
  unfolding before split_dots parse_parts
  parse_version raw =
      let text = trim_space raw in
      if length text == 0 || ltb 64 (length text)
      then none
      else parse_parts (split_dots (before b'-' text))

  unfoldable pub compare_versions : Text → Text → Option Sign
  unfolding parse_version compare_parsed
  compare_versions a b = compare_parsed (parse_version a) (parse_version b)
