-- ===== src/Releases/Order.antt =====
-- The order of versions (internal/releaseinfo/release.go, Compare).
use fast_spider.Prelude.{
  ℕ, ◌+◌, ◌*◌, ◌≤◌, ◌≡◌, refl, ◌⊎◌, inl, inr, List, [], ◌∷◌, Option, none, some, arith,
  if◌then◌else◌, Option-cases, ltb,
}
use fast_spider.Node.Jobs.Job.{Text}
use fast_spider.Releases.Version.{
  Version, Sign, less, equal, greater, atoi, bounded_value, parse_part, version_of, parse_parts,
  compare_numbers, compare_parsed, parse_version, compare_versions, split_dots, before,
}

-- The three numbers as the digits of one.
abbrev pub version_number : Version → ℕ
version_number v = (v.major * 1000000 + v.minor) * 1000000 + v.patch

unfoldable pub number_order : ℕ → ℕ → Sign
number_order a b = if ltb a b then less else if ltb b a then greater else equal

abbrev pub IsSmall : Version → Type 0
IsSmall v = (v.major ≤ 999999) × (v.minor ≤ 999999) × (v.patch ≤ 999999)

bounded_value-le : (o : Option ℕ) (n : ℕ) → bounded_value o ≡ some n → n ≤ 999999
unfolding bounded_value
bounded_value-le none n e = absurd (ground arith)
bounded_value-le (some value) n e = ground arith

parse_part-le : (part : Text) (n : ℕ) → parse_part part ≡ some n → n ≤ 999999
unfolding parse_part
parse_part-le part n e = bounded_value-le (atoi part) n (ground arith)

version_of-IsSmall :
    (a b c : Option ℕ) (v : Version)
    → ((n : ℕ) → a ≡ some n → n ≤ 999999)
    → ((n : ℕ) → b ≡ some n → n ≤ 999999)
    → ((n : ℕ) → c ≡ some n → n ≤ 999999)
    → version_of a b c ≡ some v
    → IsSmall v
unfolding version_of
version_of-IsSmall (some a) (some b) (some c) v p q r e =
    ground (arith, p a refl, q b refl, r c refl)
version_of-IsSmall (some a) (some b) none v p q r e = absurd (ground arith)
version_of-IsSmall (some a) none c v p q r e = absurd (ground arith)
version_of-IsSmall none b c v p q r e = absurd (ground arith)

parse_parts-IsSmall : (parts : List Text) (v : Version) → parse_parts parts ≡ some v → IsSmall v
unfolding parse_parts
parse_parts-IsSmall (a ∷ b ∷ c ∷ []) v e =
    version_of-IsSmall (parse_part a) (parse_part b) (parse_part c) v (parse_part-le a)
      (parse_part-le b) (parse_part-le c) e
parse_parts-IsSmall [] v e = absurd (ground arith)
parse_parts-IsSmall (a ∷ []) v e = absurd (ground arith)
parse_parts-IsSmall (a ∷ b ∷ []) v e = absurd (ground arith)
parse_parts-IsSmall (a ∷ b ∷ c ∷ d ∷ more) v e = absurd (ground arith)

compare_small :
    (v w : Version)
    → IsSmall v
    → IsSmall w
    → compare_parsed (some v) (some w) ≡ some (number_order (version_number v) (version_number w))
unfolding compare_parsed compare_numbers number_order
compare_small v w p q = ground arith

module _ (trim_space : Text → Text) where
  parse_version-IsSmall :
      (raw : Text) (v : Version) → parse_version trim_space raw ≡ some v → IsSmall v
  unfolding parse_version
  parse_version-IsSmall raw v e =
      parse_parts-IsSmall (split_dots (before b'-' (trim_space raw))) v (ground arith)

  -- Two texts are compared exactly when both are versions, and then as the numbers that their three
  -- parts make in base 1,000,000.
  pub compare_is_numeric :
      (a b : Text)
      → ((v : Version) × (w : Version) × (parse_version trim_space a ≡ some v)
          × (parse_version trim_space b ≡ some w)
          × (compare_versions trim_space a b
              ≡ some (number_order (version_number v) (version_number w))))
        ⊎ (((parse_version trim_space a ≡ none) ⊎ (parse_version trim_space b ≡ none))
            × (compare_versions trim_space a b ≡ none))
  unfolding compare_versions
  compare_is_numeric a b = elim (Option-cases (parse_version trim_space a)) [
    | inl e ↦ inr (inl e, rw (e, compare_parsed) refl)
    | inr (v, e) ↦ elim (Option-cases (parse_version trim_space b)) [
      | inl f ↦ inr (inr f, rw (e, f, compare_parsed) refl)
      | inr (w, f) ↦ inl (
        v,
        w,
        e,
        f,
        rw (e, f) (compare_small v w (parse_version-IsSmall a v e) (parse_version-IsSmall b w f)),
      )
    ]
  ]
