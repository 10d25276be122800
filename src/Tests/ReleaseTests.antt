-- ===== src/Tests/ReleaseTests.antt =====
-- Runs of the model of releases at concrete inputs.
use fast_spider.Prelude.{ℕ, zero, suc, ◌≡◌, refl, ap, true, ◌⊎◌, [], ◌∷◌, none, some, length}
use fast_spider.Node.Jobs.Job.{Text}
use fast_spider.Releases.Version.{
  Version, less, digits_value, atoi, before, cons_part, split_dots, bounded_value, parse_part,
  version_of, parse_parts, parse_version, compare_numbers, compare_parsed, compare_versions,
}
use fast_spider.Releases.Manifest.{
  Manifest, Crypto, identifier_bytes, valid_identifier, count_byte, version_bytes,
  valid_release_version, hex_bytes, starts_with, has_two_dots, has_query, validate, payload, sign,
  verify,
}
use fast_spider.Releases.Order.{compare_is_numeric, number_order, version_number}
use fast_spider.Releases.Signing.{one_line, payload_determines, signed_verifies}

abbrev keep : Text → Text
keep text = text

abbrev repeated : ℕ → ℕ → Text
repeated zero c = []
repeated (suc n) c = c ∷ repeated n c

-- Numbers printed in unary.
abbrev unary : ℕ → Text
unary n = repeated n b'1'

unary_lined : (n : ℕ) → one_line (unary n) ≡ true
unfolding one_line
unary_lined zero = refl
unary_lined (suc n) = unary_lined n

unary-length : (n : ℕ) → length (unary n) ≡ n
unary-length zero = refl
unary-length (suc n) = ap suc (unary-length n)

unary-injective : (a b : ℕ) → unary a ≡ unary b → a ≡ b
unary-injective a b e = rw (← unary-length a, e) (unary-length b)

abbrev old_version : Text
old_version = b'1' ∷ b'.' ∷ b'9' ∷ b'.' ∷ b'0' ∷ []

abbrev new_version : Text
new_version = b'1' ∷ b'.' ∷ b'1' ∷ b'0' ∷ b'.' ∷ b'0' ∷ b'-' ∷ b'r' ∷ []

test_order : compare_versions keep old_version new_version ≡ some less
unfolding digits_value atoi before cons_part split_dots bounded_value parse_part version_of
    parse_parts parse_version compare_numbers compare_parsed compare_versions
test_order = refl

compare_is_numeric_example :
    ((v : Version) × (w : Version) × (parse_version keep old_version ≡ some v)
      × (parse_version keep new_version ≡ some w)
      × (compare_versions keep old_version new_version
          ≡ some (number_order (version_number v) (version_number w))))
    ⊎ (((parse_version keep old_version ≡ none) ⊎ (parse_version keep new_version ≡ none))
        × (compare_versions keep old_version new_version ≡ none))
compare_is_numeric_example = compare_is_numeric keep old_version new_version

abbrev release : Text → Manifest
release signature = record {
  manifest_version = 1;
  kind = b'n' ∷ b'o' ∷ b'd' ∷ b'e' ∷ [];
  id = b'w' ∷ b'i' ∷ b'n' ∷ [];
  platform = b'w' ∷ b'i' ∷ b'n' ∷ [];
  version = old_version;
  sha256 = repeated 64 b'0';
  size_bytes = 3;
  download_path = b'/' ∷ b'd' ∷ [];
  signature = signature;
}

release_valid : (signature : Text) → validate keep (release signature) ≡ none
unfolding digits_value atoi before cons_part split_dots bounded_value parse_part version_of
    parse_parts parse_version identifier_bytes valid_identifier count_byte version_bytes
    valid_release_version hex_bytes starts_with has_two_dots has_query validate
release_valid signature = refl

payload_determines_example :
    ((release []).manifest_version ≡ (release (7 ∷ [])).manifest_version)
    × ((release []).kind ≡ (release (7 ∷ [])).kind)
    × ((release []).id ≡ (release (7 ∷ [])).id)
    × ((release []).platform ≡ (release (7 ∷ [])).platform)
    × ((release []).version ≡ (release (7 ∷ [])).version)
    × ((release []).sha256 ≡ (release (7 ∷ [])).sha256)
    × ((release []).size_bytes ≡ (release (7 ∷ [])).size_bytes)
    × ((release []).download_path ≡ (release (7 ∷ [])).download_path)
unfolding payload
payload_determines_example =
    payload_determines keep unary (release []) (release (7 ∷ [])) unary_lined unary-injective
      (release_valid []) (release_valid (7 ∷ [])) refl

-- A scheme whose every signature is 64 zeros.
abbrev zeros : Crypto
zeros = record {
  sign_bytes = λ key message. repeated 64 0;
  verify_bytes = λ key message s. true;
  encode = keep;
  decode = some;
}

signed_verifies_example : verify keep unary zeros [] (release (repeated 64 0)) ≡ true
unfolding sign validate payload digits_value atoi before cons_part split_dots bounded_value
    parse_part version_of parse_parts parse_version identifier_bytes valid_identifier count_byte
    version_bytes valid_release_version hex_bytes starts_with has_two_dots has_query
signed_verifies_example =
    signed_verifies keep unary zeros [] [] (release []) (release (repeated 64 0)) (λ message. refl)
      (λ message. refl) (λ s. refl) refl
