-- ===== src/Releases/Manifest.antt =====
-- The manifest of a release (internal/releaseinfo/release.go: NewManifest, Validate, Payload). A text
-- is a list of bytes; `decimal` is how fmt prints a number with %d.
use fast_spider.Prelude.{
  ℕ, suc, Bool, true, false, not, ◌&&◌, ◌||◌, [], ◌∷◌, ◌++◌, Option, none, some, is_some,
  if◌then◌else◌, ltb, leb, ◌==◌, length,
}
use fast_spider.Node.Jobs.Job.{Text}
use fast_spider.Releases.Version.{parse_version, is_digit}

pub record Manifest : Type 0 where
  pub manifest_version : ℕ
  pub kind : Text
  pub id : Text
  pub platform : Text
  pub version : Text
  pub sha256 : Text
  pub size_bytes : ℕ
  pub download_path : Text
  pub signature : Text

pub data ManifestError : Type 0 where
  unsupported_version invalid_identifier invalid_version invalid_sha256 : ManifestError
  invalid_size invalid_path : ManifestError

abbrev pub is_lower : ℕ → Bool
is_lower c = leb b'a' c && leb c b'z'

abbrev pub is_mark : ℕ → Bool
is_mark c = (c == b'-') || (c == b'_') || (c == b'.')

-- The loop; `first` is whether the index is 0.
unfoldable pub identifier_bytes : Bool → Text → Bool
identifier_bytes first [] = true
identifier_bytes first (c ∷ cs) =
    let rest = identifier_bytes false cs in
    if is_lower c || is_digit c || is_mark c
    then (if first && is_mark c then false else rest)
    else false

unfoldable pub valid_identifier : Text → ℕ → Bool
unfolding identifier_bytes
valid_identifier value limit =
    if length value == 0 || ltb limit (length value) then false else identifier_bytes true value

unfoldable pub count_byte : ℕ → Text → ℕ
count_byte b [] = 0
count_byte b (c ∷ cs) = let rest = count_byte b cs in if c == b then suc rest else rest

unfoldable pub version_bytes : Text → Bool
version_bytes [] = true
version_bytes (c ∷ cs) =
    let rest = version_bytes cs in if is_digit c || (c == b'.') then rest else false

unfoldable pub valid_release_version : Text → Bool
unfolding count_byte version_bytes
valid_release_version value =
    if length value == 0 || ltb 32 (length value) || not (count_byte b'.' value == 2)
    then false
    else version_bytes value

-- `hex.DecodeString` takes these bytes, of an even number; there are 64 here.
unfoldable pub hex_bytes : Text → Bool
hex_bytes [] = true
hex_bytes (c ∷ cs) =
    let rest = hex_bytes cs in
    if is_digit c || (leb b'a' c && leb c b'f') || (leb b'A' c && leb c b'F') then rest else false

unfoldable pub starts_with : ℕ → Text → Bool
starts_with b [] = false
starts_with b (c ∷ cs) = c == b

-- `strings.Contains(s, "..")`
unfoldable pub has_two_dots : Text → Bool
has_two_dots [] = false
has_two_dots (c ∷ cs) = ((c == b'.') && starts_with b'.' cs) || has_two_dots cs

-- `strings.ContainsAny(s, "?#")`
unfoldable pub has_query : Text → Bool
has_query [] = false
has_query (c ∷ cs) = (c == b'?') || (c == b'#') || has_query cs

-- 2 << 30
abbrev pub max_release_bytes : ℕ
max_release_bytes = 2147483648

module _ (trim_space : Text → Text) where
  -- `none` is no error.
  unfoldable pub validate : Manifest → Option ManifestError
  unfolding valid_identifier valid_release_version parse_version hex_bytes starts_with has_two_dots
      has_query
  validate m =
      if not (m.manifest_version == 1)
      then some unsupported_version
      else if not (valid_identifier m.kind 32)
          || not (valid_identifier m.id 64)
          || not (valid_identifier m.platform 64)
      then some invalid_identifier
      else if not (valid_release_version m.version)
          || not (is_some (parse_version trim_space m.version))
      then some invalid_version
      else if not (length m.sha256 == 64) || not (hex_bytes m.sha256)
      then some invalid_sha256
      else if (m.size_bytes == 0) || ltb max_release_bytes m.size_bytes
      then some invalid_size
      else if (length m.download_path == 0)
          || not (starts_with b'/' m.download_path)
          || has_two_dots m.download_path
          || has_query m.download_path
      then some invalid_path
      else none

  unfoldable pub new_manifest :
      (Text → Text) → Text → Text → Text → Text → Text → ℕ → Text → Manifest
  new_manifest to_lower kind id platform version sha256 size_bytes download_path = record {
    manifest_version = 1;
    kind = trim_space kind;
    id = trim_space id;
    platform = trim_space platform;
    version = trim_space version;
    sha256 = to_lower (trim_space sha256);
    size_bytes = size_bytes;
    download_path = trim_space download_path;
    signature = [];
  }

-- "fast-spider-release/v1"
abbrev pub payload_header : Text
payload_header =
    b'f' ∷ b'a' ∷ b's' ∷ b't' ∷ b'-' ∷ b's' ∷ b'p' ∷ b'i' ∷ b'd' ∷ b'e' ∷ b'r' ∷ b'-' ∷ b'r' ∷ b'e'
    ∷ b'l' ∷ b'e' ∷ b'a' ∷ b's' ∷ b'e' ∷ b'/' ∷ b'v' ∷ b'1' ∷ []

abbrev pub line : Text → Text → Text
line text rest = text ++ 10 ∷ rest

unfoldable pub payload : (ℕ → Text) → Manifest → Text
payload decimal m = line payload_header (
    line (decimal m.manifest_version) (
      line m.kind (
        line m.id (
          line m.platform (
            line m.version
              (line m.sha256 (line (decimal m.size_bytes) (line m.download_path []))))))))

-- The packages ed25519 and base64.
pub record Crypto : Type 0 where
  pub sign_bytes : Text → Text → Text
  pub verify_bytes : Text → Text → Text → Bool
  pub encode : Text → Text
  pub decode : Text → Option Text

-- The length of an ed25519 signature.
abbrev pub signature_size : ℕ
signature_size = 64

module _ (trim_space : Text → Text) (decimal : ℕ → Text) (k : Crypto) where
  -- `Sign`; `none` is an error.
  unfoldable pub sign : Text → Manifest → Option Manifest
  unfolding validate payload
  sign private_key m =
      if is_some (validate trim_space m)
      then none
      else some (record m { signature = k.encode (k.sign_bytes private_key (payload decimal m)) })

  unfoldable pub signature_holds : Text → Text → Option Text → Bool
  signature_holds public_key message none = false
  signature_holds public_key message (some s) =
      if not (length s == signature_size) then false else k.verify_bytes public_key message s

  -- `Verify`; `true` is no error.
  unfoldable pub verify : Text → Manifest → Bool
  unfolding validate payload signature_holds
  verify public_key m =
      if is_some (validate trim_space m)
      then false
      else signature_holds public_key (payload decimal m) (k.decode (trim_space m.signature))
