-- ===== src/Releases/Signing.antt =====
-- What a signature of a manifest covers (internal/releaseinfo/release.go: Payload, Sign, Verify).
use fast_spider.Prelude.{
  ℕ, ◌≡◌, ◌≢◌, refl, sym, Bool, true, false, not, ◌&&◌, ◌||◌, [], ◌∷◌, Option, none, some, arith,
  if◌then◌else◌, Option-cases, inl, inr, ◌==◌, length,
}
use fast_spider.Node.Jobs.Job.{Text}
use fast_spider.Releases.Manifest.{
  Manifest, identifier_bytes, valid_identifier, version_bytes, valid_release_version, hex_bytes,
  validate, payload_header, line, payload, Crypto, signature_size, sign, signature_holds, verify,
  ManifestError,
}

-- The text has no newline.
unfoldable pub one_line : Text → Bool
one_line [] = true
one_line (c ∷ cs) = not (c == 10) && one_line cs

cons-injective : {a b : ℕ} {x y : Text} → a ∷ x ≡ b ∷ y → (a ≡ b) × (x ≡ y)
cons-injective e = (ground arith, ground arith)

line-injective :
    (a b x y : Text)
    → one_line a ≡ true
    → one_line b ≡ true
    → line a x ≡ line b y
    → (a ≡ b) × (x ≡ y)
unfolding one_line
line-injective [] [] x y p q e = (refl, (cons-injective e).1)
line-injective [] (d ∷ b) x y p q e = let (same, rest) = cons-injective e in absurd (ground arith)
line-injective (c ∷ a) [] x y p q e = let (same, rest) = cons-injective e in absurd (ground arith)
line-injective (c ∷ a) (d ∷ b) x y p q e =
    let (same, rest) = cons-injective e in
    let (heads, tails) = line-injective a b x y (ground arith) (ground arith) rest in
    (cc (same, heads), tails)

not_last : (a : Text) → line a [] ≢ []
not_last [] e = ground arith
not_last (c ∷ a) e = ground arith

last-injective : (a b : Text) → line a [] ≡ line b [] → a ≡ b
last-injective [] [] e = refl
last-injective [] (d ∷ b) e = absurd (not_last b (sym (cons-injective e).1))
last-injective (c ∷ a) [] e = absurd (not_last a (cons-injective e).1)
last-injective (c ∷ a) (d ∷ b) e =
    let (same, rest) = cons-injective e in let tails = last-injective a b rest in cc (same, tails)

identifier_bytes-one_line :
    (first : Bool) (text : Text) → identifier_bytes first text ≡ true → one_line text ≡ true
unfolding identifier_bytes one_line
identifier_bytes-one_line first [] h = refl
identifier_bytes-one_line first (c ∷ cs) h = ground (arith, identifier_bytes-one_line false cs)

valid_identifier-one_line :
    (text : Text) (limit : ℕ) → valid_identifier text limit ≡ true → one_line text ≡ true
unfolding valid_identifier
valid_identifier-one_line text limit h = ground (arith, identifier_bytes-one_line true text)

version_bytes-one_line : (text : Text) → version_bytes text ≡ true → one_line text ≡ true
unfolding version_bytes one_line
version_bytes-one_line [] h = refl
version_bytes-one_line (c ∷ cs) h = ground (arith, version_bytes-one_line cs)

hex_bytes-one_line : (text : Text) → hex_bytes text ≡ true → one_line text ≡ true
unfolding hex_bytes one_line
hex_bytes-one_line [] h = refl
hex_bytes-one_line (c ∷ cs) h = ground (arith, hex_bytes-one_line cs)

valid_release_version-one_line :
    (text : Text) → valid_release_version text ≡ true → one_line text ≡ true
unfolding valid_release_version
valid_release_version-one_line text h = version_bytes-one_line text (ground arith)

passed :
    (test : Bool) (fault : ManifestError) (rest : Option ManifestError)
    → (if test then some fault else rest) ≡ none
    → (test ≡ false) × (rest ≡ none)
passed true fault rest h = absurd (ground arith)
passed false fault rest h = (refl, h)

is_one : (n : ℕ) → not (n == 1) ≡ false → n ≡ 1
is_one n h = ground arith

two_hold : (a b : Bool) → (not a || not b) ≡ false → (a ≡ true) × (b ≡ true)
two_hold a b h = (ground arith, ground arith)

three_hold :
    (a b c : Bool) → (not a || not b || not c) ≡ false → (a ≡ true) × (b ≡ true) × (c ≡ true)
three_hold a b c h = (ground arith, ground arith, ground arith)

-- What Validate says of the fields that stand before the path.
record IsLined (m : Manifest) : Type 0 where
  pub supported : m.manifest_version ≡ 1
  pub kind_line : one_line m.kind ≡ true
  pub id_line : one_line m.id ≡ true
  pub platform_line : one_line m.platform ≡ true
  pub version_line : one_line m.version ≡ true
  pub sha256_line : one_line m.sha256 ≡ true

module _ (trim_space : Text → Text) where
  validate-IsLined : (m : Manifest) → validate trim_space m ≡ none → IsLined m
  unfolding validate
  validate-IsLined m h =
      let (version_ok, h1) = passed _ _ _ h in
      let (ids_ok, h2) = passed _ _ _ h1 in
      let (release_ok, h3) = passed _ _ _ h2 in
      let (sha_ok, h4) = passed _ _ _ h3 in
      let (release_part, parsed) = two_hold _ _ release_ok in
      let (sized, sha_part) = two_hold _ _ sha_ok in
      let (kind_ok, id_ok, platform_ok) = three_hold _ _ _ ids_ok in
      record {
        supported = is_one m.manifest_version version_ok;
        kind_line = valid_identifier-one_line m.kind 32 kind_ok;
        id_line = valid_identifier-one_line m.id 64 id_ok;
        platform_line = valid_identifier-one_line m.platform 64 platform_ok;
        version_line = valid_release_version-one_line m.version release_part;
        sha256_line = hex_bytes-one_line m.sha256 sha_part;
      }

  -- Where numbers are printed on one line and differently if they differ, two valid manifests with the
  -- same payload agree in every field but the signature: no field can be changed under a signature.
  pub payload_determines :
      (decimal : ℕ → Text) (m q : Manifest)
      → ((n : ℕ) → one_line (decimal n) ≡ true)
      → ((a b : ℕ) → decimal a ≡ decimal b → a ≡ b)
      → validate trim_space m ≡ none
      → validate trim_space q ≡ none
      → payload decimal m ≡ payload decimal q
      → (m.manifest_version ≡ q.manifest_version)
        × (m.kind ≡ q.kind)
        × (m.id ≡ q.id)
        × (m.platform ≡ q.platform)
        × (m.version ≡ q.version)
        × (m.sha256 ≡ q.sha256)
        × (m.size_bytes ≡ q.size_bytes)
        × (m.download_path ≡ q.download_path)
  unfolding payload one_line
  payload_determines decimal m q lined injective h g e =
      let a = validate-IsLined m h in
      let b = validate-IsLined q g in
      let (e0, r0) = line-injective payload_header payload_header _ _ refl refl e in
      let (e1, r1) =
        line-injective (decimal m.manifest_version) (decimal q.manifest_version) _ _
          (lined m.manifest_version) (lined q.manifest_version) r0 in
      let (e2, r2) = line-injective m.kind q.kind _ _ a.kind_line b.kind_line r1 in
      let (e3, r3) = line-injective m.id q.id _ _ a.id_line b.id_line r2 in
      let (e4, r4) = line-injective m.platform q.platform _ _ a.platform_line b.platform_line r3 in
      let (e5, r5) = line-injective m.version q.version _ _ a.version_line b.version_line r4 in
      let (e6, r6) = line-injective m.sha256 q.sha256 _ _ a.sha256_line b.sha256_line r5 in
      let (e7, r7) =
        line-injective (decimal m.size_bytes) (decimal q.size_bytes) _ _ (lined m.size_bytes)
          (lined q.size_bytes) r6 in
      (
        injective m.manifest_version q.manifest_version e1,
        e2,
        e3,
        e4,
        e5,
        e6,
        injective m.size_bytes q.size_bytes e7,
        last-injective m.download_path q.download_path r7,
      )

  sign-some :
      (decimal : ℕ → Text) (k : Crypto) (private_key : Text) (m signed : Manifest)
      → sign trim_space decimal k private_key m ≡ some signed
      → (validate trim_space m ≡ none)
        × (signed
            ≡ record m { signature = k.encode (k.sign_bytes private_key (payload decimal m)) })
  unfolding sign
  sign-some decimal k private_key m signed e = elim (Option-cases (validate trim_space m)) [
    | inl valid ↦ (valid, ground (arith, valid, e))
    | inr (fault, invalid) ↦ absurd (ground (arith, invalid, e))
  ]

  verify_signed :
      (decimal : ℕ → Text) (k : Crypto) (public_key s : Text) (m : Manifest)
      → validate trim_space m ≡ none
      → k.decode (trim_space (k.encode s)) ≡ some s
      → length s ≡ signature_size
      → k.verify_bytes public_key (payload decimal m) s ≡ true
      → verify trim_space decimal k public_key (record m { signature = k.encode s }) ≡ true
  unfolding verify validate payload signature_holds
  verify_signed decimal k public_key s m valid decoded size accepted =
      rw (valid, decoded, size, accepted) refl

  -- Where ed25519 accepts its own signatures of 64 bytes and base64 decodes what it encoded, trimmed
  -- or not, Verify accepts every manifest that Sign has signed.
  pub signed_verifies :
      (decimal : ℕ → Text) (k : Crypto) (private_key public_key : Text) (m signed : Manifest)
      → ((message : Text)
          → k.verify_bytes public_key message (k.sign_bytes private_key message) ≡ true)
      → ((message : Text) → length (k.sign_bytes private_key message) ≡ signature_size)
      → ((s : Text) → k.decode (trim_space (k.encode s)) ≡ some s)
      → sign trim_space decimal k private_key m ≡ some signed
      → verify trim_space decimal k public_key signed ≡ true
  signed_verifies decimal k private_key public_key m signed accepts size decodes e =
      let (valid, same) = sign-some decimal k private_key m signed e in
      let message = payload decimal m in
      let s = k.sign_bytes private_key message in
      rw same
        (verify_signed decimal k public_key s m valid (decodes s) (size message) (accepts message))
