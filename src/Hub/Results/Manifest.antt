-- ===== src/Hub/Results/Manifest.antt =====
-- The check of a manifest (internal/hub/core/result_pool.go, validateResultManifest). What
-- encoding/json makes of the bytes is an argument; its values are `map[string]any`, `[]any` and the
-- rest. `is_artifact_key` is `strings.EqualFold(strings.TrimSpace(key), "artifactId")`.
use fast_spider.Prelude.{
  ℕ, ◌≤◌, ◌≡◌, refl, Bool, true, false, ◌||◌, List, [], ◌∷◌, ◌++◌, Option, none, some, String,
  arith, if◌then◌else◌, ltb, ◌==◌, length, All, All-append,
}
use fast_spider.Node.Jobs.Job.{Text}

mutual
  pub data Json : Type 0 where
    object : Members → Json
    array : Items → Json
    scalar : Json

  pub data Members : Type 0 where
    no_members : Members
    member : String → Json → Members → Members

  pub data Items : Type 0 where
    no_items : Items
    item : Json → Items → Items

module _ (is_artifact_key : String → Bool) where
  unfoldable mutual
    pub contains_artifact_id : Json → Bool
    contains_artifact_id (object members) = members_contain members
    contains_artifact_id (array items) = items_contain items
    contains_artifact_id scalar = false

    pub members_contain : Members → Bool
    members_contain no_members = false
    members_contain (member key child members) =
        (is_artifact_key key || contains_artifact_id child) || members_contain members

    pub items_contain : Items → Bool
    items_contain no_items = false
    items_contain (item child items) = contains_artifact_id child || items_contain items

-- 64 << 10
abbrev pub max_result_manifest_bytes : ℕ
max_result_manifest_bytes = 65536

module _ (is_artifact_key : String → Bool) (unmarshal : Text → Option Json) where
  unfoldable pub is_object_without : Option Json → Bool
  unfolding contains_artifact_id
  is_object_without none = false
  is_object_without (some (object members)) =
      if contains_artifact_id is_artifact_key (object members) then false else true
  is_object_without (some (array items)) = false
  is_object_without (some scalar) = false

  unfoldable pub manifest_is_valid : Text → Bool
  unfolding is_object_without
  manifest_is_valid raw =
      if length raw == 0 || ltb max_result_manifest_bytes (length raw)
      then false
      else is_object_without (unmarshal raw)

-- Every key of a value, at every depth.
mutual
  pub keys_of : Json → List String
  keys_of (object members) = member_keys members
  keys_of (array items) = item_keys items
  keys_of scalar = []

  pub member_keys : Members → List String
  member_keys no_members = []
  member_keys (member key child members) = key ∷ (keys_of child ++ member_keys members)

  pub item_keys : Items → List String
  item_keys no_items = []
  item_keys (item child items) = keys_of child ++ item_keys items

module _ (is_artifact_key : String → Bool) where
  abbrev pub AllPlain : List String → Type 0
  AllPlain = All (λ k. is_artifact_key k ≡ false)

  mutual
    unfolding contains_artifact_id keys_of

    pub contains_none :
        (j : Json) → contains_artifact_id is_artifact_key j ≡ false → AllPlain (keys_of j)
    contains_none (object members) h = members_none members h
    contains_none (array items) h = items_none items h
    contains_none scalar h = tt

    members_none :
        (m : Members) → members_contain is_artifact_key m ≡ false → AllPlain (member_keys m)
    members_none no_members h = tt
    members_none (member key child members) h = (
      ground arith,
      All-append (λ k. is_artifact_key k ≡ false) (keys_of child) (member_keys members)
          (contains_none child (ground arith)) (members_none members (ground arith)),
    )

    items_none : (i : Items) → items_contain is_artifact_key i ≡ false → AllPlain (item_keys i)
    items_none no_items h = tt
    items_none (item child items) h =
        All-append (λ k. is_artifact_key k ≡ false) (keys_of child) (item_keys items)
          (contains_none child (ground arith)) (items_none items (ground arith))

module _ (is_artifact_key : String → Bool) (unmarshal : Text → Option Json) where
  is_object_without-keys :
      (o : Option Json)
      → is_object_without is_artifact_key unmarshal o ≡ true
      → (j : Json) × (o ≡ some j) × AllPlain is_artifact_key (keys_of j)
  unfolding is_object_without
  is_object_without-keys none h = absurd (ground arith)
  is_object_without-keys (some (object members)) h =
      (object members, refl, contains_none is_artifact_key (object members) (ground arith))
  is_object_without-keys (some (array items)) h = absurd (ground arith)
  is_object_without-keys (some scalar) h = absurd (ground arith)

  pub manifest_is_valid-keys :
      (raw : Text)
      → manifest_is_valid is_artifact_key unmarshal raw ≡ true
      → (1 ≤ length raw)
        × (length raw ≤ max_result_manifest_bytes)
        × ((j : Json) × (unmarshal raw ≡ some j) × AllPlain is_artifact_key (keys_of j))
  unfolding manifest_is_valid
  manifest_is_valid-keys raw h =
      (ground arith, ground arith, is_object_without-keys (unmarshal raw) (ground arith))
