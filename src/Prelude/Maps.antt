-- ===== src/Prelude/Maps.antt =====
-- A Go map with string keys, as an association list. `UniqueKeys` says that no key is listed twice,
-- so that `length` is the map's `len`; the order of the list stands for the order in which a
-- `range` happens to meet the entries.
use mathlib.Core.Path.{◌≡◌, refl, sym, ◌∙◌}
use mathlib.Core.Logic.{◌⊎◌, inl, inr}
use mathlib.Core.Bool.{Bool, true, false}
use mathlib.Core.List.{List, [], ◌∷◌}
use mathlib.Core.Option.{Option, none, some}
use native.Mathlib.Omega.{arith}
use Prim.Native.Nat.{suc, ◌≤◌, ◌<◌}
use text.Mathlib.TextPositions.{eq_refl}
use text.Mathlib.TextEquality.{eq_iff}
use text.Mathlib.Text.{◌==◌ as str_eq}
use Prim.Native.String.{String}
use fast_spider.Prelude.Tests.{if◌then◌else◌, Bool-cases, is_some}
use fast_spider.Prelude.Lists.{length, keep_if}

abbrev pub Map : Type 0 → Type 0
Map V = List (String × V)

module _ {V : Type 0} where
  unfoldable pub delete : String → Map V → Map V
  delete key [] = []
  delete key ((name, held) ∷ others) =
      if str_eq name key then delete key others else (name, held) ∷ delete key others

  unfoldable pub lookup : String → Map V → Option V
  lookup key [] = none
  lookup key ((name, held) ∷ others) = if str_eq name key then some held else lookup key others

  unfoldable pub insert : String → V → Map V → Map V
  insert key new [] = (key, new) ∷ []
  insert key new ((name, held) ∷ others) =
      if str_eq name key then (key, new) ∷ others else (name, held) ∷ insert key new others

  abbrev pub UniqueKeys : Map V → Type 0
  UniqueKeys [] = Unit {0}
  UniqueKeys ((k, v) ∷ m) = (lookup k m ≡ none) × UniqueKeys m

  pub lookup-delete :
      (key asked : String) (m : Map V)
      → lookup asked (delete key m) ≡ (if str_eq key asked then none else lookup asked m)
  unfolding lookup delete
  lookup-delete key asked [] = ground arith
  lookup-delete key asked ((name, held) ∷ m) =
      ground
        (lookup-delete key asked m, eq_iff name asked, eq_iff name key, eq_iff key asked, arith)

  pub lookup-insert :
      (key asked : String) (new : V) (m : Map V)
      → lookup asked (insert key new m) ≡ (if str_eq key asked then some new else lookup asked m)
  unfolding lookup insert
  lookup-insert key asked new [] = refl
  lookup-insert key asked new ((name, held) ∷ m) =
      ground
        (lookup-insert key asked new m, eq_iff name asked, eq_iff name key, eq_iff key asked, arith)

  pub lookup-insert_self :
      (key : String) (new : V) (m : Map V) → lookup key (insert key new m) ≡ some new
  lookup-insert_self key new m = rw (lookup-insert key key new m, eq_refl key)

  -- What is found after a change is the change or was there before.
  pub inserted :
      (key asked : String) (new : V) (m : Map V) {o : Option V}
      → lookup asked (insert key new m) ≡ o
      → ((key ≡ asked) × (o ≡ some new)) ⊎ ((str_eq key asked ≡ false) × (lookup asked m ≡ o))
  inserted key asked new m e = elim (Bool-cases (str_eq key asked)) [
    | inl s ↦
        inl (ground (arith, eq_iff key asked), sym e ∙ rw (lookup-insert key asked new m, s) refl)
    | inr s ↦ inr (s, sym (rw (lookup-insert key asked new m, s) refl) ∙ e)
  ]

  pub deleted :
      (key asked : String) (m : Map V) {o : Option V}
      → lookup asked (delete key m) ≡ o
      → ((key ≡ asked) × (o ≡ none)) ⊎ ((str_eq key asked ≡ false) × (lookup asked m ≡ o))
  deleted key asked m e = elim (Bool-cases (str_eq key asked)) [
    | inl s ↦ inl (ground (arith, eq_iff key asked), sym e ∙ rw (lookup-delete key asked m, s) refl)
    | inr s ↦ inr (s, sym (rw (lookup-delete key asked m, s) refl) ∙ e)
  ]

  pub insert-UniqueKeys :
      (k : String) (v : V) (m : Map V) → UniqueKeys m → UniqueKeys (insert k v m)
  unfolding insert lookup
  insert-UniqueKeys k v [] u = (refl, tt)
  insert-UniqueKeys k v ((j, w) ∷ m) u =
      ground (arith, insert-UniqueKeys k v m u.1, lookup-insert k j v m, eq_iff j k, eq_iff k j)

  pub delete-UniqueKeys : (k : String) (m : Map V) → UniqueKeys m → UniqueKeys (delete k m)
  unfolding delete
  delete-UniqueKeys k [] u = tt
  delete-UniqueKeys k ((j, w) ∷ m) u =
      ground (arith, delete-UniqueKeys k m u.1, lookup-delete k j m)

  pub length-insert :
      (k : String) (v : V) (m : Map V)
      → length (insert k v m) ≡ (if is_some (lookup k m) then length m else suc (length m))
  unfolding insert lookup
  length-insert k v [] = refl
  length-insert k v ((j, w) ∷ m) = ground (arith, length-insert k v m)

  pub length-delete-le : (k : String) (m : Map V) → length (delete k m) ≤ length m
  unfolding delete
  length-delete-le k [] = omega arith
  length-delete-le k ((j, w) ∷ m) = ground (arith, length-delete-le k m)

  pub length-delete-lt :
      (k : String) (m : Map V) → is_some (lookup k m) ≡ true → length (delete k m) < length m
  unfolding delete lookup
  length-delete-lt k [] h = ground arith
  length-delete-lt k ((j, w) ∷ m) h = ground (arith, length-delete-le k m, length-delete-lt k m)

  pub lookup-keep_if :
      (p : String × V → Bool) (k : String) (m : Map V)
      → lookup k m ≡ none
      → lookup k (keep_if p m) ≡ none
  unfolding lookup
  lookup-keep_if p k [] h = refl
  lookup-keep_if p k ((j, w) ∷ m) h = ground (arith, lookup-keep_if p k m)

  -- What a filtering `range` with `delete` leaves at a key.
  pub lookup-keep_if-some :
      (p : String × V → Bool) (k : String) (v : V) (m : Map V)
      → UniqueKeys m
      → lookup k m ≡ some v
      → lookup k (keep_if p m) ≡ (if p (k, v) then some v else none)
  unfolding lookup
  lookup-keep_if-some p k v [] u h = ground arith
  lookup-keep_if-some p k v ((j, w) ∷ m) u h = elim (Bool-cases (str_eq j k)) [
    | inl e ↦ ground (arith, eq_iff j k, lookup-keep_if p k m)
    | inr e ↦ ground (arith, lookup-keep_if-some p k v m u.1)
  ]

  pub keep_if-UniqueKeys :
      (p : String × V → Bool) (m : Map V) → UniqueKeys m → UniqueKeys (keep_if p m)
  keep_if-UniqueKeys p [] u = tt
  keep_if-UniqueKeys p ((j, w) ∷ m) u =
      ground (arith, keep_if-UniqueKeys p m u.1, lookup-keep_if p j m)
