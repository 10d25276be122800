-- ===== src/Backups/Sorted.antt =====
-- The sorts of pruneReleaseBackups order the backups (internal/opsbackup/prune.go).
use fast_spider.Prelude.{
  ℕ, zero, suc, ◌≡◌, refl, Bool, true, false, List, [], ◌∷◌, arith, if-cases, take, drop, All,
  All-map, ap, ◌∙◌, length, ◌<◌, ◌⊎◌, Bool-cases, ◌==◌, inl, inr,
}
use mathlib.Core.List.{Permᴰ}
use mathlib.Core.List.Permᴰ
use fast_spider.Node.Jobs.Job.{Text}
use fast_spider.Backups.Order.{Candidate, text_lt, precedes, insert_by, sort_by}

module _ {A : Type 0} (less : A → A → Bool) where
  pub insert_by-perm : (a : A) (l : List A) → Permᴰ (insert_by less a l) (a ∷ l)
  unfolding insert_by
  insert_by-perm a [] = Permᴰ.refl (a ∷ [])
  insert_by-perm a (b ∷ l) =
      if-cases (λ r. Permᴰ r (a ∷ b ∷ l)) (less b a)
        (λ e. Permᴰ.trans (Permᴰ.cons refl (insert_by-perm a l)) (Permᴰ.swap refl refl))
        (λ e. Permᴰ.refl (a ∷ b ∷ l))

  pub sort_by-perm : (l : List A) → Permᴰ (sort_by less l) l
  unfolding sort_by
  sort_by-perm [] = Permᴰ.nil
  sort_by-perm (a ∷ l) =
      Permᴰ.trans (insert_by-perm a (sort_by less l)) (Permᴰ.cons refl (sort_by-perm l))

module _ {A : Type 0} (less : A → A → Bool) where
  length-insert_by : (a : A) (l : List A) → length (insert_by less a l) ≡ suc (length l)
  unfolding insert_by
  length-insert_by a [] = refl
  length-insert_by a (b ∷ l) =
      if-cases (λ (r : List A). length r ≡ suc (suc (length l))) (less b a)
        (λ e. ap suc (length-insert_by a l)) (λ e. refl)

  pub length-sort_by : (l : List A) → length (sort_by less l) ≡ length l
  unfolding sort_by
  length-sort_by [] = refl
  length-sort_by (a ∷ l) = length-insert_by a (sort_by less l) ∙ ap suc (length-sort_by l)

text_lt-cotrans : (x b a : Text) → text_lt x b ≡ false → text_lt b a ≡ false → text_lt x a ≡ false
unfolding text_lt
text_lt-cotrans x b [] h k = refl
text_lt-cotrans x [] (c ∷ cs) h k = absurd (ground arith)
text_lt-cotrans [] (d ∷ ds) (c ∷ cs) h k = absurd (ground arith)
text_lt-cotrans (e ∷ es) (d ∷ ds) (c ∷ cs) h k = ground (arith, text_lt-cotrans es ds cs)

text_lt-asym : (a b : Text) → text_lt a b ≡ true → text_lt b a ≡ false
unfolding text_lt
text_lt-asym a [] h = absurd (ground arith)
text_lt-asym [] (c ∷ cs) h = refl
text_lt-asym (b ∷ bs) (c ∷ cs) h = ground (arith, text_lt-asym bs cs)

precedes-cotrans :
    (x b a : Candidate) → precedes x b ≡ false → precedes b a ≡ false → precedes x a ≡ false
unfolding precedes
precedes-cotrans x b a h k = ground (arith, text_lt-cotrans x.name b.name a.name)

precedes-asym : (a b : Candidate) → precedes a b ≡ true → precedes b a ≡ false
unfolding precedes
precedes-asym a b h = ground (arith, text_lt-asym a.name b.name)

-- None of these precedes the backup.
abbrev NonePrecedes : Candidate → List Candidate → Type 0
NonePrecedes a l = All (λ (b : Candidate). precedes b a ≡ false) l

abbrev pub IsSorted : List Candidate → Type 0
IsSorted [] = Unit
IsSorted (a ∷ l) = NonePrecedes a l × IsSorted l

insert_by-NonePrecedes :
    (a b : Candidate) (l : List Candidate)
    → precedes a b ≡ false
    → NonePrecedes b l
    → NonePrecedes b (insert_by precedes a l)
unfolding insert_by
insert_by-NonePrecedes a b [] h all = (h, tt)
insert_by-NonePrecedes a b (c ∷ l) h all =
    if-cases (NonePrecedes b) (precedes c a) (λ e. (all.0, insert_by-NonePrecedes a b l h all.1))
      (λ e. (h, all))

insert_by-IsSorted :
    (a : Candidate) (l : List Candidate) → IsSorted l → IsSorted (insert_by precedes a l)
unfolding insert_by
insert_by-IsSorted a [] s = (tt, tt)
insert_by-IsSorted a (b ∷ l) s =
    if-cases IsSorted (precedes b a)
      (λ e. (insert_by-NonePrecedes a b l (precedes-asym b a e) s.0, insert_by-IsSorted a l s.1))
      (λ e. ((e, All-map (λ x h. precedes-cotrans x b a h e) l s.0), s))

pub sort_by-IsSorted : (l : List Candidate) → IsSorted (sort_by precedes l)
unfolding sort_by
sort_by-IsSorted [] = tt
sort_by-IsSorted (a ∷ l) = insert_by-IsSorted a (sort_by precedes l) (sort_by-IsSorted l)

-- The backup precedes none of these.
abbrev PrecedesNone : List Candidate → Candidate → Type 0
PrecedesNone kept d = All (λ (k : Candidate). precedes d k ≡ false) kept

All-drop : (P : Candidate → Type 0) (n : ℕ) (l : List Candidate) → All P l → All P (drop n l)
All-drop P zero l all = all
All-drop P (suc n) [] all = tt
All-drop P (suc n) (a ∷ l) all = All-drop P n l all.1

All-both :
    (P Q : Candidate → Type 0) (l : List Candidate)
    → All P l
    → All Q l
    → All (λ (c : Candidate). P c × Q c) l
All-both P Q [] p q = tt
All-both P Q (a ∷ l) p q = ((p.0, q.0), All-both P Q l p.1 q.1)

All-trivial : (l : List Candidate) → All {0, 0} (λ (c : Candidate). Unit) l
All-trivial [] = tt
All-trivial (a ∷ l) = (tt, All-trivial l)

-- In a sorted list no backup behind a place precedes one before it.
behind-PrecedesNone :
    (n : ℕ) (l : List Candidate) → IsSorted l → All (PrecedesNone (take n l)) (drop n l)
behind-PrecedesNone zero l s = All-trivial l
behind-PrecedesNone (suc n) [] s = tt
behind-PrecedesNone (suc n) (a ∷ l) s =
    All-both (λ d. precedes d a ≡ false) (PrecedesNone (take n l)) (drop n l)
      (All-drop (λ d. precedes d a ≡ false) n l s.0) (behind-PrecedesNone n l s.1)

-- The backup is older than the other one, or of the same time and its name is not before the other's.
abbrev pub IsNoNewer : Candidate → Candidate → Type 0
IsNoNewer d k =
    (d.created_at < k.created_at)
    ⊎ ((d.created_at ≡ k.created_at) × (text_lt d.name k.name ≡ false))

precedes-IsNoNewer : (d k : Candidate) → precedes d k ≡ false → IsNoNewer d k
unfolding precedes
precedes-IsNoNewer d k e = elim (Bool-cases (d.created_at == k.created_at)) [
  | inl same ↦ inr (ground (arith, same), ground (arith, same, e))
  | inr other ↦ inl (ground (arith, other, e))
]

pub behind-IsNoNewer :
    (n : ℕ) (l : List Candidate)
    → IsSorted l
    → All (λ (d : Candidate). All (IsNoNewer d) (take n l)) (drop n l)
behind-IsNoNewer n l s =
    All-map
      (λ (d : Candidate) (h : PrecedesNone (take n l) d).
        All-map (λ (k : Candidate) (e : precedes d k ≡ false). precedes-IsNoNewer d k e) (take n l)
          h)
      (drop n l) (behind-PrecedesNone n l s)
