-- ===== src/Node/FileEdit/Splice.antt =====
-- What the new text of an edit keeps of the old one (internal/node/file_edit.go, planFileEdit).
use fast_spider.Prelude.{
  ℕ, suc, ◌+◌, ◌-◌, ◌≤◌, ◌≡◌, refl, ap, sym, ◌∙◌, ◌⊎◌, inl, inr, Bool, true, false, ◌||◌, List, [],
  ◌∷◌, ◌++◌, Option, none, some, arith, if◌then◌else◌, if-cases, Bool-cases, subst, ltb, leb,
  length, drop, map, All, drop-drop, take-append-drop,
}
use mathlib.Core.List.{Permᴰ}
use mathlib.Core.List.Permᴰ
use fast_spider.Node.Jobs.Job.{Text}
use fast_spider.Node.FileEdit.Bytes.{has_prefix, later, index, slice}
use fast_spider.Node.FileEdit.Ranges.{
  TextEdit, EditError, invalid, EditRange, cons_range, range_at, normalized, locate, then_range,
  is_oversized, is_not_text, find_ranges, insert_range, sort_ranges, has_overlap, splice,
  changes_of, apply_ranges, sort_and_apply, max_edit_total_bytes, max_editable_file_bytes,
}

-- The second text is the first with the old text of each edit, in this order, replaced by its new text,
-- and every byte between them kept.
pub data IsReplaced : Text → Text → List TextEdit → Type 0 where
  rest : (text : Text) → IsReplaced text text []
  piece :
      (kept old_tail new_tail : Text) (edit : TextEdit) (edits : List TextEdit)
      → IsReplaced old_tail new_tail edits
      → IsReplaced
          (kept ++ (edit.old_text ++ old_tail))
          (kept ++ (edit.new_text ++ new_tail))
          (edit ∷ edits)

-- The range stands in the text where it says.
abbrev IsAt : Text → EditRange → Type 0
IsAt text r = (drop r.start text ≡ r.change.old_text ++ drop r.finish text) × (r.start ≤ r.finish)

has_prefix-split :
    (old text : Text) → has_prefix old text ≡ true → text ≡ old ++ drop (length old) text
unfolding has_prefix
has_prefix-split [] text h = refl
has_prefix-split (b ∷ bs) [] h = absurd (ground arith)
has_prefix-split (b ∷ bs) (c ∷ cs) h =
    let tails = has_prefix-split bs cs (ground arith) in
    let same : b ≡ c = ground arith in rw (same, ← tails) refl

pub later-some : (o : Option ℕ) (i : ℕ) → later o ≡ some i → (j : ℕ) × (o ≡ some j) × (i ≡ suc j)
unfolding later
later-some none i e = absurd (ground arith)
later-some (some j) i e = (j, refl, ground arith)

pub index-prefix :
    (old text : Text) (i : ℕ) → index old text ≡ some i → has_prefix old (drop i text) ≡ true
unfolding index
index-prefix old [] i e = absurd (ground arith)
index-prefix old (c ∷ cs) i e = elim (Bool-cases (has_prefix old (c ∷ cs))) [
  | inl h ↦ let at : i ≡ 0 = ground arith in rw (at, h) refl
  | inr h ↦
      let (j, found, at) = later-some (index old cs) i (ground arith) in
      rw at (index-prefix old cs j found)
]

range_at-IsAt :
    (text : Text) (change : TextEdit) (o : Option ℕ) (r : EditRange)
    → ((i : ℕ) → o ≡ some i → has_prefix change.old_text (drop i text) ≡ true)
    → range_at change o ≡ inr r
    → IsAt text r × (r.change ≡ change)
unfolding range_at
range_at-IsAt text change none r h e = absurd (ground arith)
range_at-IsAt text change (some i) r h e =
    let split = has_prefix-split change.old_text (drop i text) (h i refl) in
    let same : record { start = i; finish = i + length change.old_text; change = change } ≡ r =
      ground arith in
    rw (← same) (
      (split ∙ ap (◌++◌ change.old_text) (drop-drop (length change.old_text) i text), omega arith),
      refl,
    )

locate-IsAt :
    (text : Text) (change : TextEdit) (r : EditRange)
    → locate text change ≡ inr r
    → IsAt text r × (r.change ≡ change)
unfolding locate
locate-IsAt text change r e =
    range_at-IsAt text change (index change.old_text text) r (index-prefix change.old_text text)
      (ground arith)

cons_range-inr :
    (r : EditRange) (o : EditError ⊎ List EditRange) (rs : List EditRange)
    → cons_range r o ≡ inr rs
    → (tail : List EditRange) × (o ≡ inr tail) × (rs ≡ r ∷ tail)
unfolding cons_range
cons_range-inr r (inl fault) rs e = absurd (ground arith)
cons_range-inr r (inr tail) rs e = (tail, refl, ground arith)

then_range-inr :
    (o : EditError ⊎ EditRange) (more : EditError ⊎ List EditRange) (rs : List EditRange)
    → then_range o more ≡ inr rs
    → (r : EditRange) × (tail : List EditRange) × (o ≡ inr r) × (more ≡ inr tail) × (rs ≡ r ∷ tail)
unfolding then_range
then_range-inr (inl fault) more rs e = absurd (ground arith)
then_range-inr (inr r) more rs e =
    let (tail, found, same) = cons_range-inr r more rs e in (r, tail, refl, found, same)

pub step-inr :
    (oversized other : Bool) (o : EditError ⊎ EditRange) (more : EditError ⊎ List EditRange)
    (rs : List EditRange)
    → (if oversized then inl invalid else if other then inl invalid else then_range o more) ≡ inr rs
    → (r : EditRange) × (tail : List EditRange) × (o ≡ inr r) × (more ≡ inr tail) × (rs ≡ r ∷ tail)
step-inr true other o more rs e = absurd (ground arith)
step-inr false true o more rs e = absurd (ground arith)
step-inr false false o more rs e = then_range-inr o more rs e

module _ (valid_utf8 : Text → Bool) where
  pub find_ranges-IsAt :
      (crlf : Bool) (text : Text) (total : ℕ) (edits : List TextEdit) (rs : List EditRange)
      → find_ranges valid_utf8 crlf text total edits ≡ inr rs
      → All (IsAt text) rs × (changes_of rs ≡ map (normalized crlf) edits)
  unfolding find_ranges
  find_ranges-IsAt crlf text total [] rs e =
      let same : [] ≡ rs = ground arith in rw (← same) (tt, refl)
  find_ranges-IsAt crlf text total (edit ∷ edits) rs e =
      let sum : ℕ = total + length edit.old_text + length edit.new_text in
      let (r, tail, here, there, same) =
        step-inr (is_oversized edit) (ltb max_edit_total_bytes sum || is_not_text valid_utf8 edit)
          (locate text (normalized crlf edit)) (find_ranges valid_utf8 crlf text sum edits) rs e in
      let (at, change) = locate-IsAt text (normalized crlf edit) r here in
      let (ats, changes) = find_ranges-IsAt crlf text sum edits tail there in
      rw same ((at, ats), rw (change, changes) refl)

insert_range-All :
    (P : EditRange → Type 0) (r : EditRange) (rs : List EditRange)
    → P r
    → All P rs
    → All P (insert_range r rs)
unfolding insert_range
insert_range-All P r [] p ps = (p, tt)
insert_range-All P r (q ∷ rs) p ps =
    if-cases (All P) (leb r.start q.start) (λ e. (p, ps))
      (λ e. (ps.0, insert_range-All P r rs p ps.1))

sort_ranges-All : (P : EditRange → Type 0) (rs : List EditRange) → All P rs → All P (sort_ranges rs)
unfolding sort_ranges
sort_ranges-All P [] ps = tt
sort_ranges-All P (r ∷ rs) ps =
    insert_range-All P r (sort_ranges rs) ps.0 (sort_ranges-All P rs ps.1)

insert_range-perm :
    (r : EditRange) (rs : List EditRange)
    → Permᴰ (changes_of (insert_range r rs)) (r.change ∷ changes_of rs)
unfolding insert_range
insert_range-perm r [] = Permᴰ.refl (r.change ∷ [])
insert_range-perm r (q ∷ rs) =
    if-cases (λ l. Permᴰ (changes_of l) (r.change ∷ q.change ∷ changes_of rs)) (leb r.start q.start)
      (λ e. Permᴰ.refl (r.change ∷ q.change ∷ changes_of rs))
      (λ e. Permᴰ.trans (Permᴰ.cons refl (insert_range-perm r rs)) (Permᴰ.swap refl refl))

sort_ranges-perm : (rs : List EditRange) → Permᴰ (changes_of (sort_ranges rs)) (changes_of rs)
unfolding sort_ranges
sort_ranges-perm [] = Permᴰ.nil
sort_ranges-perm (r ∷ rs) =
    Permᴰ.trans (insert_range-perm r (sort_ranges rs)) (Permᴰ.cons refl (sort_ranges-perm rs))

splice-IsReplaced :
    (text : Text) (cursor : ℕ) (rs : List EditRange)
    → All (IsAt text) rs
    → has_overlap cursor rs ≡ false
    → IsReplaced (drop cursor text) (splice text cursor rs) (changes_of rs)
unfolding has_overlap splice slice
splice-IsReplaced text cursor [] ats h = rest (drop cursor text)
splice-IsReplaced text cursor (r ∷ rs) ats h =
    let inner = splice-IsReplaced text r.finish rs ats.1 (ground arith) in
    let before : Text = drop cursor text in
    let ordered : cursor + (r.start - cursor) ≡ r.start = ground arith in
    let joined = take-append-drop (r.start - cursor) before in
    let moved = drop-drop (r.start - cursor) cursor text in
    let tail : r.change.old_text ++ drop r.finish text ≡ drop (r.start - cursor) before =
      sym ats.0.0 ∙ sym (ap (λ n. drop n text) ordered) ∙ sym moved in
    let whole : slice cursor r.start text ++ (r.change.old_text ++ drop r.finish text) ≡ before =
      ap (◌++◌ (slice cursor r.start text)) tail ∙ joined in
    subst (λ t. IsReplaced t (splice text cursor (r ∷ rs)) (changes_of (r ∷ rs))) whole
      (piece (slice cursor r.start text) (drop r.finish text) (splice text r.finish rs) r.change
        (changes_of rs) inner)

apply_ranges-inr :
    (text : Text) (rs : List EditRange) (result : Text) (changes : List TextEdit)
    → apply_ranges text rs ≡ inr (result, changes)
    → (has_overlap 0 rs ≡ false)
      × (length result ≤ max_editable_file_bytes)
      × (result ≡ splice text 0 rs)
      × (changes ≡ changes_of rs)
unfolding apply_ranges
apply_ranges-inr text rs result changes e = elim (Bool-cases (has_overlap 0 rs)) [
  | inl o ↦ absurd (ground (arith, o, e))
  | inr o ↦ elim (Bool-cases (ltb max_editable_file_bytes (length (splice text 0 rs)))) [
    | inl l ↦ absurd (ground (arith, o, l, e))
    | inr l ↦
        let same : splice text 0 rs ≡ result = ground (arith, o, l, e) in
        let listed : changes_of rs ≡ changes = ground (arith, o, l, e) in
        (o, rw (← same) (ground (arith, l)), sym same, sym listed)
  ]
]

-- What an outcome of the last part of planFileEdit says of the ranges it had.
sort_and_apply-inr :
    (text : Text) (o : EditError ⊎ List EditRange) (result : Text) (changes : List TextEdit)
    → sort_and_apply text o ≡ inr (result, changes)
    → (rs : List EditRange) × (o ≡ inr rs)
      × (apply_ranges text (sort_ranges rs) ≡ inr (result, changes))
unfolding sort_and_apply
sort_and_apply-inr text (inl fault) result changes e = absurd (ground arith)
sort_and_apply-inr text (inr rs) result changes e = (rs, refl, e)

module _ (valid_utf8 : Text → Bool) where
  pub sort_and_apply-IsReplaced :
      (crlf : Bool) (text result : Text) (edits changes : List TextEdit)
      → sort_and_apply text (find_ranges valid_utf8 crlf text 0 edits) ≡ inr (result, changes)
      → IsReplaced text result changes
        × Permᴰ changes (map (normalized crlf) edits)
        × (length result ≤ max_editable_file_bytes)
  sort_and_apply-IsReplaced crlf text result edits changes e =
      let (rs, found, applied) = sort_and_apply-inr text _ result changes e in
      let (ats, listed) = find_ranges-IsAt valid_utf8 crlf text 0 edits rs found in
      let (apart, short, spliced, all) =
        apply_ranges-inr text (sort_ranges rs) result changes applied in
      let replaced =
        splice-IsReplaced text 0 (sort_ranges rs) (sort_ranges-All (IsAt text) rs ats) apart in
      (rw (spliced, all) replaced, rw (all, ← listed) (sort_ranges-perm rs), short)
