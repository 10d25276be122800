-- ===== src/Node/FileEdit/Matches.antt =====
-- Where the loop of planFileEdit finds the places of the edits (internal/node/file_edit.go).
use fast_spider.Prelude.{
  ℕ, zero, suc, ◌+◌, ◌-◌, ◌≤◌, ◌<◌, ◌≡◌, refl, sym, ◌∙◌, true, false, [], ◌∷◌, Option, none, some,
  inl, inr, arith, ltb, Bool-cases, length, drop, Bool, List, get_elem?, if-cases, if◌then◌else◌,
  ◌==◌, ◌&&◌, ◌||◌, ◌⊎◌,
}
use fast_spider.Node.Jobs.Job.{Text}
use fast_spider.Node.FileEdit.Bytes.{has_prefix, index, count_from, count}
use fast_spider.Node.FileEdit.Newlines.{cr, lf, join_crlf, cr_to_lf, lf_to_crlf, normalize_newlines}
use fast_spider.Node.FileEdit.Ranges.{
  TextEdit, EditError, invalid, EditRange, range_at, normalized, locate, then_range, is_oversized,
  is_not_text, find_ranges, max_edit_total_bytes,
}
use fast_spider.Node.FileEdit.Splice.{index-prefix, step-inr, later-some}

nothing_in_empty : (old : Text) (p : ℕ) → 1 ≤ length old → has_prefix old (drop p []) ≡ false
unfolding has_prefix
nothing_in_empty [] p long = absurd (omega arith)
nothing_in_empty (b ∷ bs) zero long = refl
nothing_in_empty (b ∷ bs) (suc p) long = refl

count_match :
    (old cs : Text) (c : ℕ)
    → has_prefix old (c ∷ cs) ≡ true
    → count_from old 0 (c ∷ cs) ≡ suc (count_from old (length old - 1) cs)
unfolding count_from
count_match old cs c h = rw (h, count_from) refl

pub count_no_match :
    (old cs : Text) (c : ℕ)
    → has_prefix old (c ∷ cs) ≡ false
    → count_from old 0 (c ∷ cs) ≡ count_from old 0 cs
unfolding count_from
count_no_match old cs c h = rw (h, count_from) refl

-- Where nothing is counted, nothing matches from the skipped bytes on.
none_left :
    (old text : Text) (skip p : ℕ)
    → 1 ≤ length old
    → count_from old skip text ≡ 0
    → skip ≤ p
    → has_prefix old (drop p text) ≡ false
unfolding count_from
none_left old [] skip p long e h = nothing_in_empty old p long
none_left old (c ∷ cs) (suc skip) zero long e h = absurd (omega arith)
none_left old (c ∷ cs) (suc skip) (suc p) long e h = none_left old cs skip p long e (omega arith)
none_left old (c ∷ cs) zero zero long e h = elim (Bool-cases (has_prefix old (c ∷ cs))) [
  | inl m ↦ let counted = count_match old cs c m in absurd (ground (arith, e, counted))
  | inr m ↦ m
]
none_left old (c ∷ cs) zero (suc p) long e h = elim (Bool-cases (has_prefix old (c ∷ cs))) [
  | inl m ↦ let counted = count_match old cs c m in absurd (ground (arith, e, counted))
  | inr m ↦ none_left old cs zero p long (sym (count_no_match old cs c m) ∙ e) (omega arith)
]

index_match :
    (old cs : Text) (c i : ℕ) → has_prefix old (c ∷ cs) ≡ true → index old (c ∷ cs) ≡ some i → i ≡ 0
unfolding index
index_match old cs c i m e = ground arith

index_no_match :
    (old cs : Text) (c i : ℕ)
    → has_prefix old (c ∷ cs) ≡ false
    → index old (c ∷ cs) ≡ some i
    → (j : ℕ) × (index old cs ≡ some j) × (i ≡ suc j)
unfolding index
index_no_match old cs c i m e = later-some (index old cs) i (ground arith)

one_place :
    (old text : Text) (i p : ℕ)
    → 1 ≤ length old
    → count_from old 0 text ≡ 1
    → index old text ≡ some i
    → has_prefix old (drop p text) ≡ true
    → (i ≤ p) × (p < i + length old)
one_place old [] i p long once found m = absurd (ground (arith, m, nothing_in_empty old p long))
one_place old (c ∷ cs) i zero long once found m =
    let start = index_match old cs c i m found in (omega arith, omega arith)
one_place old (c ∷ cs) i (suc p) long once found m = elim (Bool-cases (has_prefix old (c ∷ cs))) [
  | inl here ↦
      let start = index_match old cs c i here found in
      let counted = count_match old cs c here in
      let none_more : count_from old (length old - 1) cs ≡ 0 = omega (arith, once, counted) in
      elim (Bool-cases (ltb p (length old - 1))) [
        | inl near ↦ (omega arith, ground (arith, start, near, long))
        | inr far ↦
            let missing =
              none_left old cs (length old - 1) p long none_more (ground (arith, far)) in
            absurd (ground (arith, m, missing))
      ]
  | inr other ↦
      let (j, later_found, start) = index_no_match old cs c i other found in
      let (low, high) =
        one_place old cs j p long (sym (count_no_match old cs c other) ∙ once) later_found m in
      (omega arith, omega arith)
]

join_crlf-nonempty : (c : ℕ) (cs : Text) → 1 ≤ length (join_crlf (c ∷ cs))
unfolding join_crlf
join_crlf-nonempty c [] = omega arith
join_crlf-nonempty c (d ∷ rest) =
    if-cases (λ (t : Text). 1 ≤ length t) ((c == cr) && (d == lf)) (λ e. join_crlf-nonempty d rest)
      (λ e. omega arith)

length-cr_to_lf : (text : Text) → length (cr_to_lf text) ≡ length text
unfolding cr_to_lf
length-cr_to_lf [] = refl
length-cr_to_lf (c ∷ cs) = omega (arith, length-cr_to_lf cs)

length-lf_to_crlf-le : (text : Text) → length text ≤ length (lf_to_crlf text)
unfolding lf_to_crlf
length-lf_to_crlf-le [] = omega arith
length-lf_to_crlf-le (c ∷ cs) =
    if-cases (λ (t : Text). suc (length cs) ≤ length t) (c == lf)
      (λ e. omega (arith, length-lf_to_crlf-le cs)) (λ e. omega (arith, length-lf_to_crlf-le cs))

-- Newlines change, but a text that is not empty stays so.
normalize_newlines-nonempty :
    (crlf : Bool) (text : Text) → 1 ≤ length text → 1 ≤ length (normalize_newlines crlf text)
unfolding normalize_newlines
normalize_newlines-nonempty crlf [] long = absurd (omega arith)
normalize_newlines-nonempty crlf (c ∷ cs) long =
    let plain : Text = cr_to_lf (join_crlf (c ∷ cs)) in
    let some_left : 1 ≤ length plain =
      omega (arith, length-cr_to_lf (join_crlf (c ∷ cs)), join_crlf-nonempty c cs) in
    if-cases (λ (t : Text). 1 ≤ length t) crlf
      (λ e. omega (arith, some_left, length-lf_to_crlf-le plain)) (λ e. some_left)

-- The range is where the text of the change stands first, and every place at which it stands lies
-- inside the range.
pub record IsFirstPlace (text : Text) (change : TextEdit) (r : EditRange) : Type 0 where
  pub same_change : r.change ≡ change
  pub stands : has_prefix change.old_text (drop r.start text) ≡ true
  pub ends : r.finish ≡ r.start + length change.old_text
  pub inside :
      (p : ℕ) → has_prefix change.old_text (drop p text) ≡ true → (r.start ≤ p) × (p < r.finish)

range_at-IsFirstPlace :
    (text : Text) (change : TextEdit) (o : Option ℕ) (r : EditRange)
    → 1 ≤ length change.old_text
    → count change.old_text text ≡ 1
    → index change.old_text text ≡ o
    → range_at change o ≡ inr r
    → IsFirstPlace text change r
unfolding range_at count
range_at-IsFirstPlace text change none r long once found e = absurd (ground arith)
range_at-IsFirstPlace text change (some i) r long once found e =
    let same : record { start = i; finish = i + length change.old_text; change = change } ≡ r =
      ground arith in
    rw (← same) (record {
      same_change = refl;
      stands = index-prefix change.old_text text i found;
      ends = refl;
      inside = λ p m. one_place change.old_text text i p long once found m;
    })

locate-IsFirstPlace :
    (text : Text) (change : TextEdit) (r : EditRange)
    → 1 ≤ length change.old_text
    → locate text change ≡ inr r
    → IsFirstPlace text change r
unfolding locate
locate-IsFirstPlace text change r long e = elim (Bool-cases (count change.old_text text == 1)) [
  | inl once ↦
      range_at-IsFirstPlace text change (index change.old_text text) r long (ground (arith, once))
        refl (ground (arith, once, e))
  | inr other ↦ absurd (ground (arith, other, e))
]

passed :
    (test : Bool) (o : EditError ⊎ List EditRange) (rs : List EditRange)
    → (if test then inl invalid else o) ≡ inr rs
    → test ≡ false
passed true o rs e = absurd (ground arith)
passed false o rs e = refl

long_enough : (edit : TextEdit) → is_oversized edit ≡ false → 1 ≤ length edit.old_text
unfolding is_oversized
long_enough edit e = ground (arith, e)

-- Where the loop over the edits finds its ranges, the range of each edit is where the edit's old text,
-- in the file's newlines, stands first in the file; and every other place at which that text stands
-- begins inside this range.
pub found_places_are_first :
    (valid_utf8 : Text → Bool) (crlf : Bool) (text : Text) (total : ℕ) (edits : List TextEdit)
    (ranges : List EditRange) (n : ℕ) (edit : TextEdit)
    → find_ranges valid_utf8 crlf text total edits ≡ inr ranges
    → get_elem? edits n ≡ some edit
    → (r : EditRange) × (get_elem? ranges n ≡ some r) × IsFirstPlace text (normalized crlf edit) r
unfolding find_ranges normalized
found_places_are_first valid_utf8 crlf text total [] ranges n edit e at = absurd (ground arith)
found_places_are_first valid_utf8 crlf text total (first ∷ edits) ranges zero edit e at =
    let sum : ℕ = total + length first.old_text + length first.new_text in
    let rest : EditError ⊎ List EditRange = find_ranges valid_utf8 crlf text sum edits in
    let other : Bool = ltb max_edit_total_bytes sum || is_not_text valid_utf8 first in
    let here : EditError ⊎ EditRange = locate text (normalized crlf first) in
    let short =
      passed (is_oversized first) (if other then inl invalid else then_range here rest) ranges e in
    let (r, tail, found, more, same) = step-inr (is_oversized first) other here rest ranges e in
    let place =
      locate-IsFirstPlace text (normalized crlf first) r
        (normalize_newlines-nonempty crlf first.old_text (long_enough first short)) found in
    let asked : first ≡ edit = ground (arith, at) in rw (same, ← asked) (r, refl, place)
found_places_are_first valid_utf8 crlf text total (first ∷ edits) ranges (suc k) edit e at =
    let sum : ℕ = total + length first.old_text + length first.new_text in
    let rest : EditError ⊎ List EditRange = find_ranges valid_utf8 crlf text sum edits in
    let (r, tail, found, more, same) =
      step-inr (is_oversized first) (ltb max_edit_total_bytes sum || is_not_text valid_utf8 first)
        (locate text (normalized crlf first)) rest ranges e in
    rw same (found_places_are_first valid_utf8 crlf text sum edits tail k edit more at)
