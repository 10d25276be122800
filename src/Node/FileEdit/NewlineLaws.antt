-- ===== src/Node/FileEdit/NewlineLaws.antt =====
-- Normalizing newlines twice (internal/node/file_edit.go, normalizeNewlines).
use fast_spider.Prelude.{
  ℕ, ◌≡◌, refl, ap, ◌∙◌, Bool, false, [], ◌∷◌, arith, if◌then◌else◌, if-cases, ◌==◌,
}
use fast_spider.Node.Jobs.Job.{Text}
use fast_spider.Node.FileEdit.Bytes.{has_byte}
use fast_spider.Node.FileEdit.Newlines.{cr, lf, join_crlf, cr_to_lf, lf_to_crlf, normalize_newlines}

join_crlf-cons :
    (c : ℕ) (rest : Text) → (c == cr) ≡ false → join_crlf (c ∷ rest) ≡ c ∷ join_crlf rest
unfolding join_crlf
join_crlf-cons c [] e = refl
join_crlf-cons c (d ∷ rest) e = ground (arith, e)

join_crlf-pair : (rest : Text) → join_crlf (cr ∷ lf ∷ rest) ≡ join_crlf (lf ∷ rest)
unfolding join_crlf
join_crlf-pair rest = refl

cr_to_lf-has_byte : (text : Text) → has_byte cr (cr_to_lf text) ≡ false
unfolding cr_to_lf has_byte
cr_to_lf-has_byte [] = refl
cr_to_lf-has_byte (c ∷ cs) = ground (arith, cr_to_lf-has_byte cs)

join_crlf-plain : (text : Text) → has_byte cr text ≡ false → join_crlf text ≡ text
unfolding has_byte join_crlf
join_crlf-plain [] e = refl
join_crlf-plain (c ∷ cs) e =
    join_crlf-cons c cs (ground (arith, e)) ∙ ap (◌∷◌ c) (join_crlf-plain cs (ground (arith, e)))

cr_to_lf-plain : (text : Text) → has_byte cr text ≡ false → cr_to_lf text ≡ text
unfolding has_byte cr_to_lf
cr_to_lf-plain [] e = refl
cr_to_lf-plain (c ∷ cs) e =
    let other : (c == cr) ≡ false = ground (arith, e) in
    let tail = cr_to_lf-plain cs (ground (arith, e)) in rw (other, tail) refl

join_crlf-lf_to_crlf : (text : Text) → has_byte cr text ≡ false → join_crlf (lf_to_crlf text) ≡ text
unfolding has_byte lf_to_crlf
join_crlf-lf_to_crlf [] e = join_crlf-plain [] refl
join_crlf-lf_to_crlf (c ∷ cs) e =
    let tail = join_crlf-lf_to_crlf cs (ground (arith, e)) in
    if-cases (λ t. join_crlf t ≡ c ∷ cs) (c == lf)
      (λ is_lf.
        let same : lf ≡ c = ground (arith, is_lf) in
        join_crlf-pair (lf_to_crlf cs)
        ∙ join_crlf-cons lf (lf_to_crlf cs) refl
        ∙ ap (◌∷◌ lf) tail
        ∙ ap (λ b. b ∷ cs) same)
      (λ other. join_crlf-cons c (lf_to_crlf cs) (ground (arith, e)) ∙ ap (◌∷◌ c) tail)

-- Normalizing to one newline and then to another is normalizing to the second; so normalizing again to
-- the same newline changes nothing.
normalize_last_wins :
    (first second : Bool) (value : Text)
    → normalize_newlines second (normalize_newlines first value) ≡ normalize_newlines second value
unfolding normalize_newlines
normalize_last_wins first second value =
    let plain : Text = cr_to_lf (join_crlf value) in
    let no_cr = cr_to_lf-has_byte (join_crlf value) in
    let undone : cr_to_lf (join_crlf (if first then lf_to_crlf plain else plain)) ≡ plain =
      if-cases (λ t. cr_to_lf (join_crlf t) ≡ plain) first
        (λ e. ap cr_to_lf (join_crlf-lf_to_crlf plain no_cr) ∙ cr_to_lf-plain plain no_cr)
        (λ e. ap cr_to_lf (join_crlf-plain plain no_cr) ∙ cr_to_lf-plain plain no_cr) in
    ap (λ t. if second then lf_to_crlf t else t) undone
