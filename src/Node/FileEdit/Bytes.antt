-- ===== src/Node/FileEdit/Bytes.antt =====
-- What internal/node/file_edit.go uses of Go's bytes and strings: HasPrefix, Index, Count, IndexByte
-- and slices. A text is a list of bytes.
use fast_spider.Prelude.{
  ℕ, zero, suc, ◌-◌, Bool, true, false, ◌&&◌, ◌||◌, [], ◌∷◌, Option, none, some, if◌then◌else◌,
  ◌==◌, length, take, drop,
}
use fast_spider.Node.Jobs.Job.{Text}

unfoldable pub has_prefix : Text → Text → Bool
has_prefix [] text = true
has_prefix (b ∷ bs) [] = false
has_prefix (b ∷ bs) (c ∷ cs) = (b == c) && has_prefix bs cs

unfoldable pub text_eq : Text → Text → Bool
text_eq [] [] = true
text_eq [] (c ∷ cs) = false
text_eq (b ∷ bs) [] = false
text_eq (b ∷ bs) (c ∷ cs) = (b == c) && text_eq bs cs

unfoldable pub later : Option ℕ → Option ℕ
later none = none
later (some i) = some (suc i)

-- `bytes.Index` of a separator that is not empty: where it stands first.
unfoldable pub index : Text → Text → Option ℕ
unfolding has_prefix later
index old [] = none
index old (c ∷ cs) =
    let rest = index old cs in if has_prefix old (c ∷ cs) then some 0 else later rest

-- `bytes.Count` of a separator that is not empty: matches that do not overlap, from the left. `skip`
-- bytes belong to the match before.
unfoldable pub count_from : Text → ℕ → Text → ℕ
unfolding has_prefix
count_from old skip [] = 0
count_from old (suc skip) (c ∷ cs) = count_from old skip cs
count_from old zero (c ∷ cs) = elim (has_prefix old (c ∷ cs)) [
  | true ↦ suc (count_from old (length old - 1) cs)
  | false ↦ count_from old zero cs
]

unfoldable pub count : Text → Text → ℕ
unfolding count_from
count old text = count_from old 0 text

unfoldable pub has_byte : ℕ → Text → Bool
has_byte b [] = false
has_byte b (c ∷ cs) = (c == b) || has_byte b cs

-- `text[from:until]`
unfoldable pub slice : ℕ → ℕ → Text → Text
slice from until text = take (until - from) (drop from text)
