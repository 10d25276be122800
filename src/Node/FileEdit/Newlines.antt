-- ===== src/Node/FileEdit/Newlines.antt =====
-- The newlines of a file and of an edit (internal/node/file_edit.go: dominantNewline,
-- normalizeNewlines, newlineCount, logicalLineCount).
use fast_spider.Prelude.{ℕ, suc, ◌-◌, Bool, false, not, ◌&&◌, [], ◌∷◌, if◌then◌else◌, ltb, ◌==◌}
use fast_spider.Node.Jobs.Job.{Text}

abbrev pub cr : ℕ
cr = 13

abbrev pub lf : ℕ
lf = 10

unfoldable pub newline_count : Text → ℕ
newline_count [] = 0
newline_count (c ∷ cs) = let rest = newline_count cs in if c == lf then suc rest else rest

-- `bytes.Count(data, "\r\n")`; `after_cr` is whether the byte before is a carriage return.
unfoldable pub crlf_count : Bool → Text → ℕ
crlf_count after_cr [] = 0
crlf_count after_cr (c ∷ cs) =
    let rest = crlf_count (c == cr) cs in if after_cr && (c == lf) then suc rest else rest

-- Whether the file's newline is "\r\n"; else it is "\n".
unfoldable pub dominant_is_crlf : Text → Bool
unfolding newline_count crlf_count
dominant_is_crlf text = let crlf = crlf_count false text in ltb (newline_count text - crlf) crlf

-- `strings.ReplaceAll(value, "\r\n", "\n")`
unfoldable pub join_crlf : Text → Text
join_crlf [] = []
join_crlf (c ∷ []) = c ∷ []
join_crlf (c ∷ d ∷ rest) =
    let tail = join_crlf (d ∷ rest) in if (c == cr) && (d == lf) then tail else c ∷ tail

-- `strings.ReplaceAll(value, "\r", "\n")`
unfoldable pub cr_to_lf : Text → Text
cr_to_lf [] = []
cr_to_lf (c ∷ cs) = (if c == cr then lf else c) ∷ cr_to_lf cs

-- `strings.ReplaceAll(value, "\n", "\r\n")`
unfoldable pub lf_to_crlf : Text → Text
lf_to_crlf [] = []
lf_to_crlf (c ∷ cs) = let rest = lf_to_crlf cs in if c == lf then cr ∷ lf ∷ rest else c ∷ rest

unfoldable pub normalize_newlines : Bool → Text → Text
unfolding join_crlf cr_to_lf lf_to_crlf
normalize_newlines crlf value =
    let plain = cr_to_lf (join_crlf value) in if crlf then lf_to_crlf plain else plain

-- Whether the text is not empty and its last byte is not a newline.
unfoldable pub is_unfinished : Text → Bool
is_unfinished [] = false
is_unfinished (c ∷ []) = not (c == lf)
is_unfinished (c ∷ d ∷ rest) = is_unfinished (d ∷ rest)

unfoldable pub logical_line_count : Text → ℕ
unfolding newline_count is_unfinished
logical_line_count value =
    let count = newline_count value in if is_unfinished value then suc count else count
