-- ===== src/Knowledge/Chunks.antt =====
-- `chunk_text` of knowledge.py: the text of a document in overlapping windows.
use customer_data_foundation.Prelude.{
  ℕ, zero, suc, ◌+◌, ◌-◌, ◌/◌, min, max, Bool, true, false, ◌&&◌, ◌||◌, List, [], ◌∷◌, Option, none,
  some, Result, ok, err, value_error, length, take, if◌then◌else◌, ◌==◌, ltb, leb,
}
use customer_data_foundation.Text.{Text, Unicode, is_empty, strip}

abbrev pub max_document_characters : ℕ
max_document_characters = 100_000

abbrev pub chunk_characters : ℕ
chunk_characters = 800

abbrev pub chunk_overlap_characters : ℕ
chunk_overlap_characters = 120

-- `t.startswith(pattern)`
abbrev pub starts_with : Text → Text → Bool
starts_with [] t = true
starts_with (p ∷ ps) [] = false
starts_with (p ∷ ps) (c ∷ t) = p == c && starts_with ps t

-- `content.replace("\r\n", "\n")`
abbrev pub replace_crlf : Text → Text
replace_crlf [] = []
replace_crlf (c ∷ t) =
    let rest = replace_crlf t in if c == 13 && starts_with (10 ∷ []) t then rest else c ∷ rest

-- [ \t]
abbrev pub is_blank : ℕ → Bool
is_blank c = c == 32 || c == 9

abbrev pub starts_blank : Text → Bool
starts_blank [] = false
starts_blank (c ∷ t) = is_blank c

-- `re.sub(r"[ \t]+", " ", t)`: the last of a run of blanks leaves the one blank
abbrev pub collapse_blanks : Text → Text
collapse_blanks [] = []
collapse_blanks (c ∷ t) =
    let rest = collapse_blanks t in
    if is_blank c then (if starts_blank t then rest else 32 ∷ rest) else c ∷ rest

unfoldable pub normalize_content : Unicode → Text → Text
unfolding strip
normalize_content u content = strip u (collapse_blanks (replace_crlf content))

abbrev pub drop : ℕ → Text → Text
drop zero t = t
drop (suc n) [] = []
drop (suc n) (c ∷ t) = drop n t

-- `t[start:end]`
abbrev pub slice : Text → ℕ → ℕ → Text
slice t start end = take (end - start) (drop start t)

abbrev pub or_here : Option ℕ → Option ℕ → Option ℕ
or_here (some j) here = some j
or_here none here = here

-- the last place of the pattern in a slice that begins at `i`
unfoldable pub rfind_in : Text → ℕ → Text → Option ℕ
rfind_in pattern i [] = none
rfind_in pattern i (c ∷ t) =
    or_here (rfind_in pattern (i + 1) t) (if starts_with pattern (c ∷ t) then some i else none)

-- `t.rfind(pattern, start, end)`; `none` is -1
unfoldable pub rfind : Text → Text → ℕ → ℕ → Option ℕ
rfind t pattern start end = rfind_in pattern start (slice t start end)

-- the `max` of two places
abbrev pub later_place : Option ℕ → Option ℕ → Option ℕ
later_place none b = b
later_place (some a) none = some a
later_place (some a) (some b) = some (max a b)

-- the end of the window, moved to the boundary if that is in its second half
abbrev pub cut_at : ℕ → ℕ → Option ℕ → ℕ
cut_at start end none = end
cut_at start end (some boundary) =
    if ltb (start + chunk_characters / 2) boundary then boundary + 1 else end

unfoldable pub chunk_end : Text → ℕ → ℕ
chunk_end t start =
    let end = min (start + chunk_characters) (length t) in
    if ltb end (length t)
    then cut_at start end
        (later_place (rfind t (10 ∷ []) start end) (rfind t (46 ∷ 32 ∷ []) start end))
    else end

pub record Window : Type 0 where
  pub start : ℕ
  pub end : ℕ

abbrev pub add_window : Window → Option (List Window) → Option (List Window)
add_window w none = none
add_window w (some ws) = some (w ∷ ws)

-- `while start < len(normalized)`, on fuel; `none` where the fuel does not last
unfoldable pub windows_from : ℕ → Text → ℕ → Option (List Window)
windows_from zero t start = none
windows_from (suc fuel) t start =
    let end = chunk_end t start in
    let rest = windows_from fuel t (max (start + 1) (end - chunk_overlap_characters)) in
    if ltb start (length t)
    then add_window (record { start = start; end = end })
        (if leb (length t) end then some [] else rest)
    else some []

abbrev pub add_chunk : Text → List Text → List Text
add_chunk [] chunks = chunks
add_chunk (c ∷ t) chunks = (c ∷ t) ∷ chunks

-- the windows that are not blank, stripped
unfoldable pub chunks_of : Unicode → Text → List Window → List Text
unfolding strip
chunks_of u t [] = []
chunks_of u t (w ∷ ws) = add_chunk (strip u (slice t w.start w.end)) (chunks_of u t ws)

abbrev pub chunks_or_none : Unicode → Text → Option (List Window) → Option (List Text)
chunks_or_none u t none = none
chunks_or_none u t (some ws) = some (chunks_of u t ws)

-- Fuel for every character and one more: each round moves the start by one at least.
unfoldable pub chunk_loop : Unicode → Text → Option (List Text)
unfolding windows_from chunks_of
chunk_loop u t = chunks_or_none u t (windows_from (suc (length t)) t 0)

-- the outcome of the loop; it is never out of fuel
abbrev pub finished : Option (List Text) → Result (List Text)
finished none = err value_error
finished (some chunks) = ok chunks

unfoldable pub chunk_text : Unicode → Text → Result (List Text)
unfolding normalize_content chunk_loop
chunk_text u content =
    let normalized = normalize_content u content in
    if is_empty normalized || ltb max_document_characters (length normalized)
    then err value_error
    else finished (chunk_loop u normalized)

-- `max(1, (len(content) + 3) // 4)`
unfoldable pub token_estimate : Text → ℕ
token_estimate t = max 1 ((length t + 3) / 4)
