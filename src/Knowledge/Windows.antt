-- ===== src/Knowledge/Windows.antt =====
-- The loop of `chunk_text` ends, and its windows leave out no character.
use customer_data_foundation.Prelude.{
  ℕ, zero, suc, ◌+◌, ◌-◌, ◌≤◌, ◌<◌, ◌≡◌, refl, min, max, true, false, List, [], ◌∷◌, Option, none,
  some, ok, length, if◌then◌else◌, ltb, leb, arith, Bool-cases, inl, inr, In, All, length-take-le,
  ◌⊎◌,
}
use customer_data_foundation.Text.{Text, Unicode, is_empty, lstrip, rstrip, keep, strip}
use customer_data_foundation.Knowledge.Chunks.{
  max_document_characters, chunk_characters, drop, slice, starts_with, or_here, rfind_in, rfind,
  later_place, cut_at, chunk_end, Window, windows_from, chunks_of, add_chunk, chunk_loop,
  chunk_text, normalize_content,
}

-- a place below a bound, if there is one
abbrev Below : ℕ → Option ℕ → Type 0
Below n none = Unit
Below n (some j) = j < n

rfind_in-Below : (pattern : Text) (i : ℕ) (t : Text) → Below (i + length t) (rfind_in pattern i t)
unfolding rfind_in
rfind_in-Below pattern i [] = tt
rfind_in-Below pattern i (c ∷ t) =
    here (rfind_in pattern (i + 1) t) (rfind_in-Below pattern (i + 1) t)
  where
    here :
        (o : Option ℕ)
        → Below (i + 1 + length t) o
        → Below
            (i + suc (length t))
            (or_here o (if starts_with pattern (c ∷ t) then some i else none))
    here (some j) h = omega (arith, h)
    here none h = elim (Bool-cases (starts_with pattern (c ∷ t))) [
      | inl e ↦ rw e (omega arith)
      | inr e ↦ rw e tt
    ]

rfind-Below :
    (t pattern : Text) (start end : ℕ) → start ≤ end → Below end (rfind t pattern start end)
unfolding rfind
rfind-Below t pattern start end h =
    weaken (rfind_in pattern start (slice t start end))
      (rfind_in-Below pattern start (slice t start end))
      (omega (arith, length-take-le (end - start) (drop start t), h))
  where
    weaken : {n : ℕ} (o : Option ℕ) → Below n o → n ≤ end → Below end o
    weaken none b k = tt
    weaken (some j) b k = omega (arith, b, k)

later_place-Below : (n : ℕ) (a b : Option ℕ) → Below n a → Below n b → Below n (later_place a b)
later_place-Below n none b p q = q
later_place-Below n (some a) none p q = p
later_place-Below n (some a) (some b) p q = omega (arith, p, q)

-- a window that is cut has more than half of its length
cut_at-bounds :
    (start end : ℕ) (o : Option ℕ)
    → start + 800 ≡ end
    → Below end o
    → (start + 400 < cut_at start end o) × (cut_at start end o ≤ end)
cut_at-bounds start end none e b = omega (arith, e)
cut_at-bounds start end (some j) e b = ground (arith, e, b)

-- where a window ends: at the end of the text, or well behind its start
chunk_end-bounds :
    (t : Text) (start : ℕ)
    → start < length t
    → (chunk_end t start ≤ start + 800)
      × (start < chunk_end t start)
      × (chunk_end t start ≤ length t)
      × ((chunk_end t start ≡ length t) ⊎ (start + 400 < chunk_end t start))
unfolding chunk_end
chunk_end-bounds t start h =
    elim (Bool-cases (ltb (min (start + chunk_characters) (length t)) (length t))) [
      | inr whole ↦ rw whole (
        ground (arith, h, whole),
        ground (arith, h, whole),
        ground (arith, h, whole),
        inl (ground (arith, h, whole)),
      )
      | inl part ↦
          let e : start + 800 ≡ min (start + chunk_characters) (length t) = ground (arith, part) in
          let below : (pattern : Text)
              → Below (min (start + chunk_characters) (length t))
                  (rfind t pattern start (min (start + chunk_characters) (length t))) =
            λ pattern. rfind-Below t pattern start _ (omega (arith, e)) in
          let (low, high) =
            cut_at-bounds start (min (start + chunk_characters) (length t)) _ e
              (later_place-Below _ _ _ (below (10 ∷ [])) (below (46 ∷ 32 ∷ []))) in
          rw part (omega (arith, high, e), omega (arith, low), omega (arith, high), inr low)
    ]

-- the windows from some character on leave no gap, and the last one ends the text
abbrev pub Covers : ℕ → ℕ → List Window → Type 0
Covers from n [] = from ≡ n
Covers from n (w ∷ ws) =
    (w.start ≤ from) × (from < w.end) × (w.end ≤ w.start + 800) × Covers w.end n ws

-- the loop at `start`, when the windows before it end at `from`
windows_from-Covers :
    (fuel : ℕ) (t : Text) (start from : ℕ)
    → length t < fuel + start
    → start ≤ from
    → from ≤ start + 120
    → from < length t
    → (ws : List Window) × (windows_from fuel t start ≡ some ws) × Covers from (length t) ws
unfolding windows_from
windows_from-Covers zero t start from f lo hi more = absurd (omega (arith, f, lo, more))
windows_from-Covers (suc fuel) t start from f lo hi more =
    let (long, after, within, whole) = chunk_end-bounds t start (omega (arith, lo, more)) in
    let reaches : from < chunk_end t start = grows from whole hi more in
    let inside : ltb start (length t) ≡ true = ground (arith, lo, more) in
    elim (Bool-cases (leb (length t) (chunk_end t start))) [
      | inl last ↦
          rw (inside, last)
            (
              record { start = start; end = chunk_end t start } ∷ [],
              refl,
              (lo, reaches, long, ends last within),
            )
      | inr goes_on ↦
          let (ws, k, c) =
            windows_from-Covers fuel t (max (start + 1) (chunk_end t start - 120))
              (chunk_end t start) (omega (arith, f)) (omega (arith, after)) (omega arith)
              (before goes_on) in
          rw (inside, goes_on)
            (record { start = start; end = chunk_end t start } ∷ ws, rw k, (lo, reaches, long, c))
    ]
  where
    grows :
        (i : ℕ)
        → (chunk_end t start ≡ length t) ⊎ (start + 400 < chunk_end t start)
        → i ≤ start + 120
        → i < length t
        → i < chunk_end t start
    grows i (inl e) a b = omega (arith, e, b)
    grows i (inr l) a b = omega (arith, l, a)

    ends :
        leb (length t) (chunk_end t start) ≡ true
        → chunk_end t start ≤ length t
        → chunk_end t start ≡ length t
    ends l w = ground (arith, l, w)

    before : leb (length t) (chunk_end t start) ≡ false → chunk_end t start < length t
    before l = ground (arith, l)

-- no character is left out
window_at :
    (from n i : ℕ) (ws : List Window)
    → Covers from n ws
    → from ≤ i
    → i < n
    → (w : Window) × In w ws × (w.start ≤ i) × (i < w.end)
window_at from n i [] c lo hi = absurd (omega (arith, c, lo, hi))
window_at from n i (w ∷ ws) c lo hi = elim (Bool-cases (ltb i w.end)) [
  | inl inside ↦ (w, inl refl, omega (arith, c.0, lo), ground (arith, inside))
  | inr behind ↦
      let (v, m, a, b) = window_at w.end n i ws c.3 (ground (arith, behind)) hi in (v, inr m, a, b)
]

module _ (u : Unicode) where
  length-lstrip-le : (t : Text) → length (lstrip u t) ≤ length t
  length-lstrip-le [] = omega arith
  length-lstrip-le (c ∷ t) = elim (Bool-cases (u.is_space c)) [
    | inl e ↦ rw e (omega (arith, length-lstrip-le t))
    | inr e ↦ rw e (omega arith)
  ]

  length-rstrip-le : (t : Text) → length (rstrip u t) ≤ length t
  length-rstrip-le [] = omega arith
  length-rstrip-le (c ∷ t) = kept (rstrip u t) (length-rstrip-le t)
    where
      kept : (r : Text) → length r ≤ length t → length (keep u c r) ≤ suc (length t)
      kept [] h = elim (Bool-cases (u.is_space c)) [
        | inl e ↦ rw e (omega arith)
        | inr e ↦ rw e (omega arith)
      ]
      kept (d ∷ r) h = omega (arith, h)

  length-strip-le : (t : Text) → length (strip u t) ≤ length t
  unfolding strip
  length-strip-le t = omega (arith, length-lstrip-le t, length-rstrip-le (lstrip u t))

  -- what the table and the text search want of a chunk
  abbrev pub IsChunk : Text → Type 0
  IsChunk c = (1 ≤ length c) × (length c ≤ 800)

  chunks_of-IsChunk :
      (t : Text) (from n : ℕ) (ws : List Window) → Covers from n ws → All IsChunk (chunks_of u t ws)
  unfolding chunks_of
  chunks_of-IsChunk t from n [] h = tt
  chunks_of-IsChunk t from n (w ∷ ws) h =
      add (strip u (slice t w.start w.end))
        (omega (
          arith,
          length-strip-le (slice t w.start w.end),
          length-take-le (w.end - w.start) (drop w.start t),
          h.2,
        ))
        (chunks_of-IsChunk t w.end n ws h.3)
    where
      add :
          (c : Text)
          → length c ≤ 800
          → All IsChunk (chunks_of u t ws)
          → All IsChunk (add_chunk c (chunks_of u t ws))
      add [] h k = k
      add (d ∷ c) h k = ((omega arith, h), k)

  -- Chunking ends for every document that is not blank and not longer than the limit. Its chunks are
  -- the windows of the normalized text, stripped; the windows have at most 800 characters and leave no
  -- gap: the first begins with the text, each begins no later than the one in front of it ends, and the
  -- last ends with the text; and every chunk has from 1 to 800 characters.
  pub chunk_text-Covers :
      (content : Text)
      → is_empty (normalize_content u content) ≡ false
      → length (normalize_content u content) ≤ max_document_characters
      → (ws : List Window) × (chunk_text u content
          ≡ ok (chunks_of u (normalize_content u content) ws))
        × Covers 0 (length (normalize_content u content)) ws
        × All IsChunk (chunks_of u (normalize_content u content) ws)
  unfolding chunk_text chunk_loop
  chunk_text-Covers content some_text short =
      let t : Text = normalize_content u content in
      let (ws, k, c) =
        windows_from-Covers (suc (length t)) t 0 0 (omega arith) (omega arith) (omega arith)
          (positive t some_text) in
      (ws, rw (some_text, fits (length t) short, k), c, chunks_of-IsChunk t 0 (length t) ws c)
    where
      positive : (t : Text) → is_empty t ≡ false → 0 < length t
      positive [] h = absurd (cc)
      positive (c ∷ t) h = omega arith

      fits : (n : ℕ) → n ≤ max_document_characters → ltb max_document_characters n ≡ false
      fits n h = ground (arith, h)
