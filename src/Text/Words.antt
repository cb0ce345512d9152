-- ===== src/Text/Words.antt =====
-- Splitting into words and joining them again.
use customer_data_foundation.Prelude.{
  ℕ, ◌≡◌, ◌≢◌, refl, ap, ◌∙◌, true, false, List, [], ◌∷◌, ◌++◌, Bool-cases, inl, inr, All,
}
use customer_data_foundation.Text.{
  Text, Unicode, lstrip, keep, rstrip, strip, flush, scan_step, scan, split, join,
}

module _ (u : Unicode) where
  open u use {is_space}

  -- a word: not empty, and no white space in it
  abbrev pub IsWord : Text → Type 0
  IsWord w = (w ≢ []) × All (λ c. is_space c ≡ false) w

  split-lstrip : (t : Text) → split u (lstrip u t) ≡ split u t
  unfolding split
  split-lstrip [] = refl
  split-lstrip (c ∷ t) = elim (Bool-cases (is_space c)) [
    | inl e ↦ rw e (split-lstrip t)
    | inr e ↦ rw (e, e)
  ]

  scan-keep : (c : ℕ) (t : Text) → scan u (keep u c t) ≡ scan_step u c (scan u t)
  unfolding scan
  scan-keep c [] = elim (Bool-cases (is_space c)) [ inl e ↦ rw e | inr e ↦ rw (e, e) ]
  scan-keep c (d ∷ t) = refl

  scan-rstrip : (t : Text) → scan u (rstrip u t) ≡ scan u t
  unfolding scan
  scan-rstrip [] = refl
  scan-rstrip (c ∷ t) = scan-keep c (rstrip u t) ∙ ap (scan_step u c) (scan-rstrip t)

  -- white space at the ends makes no difference to the words
  pub split-strip : (t : Text) → split u (strip u t) ≡ split u t
  unfolding split strip
  split-strip t = rw (scan-rstrip (lstrip u t)) (split-lstrip t)

  flush_words :
      (w : Text) (ws : List Text)
      → All (λ c. is_space c ≡ false) w
      → All IsWord ws
      → All IsWord (flush u w ws)
  flush_words [] ws h k = k
  flush_words (d ∷ w) ws h k = (((λ e. cc), h), k)

  -- every part of a split is a word
  scan_words : (t : Text) → All (λ c. is_space c ≡ false) (scan u t).0 × All IsWord (scan u t).1
  unfolding scan
  scan_words [] = (tt, tt)
  scan_words (c ∷ t) = elim (Bool-cases (is_space c)) [
    | inl e ↦ rw e (tt, flush_words (scan u t).0 (scan u t).1 (scan_words t).0 (scan_words t).1)
    | inr e ↦ rw e ((e, (scan_words t).0), (scan_words t).1)
  ]

  -- A text of words joined by single blanks splits into those words.
  scan_word :
      (w r : Text)
      → is_space b' ' ≡ true
      → All (λ c. is_space c ≡ false) w
      → scan u (w ++ b' ' ∷ r) ≡ (w, split u r)
  unfolding scan split
  scan_word [] r blank h = rw blank
  scan_word (c ∷ w) r blank h = rw (scan_word w r blank h.1, h.0)

  scan_end : (w : Text) → All (λ c. is_space c ≡ false) w → scan u w ≡ (w, [])
  unfolding scan
  scan_end [] h = refl
  scan_end (c ∷ w) h = rw (scan_end w h.1, h.0)

  flush_word : (w : Text) (ws : List Text) → w ≢ [] → flush u w ws ≡ w ∷ ws
  flush_word [] ws h = absurd (h refl)
  flush_word (c ∷ w) ws h = refl

  pub split-join : (ws : List Text) → is_space b' ' ≡ true → All IsWord ws → split u (join ws) ≡ ws
  unfolding join
  split-join [] blank h = unfold split scan in refl
  split-join (w ∷ []) blank h = unfold split in rw (scan_end w h.0.1) (flush_word w [] h.0.0)
  split-join (w ∷ v ∷ ws) blank h =
      split_first w (join (v ∷ ws)) blank h.0
      ∙ ap (λ (l : List Text). w ∷ l) (split-join (v ∷ ws) blank h.1)
    where
      split_first :
          (w r : Text) → is_space b' ' ≡ true → IsWord w → split u (w ++ b' ' ∷ r) ≡ w ∷ split u r
      split_first w r blank h = unfold split in rw (scan_word w r blank h.1) (flush_word w _ h.0)

  pub split_words : (t : Text) → All IsWord (split u t)
  unfolding split
  split_words t = flush_words (scan u t).0 (scan u t).1 (scan_words t).0 (scan_words t).1
