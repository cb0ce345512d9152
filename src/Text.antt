-- ===== src/Text.antt =====
-- Python's `str` as the list of its code points, and the methods of it that the program uses. What
-- they take from the Unicode character database is an argument.
pub mod Words
use Prim.Native.Char.{code}
use Prim.Native.String
use customer_data_foundation.Prelude.{
  ℕ, zero, suc, ◌≡◌, refl, ap, Bool, true, false, ◌&&◌, List, [], ◌∷◌, ◌++◌, String, arith, ◌==◌,
  ==→eq, ==_refl, if◌then◌else◌, leb, ltb, Bool-cases, inl, inr, all_of,
}

abbrev pub Text : Type 0
Text = List ℕ

-- the code points of a literal of the source
abbrev pub codes : String → Text
codes String.[] = []
codes (String.◌∷◌ c s) = code c ∷ codes s

-- `str.isspace`, which is also `\s`; `\d`; `\w`; `str.isprintable` and `str.casefold` of one character;
-- whether two characters are the same under `re.IGNORECASE`
pub record Unicode : Type 0 where
  pub is_space : ℕ → Bool
  pub is_digit : ℕ → Bool
  pub is_printable : ℕ → Bool
  pub fold_char : ℕ → Text
  pub is_word : ℕ → Bool
  pub same_letter : ℕ → ℕ → Bool

abbrev pub text_eq : Text → Text → Bool
text_eq [] [] = true
text_eq (a ∷ s) (b ∷ t) = a == b && text_eq s t
text_eq _ _ = false

pub text_eq→eq : (s t : Text) → text_eq s t ≡ true → s ≡ t
text_eq→eq [] [] h = refl
text_eq→eq [] (b ∷ t) h = absurd (cc)
text_eq→eq (a ∷ s) [] h = absurd (cc)
text_eq→eq (a ∷ s) (b ∷ t) h = ground (arith, text_eq→eq s t)

pub text_eq_refl : (s : Text) → text_eq s s ≡ true
text_eq_refl [] = refl
text_eq_refl (a ∷ s) = ground (arith, text_eq_refl s)

-- the order of `sorted` on texts
abbrev pub text_lt : Text → Text → Bool
text_lt [] [] = false
text_lt [] (b ∷ t) = true
text_lt (a ∷ s) [] = false
text_lt (a ∷ s) (b ∷ t) = if ltb a b then true else (a == b && text_lt s t)

abbrev pub is_empty : Text → Bool
is_empty [] = true
is_empty (c ∷ t) = false

module _ (u : Unicode) where
  open u use {is_space, is_printable, fold_char}

  abbrev pub lstrip : Text → Text
  lstrip [] = []
  lstrip (c ∷ t) = let rest = lstrip t in if is_space c then rest else c ∷ t

  -- a character before what is left of the rest
  abbrev pub keep : ℕ → Text → Text
  keep c [] = if is_space c then [] else c ∷ []
  keep c (d ∷ t) = c ∷ d ∷ t

  abbrev pub rstrip : Text → Text
  rstrip [] = []
  rstrip (c ∷ t) = keep c (rstrip t)

  unfoldable pub strip : Text → Text
  strip t = rstrip (lstrip t)

  abbrev pub flush : Text → List Text → List Text
  flush [] ws = ws
  flush (c ∷ w) ws = (c ∷ w) ∷ ws

  -- the word that the text begins with, if it begins with one, and the words after it
  abbrev pub scan_step : ℕ → Text × List Text → Text × List Text
  scan_step c (w, ws) = if is_space c then ([], flush w ws) else (c ∷ w, ws)

  unfoldable pub scan : Text → Text × List Text
  scan [] = ([], [])
  scan (c ∷ t) = scan_step c (scan t)

  -- `value.split()`
  unfoldable pub split : Text → List Text
  unfolding scan
  split t = flush (scan t).0 (scan t).1

  -- `value.casefold()`
  unfoldable pub casefold : Text → Text
  casefold [] = []
  casefold (c ∷ t) = fold_char c ++ casefold t

  unfoldable pub isprintable : Text → Bool
  isprintable t = all_of is_printable t

-- `" ".join(words)`
unfoldable pub join : List Text → Text
join [] = []
join (w ∷ []) = w
join (w ∷ v ∷ ws) = w ++ b' ' ∷ join (v ∷ ws)
