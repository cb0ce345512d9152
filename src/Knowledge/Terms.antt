-- ===== src/Knowledge/Terms.antt =====
-- What a lexical query consists of.
use customer_data_foundation.Prelude.{
  ℕ, zero, suc, ◌≤◌, ◌≡◌, refl, Bool, true, false, not, List, [], ◌∷◌, length, take, select, All,
  All-append, select-All, All-and, not-true, All-select, All-take, All-weaken, Bool-cases, inl, inr,
  leb, leb→le, arith, length-take-le,
}
use customer_data_foundation.Text.{Text, Unicode, text_eq, casefold}
use customer_data_foundation.Text.Words.{IsWord, split_words}
use customer_data_foundation.Knowledge.Query.{
  is_stopword, dedupe, cut_run, run_matches, concat_matches, join_or, word_runs, word_breaks,
  find_terms, query_terms, lexical_query,
}

not-false : (b : Bool) → not b ≡ false → b ≡ true
not-false true h = refl
not-false false h = cc

-- no text stands twice
abbrev pub Distinct : List Text → Type 0
Distinct [] = Unit
Distinct (w ∷ ws) = All (λ v. text_eq v w ≡ false) ws × Distinct ws

Distinct-select : (test : Text → Bool) (ws : List Text) → Distinct ws → Distinct (select test ws)
Distinct-select test [] h = tt
Distinct-select test (w ∷ ws) h = elim (Bool-cases (test w)) [
  | inl e ↦ rw e (All-select (λ v. text_eq v w ≡ false) test ws h.0, Distinct-select test ws h.1)
  | inr e ↦ rw e (Distinct-select test ws h.1)
]

Distinct-take : (n : ℕ) (ws : List Text) → Distinct ws → Distinct (take n ws)
Distinct-take zero ws h = tt
Distinct-take (suc n) [] h = tt
Distinct-take (suc n) (w ∷ ws) h =
    (All-take (λ v. text_eq v w ≡ false) n ws h.0, Distinct-take n ws h.1)

others-All :
    (w : Text) (ws : List Text)
    → All (λ v. text_eq v w ≡ false) (select (λ (v : Text). not (text_eq v w)) ws)
others-All w [] = tt
others-All w (v ∷ ws) = elim (Bool-cases (text_eq v w)) [
  | inl e ↦ rw e (others-All w ws)
  | inr e ↦ rw e (e, others-All w ws)
]

pub dedupe-Distinct : (ws : List Text) → Distinct (dedupe ws)
unfolding dedupe
dedupe-Distinct [] = tt
dedupe-Distinct (w ∷ ws) = (
  others-All w (dedupe ws),
  Distinct-select (λ v. not (text_eq v w)) (dedupe ws) (dedupe-Distinct ws),
)

pub All-dedupe : (P : Text → Type 0) (ws : List Text) → All P ws → All P (dedupe ws)
unfolding dedupe
All-dedupe P [] h = tt
All-dedupe P (w ∷ ws) h =
    (h.0, All-select P (λ v. not (text_eq v w)) (dedupe ws) (All-dedupe P ws h.1))

module _ (P : ℕ → Type 0) where
  -- a piece of a run: at most so many characters, all of the run
  Fits : ℕ → Text → Type 0
  Fits n t = (length t ≤ n) × All P t

  cut_run-Fits :
      (room : ℕ) (t : Text)
      → room ≤ 40
      → All P t
      → Fits room (cut_run room t).0 × All (Fits 40) (cut_run room t).1
  unfolding cut_run Fits
  cut_run-Fits room [] r h = ((omega arith, tt), tt)
  cut_run-Fits zero (c ∷ t) r h =
      let (p, ps) = cut_run-Fits 39 t (omega arith) h.1 in
      ((omega arith, tt), ((omega (arith, p.0), (h.0, p.1)), ps))
  cut_run-Fits (suc room) (c ∷ t) r h =
      let (p, ps) = cut_run-Fits room t (omega (arith, r)) h.1 in
      ((omega (arith, p.0), (h.0, p.1)), ps)

  -- a match: from 2 to 40 characters of the run
  pub IsTerm : Text → Type 0
  IsTerm t = (2 ≤ length t) × (length t ≤ 40) × All P t

  run_matches-IsTerm : (run : Text) → All P run → All IsTerm (run_matches run)
  unfolding run_matches Fits IsTerm
  run_matches-IsTerm run h =
      let (p, ps) = cut_run-Fits 40 run (omega arith) h in
      All-weaken _ IsTerm _ (λ t q. (leb→le 2 (length t) q.0, q.1.0, q.1.1))
        (All-and (λ t. leb 2 (length t) ≡ true) (Fits 40) _
          (select-All (λ (t : Text). leb 2 (length t)) ((cut_run 40 run).0 ∷ (cut_run 40 run).1))
          (All-select (Fits 40) (λ (t : Text). leb 2 (length t)) (_ ∷ _) (p, ps)))

  concat_matches-IsTerm : (runs : List Text) → All (All P) runs → All IsTerm (concat_matches runs)
  concat_matches-IsTerm [] h = tt
  concat_matches-IsTerm (run ∷ runs) h =
      All-append IsTerm _ _ (run_matches-IsTerm run h.0) (concat_matches-IsTerm runs h.1)

module _ (u : Unicode) where
  open u use {is_word}

  abbrev IsWordText : Text → Type 0
  IsWordText = All (λ c. is_word c ≡ true)

  word_runs_words : (t : Text) → All IsWordText (word_runs u t)
  unfolding word_runs
  word_runs_words t =
      All-weaken (IsWord (word_breaks u)) IsWordText _
        (λ w q.
          All-weaken (λ c. not (is_word c) ≡ false) (λ c. is_word c ≡ true) w
            (λ c e. not-false (is_word c) e) q.1)
        (split_words (word_breaks u) t)

  -- a term of a query: 2 to 40 word characters, and not a stop word
  pub IsQueryTerm : Text → Type 0
  IsQueryTerm t = IsTerm (λ c. is_word c ≡ true) t × (is_stopword t ≡ false)

  query_terms_terms : (content : Text) → All IsQueryTerm (query_terms u content)
  unfolding query_terms find_terms IsQueryTerm
  query_terms_terms content =
      let P : Text → Type 0 = IsTerm (λ c. is_word c ≡ true) in
      let test : Text → Bool = λ t. not (is_stopword t) in
      let found =
        All-dedupe P (find_terms u (casefold u content)) (
          concat_matches-IsTerm (λ c. is_word c ≡ true) _ (word_runs_words (casefold u content))) in
      let terms : List Text = dedupe (find_terms u (casefold u content)) in
      All-take IsQueryTerm 30 _ (
        All-weaken (λ t. (test t ≡ true) × P t) IsQueryTerm _
          (λ t q. (q.1, not-true (is_stopword t) q.0))
          (All-and (λ t. test t ≡ true) P _ (select-All test terms)
            (All-select P test terms found)))

  query_terms-Distinct : (content : Text) → Distinct (query_terms u content)
  unfolding query_terms
  query_terms-Distinct content =
      let found = dedupe (find_terms u (casefold u content)) in
      let test : Text → Bool = λ t. not (is_stopword t) in
      Distinct-take 30 (select test found) (Distinct-select test found (dedupe-Distinct _))

  -- what the program sends to to_tsquery: an OR of few distinct words
  pub IsSafe : Text → Type 0
  IsSafe q =
      (ts : List Text) × (q ≡ join_or ts) × (length ts ≤ 30) × Distinct ts × All IsQueryTerm ts

  -- The lexical query of any question is an OR of at most 30 distinct terms, each of which consists
  -- of 2 to 40 word characters and is not a stop word: no operator of the user reaches to_tsquery.
  pub lexical_query-IsSafe : (content : Text) → IsSafe (lexical_query u content)
  unfolding lexical_query query_terms IsSafe
  lexical_query-IsSafe content = (
    query_terms u content,
    refl,
    length-take-le 30 _,
    query_terms-Distinct content,
    query_terms_terms content,
  )
