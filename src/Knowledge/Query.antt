-- ===== src/Knowledge/Query.antt =====
-- The regular expressions of knowledge.py on questions and contents: the terms of a lexical query,
-- and the pattern of injected instructions.
use customer_data_foundation.Prelude.{
  ℕ, zero, suc, Bool, true, false, not, ◌&&◌, ◌||◌, List, [], ◌∷◌, ◌++◌, length, take, select,
  any_of, leb, ◌==◌,
}
use customer_data_foundation.Text.{Text, Unicode, codes, text_eq, casefold, split}

abbrev pub lexical_stopwords : List Text
lexical_stopwords =
    codes "and"
    ∷ codes "are"
    ∷ codes "como"
    ∷ codes "can"
    ∷ codes "cual"
    ∷ codes "cuales"
    ∷ codes "del"
    ∷ codes "desde"
    ∷ codes "donde"
    ∷ codes "does"
    ∷ codes "el"
    ∷ codes "ella"
    ∷ codes "en"
    ∷ codes "es"
    ∷ codes "esta"
    ∷ codes "for"
    ∷ codes "how"
    ∷ codes "is"
    ∷ codes "la"
    ∷ codes "las"
    ∷ codes "los"
    ∷ codes "may"
    ∷ codes "para"
    ∷ codes "por"
    ∷ codes "que"
    ∷ codes "the"
    ∷ codes "una"
    ∷ codes "what"
    ∷ codes "when"
    ∷ codes "where"
    ∷ codes "who"
    ∷ codes "with"
    ∷ []

abbrev pub is_stopword : Text → Bool
is_stopword term = any_of (λ (w : Text). text_eq w term) lexical_stopwords

-- `dict.fromkeys`: the first of equal texts stays
unfoldable pub dedupe : List Text → List Text
dedupe [] = []
dedupe (w ∷ ws) = w ∷ select (λ (v : Text). not (text_eq v w)) (dedupe ws)

abbrev pub add_to : ℕ → Text × List Text → Text × List Text
add_to c (piece, pieces) = (c ∷ piece, pieces)

abbrev pub open_next : ℕ → Text × List Text → Text × List Text
open_next c (piece, pieces) = ([], (c ∷ piece) ∷ pieces)

-- a run of word characters in pieces, when `room` more fit into the first: that piece, and the others
unfoldable pub cut_run : ℕ → Text → Text × List Text
cut_run room [] = ([], [])
cut_run zero (c ∷ t) = open_next c (cut_run 39 t)
cut_run (suc room) (c ∷ t) = add_to c (cut_run room t)

-- the matches of [\w]{2,40} in a run of word characters: 40 at a time, and the rest if it is two
unfoldable pub run_matches : Text → List Text
unfolding cut_run
run_matches run =
    select (λ (piece : Text). leb 2 (length piece)) ((cut_run 40 run).0 ∷ (cut_run 40 run).1)

abbrev pub concat_matches : List Text → List Text
concat_matches [] = []
concat_matches (run ∷ runs) = run_matches run ++ concat_matches runs

-- `" | ".join(terms)`
unfoldable pub join_or : List Text → Text
join_or [] = []
join_or (w ∷ []) = w
join_or (w ∷ v ∷ ws) = w ++ codes " | " ++ join_or (v ∷ ws)

-- the first words of the pattern, and the second ones
abbrev pub injection_verbs : List Text
injection_verbs = codes "ignore" ∷ codes "disregard" ∷ codes "reveal" ∷ codes "override" ∷ []

abbrev pub injection_objects : List Text
injection_objects = codes "instruction" ∷ codes "prompt" ∷ codes "system" ∷ codes "secret" ∷ []

module _ (u : Unicode) where
  open u use {is_word, same_letter}

  -- all but \w counts as white space
  abbrev pub word_breaks : Unicode
  word_breaks = record u { is_space = λ (c : ℕ). not (is_word c) }

  -- the maximal runs of \w: the words of a text between such breaks
  unfoldable pub word_runs : Text → List Text
  unfolding split
  word_runs t = split word_breaks t

  -- `re.findall(r"[\w]{2,40}", t, re.UNICODE)`
  unfoldable pub find_terms : Text → List Text
  unfolding word_runs run_matches
  find_terms t = concat_matches (word_runs t)

  -- the terms of a lexical query
  unfoldable pub query_terms : Text → List Text
  unfolding casefold dedupe find_terms
  query_terms content =
      take 30 (
        select (λ (term : Text). not (is_stopword term)) (dedupe (find_terms (casefold u content))))

  unfoldable pub lexical_query : Text → Text
  unfolding query_terms join_or
  lexical_query content = join_or (query_terms content)

  -- a word at the beginning of a text, up to the case of letters: what follows it
  abbrev pub matches_word : Text → Text → Bool
  matches_word [] t = true
  matches_word (p ∷ ps) [] = false
  matches_word (p ∷ ps) (c ∷ t) = same_letter p c && matches_word ps t

  abbrev pub after_word : Text → Text → Text
  after_word [] t = t
  after_word (p ∷ ps) [] = []
  after_word (p ∷ ps) (c ∷ t) = after_word ps t

  -- .{0,k} and then an object; the dot takes all but a line feed
  unfoldable pub object_within : ℕ → Text → Bool
  object_within zero t = any_of (λ (w : Text). matches_word w t) injection_objects
  object_within (suc k) [] = false
  object_within (suc k) (c ∷ t) =
      any_of (λ (w : Text). matches_word w (c ∷ t)) injection_objects
      || (not (c == 10) && object_within k t)

  -- INJECTION_PATTERN matches at the beginning
  unfoldable pub injection_at : Text → Bool
  unfolding object_within
  injection_at t =
      any_of (λ (w : Text). matches_word w t && object_within 40 (after_word w t)) injection_verbs

  -- `INJECTION_PATTERN.search(t)`
  unfoldable pub injection_search : Text → Bool
  unfolding injection_at
  injection_search [] = false
  injection_search (c ∷ t) = injection_at (c ∷ t) || injection_search t
