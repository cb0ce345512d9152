-- ===== src/Rag/Extractive.antt =====
-- `DeterministicGroundedGenerator` of rag.py: an answer of sentences of the first piece of evidence.
use customer_data_foundation.Prelude.{
  ℕ, zero, suc, ◌-◌, Bool, true, false, not, ◌&&◌, ◌||◌, List, [], ◌∷◌, ◌++◌, map, Option, none,
  some, ◌==◌, leb, ltb, if◌then◌else◌, length, select, any_of, take,
}
use customer_data_foundation.Sql.{Uuid}
use customer_data_foundation.Text.{Text, Unicode, codes, text_eq, is_empty, strip, casefold, join}
use customer_data_foundation.Knowledge.Chunks.{starts_with}
use customer_data_foundation.Knowledge.Query.{is_stopword, dedupe, find_terms, injection_search}
use customer_data_foundation.Knowledge.Retrieval.{RetrievalHit, sort_by}
use customer_data_foundation.Rag.Records.{Generation, generated, invalid, no_usage}

-- [A-Z] and [A-Z0-9]
abbrev pub is_upper : ℕ → Bool
is_upper c = leb 65 c && leb c 90

abbrev pub is_code_char : ℕ → Bool
is_code_char c = is_upper c || (leb 48 c && leb c 57)

-- `needle in t`
abbrev pub occurs_in : Text → Text → Bool
occurs_in needle [] = is_empty needle
occurs_in needle (c ∷ t) = starts_with needle (c ∷ t) || occurs_in needle t

abbrev pub add_char : ℕ → List Text → List Text
add_char c [] = (c ∷ []) ∷ []
add_char c (piece ∷ pieces) = (c ∷ piece) ∷ pieces

-- `t.split(separator)` for one character
unfoldable pub split_on : ℕ → Text → List Text
split_on separator [] = [] ∷ []
split_on separator (c ∷ t) =
    let rest = split_on separator t in if c == separator then [] ∷ rest else add_char c rest

-- where the split of a text into sentences is: within one, after its end, or between two
pub data Place : Type 0 where
  within after_end between : Place

abbrev pub is_end : ℕ → Bool
is_end c = c == 46 || c == 33 || c == 63

abbrev pub may_break : Place → Bool
may_break within = false
may_break _ = true

-- what a character that may be white space does to the sentences after it
abbrev pub place_char : Place → Bool → ℕ → List Text → List Text
place_char after_end true c pieces = [] ∷ pieces
place_char between true c pieces = pieces
place_char _ _ c pieces = add_char c pieces

module _ (u : Unicode) where
  open u use {is_space, is_word}

  abbrev pub next_place : Place → ℕ → Place
  next_place p c =
      if may_break p && is_space c then between else if is_end c then after_end else within

  -- `re.split(r"(?<=[.!?])\s+", t)`
  unfoldable pub split_sentences : Place → Text → List Text
  split_sentences p [] = [] ∷ []
  split_sentences p (c ∷ t) =
      place_char p (may_break p && is_space c) c (split_sentences (next_place p c) t)

  -- \b after a character
  abbrev pub boundary : ℕ → Text → Bool
  boundary c [] = is_word c
  boundary c (d ∷ t) = if is_word c then not (is_word d) else is_word d

  abbrev pub longer_first : ℕ → Option Text → Bool → Option Text
  longer_first c (some t) here = some (c ∷ t)
  longer_first c none true = some (c ∷ [])
  longer_first c none false = none

  -- the longest match of [A-Z0-9-]+\b
  unfoldable pub code_tail : Text → Option Text
  code_tail [] = none
  code_tail (c ∷ t) =
      let rest = code_tail t in
      if is_code_char c || c == 45 then longer_first c rest (boundary c t) else none

  abbrev pub put_before : ℕ → Option Text → Option Text
  put_before c none = none
  put_before c (some t) = some (c ∷ t)

  -- [A-Z0-9]+-[A-Z0-9-]+\b; `seen` after the first character
  unfoldable pub code_head : Bool → Text → Option Text
  unfolding code_tail
  code_head seen [] = none
  code_head seen (c ∷ t) =
      let rest = code_head true t in
      if c == 45
      then (if seen then put_before c (code_tail t) else none)
      else if is_code_char c
      then put_before c rest
      else none

  -- a match at a character, after one that may be of \w
  unfoldable pub code_at : Bool → ℕ → Text → Option Text
  unfolding code_head
  code_at previous c t =
      if is_upper c && not previous then put_before c (code_head false t) else none

  abbrev pub rest_length : Option Text → ℕ
  rest_length none = 0
  rest_length (some m) = length m - 1

  abbrev pub add_match : Option Text → List Text → List Text
  add_match none ms = ms
  add_match (some m) ms = m ∷ ms

  -- the matches in a text, of which the first `skip` characters are of the last match
  unfoldable pub find_codes : Bool → ℕ → Text → List Text
  unfolding code_at
  find_codes previous skip [] = []
  find_codes previous (suc skip) (c ∷ t) = find_codes (is_word c) skip t
  find_codes previous zero (c ∷ t) =
      let m = code_at previous c t in add_match m (find_codes (is_word c) (rest_length m) t)

  abbrev pub all_parts : List Text → List Text
  all_parts [] = []
  all_parts (code ∷ codes') = map (casefold u) (split_on 45 code) ++ all_parts codes'

  unfoldable pub code_terms : Text → List Text
  unfolding find_codes split_on casefold
  code_terms question = all_parts (find_codes false 0 question)

  abbrev pub is_one_of : List Text → Text → Bool
  is_one_of ws t = any_of (λ (w : Text). text_eq w t) ws

  unfoldable pub question_terms : Text → List Text
  unfolding dedupe find_terms casefold code_terms
  question_terms question =
      let excluded = code_terms question in
      select (λ (t : Text). not (is_stopword t) && not (is_one_of excluded t))
        (dedupe (find_terms u (casefold u question)))

  -- how many of the terms are in a sentence
  unfoldable pub overlap : List Text → Text → ℕ
  unfolding casefold
  overlap terms sentence =
      let folded = casefold u sentence in length (select (λ (t : Text). occurs_in t folded) terms)

  unfoldable pub safe_sentences : Text → List Text
  unfolding split_sentences strip injection_search
  safe_sentences content =
      select (λ (t : Text). not (injection_search u t)) (split_sentences within (strip u content))

  -- `sorted(..., reverse=True)`, which leaves equal sentences in their order
  unfoldable pub rank_sentences : List Text → List Text → List Text
  unfolding overlap sort_by
  rank_sentences terms sentences =
      sort_by (λ (a b : Text). ltb (overlap terms b) (overlap terms a)) sentences

  abbrev pub or_first : List Text → List Text → List Text
  or_first [] ranked = take 1 ranked
  or_first (t ∷ ts) ranked = t ∷ ts

  -- the sentences of the answer
  unfoldable pub chosen : List Text → List Text → List Text
  unfolding overlap
  chosen terms ranked =
      or_first (take 2 (select (λ (t : Text). ltb 0 (overlap terms t)) ranked)) ranked

  unfoldable pub extract : Text → Text → Text
  unfolding safe_sentences question_terms rank_sentences chosen join
  extract question content =
      let terms = question_terms question in
      take 3000 (join (chosen terms (rank_sentences terms (safe_sentences content))))

  -- `GroundedDraft(...)`, which an empty answer does not validate; `uuid_text` is `str` of an identifier
  unfoldable pub draft_of : (Uuid → Text) → ℕ → RetrievalHit → Text → Text → Generation
  draft_of uuid_text duration_ms hit request_id answer =
      if is_empty answer
      then invalid
      else generated (record {
        draft = record {
          answer = answer;
          supported = true;
          cited_chunk_ids = uuid_text hit.chunk_id ∷ [];
        };
        provider = codes "deterministic_local";
        model = codes "extractive-test-v1";
        provider_response_id = codes "local-" ++ request_id;
        duration_ms = duration_ms;
        usage = no_usage;
        estimated_cost_usd = some 0;
      })

  -- `generate`; it is called with some evidence
  unfoldable pub generate_extractive : (Uuid → Text) → ℕ → Text → RetrievalHit → Text → Generation
  unfolding extract draft_of
  generate_extractive uuid_text duration_ms question hit request_id =
      draft_of uuid_text duration_ms hit request_id (extract question hit.content)
