-- ===== src/Rag/Extracts.antt =====
-- What the local generator answers: sentences of the first evidence, none of them an injection.
use customer_data_foundation.Prelude.{
  ℕ, ◌≡◌, ◌≢◌, refl, ap, sym, Bool, true, false, not, List, [], ◌∷◌, arith, ◌∙◌, subst, ◌≤◌, In,
  length-take-le, not-true, select-All, All-weaken, All, All-select, All-take, All-and, ltb, select,
  take, length,
}
use customer_data_foundation.Sql.{Uuid, All_of-In}
use customer_data_foundation.Text.{Text, Unicode, strip, join}
use customer_data_foundation.Knowledge.Query.{injection_search}
use customer_data_foundation.Knowledge.Retrieval.{RetrievalHit}
use customer_data_foundation.Knowledge.Authorized.{All-sort_by}
use customer_data_foundation.Rag.Records.{GeneratedAnswer, generated}
use customer_data_foundation.Rag.Extractive.{
  within, split_sentences, overlap, safe_sentences, rank_sentences, question_terms, or_first,
  chosen, extract, draft_of, generate_extractive,
}

All_of-self : (xs : List Text) → All (λ x. In x xs) xs
All_of-self xs = All_of-In (λ x. In x xs) xs (λ r m. m)

generated-injective : {g h : GeneratedAnswer} → generated g ≡ generated h → g ≡ h
generated-injective h = cc

module _ (u : Unicode) where
  -- a sentence of a content that is not an injection
  abbrev pub IsSafeSentence : Text → Text → Type 0
  IsSafeSentence content t =
      In t (split_sentences u within (strip u content)) × (injection_search u t ≡ false)

  safe_sentences-All : (content : Text) → All (IsSafeSentence content) (safe_sentences u content)
  unfolding safe_sentences
  safe_sentences-All content =
      let sentences = split_sentences u within (strip u content) in
      let test : Text → Bool = λ t. not (injection_search u t) in
      All-weaken (λ t. (test t ≡ true) × In t sentences) (IsSafeSentence content) _
        (λ t q. (q.1, not-true (injection_search u t) q.0))
        (All-and (λ t. test t ≡ true) (λ t. In t sentences) _ (select-All test sentences)
          (All-select (λ t. In t sentences) test sentences (All_of-self sentences)))

  or_first-All :
      (P : Text → Type 0) (ts ranked : List Text)
      → All P ts
      → All P ranked
      → All P (or_first u ts ranked)
  or_first-All P [] ranked h k = All-take P 1 ranked k
  or_first-All P (t ∷ ts) ranked h k = h

  or_first_short : (ts ranked : List Text) → length ts ≤ 2 → length (or_first u ts ranked) ≤ 2
  or_first_short [] ranked h = omega (arith, length-take-le 1 ranked)
  or_first_short (t ∷ ts) ranked h = h

  -- at most two safe sentences of a content, as much of them as an answer takes
  pub record IsExtract (content answer : Text) : Type 0 where
    pub sentences : List Text
    pub joined : answer ≡ take 3000 (join sentences)
    pub few : length sentences ≤ 2
    pub safe : All (IsSafeSentence content) sentences

  extract-IsExtract : (question content : Text) → IsExtract content (extract u question content)
  unfolding extract rank_sentences chosen
  extract-IsExtract question content =
      let terms = question_terms u question in
      let ranked = rank_sentences u terms (safe_sentences u content) in
      let test : Text → Bool = λ t. ltb 0 (overlap u terms t) in
      let P = IsSafeSentence content in
      let ok_ranked : All P ranked = All-sort_by P _ _ (safe_sentences-All content) in
      record {
        sentences = chosen u terms ranked;
        joined = refl;
        few = or_first_short (take 2 (select test ranked)) ranked (length-take-le 2 _);
        safe =
            or_first-All P (take 2 (select test ranked)) ranked
              (All-take P 2 _ (All-select P test ranked ok_ranked)) ok_ranked;
      }

  module _ (uuid_text : Uuid → Text) (duration_ms : ℕ) where
    drafted :
        (hit : RetrievalHit) (request_id answer : Text) {g : GeneratedAnswer}
        → draft_of u uuid_text duration_ms hit request_id answer ≡ generated g
        → (g.draft.answer ≡ answer)
          × (answer ≢ [])
          × (g.draft.cited_chunk_ids ≡ uuid_text hit.chunk_id ∷ [])
    unfolding draft_of
    drafted hit request_id [] h = absurd (cc)
    drafted hit request_id (c ∷ t) h =
        let e = generated-injective h in
        (
          sym (ap (λ (x : GeneratedAnswer). x.draft.answer) e),
          (λ k. cc),
          sym (ap (λ (x : GeneratedAnswer). x.draft.cited_chunk_ids) e),
        )

    -- An answer that the local generator gives cites the first evidence alone, is not empty, and consists
    -- of at most two sentences of that evidence, none of which matches the pattern of injections.
    pub generate_extractive-IsExtract :
        (question : Text) (hit : RetrievalHit) (request_id : Text) {g : GeneratedAnswer}
        → generate_extractive u uuid_text duration_ms question hit request_id ≡ generated g
        → (g.draft.cited_chunk_ids ≡ uuid_text hit.chunk_id ∷ [])
          × (g.draft.answer ≢ [])
          × IsExtract hit.content g.draft.answer
    unfolding generate_extractive
    generate_extractive-IsExtract question hit request_id h =
        let (e, n, c) = drafted hit request_id (extract u question hit.content) h in
        (
          c,
          λ k. n (sym e ∙ k),
          subst (IsExtract hit.content) (sym e) (extract-IsExtract question hit.content),
        )
