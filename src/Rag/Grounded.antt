-- ===== src/Rag/Grounded.antt =====
-- What is made of evidence that the principal may read cites that evidence.
use customer_data_foundation.Prelude.{
  and_true, ℕ, ◌≡◌, ◌≢◌, refl, sym, Bool, true, false, not, ◌||◌, List, [], ◌∷◌, Option, none, some,
  inl, inr, arith, Result, value_error, Result-cases, All, All-In, All-select, All-weaken, find,
  find_sound, is_some, length, if◌then◌else◌,
}
use customer_data_foundation.Database.{Schema}
use customer_data_foundation.Text.{Text}
use customer_data_foundation.Knowledge.Query.{dedupe}
use customer_data_foundation.Knowledge.Retrieval.{RetrievalHit, hybrid, Question, retrieve_chunks}
use customer_data_foundation.Knowledge.Authorized.{
  IsAuthorized, All-sort_by, retrieve_chunks-IsAuthorized,
}
use customer_data_foundation.Rag.Steps.{Step}
use customer_data_foundation.Rag.Records.{
  refused, GeneratedAnswer, Generation, generated, refusal, unavailable, invalid, Citation,
  RagTrace, AnswerResult, Tables, Call,
}
use customer_data_foundation.Rag.Gates.{enforce_daily_budget}
use customer_data_foundation.Rag.Extractive.{generate_extractive}
use customer_data_foundation.Rag.Cited.{IsCitable}
use customer_data_foundation.Rag.Answers.{
  Assistant, principal_of, evidence_before, evidence_is_sufficient, evidence_of, new_trace,
  refusal_trace, refusal_result, deliver, refuse, is_cited, cite, citations_of, citations_valid,
  answer_status, grounded_result, conclude, unavailable_trace, give_up, conclude_local, fall_back,
  conclude_generation, answer_from, retrieve_and_answer,
}
use customer_data_foundation.Rag.Outcome.{
  IsGrounded, IsSound, row_of, fails_clean, write_trace-cases, deliver-IsSound,
}

module _ (a : Assistant) (schema : Schema) (call : Call) where
  abbrev pub Sound : Tables → Result AnswerResult × Tables → Type 0
  Sound = IsSound a schema call

  refuse-IsSound : (trace : RagTrace) (t : Tables) → Sound t (refuse a schema call trace t)
  unfolding refuse refusal_result
  refuse-IsSound trace t =
      deliver-IsSound a schema call (refusal_result a schema call trace) t (refl, tt)

  module _ (t : Tables) where
    -- a hit whose chunk may be cited
    abbrev IsEvidence : RetrievalHit → Type 0
    IsEvidence h = IsCitable t.knowledge (principal_of a schema call) h.chunk_id

    abbrev pub IsCited : Citation → Type 0
    IsCited c = IsCitable t.knowledge (principal_of a schema call) c.chunk_id

    cite-All :
        (evidence : List RetrievalHit) (id : Text) (o : Option RetrievalHit) (cs : List Citation)
        → find (is_cited a schema call id) evidence ≡ o
        → All IsEvidence evidence
        → All IsCited cs
        → All IsCited (cite a schema call o cs)
    cite-All evidence id none cs e h k = k
    cite-All evidence id (some hit) cs e h k =
        (All-In IsEvidence evidence h (find_sound (is_cited a schema call id) evidence e).0, k)

    citations_of-All :
        (evidence : List RetrievalHit) (ids : List Text)
        → All IsEvidence evidence
        → All IsCited (citations_of a schema call evidence ids)
    unfolding citations_of
    citations_of-All evidence [] h = tt
    citations_of-All evidence (id ∷ ids) h =
        cite-All evidence id (find (is_cited a schema call id) evidence) _ refl h
          (citations_of-All evidence ids h)

    cite_nonempty :
        (o : Option RetrievalHit) (cs : List Citation)
        → is_some o ≡ true
        → cite a schema call o cs ≢ []
    cite_nonempty none cs h = absurd (cc)
    cite_nonempty (some hit) cs h = λ e. cc

    citations_nonempty :
        (evidence : List RetrievalHit) (ids : List Text)
        → citations_valid a schema call evidence ids ≡ true
        → citations_of a schema call evidence ids ≢ []
    unfolding citations_valid citations_of
    citations_nonempty evidence [] h = absurd (cc)
    citations_nonempty evidence (id ∷ ids) h =
        cite_nonempty (find (is_cited a schema call id) evidence) _
          (and_true (is_some (find (is_cited a schema call id) evidence)) _ h).0

    grounded_result-IsGrounded :
        (d : Bool) (g : GeneratedAnswer) (n : ℕ) (cs : List Citation)
        → cs ≢ []
        → All IsCited cs
        → IsGrounded t (principal_of a schema call) (grounded_result a schema call d g n cs)
    unfolding grounded_result answer_status
    grounded_result-IsGrounded true g n cs e h = (e, h)
    grounded_result-IsGrounded false g n cs e h = (e, h)

    invalid_draft : (x y : Bool) → (not x || not y) ≡ false → y ≡ true
    invalid_draft x y h = ground arith

    if-IsSound :
        (b : Bool) (x y : Step Tables AnswerResult)
        → (b ≡ true → Sound t (x t))
        → (b ≡ false → Sound t (y t))
        → Sound t ((if b then x else y) t)
    if-IsSound true x y h k = h refl
    if-IsSound false x y h k = k refl

    conclude-IsSound :
        (evidence : List RetrievalHit) (d : Bool) (g : GeneratedAnswer)
        → All IsEvidence evidence
        → Sound t (conclude a schema call evidence d g t)
    unfolding conclude
    conclude-IsSound evidence d g h =
        let ids = dedupe g.draft.cited_chunk_ids in
        let retrieved = length evidence in
        let refused_draft : RagTrace =
          new_trace a schema call refused g.provider g.model g.usage g.estimated_cost_usd retrieved
            0 in
        if-IsSound (not g.draft.supported || not (citations_valid a schema call evidence ids))
          (refuse a schema call refused_draft)
          (deliver a schema call
            (grounded_result a schema call d g retrieved (citations_of a schema call evidence ids)))
          (λ e. refuse-IsSound refused_draft t)
          (λ e.
            deliver-IsSound a schema call
              (grounded_result a schema call d g retrieved
                (citations_of a schema call evidence ids))
              t
              (grounded_result-IsGrounded d g retrieved (citations_of a schema call evidence ids)
                (citations_nonempty evidence ids
                  (invalid_draft g.draft.supported (citations_valid a schema call evidence ids) e))
                (citations_of-All evidence ids h)))

    give_up-IsSound : (n : ℕ) → Sound t (give_up a schema call n t)
    unfolding give_up
    give_up-IsSound n =
        elim (write_trace-cases a schema call (unavailable_trace a schema call n) t) [
          | inr (e, w) ↦ rw w (fails_clean a schema call t e)
          | inl w ↦ rw w (record {
            knowledge = refl;
            cache = λ c. c;
            new = row_of a schema call (unavailable_trace a schema call n) ∷ [];
            appended = refl;
            short = omega arith;
            told = λ r h. cc;
          })
        ]

    conclude_local-IsSound :
        (evidence : List RetrievalHit) (g : Generation)
        → All IsEvidence evidence
        → Sound t (conclude_local a schema call evidence g t)
    unfolding conclude_local
    conclude_local-IsSound evidence (generated g) h = conclude-IsSound evidence true g h
    conclude_local-IsSound evidence refusal h = fails_clean a schema call t value_error
    conclude_local-IsSound evidence unavailable h = fails_clean a schema call t value_error
    conclude_local-IsSound evidence invalid h = fails_clean a schema call t value_error

    fall_back-IsSound :
        (hit : RetrievalHit) (hits : List RetrievalHit)
        → All IsEvidence (hit ∷ hits)
        → Sound t (fall_back a schema call hit hits t)
    unfolding fall_back
    fall_back-IsSound hit hits h =
        if-IsSound call.allow_degraded
          (conclude_local a schema call (hit ∷ hits) (
            generate_extractive a.services.unicode a.uuid_text call.duration_ms call.question hit
              (a.uuid_text call.request_id)))
          (give_up a schema call (length (hit ∷ hits)))
          (λ e. conclude_local-IsSound (hit ∷ hits) _ h)
          (λ e. give_up-IsSound (length (hit ∷ hits)))

    conclude_generation-IsSound :
        (hit : RetrievalHit) (hits : List RetrievalHit) (g : Generation)
        → All IsEvidence (hit ∷ hits)
        → Sound t (conclude_generation a schema call hit hits g t)
    unfolding conclude_generation
    conclude_generation-IsSound hit hits (generated g) h = conclude-IsSound (hit ∷ hits) false g h
    conclude_generation-IsSound hit hits refusal h =
        refuse-IsSound (refusal_trace a schema call (length (hit ∷ hits))) t
    conclude_generation-IsSound hit hits unavailable h = fall_back-IsSound hit hits h
    conclude_generation-IsSound hit hits invalid h = fails_clean a schema call t value_error

    answer_from-IsSound :
        (hits evidence : List RetrievalHit)
        → All IsEvidence evidence
        → Sound t (answer_from a schema call hits evidence t)
    unfolding answer_from
    answer_from-IsSound hits [] h = refuse-IsSound (refusal_trace a schema call (length hits)) t
    answer_from-IsSound hits (hit ∷ evidence) h =
        elim (Result-cases
          (enforce_daily_budget schema (principal_of a schema call) call t.traces)) [
            | inl (x, e) ↦ rw e (conclude_generation-IsSound hit evidence _ h)
            | inr (f, e) ↦ rw e (fails_clean a schema call t f)
          ]

    evidence_of-IsEvidence :
        (hits : List RetrievalHit)
        → All (IsAuthorized t.knowledge (principal_of a schema call) call.metadata_filter) hits
        → All IsEvidence (evidence_of a schema call hits)
    unfolding evidence_of
    evidence_of-IsEvidence hits h = All-sort_by IsEvidence (evidence_before a schema call) _ (
        All-select IsEvidence (evidence_is_sufficient a schema call) hits (
          All-weaken (IsAuthorized t.knowledge (principal_of a schema call) call.metadata_filter)
            IsEvidence hits
            (λ hit (r, i, e, _, _). record {
              chunk = r.chunk;
              document = r.document;
              stored = (i.stored, i.allowed.stored);
              identified = sym e;
              of_document = i.of_document;
              active = i.allowed.active;
              permitted = i.allowed.permitted;
            })
            h))

    question : Question
    question = record {
      actor_subject = call.actor_subject;
      query = call.question;
      mode = hybrid;
      limit = 8;
      metadata_filter = call.metadata_filter;
    }

    pub retrieve_and_answer-IsSound : Sound t (retrieve_and_answer a schema call t)
    unfolding retrieve_and_answer question principal_of
    retrieve_and_answer-IsSound =
        elim (Result-cases (retrieve_chunks a.services a.search schema question t.knowledge)) [
          | inl (hits, e) ↦ rw e (
              answer_from-IsSound hits (evidence_of a schema call hits) (
                evidence_of-IsEvidence hits
                  (retrieve_chunks-IsAuthorized a.services a.search schema question t.knowledge
                    e).1))
          | inr (f, e) ↦ rw e (fails_clean a schema call t f)
        ]
