-- ===== src/Rag/Answered.antt =====
-- Every answer, also one of the cache, is grounded, and has its trace.
use customer_data_foundation.Prelude.{
  err, ◌≤◌, ◌++◌, Error, and_true, ◌≡◌, refl, sym, ap, subst, ◌∙◌, true, List, [], ◌∷◌, map, Option,
  none, some, inl, inr, arith, ok, >>=-eq-ok, ok-injective, Result-cases, All, All-In, Bool-cases,
  find, find_sound, ◌==◌, ==→eq, length,
}
use customer_data_foundation.Database.{Schema, require_current_schema}
use customer_data_foundation.Knowledge.ChunkRows.{ChunkKey}
use customer_data_foundation.Rag.Records.{
  Citation, AnswerResult, Response, CacheRow, TraceRow, Tables, Call,
}
use customer_data_foundation.Rag.Gates.{enforce_request_rate}
use customer_data_foundation.Rag.Cache.{
  lives, count_authorized, cited_chunk, is_response_status, cached_result, usable, if_usable,
  find_cached,
}
use customer_data_foundation.Rag.Cited.{IsCitable, count_authorized-IsCitable}
use customer_data_foundation.Rag.Answers.{
  Assistant, principal_of, cache_key, answer_cached, look_up, answer_question,
}
use customer_data_foundation.Rag.Outcome.{
  Fits, IsCacheRow, IsGrounded, IsSound, row_of, fails_clean, write_trace-cases,
}
use customer_data_foundation.Rag.Grounded.{Sound, IsCited, retrieve_and_answer-IsSound}

module _ (a : Assistant) (schema : Schema) (call : Call) where
  module _ (t : Tables) where
    IsUsable : Response → Type 0
    IsUsable r = IsGrounded t (principal_of a schema call) (cached_result call.request_id r)

    length_ids : (cs : List Citation) → length (map cited_chunk cs) ≡ length cs
    length_ids [] = refl
    length_ids (c ∷ cs) = omega (arith, length_ids cs)

    of_ids :
        (cs : List Citation)
        → All (IsCitable t.knowledge (principal_of a schema call)) (map cited_chunk cs)
        → All (IsCited a schema call t) cs
    of_ids [] h = tt
    of_ids (c ∷ cs) h = (h.0, of_ids cs h.1)

    usable-IsUsable :
        (r : Response)
        → ChunkKey t.knowledge.chunks
        → Fits r.status r.citations
        → usable t.knowledge (principal_of a schema call) r ≡ true
        → IsUsable r
    unfolding IsUsable usable cached_result
    usable-IsUsable r u f h =
        let counted =
          and_true
            (count_authorized t.knowledge (principal_of a schema call) (map cited_chunk r.citations)
              == length r.citations)
            (is_response_status r.status) h in
        let equal =
          ==→eq
            (count_authorized t.knowledge (principal_of a schema call)
              (map cited_chunk r.citations))
            (length r.citations) counted.0 in
        (
          f,
          of_ids r.citations (
              count_authorized-IsCitable t.knowledge (principal_of a schema call)
                (map cited_chunk r.citations) u (equal ∙ sym (length_ids r.citations))),
        )

    if_usable-IsUsable :
        (o : Option CacheRow) (r : Response)
        → find (lives call.cached_at (principal_of a schema call) (cache_key a schema call)) t.cache
          ≡ o
        → ChunkKey t.knowledge.chunks
        → All IsCacheRow t.cache
        → if_usable t.knowledge (principal_of a schema call) o ≡ some r
        → IsUsable r
    if_usable-IsUsable none r e u c h = absurd (cc)
    if_usable-IsUsable (some row) r e u c h =
        let (m, _) =
          find_sound (lives call.cached_at (principal_of a schema call) (cache_key a schema call))
            t.cache e in
        elim (Bool-cases (usable t.knowledge (principal_of a schema call) row.response)) [
          | inl y ↦
              let same : row.response ≡ r = some-injective (rw y at h) in
              subst IsUsable same (usable-IsUsable row.response u (All-In IsCacheRow t.cache c m) y)
          | inr n ↦ absurd (none_some (rw n at h))
        ]
      where
        some-injective : {x y : Response} → some x ≡ some y → x ≡ y
        some-injective h = cc

        none_some : {y : Response} → none ≡ some y → ⊥
        none_some h = cc

    look_up-IsUsable :
        (o : Option Response) (r : Response)
        → look_up a schema call t ≡ ok o
        → o ≡ some r
        → ChunkKey t.knowledge.chunks
        → All IsCacheRow t.cache
        → IsUsable r
    unfolding look_up find_cached
    look_up-IsUsable o r h s u c = elim (Bool-cases (call.cache_ttl_seconds == 0)) [
      | inl e ↦ absurd (cc (ok-injective (rw e at h), s))
      | inr e ↦
          let (_, _, g) = >>=-eq-ok (require_current_schema schema) _ (rw e at h) in
          if_usable-IsUsable _ r refl u c (ok-injective g ∙ s)
    ]

    told_of :
        (r : Response) (q : AnswerResult)
        → IsUsable r
        → cached_result call.request_id r ≡ q
        → IsGrounded t (principal_of a schema call) q
          × ((row_of a schema call (cached_result call.request_id r).trace ∷ [])
              ≡ (row_of a schema call q.trace ∷ []))
    unfolding IsUsable
    told_of r q h e = (
      subst (IsGrounded t (principal_of a schema call)) e h,
      ap (λ (x : AnswerResult). row_of a schema call x.trace ∷ []) e,
    )

    answer_cached-IsSound :
        (o : Option Response)
        → ((r : Response) → o ≡ some r → IsUsable r)
        → Sound a schema call t (answer_cached a schema call o t)
    unfolding answer_cached IsUsable
    answer_cached-IsSound none h = retrieve_and_answer-IsSound a schema call t
    answer_cached-IsSound (some r) h =
        let trace = (cached_result call.request_id r).trace in
        elim (write_trace-cases a schema call trace t) [
          | inr (e, w) ↦ rw w (fails_clean a schema call t e)
          | inl w ↦ rw w (record {
            knowledge = refl;
            cache = λ c. c;
            new = row_of a schema call trace ∷ [];
            appended = refl;
            short = omega arith;
            told = λ q e. told_of r q (h r refl) (ok-injective e);
          })
        ]

    pub answer_question-IsSound :
        ChunkKey t.knowledge.chunks
        → All IsCacheRow t.cache
        → IsSound a schema call t (answer_question a schema call t)
    unfolding answer_question
    answer_question-IsSound u c =
        elim (Result-cases
          (enforce_request_rate schema (principal_of a schema call) call t.traces)) [
            | inr (f, e) ↦ rw e (fails_clean a schema call t f)
            | inl (x, e) ↦ rw e (elim (Result-cases (look_up a schema call t)) [
              | inr (f, l) ↦ rw l (fails_clean a schema call t f)
              | inl (o, l) ↦ rw l (answer_cached-IsSound o (λ r s. look_up-IsUsable o r l s u c))
            ])
          ]

    -- Where chunks have distinct identifiers and the cache is well formed, a result that is returned,
    -- from the cache or not, cites nothing where it is a refusal and something where it is an answer;
    -- every chunk that it cites is one of an active document that the principal may read now. The call
    -- has added the one trace of the result, the knowledge is as it was, and the cache is well formed.
    pub answer_question-IsGrounded :
        {r : AnswerResult}
        → ChunkKey t.knowledge.chunks
        → All IsCacheRow t.cache
        → (answer_question a schema call t).0 ≡ ok r
        → IsGrounded t (principal_of a schema call) r
          × ((answer_question a schema call t).1.traces
              ≡ t.traces ++ row_of a schema call r.trace ∷ [])
          × ((answer_question a schema call t).1.knowledge ≡ t.knowledge)
          × All IsCacheRow (answer_question a schema call t).1.cache
    answer_question-IsGrounded {r} u c h =
        let s = answer_question-IsSound u c in
        let (g, e) = s.told r h in
        (g, s.appended ∙ ap (λ (l : List TraceRow). t.traces ++ l) e, s.knowledge, s.cache c)

    -- Where chunks have distinct identifiers and the cache is well formed, a call that ends with an
    -- exception leaves the knowledge as it was and the cache well formed, and at most one trace is new.
    pub answer_question-fails :
        {f : Error}
        → ChunkKey t.knowledge.chunks
        → All IsCacheRow t.cache
        → (answer_question a schema call t).0 ≡ err f
        → (new : List TraceRow) × ((answer_question a schema call t).1.traces ≡ t.traces ++ new)
          × (length new ≤ 1)
          × ((answer_question a schema call t).1.knowledge ≡ t.knowledge)
          × All IsCacheRow (answer_question a schema call t).1.cache
    answer_question-fails u c h =
        let s = answer_question-IsSound u c in (s.new, s.appended, s.short, s.knowledge, s.cache c)
