-- ===== src/Rag/Kept.antt =====
-- What the cache keeps: an answer that was stored is found until it expires.
use customer_data_foundation.Prelude.{
  ℕ, ◌+◌, ◌*◌, ◌≤◌, ◌<◌, ◌≡◌, refl, Bool, true, false, ◌&&◌, List, [], ◌∷◌, ◌++◌, none, some, ok,
  value_error, database_error, >>=-eq-ok, guard-eq-ok, ok-injective, arith, Bool-cases, inl, inr,
  any_of, find, ◌==◌, ==_refl, leb, ltb, if◌then◌else◌,
}
use customer_data_foundation.Sql.{Digest, Timestamp, second, update}
use customer_data_foundation.Database.{Schema, require_current_schema}
use customer_data_foundation.Knowledge.Store.{storable}
use customer_data_foundation.Rag.Records.{AnswerResult, CacheRow, Tables}
use customer_data_foundation.Rag.Cache.{
  of_key, lives, usable, find_cached, response_of, put_cached, store_cached_answer,
}

module _ (now : Timestamp) (row : CacheRow) where
  abbrev mine : CacheRow → Bool
  mine = of_key row.principal_hash row.cache_key_hash

  abbrev living : CacheRow → Bool
  living = lives now row.principal_hash row.cache_key_hash

  own : ltb now row.expires_at ≡ true → living row ≡ true
  own h =
      all_true (row.principal_hash == row.principal_hash) (row.cache_key_hash == row.cache_key_hash)
        (ltb now row.expires_at) (==_refl row.principal_hash) (==_refl row.cache_key_hash) h
    where
      all_true : (a b c : Bool) → a ≡ true → b ≡ true → c ≡ true → (a && b && c) ≡ true
      all_true a b c x y z = ground (arith, x, y, z)

  not_living : (r : CacheRow) → mine r ≡ false → living r ≡ false
  not_living r h = first_false (mine r) (ltb now r.expires_at) h
    where
      first_false : (a b : Bool) → a ≡ false → (a && b) ≡ false
      first_false a b h = ground (arith, h)

  find-update_own :
      (rows : List CacheRow)
      → ltb now row.expires_at ≡ true
      → any_of mine rows ≡ true
      → find living (update mine (λ (r : CacheRow). row) rows) ≡ some row
  unfolding update
  find-update_own [] h k = absurd (ground (arith, k))
  find-update_own (r ∷ rows) h k = elim (Bool-cases (mine r)) [
    | inl e ↦ rw (e, own h) refl
    | inr e ↦ rw (e, not_living r e) (find-update_own rows h (rw e at k))
  ]

  find-append_own :
      (rows : List CacheRow)
      → ltb now row.expires_at ≡ true
      → any_of mine rows ≡ false
      → find living (rows ++ row ∷ []) ≡ some row
  find-append_own [] h k = rw (own h) refl
  find-append_own (r ∷ rows) h k = elim (Bool-cases (mine r)) [
    | inl e ↦ absurd (ground (arith, rw e at k))
    | inr e ↦ rw (not_living r e) (find-append_own rows h (rw e at k))
  ]

  find-put_cached :
      (rows : List CacheRow)
      → ltb now row.expires_at ≡ true
      → find living (put_cached row rows) ≡ some row
  unfolding put_cached
  find-put_cached rows h = elim (Bool-cases (any_of mine rows)) [
    | inl e ↦ rw e (find-update_own rows h e)
    | inr e ↦ rw e (find-append_own rows h e)
  ]

-- An answer that was stored for some seconds is what a look-up of its principal and its key finds
-- before they are over, if its citations are authorized then.
pub store_cached_answer-find_cached :
    (schema : Schema) (stored_at now : Timestamp) (ttl : ℕ) (principal key : Digest)
    (result : AnswerResult) (t : Tables) {x : Unit × Tables}
    → 1 ≤ ttl
    → now < stored_at + ttl * second
    → store_cached_answer schema stored_at ttl principal key result t ≡ ok x
    → find_cached schema principal key now x.1
      ≡ ok (
          if usable t.knowledge principal (response_of result)
          then some (response_of result)
          else none)
unfolding store_cached_answer find_cached
store_cached_answer-find_cached schema stored_at now ttl principal key result t p l h =
    elim (Bool-cases (ttl == 0)) [
      | inl e ↦ absurd (ground (arith, e, p))
      | inr e ↦
          let (_, h1) = guard-eq-ok (leb 1 ttl && leb ttl 86_400) value_error _ (rw e at h) in
          let (_, s, h2) = >>=-eq-ok (require_current_schema schema) _ h1 in
          let (_, h3) =
            guard-eq-ok (storable result.answer && storable result.trace.model) database_error _
              h2 in
          let row : CacheRow = record {
            principal_hash = principal;
            cache_key_hash = key;
            response = response_of result;
            expires_at = stored_at + ttl * second;
            created_at = stored_at;
          } in
          rw (s, ← ok-injective h3, find-put_cached now row t.cache (ground (arith, l))) refl
    ]
