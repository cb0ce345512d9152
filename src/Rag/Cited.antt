-- ===== src/Rag/Cited.antt =====
-- The count of the authorized citations: it is their number only if each of them is authorized.
use customer_data_foundation.Prelude.{
  and_true, ◌+◌, ◌≤◌, ◌≡◌, refl, subst, Bool, true, false, ◌&&◌, ◌||◌, List, [], ◌∷◌, map, inl, inr,
  arith, In, All, Bool-cases, ◌==◌, ==→eq, length, any_of, select, if◌then◌else◌,
}
use customer_data_foundation.Sql.{Uuid, Digest, any_of-In}
use customer_data_foundation.Knowledge.Store.{Document, Chunk, Tables, grants}
use customer_data_foundation.Knowledge.ChunkRows.{ChunkKey}
use customer_data_foundation.Rag.Cache.{citable, one_of, count_authorized}

module _ (k : Tables) (principal : Digest) where
  -- a stored chunk of an active document that the principal has a permission for
  pub record IsCitable (id : Uuid) : Type 0 where
    pub chunk : Chunk
    pub document : Document
    pub stored : In chunk k.chunks × In document k.documents
    pub identified : chunk.chunk_id ≡ id
    pub of_document : document.document_id ≡ chunk.document_id
    pub active : document.active ≡ true
    pub permitted : any_of (grants document.document_id principal) k.permissions ≡ true

  citable-IsCitable :
      (c : Chunk) → In c k.chunks → citable k principal c ≡ true → IsCitable c.chunk_id
  unfolding citable
  citable-IsCitable c m h =
      let (d, i, e) =
        any_of-In
          (λ (d : Document).
            d.document_id == c.document_id
            && d.active
            && any_of (grants d.document_id principal) k.permissions)
          k.documents h in
      let (sa, p) =
        and_true (d.document_id == c.document_id && d.active)
          (any_of (grants d.document_id principal) k.permissions) e in
      let (s, a) = and_true (d.document_id == c.document_id) d.active sa in
      record {
        chunk = c;
        document = d;
        stored = (m, i);
        identified = refl;
        of_document = ==→eq d.document_id c.document_id s;
        active = a;
        permitted = p;
      }

  abbrev with_id : Uuid → Chunk → Bool
  with_id id c = c.chunk_id == id && citable k principal c

  abbrev with_one_of : List Uuid → Chunk → Bool
  with_one_of ids c = one_of ids c.chunk_id && citable k principal c

  no_more_with_id :
      (id : Uuid) (cs : List Chunk)
      → All (λ j. j ≡ id → ⊥) (map (λ (c : Chunk). c.chunk_id) cs)
      → length (select (with_id id) cs) ≡ 0
  no_more_with_id id [] h = refl
  no_more_with_id id (c ∷ cs) h = elim (Bool-cases (with_id id c)) [
    | inl e ↦
        absurd (h.0 (==→eq c.chunk_id id (and_true (c.chunk_id == id) (citable k principal c) e).0))
    | inr e ↦ rw e (no_more_with_id id cs h.1)
  ]

  at_most_one : (id : Uuid) (cs : List Chunk) → ChunkKey cs → length (select (with_id id) cs) ≤ 1
  at_most_one id [] u = omega arith
  at_most_one id (c ∷ cs) u = elim (Bool-cases (with_id id c)) [
    | inl e ↦
        let same = ==→eq c.chunk_id id (and_true (c.chunk_id == id) (citable k principal c) e).0 in
        rw e (
          omega (
            arith,
            no_more_with_id id cs (
                subst (λ (i : Uuid). All (λ j. j ≡ i → ⊥) (map (λ (c : Chunk). c.chunk_id) cs)) same
                  u.0),
          ))
    | inr e ↦ rw e (at_most_one id cs u.1)
  ]

  pick :
      (a b y : Bool) (c : Chunk) (ls ms ns : List Chunk)
      → length ls ≤ length ms + length ns
      → length (if (a || b) && y then c ∷ ls else ls)
        ≤ length (if a && y then c ∷ ms else ms) + length (if b && y then c ∷ ns else ns)
  pick true true true c ls ms ns h = omega (arith, h)
  pick true false true c ls ms ns h = omega (arith, h)
  pick false true true c ls ms ns h = omega (arith, h)
  pick false false true c ls ms ns h = h
  pick true true false c ls ms ns h = h
  pick true false false c ls ms ns h = h
  pick false true false c ls ms ns h = h
  pick false false false c ls ms ns h = h

  none_of : (cs : List Chunk) → length (select (with_one_of []) cs) ≡ 0
  none_of [] = refl
  none_of (c ∷ cs) = none_of cs

  count_cons :
      (id : Uuid) (ids : List Uuid) (cs : List Chunk)
      → length (select (with_one_of (id ∷ ids)) cs)
        ≤ length (select (with_id id) cs) + length (select (with_one_of ids) cs)
  count_cons id ids [] = omega arith
  count_cons id ids (c ∷ cs) =
      pick (c.chunk_id == id) (one_of ids c.chunk_id) (citable k principal c) c
        (select (with_one_of (id ∷ ids)) cs) (select (with_id id) cs) (select (with_one_of ids) cs)
        (count_cons id ids cs)

  count_le : (ids : List Uuid) → ChunkKey k.chunks → count_authorized k principal ids ≤ length ids
  unfolding count_authorized
  count_le [] u = omega (arith, none_of k.chunks)
  count_le (id ∷ ids) u =
      omega (arith, count_cons id ids k.chunks, at_most_one id k.chunks u, count_le ids u)

  found_one :
      (id : Uuid) (cs : List Chunk)
      → ((c : Chunk) → In c cs → In c k.chunks)
      → 1 ≤ length (select (with_id id) cs)
      → IsCitable id
  found_one id [] m h = absurd (omega (arith, h))
  found_one id (c ∷ cs) m h = elim (Bool-cases (with_id id c)) [
    | inl e ↦
        let (s, y) = and_true (c.chunk_id == id) (citable k principal c) e in
        subst IsCitable (==→eq c.chunk_id id s) (citable-IsCitable c (m c (inl refl)) y)
    | inr e ↦ found_one id cs (λ d i. m d (inr i)) (rw e at h)
  ]

  -- a full count finds each of them
  pub count_authorized-IsCitable :
      (ids : List Uuid)
      → ChunkKey k.chunks
      → count_authorized k principal ids ≡ length ids
      → All IsCitable ids
  unfolding count_authorized
  count_authorized-IsCitable [] u h = tt
  count_authorized-IsCitable (id ∷ ids) u h =
      let cons = count_cons id ids k.chunks in
      let one = at_most_one id k.chunks u in
      let rest = count_le ids u in
      (
        found_one id k.chunks (λ c m. m) (omega (arith, cons, rest, h)),
        count_authorized-IsCitable ids u (omega (arith, cons, one, rest, h)),
      )
