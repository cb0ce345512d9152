-- ===== src/Knowledge/Authorized.antt =====
-- Who may see what a retrieval finds.
use customer_data_foundation.Prelude.{
  and_true, ℕ, suc, ◌≤◌, ◌≡◌, refl, sym, Bool, true, not, ◌&&◌, List, [], ◌∷◌, Option, none, some,
  inl, inr, ok, database_error, value_error, >>=-eq-ok, guard-eq-ok, ok-injective, ◌==◌, ==→eq, leb,
  length, find, find_sound, any_of, In, All, All-append, All-select, All-take, All-map, Bool-cases,
  length-take-le,
}
use customer_data_foundation.Sql.{Digest, All-update}
use customer_data_foundation.Database.{Schema, require_current_schema}
use customer_data_foundation.Text.{Text, is_empty, strip}
use customer_data_foundation.Knowledge.Query.{lexical_query}
use customer_data_foundation.Knowledge.Store.{
  Float, Metadata, contains, Document, Chunk, Tables, Services, vector_literal, storable_metadata,
  grants,
}
use customer_data_foundation.Knowledge.Retrieval.{
  Search, Row, RetrievalHit, Combined, insert_by, sort_by, row_of, readable, joins, base_select,
  lexical_before, semantic_before, hit_before, Mode, is_lexical, is_semantic, lexical_rows,
  semantic_rows, has_chunk, set_default, add_lexical, add_semantic, new_hit, fuse, first_vector,
  Question, retrieve_chunks,
}

All-insert_by :
    {A : Type 0} (P : A → Type 0) (before : A → A → Bool) (x : A) (xs : List A)
    → P x
    → All P xs
    → All P (insert_by before x xs)
unfolding insert_by
All-insert_by P before x [] p h = (p, tt)
All-insert_by P before x (y ∷ ys) p h = elim (Bool-cases (before y x)) [
  | inl e ↦ rw e (h.0, All-insert_by P before x ys p h.1)
  | inr e ↦ rw e (p, h)
]

pub All-sort_by :
    {A : Type 0} (P : A → Type 0) (before : A → A → Bool) (xs : List A)
    → All P xs
    → All P (sort_by before xs)
unfolding sort_by
All-sort_by P before [] h = tt
All-sort_by P before (x ∷ xs) h =
    All-insert_by P before x (sort_by before xs) h.0 (All-sort_by P before xs h.1)

module _ (t : Tables) (actor : Digest) (filter : Metadata) where
  -- a document that the principal may read, and which is active and has the metadata
  pub record MayRead (d : Document) : Type 0 where
    pub stored : In d t.documents
    pub active : d.active ≡ true
    pub permitted : any_of (grants d.document_id actor) t.permissions ≡ true
    pub matching : contains d.metadata filter ≡ true

  -- a row of a chunk and its document
  pub record IsReadable (r : Row) : Type 0 where
    pub stored : In r.chunk t.chunks
    pub of_document : r.document.document_id ≡ r.chunk.document_id
    pub allowed : MayRead r.document

  -- a hit that shows such a row
  abbrev pub IsAuthorized : RetrievalHit → Type 0
  IsAuthorized h =
      (r : Row) × IsReadable r
      × (h.chunk_id ≡ r.chunk.chunk_id)
      × (h.content ≡ r.chunk.content)
      × (h.document_id ≡ r.document.document_id)

  readable-MayRead :
      (d : Document) → In d t.documents → readable t actor filter d ≡ true → MayRead d
  unfolding readable
  readable-MayRead d m h =
      let (ab, c) =
        and_true (d.active && any_of (grants d.document_id actor) t.permissions)
          (contains d.metadata filter) h in
      let (a, b) = and_true d.active (any_of (grants d.document_id actor) t.permissions) ab in
      record { stored = m; active = a; permitted = b; matching = c }

  row_of-IsReadable :
      (c : Chunk)
      → In c t.chunks
      → (o : Option Document) → find (joins t actor filter c) t.documents ≡ o
      → All IsReadable (row_of c o)
  row_of-IsReadable c m none e = tt
  row_of-IsReadable c m (some d) e =
      let (i, h) = find_sound (joins t actor filter c) t.documents e in
      let (same, allowed) =
        and_true (d.document_id == c.document_id) (readable t actor filter d) h in
      (
        record {
          stored = m;
          of_document = ==→eq d.document_id c.document_id same;
          allowed = readable-MayRead d i allowed;
        },
        tt,
      )

  base_select-IsReadable :
      (cs : List Chunk)
      → ((c : Chunk) → In c cs → In c t.chunks)
      → All IsReadable (base_select t actor filter cs)
  unfolding base_select
  base_select-IsReadable [] h = tt
  base_select-IsReadable (c ∷ cs) h =
      All-append IsReadable _ _ (row_of-IsReadable c (h c (inl refl)) _ refl)
        (base_select-IsReadable cs (λ d m. h d (inr m)))

  module _ (q : Search) where
    lexical_rows-IsReadable :
        (mode : Mode) (query : Text) (limit : ℕ) (rows : List Row) {found : List Row}
        → All IsReadable rows
        → lexical_rows q mode query filter limit rows ≡ ok found
        → All IsReadable found
    unfolding lexical_rows
    lexical_rows-IsReadable mode query limit rows h k =
        elim (Bool-cases (is_lexical mode && not (is_empty query))) [
          | inl e ↦
              let (_, g) = guard-eq-ok (storable_metadata filter) database_error _ (rw e at k) in
              rw (← ok-injective g) (
                All-take IsReadable _ _ (
                  All-sort_by IsReadable (lexical_before q query) _
                    (All-select IsReadable (λ (r : Row). q.matches r.chunk.content query) rows h)))
          | inr e ↦ rw (← ok-injective (rw e at k)) tt
        ]

    semantic_rows-IsReadable :
        (mode : Mode) (vector : List Float) (limit : ℕ) (rows : List Row) {found : List Row}
        → All IsReadable rows
        → semantic_rows q mode vector filter limit rows ≡ ok found
        → All IsReadable found
    unfolding semantic_rows
    semantic_rows-IsReadable mode vector limit rows h k = elim (Bool-cases (is_semantic mode)) [
      | inl e ↦
          let (_, g) = guard-eq-ok (storable_metadata filter) database_error _ (rw e at k) in
          rw (← ok-injective g)
            (All-take IsReadable _ _ (All-sort_by IsReadable (semantic_before q vector) rows h))
      | inr e ↦ rw (← ok-injective (rw e at k)) tt
    ]

    abbrev OfRow : Combined → Type 0
    OfRow e = IsReadable e.row

    set_default-OfRow :
        (e : Combined) (es : List Combined)
        → OfRow e
        → All OfRow es
        → All OfRow (set_default q e es)
    unfolding set_default
    set_default-OfRow e es p h = elim (Bool-cases (any_of (has_chunk q e.row.chunk.chunk_id) es)) [
      | inl f ↦ rw f h
      | inr f ↦ rw f (All-append OfRow es _ h (p, tt))
    ]

    add_lexical-OfRow :
        (query : Text) (rank : ℕ) (rs : List Row) (es : List Combined)
        → All IsReadable rs
        → All OfRow es
        → All OfRow (add_lexical q query rank rs es)
    unfolding add_lexical
    add_lexical-OfRow query rank [] es h k = k
    add_lexical-OfRow query rank (r ∷ rs) es h k = add_lexical-OfRow query (suc rank) rs _ h.1 (
        All-update OfRow (has_chunk q r.chunk.chunk_id) _ _ (λ e m f p. p)
          (set_default-OfRow _ es h.0 k))

    add_semantic-OfRow :
        (vector : List Float) (rank : ℕ) (rs : List Row) (es : List Combined)
        → All IsReadable rs
        → All OfRow es
        → All OfRow (add_semantic q vector rank rs es)
    unfolding add_semantic
    add_semantic-OfRow vector rank [] es h k = k
    add_semantic-OfRow vector rank (r ∷ rs) es h k = add_semantic-OfRow vector (suc rank) rs _ h.1 (
        All-update OfRow (has_chunk q r.chunk.chunk_id) _ _ (λ e m f p. p)
          (set_default-OfRow _ es h.0 k))

    new_hit-IsAuthorized : (e : Combined) → OfRow e → IsAuthorized (new_hit q e)
    unfolding new_hit
    new_hit-IsAuthorized e p = (e.row, p, refl, refl, sym p.of_document)

    fuse-IsAuthorized :
        (query : Text) (vector : List Float) (limit : ℕ) (ls rs : List Row)
        → All IsReadable ls
        → All IsReadable rs
        → (length (fuse q query vector limit ls rs) ≤ limit)
          × All IsAuthorized (fuse q query vector limit ls rs)
    unfolding fuse
    fuse-IsAuthorized query vector limit ls rs h k = (
      length-take-le limit _,
      All-take IsAuthorized limit _ (
          All-sort_by IsAuthorized (hit_before q) _ (
            All-map OfRow IsAuthorized (new_hit q) _ new_hit-IsAuthorized
              (add_semantic-OfRow vector 1 rs _ k (add_lexical-OfRow query 1 ls [] h tt)))),
    )

-- Every hit of a retrieval is a stored chunk of an active document that the asking principal has a
-- permission for and whose metadata contain the filter, and there are at most as many as asked for.
pub retrieve_chunks-IsAuthorized :
    (s : Services) (q : Search) (schema : Schema) (ask : Question) (t : Tables)
    {hits : List RetrievalHit}
    → retrieve_chunks s q schema ask t ≡ ok hits
    → (length hits ≤ ask.limit)
      × All (IsAuthorized t (s.principal ask.actor_subject) ask.metadata_filter) hits
unfolding retrieve_chunks
retrieve_chunks-IsAuthorized s q schema ask t h =
    let actor = s.principal ask.actor_subject in
    let rows = base_select t actor ask.metadata_filter t.chunks in
    let readable = base_select-IsReadable t actor ask.metadata_filter t.chunks (λ c m. m) in
    let words = lexical_query s.unicode ask.query in
    let (_, h1) =
      guard-eq-ok
        (not (is_empty (strip s.unicode ask.query)) && leb 1 ask.limit && leb ask.limit 20)
        value_error _ h in
    let (vectors, _, h2) = >>=-eq-ok (s.provider.embed (ask.query ∷ [])) _ h1 in
    let (first, _, h3) = >>=-eq-ok (first_vector vectors) _ h2 in
    let (vector, _, h4) = >>=-eq-ok (vector_literal s first) _ h3 in
    let (_, _, h5) = >>=-eq-ok (require_current_schema schema) _ h4 in
    let (ls, l, h6) =
      >>=-eq-ok (lexical_rows q ask.mode words ask.metadata_filter ask.limit rows) _ h5 in
    let (rs, r, h7) =
      >>=-eq-ok (semantic_rows q ask.mode vector ask.metadata_filter ask.limit rows) _ h6 in
    rw (← ok-injective h7) (
      fuse-IsAuthorized t actor ask.metadata_filter q words vector ask.limit ls rs
        (lexical_rows-IsReadable t actor ask.metadata_filter q ask.mode words ask.limit rows
          readable l)
        (semantic_rows-IsReadable t actor ask.metadata_filter q ask.mode vector ask.limit rows
          readable r))
