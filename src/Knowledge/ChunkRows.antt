-- ===== src/Knowledge/ChunkRows.antt =====
-- The chunks that an ingestion inserts.
use customer_data_foundation.Prelude.{
  not-true, ℕ, ◌+◌, ◌≡◌, refl, sym, ap, ◌∙◌, not, ◌&&◌, List, [], ◌∷◌, ◌++◌, map, ok,
  database_error, >>=-eq-ok, guard-eq-ok, ok-injective, any_of, ◌==◌, All, leb, length,
}
use customer_data_foundation.Sql.{Unique, Unique-append}
use customer_data_foundation.Text.{Text}
use customer_data_foundation.Knowledge.Store.{Float, Chunk, Services, vector_literal, storable}
use customer_data_foundation.Knowledge.Ingest.{Upload, new_chunk, insert_chunk, insert_chunks}

++-assoc : (xs ys zs : List Chunk) → (xs ++ ys) ++ zs ≡ xs ++ (ys ++ zs)
++-assoc [] ys zs = refl
++-assoc (x ∷ xs) ys zs = ap (λ (l : List Chunk). x ∷ l) (++-assoc xs ys zs)

++_nil : (xs : List Chunk) → xs ++ [] ≡ xs
++_nil [] = refl
++_nil (x ∷ xs) = ap (λ (l : List Chunk). x ∷ l) (++_nil xs)

abbrev pub ChunkKey : List Chunk → Type 0
ChunkKey rows = Unique (map (λ (c : Chunk). c.chunk_id) rows)

module _ (s : Services) where
  insert_chunk-ok :
      (c : Chunk) (rows : List Chunk) {rows' : List Chunk}
      → insert_chunk s c rows ≡ ok rows'
      → (rows' ≡ rows ++ c ∷ []) × (ChunkKey rows → ChunkKey rows')
  unfolding insert_chunk
  insert_chunk-ok c rows h =
      let (_, h1) = guard-eq-ok (storable c.content) database_error _ h in
      let (_, h2) =
        guard-eq-ok (leb 1 (length c.content) && leb (length c.content) 4000) database_error _ h1 in
      let (f, h3) =
        guard-eq-ok (not (any_of (λ (r : Chunk). r.chunk_id == c.chunk_id) rows)) database_error _
          h2 in
      let (_, h4) =
        guard-eq-ok
          (not (
            any_of (λ (r : Chunk). r.document_id == c.document_id && r.chunk_index == c.chunk_index)
              rows))
          database_error _ h3 in
      let e = sym (ok-injective h4) in
      (e, λ k. rw e (Unique-append (λ (r : Chunk). r.chunk_id) rows c (not-true _ f) k))

  -- the new rows of a document: the chunks in their order
  pub record IsInserted (up : Upload) (index : ℕ) (chunks : List Text) (rows rows' : List Chunk)
      : Type 0 where
    pub news : List Chunk
    pub appended : rows' ≡ rows ++ news
    pub contents : map (λ (c : Chunk). c.content) news ≡ chunks
    pub of_document : All (λ c. c.document_id ≡ up.document_id) news
    pub key : ChunkKey rows → ChunkKey rows'

  pub insert_chunks-IsInserted :
      (up : Upload) (version index : ℕ) (chunks : List Text) (vectors : List (List Float))
      (rows : List Chunk) {rows' : List Chunk}
      → insert_chunks s up version index chunks vectors rows ≡ ok rows'
      → IsInserted up index chunks rows rows'
  unfolding insert_chunks new_chunk
  insert_chunks-IsInserted up version index [] [] rows h = record {
    news = [];
    appended = (sym (ok-injective h) ∙ sym (++_nil rows));
    contents = refl;
    of_document = tt;
    key = λ k. rw (← ok-injective h) k;
  }
  insert_chunks-IsInserted up version index [] (v ∷ vs) rows h = absurd (cc)
  insert_chunks-IsInserted up version index (c ∷ cs) [] rows h = absurd (cc)
  insert_chunks-IsInserted up version index (c ∷ cs) (v ∷ vs) rows h =
      let (embedding, _, h1) = >>=-eq-ok (vector_literal s v) _ h in
      let (mid, m, h2) =
        >>=-eq-ok (insert_chunk s (new_chunk s up version index c embedding) rows) _ h1 in
      let (e, k) = insert_chunk-ok (new_chunk s up version index c embedding) rows m in
      let rest = insert_chunks-IsInserted up version (index + 1) cs vs mid h2 in
      record {
        news = new_chunk s up version index c embedding ∷ rest.news;
        appended =
            rest.appended
            ∙ ap (λ (l : List Chunk). l ++ rest.news) e
            ∙ ++-assoc rows (_ ∷ []) rest.news;
        contents = ap (λ (l : List Text). c ∷ l) rest.contents;
        of_document = (refl, rest.of_document);
        key = λ u. rest.key (k u);
      }
