-- ===== src/Knowledge/Validity.antt =====
-- What holds of the tables of knowledge, and that an ingestion keeps it.
use customer_data_foundation.Prelude.{
  not-true, ℕ, ◌≡◌, refl, sym, subst, ◌∙◌, Bool, true, false, not, ◌&&◌, List, [], ◌∷◌, ◌++◌,
  Option, none, some, ◌⊎◌, inl, inr, ok, database_error, >>=-eq-ok, guard-eq-ok, ok-injective,
  any_of, find_sound, In, All-In, ◌==◌, ==_refl, Bool-cases,
}
use customer_data_foundation.Sql.{Uuid, Digest, any_of-update, In-append_last, In-any_of}
use customer_data_foundation.Database.{Schema, require_current_schema}
use customer_data_foundation.Text.{Text}
use customer_data_foundation.Knowledge.Chunks.{chunk_text}
use customer_data_foundation.Knowledge.Store.{
  Float, Document, Permission, Chunk, Tables, Services, storable, storable_metadata, deactivate,
}
use customer_data_foundation.Knowledge.Ingest.{
  Upload, Placed, DocumentRecord, active_of, new_document, next_documents, next_version,
  insert_chunks, safe_metadata, store_version, place_document, reader_hashes, permit, find_content,
  ingest_document,
}
use customer_data_foundation.Knowledge.Versions.{IsVersioned, next_documents-IsVersioned}
use customer_data_foundation.Knowledge.Readers.{
  PermissionKey, grant_all-IsGranted, grant_all-PermissionKey, FromGrant,
}
use customer_data_foundation.Knowledge.ChunkRows.{ChunkKey, IsInserted, insert_chunks-IsInserted}

-- REFERENCES knowledge_documents
abbrev pub Known : Uuid → List Document → Type 0
Known id ds = any_of (λ (d : Document). d.document_id == id) ds ≡ true

pub record IsValid (t : Tables) : Type 0 where
  pub versions : IsVersioned t.documents
  pub chunk_key : ChunkKey t.chunks
  pub permission_key : PermissionKey t.permissions
  pub chunk_documents : (c : Chunk) → In c t.chunks → Known c.document_id t.documents
  pub permission_documents : (p : Permission) → In p t.permissions → Known p.document_id t.documents

append_cases : (rows news : List Chunk) (c : Chunk) → In c (rows ++ news) → In c rows ⊎ In c news
append_cases [] news c m = inr m
append_cases (r ∷ rows) news c (inl e) = inl (inl e)
append_cases (r ∷ rows) news c (inr m) = elim (append_cases rows news c m) [
  | inl i ↦ inl (inr i)
  | inr i ↦ inr i
]

any_of-append_left :
    (test : Document → Bool) (xs ys : List Document)
    → any_of test xs ≡ true
    → any_of test (xs ++ ys) ≡ true
any_of-append_left test [] ys h = absurd (cc)
any_of-append_left test (x ∷ xs) ys h = elim (Bool-cases (test x)) [
  | inl e ↦ rw e
  | inr e ↦ rw e (any_of-append_left test xs ys (rw e at h))
]

-- the rows of the documents and the chunks after the placing
pub record IsPlaced (t : Tables) (p : Placed) : Type 0 where
  pub versions : IsVersioned t.documents → IsVersioned p.documents
  pub chunk_key : ChunkKey t.chunks → ChunkKey p.chunks
  pub chunk_origin : (c : Chunk) → In c p.chunks → In c t.chunks ⊎ (c.document_id ≡ p.document_id)
  pub known : (id : Uuid) → Known id t.documents → Known id p.documents
  pub present : Known p.document_id p.documents

module _ (s : Services) (up : Upload) where
  chunk_origin_of :
      (index : ℕ) (chunks : List Text) (rows rows' : List Chunk)
      → IsInserted s up index chunks rows rows'
      → (c : Chunk) → In c rows'
      → In c rows ⊎ (c.document_id ≡ up.document_id)
  chunk_origin_of index chunks rows rows' i c m =
      elim (append_cases rows i.news c (subst (In c) i.appended m)) [
        | inl j ↦ inl j
        | inr j ↦
            inr (All-In (λ (c : Chunk). c.document_id ≡ up.document_id) i.news i.of_document j)
      ]

  -- the guards that a new version has passed, and its rows
  pub store_version-eq-ok :
      (chunks : List Text) (vectors : List (List Float)) (t : Tables) {p : Placed}
      → store_version s up chunks vectors t ≡ ok p
      → (rows : List Chunk) × (any_of
            (λ (d : Document). d.document_id == up.document_id)
            t.documents
          ≡ false)
        × IsInserted s up 0 chunks t.chunks rows
        × (p ≡ record {
          document_id = up.document_id;
          version = next_version s up t.documents;
          documents = next_documents s up (next_version s up t.documents) t.documents;
          chunks = rows;
          reused = false;
        })
  unfolding store_version
  store_version-eq-ok chunks vectors t h =
      let (_, h1) =
        guard-eq-ok (storable up.title && storable_metadata (safe_metadata s up)) database_error _
          h in
      let (fresh, h2) =
        guard-eq-ok (not (any_of (λ (d : Document). d.document_id == up.document_id) t.documents))
          database_error _ h1 in
      let (rows, m, h3) =
        >>=-eq-ok (insert_chunks s up (next_version s up t.documents) 0 chunks vectors t.chunks) _
          h2 in
      (
        rows,
        not-true _ fresh,
        insert_chunks-IsInserted s up (next_version s up t.documents) 0 chunks vectors t.chunks m,
        sym (ok-injective h3),
      )

  next_documents-Known :
      (version : ℕ) (ds : List Document) (id : Uuid)
      → Known id ds
      → Known id (next_documents s up version ds)
  unfolding next_documents
  next_documents-Known version ds id k =
      any_of-append_left (λ (d : Document). d.document_id == id) _ _
        (any_of-update (λ (d : Document). d.document_id == id)
            (active_of (s.principal up.actor_subject) up.source_uri) deactivate ds (λ r. refl)
          ∙ k)

  next_documents-present :
      (version : ℕ) (ds : List Document) → Known up.document_id (next_documents s up version ds)
  unfolding next_documents new_document
  next_documents-present version ds =
      In-any_of (λ (d : Document). d.document_id == up.document_id) _ (In-append_last _ _)
        (==_refl up.document_id)

  store_version-IsPlaced :
      (chunks : List Text) (vectors : List (List Float)) (t : Tables) {p : Placed}
      → store_version s up chunks vectors t ≡ ok p
      → IsPlaced t p
  store_version-IsPlaced chunks vectors t h =
      let (rows, fresh, i, e) = store_version-eq-ok chunks vectors t h in
      subst (IsPlaced t) (sym e) (record {
        versions = next_documents-IsVersioned s up t.documents fresh;
        chunk_key = i.key;
        chunk_origin = chunk_origin_of 0 chunks t.chunks rows i;
        known = next_documents-Known (next_version s up t.documents) t.documents;
        present = next_documents-present (next_version s up t.documents) t.documents;
      })

  place_document-IsPlaced :
      (chunks : List Text) (vectors : List (List Float)) (t : Tables) {p : Placed}
      (o : Option Document)
      → find_content s up t.documents ≡ o
      → place_document s up chunks vectors t o ≡ ok p
      → IsPlaced t p
  unfolding place_document find_content
  place_document-IsPlaced chunks vectors t none found h = store_version-IsPlaced chunks vectors t h
  place_document-IsPlaced chunks vectors t (some d) found h =
      subst (IsPlaced t) (ok-injective h) (record {
        versions = λ v. v;
        chunk_key = λ k. k;
        chunk_origin = λ c m. inl m;
        known = λ id k. k;
        present =
            In-any_of (λ (e : Document). e.document_id == d.document_id) t.documents
              (find_sound _ t.documents found).0 (==_refl d.document_id);
      })

  permission_document :
      (rs : List Digest) {t : Tables} {p : Placed}
      → IsPlaced t p
      → IsValid t
      → (q : Permission)
      → FromGrant up.now p.document_id (s.principal up.actor_subject) rs t.permissions q
      → Known q.document_id p.documents
  permission_document rs i v q (inl m) = i.known q.document_id (v.permission_documents q m)
  permission_document rs i v q (inr (e, _, _)) = rw e i.present

  permit-IsValid :
      (chunks : List Text) (t : Tables) (p : Placed)
      → IsPlaced t p
      → IsValid t
      → IsValid (permit s up chunks t p).1
  unfolding permit
  permit-IsValid chunks t p i v =
      let g =
        grant_all-IsGranted up.now p.document_id (s.principal up.actor_subject) (reader_hashes s up)
          t.permissions in
      record {
        versions = i.versions v.versions;
        chunk_key = i.chunk_key v.chunk_key;
        permission_key =
            grant_all-PermissionKey up.now p.document_id (s.principal up.actor_subject)
              (reader_hashes s up) t.permissions v.permission_key;
        chunk_documents = λ c m. elim (i.chunk_origin c m) [
          | inl j ↦ i.known c.document_id (v.chunk_documents c j)
          | inr e ↦ rw e i.present
        ];
        permission_documents =
            λ q m. permission_document (reader_hashes s up) i v q (g.no_more q m);
      }

  -- what a successful call has computed
  pub ingest_document-eq-ok :
      (schema : Schema) (t : Tables) {r : DocumentRecord × Tables}
      → ingest_document s schema up t ≡ ok r
      → (chunks : List Text) × (vectors : List (List Float)) × (p : Placed) × (chunk_text s.unicode
            up.content
          ≡ ok chunks)
        × (s.provider.embed chunks ≡ ok vectors)
        × (place_document s up chunks vectors t (find_content s up t.documents) ≡ ok p)
        × (permit s up chunks t p ≡ r)
  unfolding ingest_document
  ingest_document-eq-ok schema t h =
      let (chunks, c, h1) = >>=-eq-ok (chunk_text s.unicode up.content) _ h in
      let (vectors, v, h2) = >>=-eq-ok (s.provider.embed chunks) _ h1 in
      let (_, _, h3) = >>=-eq-ok (require_current_schema schema) _ h2 in
      let (_, h4) = guard-eq-ok (storable up.source_uri) database_error _ h3 in
      let (p, m, h5) =
        >>=-eq-ok (place_document s up chunks vectors t (find_content s up t.documents)) _ h4 in
      (chunks, vectors, p, c, v, m, ok-injective h5)

-- An ingestion keeps the tables valid: the versions of a source are distinct and only the latest of
-- them may be active, chunks and permissions have their keys, and all of them belong to documents.
pub ingest_document-IsValid :
    (s : Services) (schema : Schema) (up : Upload) (t : Tables) {record' : DocumentRecord}
    {t' : Tables}
    → IsValid t
    → ingest_document s schema up t ≡ ok (record', t')
    → IsValid t'
ingest_document-IsValid s schema up t v h =
    let (chunks, vectors, p, _, _, m, e) = ingest_document-eq-ok s up schema t h in
    subst (λ (r : DocumentRecord × Tables). IsValid r.1) e
      (permit-IsValid s up chunks t p
        (place_document-IsPlaced s up chunks vectors t (find_content s up t.documents) refl m) v)
