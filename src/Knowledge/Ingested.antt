-- ===== src/Knowledge/Ingested.antt =====
-- What an ingestion achieves: a new version of a source, or the version that had the content.
use customer_data_foundation.Prelude.{
  ℕ, ◌≡◌, ◌<◌, refl, sym, ap, subst, ◌∙◌, true, false, List, ◌++◌, map, none, ◌⊎◌, inl, inr, ok,
  Bool-cases, In, All, ok-injective, [], ◌∷◌, some, find_sound, and_true, ◌==◌, ==→eq, ==_refl,
  Option-cases,
}
use customer_data_foundation.Sql.{In-append_last}
use customer_data_foundation.Database.{Schema}
use customer_data_foundation.Knowledge.Chunks.{chunk_text}
use customer_data_foundation.Knowledge.Store.{Document, Chunk, Tables, Services, of_source}
use customer_data_foundation.Knowledge.Ingest.{
  Upload, DocumentRecord, Placed, new_document, next_documents, next_version, place_document,
  reader_hashes, permit, find_content, same_content, ingest_document,
}
use customer_data_foundation.Knowledge.Versions.{
  SameSource, of_source_sound, of_source_complete, Old, Old-inactive, lt-new_document,
  next_documents_rows,
}
use customer_data_foundation.Knowledge.Readers.{IsGranted, grant_all-IsGranted}
use customer_data_foundation.Text.{Text}
use customer_data_foundation.Knowledge.ChunkRows.{IsInserted}
use customer_data_foundation.Knowledge.Validity.{ingest_document-eq-ok, store_version-eq-ok}

-- the new version is the active one of its source, and the highest; its chunks are the content's
pub record IsPublished (s : Services) (up : Upload) (t : Tables) (r : DocumentRecord) (t' : Tables)
    : Type 0 where
  pub document : Document
  pub stored : In document t'.documents
  pub identified : (document.document_id ≡ r.document_id) × (document.version ≡ r.version)
  pub described :
      (document.created_by_hash ≡ s.principal up.actor_subject)
      × (document.source_uri ≡ up.source_uri)
      × (document.title ≡ up.title)
      × (document.content_sha256 ≡ s.sha256 up.content)
  pub active : document.active ≡ true
  pub only :
      (e : Document)
      → In e t'.documents
      → SameSource e document
      → (e ≡ document) ⊎ ((e.active ≡ false) × (e.version < document.version))
  pub news : List Chunk
  pub appended : t'.chunks ≡ t.chunks ++ news
  pub whole : chunk_text s.unicode up.content ≡ ok (map (λ (c : Chunk). c.content) news)
  pub of_document : All (λ c. c.document_id ≡ r.document_id) news

module _ (s : Services) (up : Upload) where
  only_active :
      (ds : List Document) (d e : Document)
      → d ≡ new_document s up (next_version s up ds)
      → Old s up ds e ⊎ (e ≡ new_document s up (next_version s up ds))
      → SameSource e d
      → (e ≡ d) ⊎ ((e.active ≡ false) × (e.version < d.version))
  only_active ds d e n (inr m) same = inl (m ∙ sym n)
  only_active ds d e n (inl o) same = inr (
    elim (Bool-cases e.active) [ inl a ↦ absurd (Old-inactive s up ds e d o n same a) | inr f ↦ f ],
    lt-new_document s up ds e d o n same,
  )

  abbrev placed_new : Tables → List Chunk → Placed
  placed_new t rows = record {
    document_id = up.document_id;
    version = next_version s up t.documents;
    documents = next_documents s up (next_version s up t.documents) t.documents;
    chunks = rows;
    reused = false;
  }

  new_document-In :
      (version : ℕ) (ds : List Document)
      → In (new_document s up version) (next_documents s up version ds)
  unfolding next_documents
  new_document-In version ds = In-append_last _ _

  placed_new-IsPublished :
      (chunks : List Text) (t : Tables) (rows : List Chunk)
      → chunk_text s.unicode up.content ≡ ok chunks
      → IsInserted s up 0 chunks t.chunks rows
      → IsPublished s up t
          (permit s up chunks t (placed_new t rows)).0
          (permit s up chunks t (placed_new t rows)).1
  unfolding permit new_document
  placed_new-IsPublished chunks t rows c i = record {
    document = new_document s up (next_version s up t.documents);
    stored = new_document-In (next_version s up t.documents) t.documents;
    identified = (refl, refl);
    described = (refl, refl, refl, refl);
    active = refl;
    only = λ e m same.
        only_active t.documents (new_document s up (next_version s up t.documents)) e refl
          (next_documents_rows s up t.documents e (next_version s up t.documents) m) same;
    news = i.news;
    appended = i.appended;
    whole = c ∙ ap (λ (l : List Text). ok l) (sym i.contents);
    of_document = i.of_document;
  }

  -- A successful ingestion of a content that the source did not have publishes it: the row that the
  -- record names is active, and each other row of its source is inactive and has a smaller version; the
  -- new chunks hold the whole text in its order.
  pub ingest_document-IsPublished :
      (schema : Schema) (t : Tables) {r : DocumentRecord} {t' : Tables}
      → find_content s up t.documents ≡ none
      → ingest_document s schema up t ≡ ok (r, t')
      → (r.reused ≡ false) × IsPublished s up t r t'
  unfolding place_document
  ingest_document-IsPublished schema t {r} {t'} f h =
      let (chunks, vectors, p, c, _, m, e) = ingest_document-eq-ok s up schema t h in
      let (rows, _, i, q) = store_version-eq-ok s up chunks vectors t (rw f at m) in
      subst (λ (x : DocumentRecord × Tables). (x.0.reused ≡ false) × IsPublished s up t x.0 x.1)
        (ap (λ (x : Placed). permit s up chunks t x) (sym q) ∙ e)
        (unfold permit in refl, placed_new-IsPublished chunks t rows c i)

  -- a document of the uploader's source that has the content
  pub record HasContent (d : Document) : Type 0 where
    pub uploader : d.created_by_hash ≡ s.principal up.actor_subject
    pub source : d.source_uri ≡ up.source_uri
    pub content : d.content_sha256 ≡ s.sha256 up.content

  -- the answer is a document that was there, and the documents and chunks are as before
  pub record IsReused (t : Tables) (r : DocumentRecord) (t' : Tables) : Type 0 where
    pub document : Document
    pub stored : In document t.documents
    pub same_content : HasContent document
    pub answered : (r.document_id ≡ document.document_id) × (r.version ≡ document.version)
    pub reused : r.reused ≡ true
    pub kept : (t'.documents ≡ t.documents) × (t'.chunks ≡ t.chunks)

  find_content-HasContent :
      (ds : List Document) {d : Document} → find_content s up ds ≡ some d → In d ds × HasContent d
  unfolding find_content
  find_content-HasContent ds {d} f =
      let (m, h) = find_sound _ ds f in
      let (a, b) =
        and_true (of_source (s.principal up.actor_subject) up.source_uri d)
          (d.content_sha256 == s.sha256 up.content) h in
      let (p, q) = of_source_sound (s.principal up.actor_subject) up.source_uri d a in
      (m, record { uploader = p; source = q; content = ==→eq _ _ b })

  same_content-true :
      (d : Document)
      → HasContent d
      → same_content (s.principal up.actor_subject) up.source_uri (s.sha256 up.content) d ≡ true
  same_content-true d h = rw (
    of_source_complete (s.principal up.actor_subject) up.source_uri d h.uploader h.source,
    h.content,
    ==_refl (s.sha256 up.content),
  )

  find_content-none :
      (ds : List Document)
      → find_content s up ds ≡ none
      → All (λ (d : Document). HasContent d → ⊥) ds
  unfolding find_content
  find_content-none [] f = tt
  find_content-none (d ∷ ds) f =
      elim (Bool-cases
        (same_content (s.principal up.actor_subject) up.source_uri (s.sha256 up.content) d)) [
          | inl e ↦ absurd (found (rw e at f))
          | inr e ↦ (λ h. cc (e, same_content-true d h), find_content-none ds (rw e at f))
        ]
    where
      found : some d ≡ none → ⊥
      found k = cc

  found-IsReused :
      (schema : Schema) (t : Tables) (d : Document) {r : DocumentRecord} {t' : Tables}
      → find_content s up t.documents ≡ some d
      → ingest_document s schema up t ≡ ok (r, t')
      → IsReused t r t'
  unfolding place_document permit
  found-IsReused schema t d f h =
      let (chunks, vectors, p, _, _, m, e) = ingest_document-eq-ok s up schema t h in
      let q = ok-injective (rw f at m) in
      let (i, c) = find_content-HasContent t.documents f in
      subst (λ (x : DocumentRecord × Tables). IsReused t x.0 x.1)
        (ap (λ (x : Placed). permit s up chunks t x) q ∙ e)
        (record {
          document = d;
          stored = i;
          same_content = c;
          answered = (refl, refl);
          reused = refl;
          kept = (refl, refl);
        })

  -- A successful ingestion answers with a document of the uploader's source that has the content
  -- already, active or not, and leaves the documents and the chunks as they are; or the source has no
  -- document with the content, and the ingestion publishes a new version.
  pub ingest_document-reused :
      (schema : Schema) (t : Tables) {r : DocumentRecord} {t' : Tables}
      → ingest_document s schema up t ≡ ok (r, t')
      → IsReused t r t'
        ⊎ (All (λ (d : Document). HasContent d → ⊥) t.documents
            × (r.reused ≡ false)
            × IsPublished s up t r t')
  ingest_document-reused schema t h = elim (Option-cases (find_content s up t.documents)) [
    | inr (d, f) ↦ inl (found-IsReused schema t d f h)
    | inl f ↦
        let (new, published) = ingest_document-IsPublished schema t f h in
        inr (find_content-none t.documents f, new, published)
  ]

  -- After every successful ingestion the actor and each reader may read the document, and no
  -- permission is new but the actor's grants of it to them; the old permissions stay.
  pub ingest_document-IsGranted :
      (schema : Schema) (t : Tables) {r : DocumentRecord} {t' : Tables}
      → ingest_document s schema up t ≡ ok (r, t')
      → IsGranted up.now r.document_id
          (s.principal up.actor_subject)
          (reader_hashes s up)
          t.permissions
          t'.permissions
  unfolding permit
  ingest_document-IsGranted schema t h =
      let (chunks, vectors, p, _, _, m, e) = ingest_document-eq-ok s up schema t h in
      subst
        (λ (x : DocumentRecord × Tables).
          IsGranted up.now x.0.document_id (s.principal up.actor_subject) (reader_hashes s up)
            t.permissions x.1.permissions)
        e
        (grant_all-IsGranted up.now p.document_id (s.principal up.actor_subject)
          (reader_hashes s up) t.permissions)
