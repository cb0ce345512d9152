-- ===== src/Knowledge/Versions.antt =====
-- The versions of a source: what an ingestion does to the rows of the documents.
use customer_data_foundation.Prelude.{
  and_true, ℕ, ◌≤◌, ◌<◌, ◌≡◌, refl, sym, ap, subst, ◌∙◌, Bool, true, false, ◌&&◌, List, [], ◌∷◌,
  map, ◌⊎◌, inl, inr, arith, In, select, any_of, Bool-cases, ◌==◌, ==→eq, ==_refl, if◌then◌else◌,
}
use customer_data_foundation.Sql.{
  Digest, Unique, update, any_of-update, map-update, update-In, append-In, Unique-append,
}
use customer_data_foundation.Text.{Text, text_eq, text_eq→eq, text_eq_refl}
use customer_data_foundation.Knowledge.Store.{
  Document, Services, of_source, latest_version, deactivate,
}
use customer_data_foundation.Knowledge.Ingest.{
  Upload, active_of, new_document, next_documents, next_version,
}

pub SameSource : Document → Document → Type 0
SameSource d e = (d.created_by_hash ≡ e.created_by_hash) × (d.source_uri ≡ e.source_uri)

pub record IsVersioned (ds : List Document) : Type 0 where
  pub document_key : Unique (map (λ (d : Document). d.document_id) ds)
  pub one_version :
      (d e : Document)
      → In d ds
      → In e ds
      → SameSource d e
      → d.version ≡ e.version
      → d.document_id ≡ e.document_id
  pub active_is_latest :
      (d e : Document)
      → In d ds
      → In e ds
      → SameSource d e
      → d.active ≡ true
      → e.version ≤ d.version

true_and : (a b : Bool) → a ≡ true → b ≡ true → (a && b) ≡ true
true_and a b h k = ground arith

pub of_source_sound :
    (actor : Digest) (uri : Text) (d : Document)
    → of_source actor uri d ≡ true
    → (d.created_by_hash ≡ actor) × (d.source_uri ≡ uri)
of_source_sound actor uri d h =
    let (a, b) = and_true (d.created_by_hash == actor) (text_eq d.source_uri uri) h in
    (==→eq d.created_by_hash actor a, text_eq→eq d.source_uri uri b)

pub of_source_complete :
    (actor : Digest) (uri : Text) (d : Document)
    → d.created_by_hash ≡ actor
    → d.source_uri ≡ uri
    → of_source actor uri d ≡ true
of_source_complete actor uri d a b =
    true_and (d.created_by_hash == actor) (text_eq d.source_uri uri) (rw a (==_refl actor))
      (rw b (text_eq_refl uri))

-- every selected version is at most the latest
le-latest_version :
    (test : Document → Bool) (ds : List Document) {d : Document}
    → In d ds
    → test d ≡ true
    → d.version ≤ latest_version (select test ds)
unfolding latest_version
le-latest_version test [] m h = absurd m
le-latest_version test (x ∷ ds) {d} (inl e) h =
    let same : d.version ≡ x.version = ap (λ (y : Document). y.version) e in
    rw (← e, h) (omega (arith, same))
le-latest_version test (x ∷ ds) {d} (inr m) h = elim (Bool-cases (test x)) [
  | inl e ↦ rw e (omega (arith, le-latest_version test ds m h))
  | inr e ↦ rw e (le-latest_version test ds m h)
]

-- a row before, and what the deactivation leaves of it
pub record Kept (test : Document → Bool) (r d : Document) : Type 0 where
  pub same_id : d.document_id ≡ r.document_id
  pub same_creator : d.created_by_hash ≡ r.created_by_hash
  pub same_uri : d.source_uri ≡ r.source_uri
  pub same_version : d.version ≡ r.version
  pub was_active : d.active ≡ true → (r.active ≡ true) × (test r ≡ false)

kept :
    (test : Document → Bool) (r d : Document)
    → d ≡ (if test r then deactivate r else r)
    → Kept test r d
kept test r d e = subst (Kept test r) (sym e) (elim (Bool-cases (test r)) [
  | inl t ↦ rw t (record {
    same_id = refl;
    same_creator = refl;
    same_uri = refl;
    same_version = refl;
    was_active = λ a. cc;
  })
  | inr f ↦ rw f (record {
    same_id = refl;
    same_creator = refl;
    same_uri = refl;
    same_version = refl;
    was_active = λ a. (a, f);
  })
])

module _ (s : Services) (up : Upload) (ds : List Document) where
  abbrev pub actor : Digest
  actor = s.principal up.actor_subject

  -- a row that was there
  abbrev pub Old : Document → Type 0
  Old d = (r : Document) × In r ds × Kept (active_of actor up.source_uri) r d

  -- a row after an ingestion: one that was there, or the new one
  pub next_documents_rows :
      (d : Document) (version : ℕ)
      → In d (next_documents s up version ds)
      → Old d ⊎ (d ≡ new_document s up version)
  unfolding next_documents
  next_documents_rows d version m =
      elim (append-In (update (active_of actor up.source_uri) deactivate ds) _ m) [
        | inl i ↦
            let (r, j, e) = update-In (active_of actor up.source_uri) deactivate ds i in
            inl (r, j, kept (active_of actor up.source_uri) r d e)
        | inr e ↦ inr e
      ]

  -- the versions of the source so far are below the next one
  pub lt-next_version :
      (r : Document)
      → In r ds
      → r.created_by_hash ≡ actor
      → r.source_uri ≡ up.source_uri
      → r.version < next_version s up ds
  unfolding next_version
  lt-next_version r m a b = omega (
    arith,
    le-latest_version (of_source actor up.source_uri) ds m
        (of_source_complete actor up.source_uri r a b),
  )

  -- the rows of the source that were there have smaller versions than the new one
  pub lt-new_document :
      (d e : Document)
      → Old d
      → e ≡ new_document s up (next_version s up ds)
      → SameSource d e
      → d.version < e.version
  unfolding SameSource new_document
  lt-new_document d e (r, m, k) n same =
      let below =
        lt-next_version r m
          (sym k.same_creator ∙ same.0 ∙ ap (λ (x : Document). x.created_by_hash) n)
          (sym k.same_uri ∙ same.1 ∙ ap (λ (x : Document). x.source_uri) n) in
      let version : e.version ≡ next_version s up ds = ap (λ (x : Document). x.version) n in
      omega (arith, below, version, k.same_version)

  -- the new row takes the place of the active one
  pub Old-inactive :
      (d e : Document)
      → Old d
      → e ≡ new_document s up (next_version s up ds)
      → SameSource d e
      → d.active ≡ true
      → ⊥
  unfolding SameSource new_document
  Old-inactive d e (r, m, k) n same a =
      let source =
        of_source_complete actor up.source_uri r
          (sym k.same_creator ∙ same.0 ∙ ap (λ (x : Document). x.created_by_hash) n)
          (sym k.same_uri ∙ same.1 ∙ ap (λ (x : Document). x.source_uri) n) in
      let (active, untouched) = k.was_active a in
      cc (untouched, true_and (of_source actor up.source_uri r) r.active source active)

  same_before :
      (d e r q : Document)
      → Kept (active_of actor up.source_uri) r d
      → Kept (active_of actor up.source_uri) q e
      → SameSource d e
      → SameSource r q
  unfolding SameSource
  same_before d e r q k o same =
      (sym k.same_creator ∙ same.0 ∙ o.same_creator, sym k.same_uri ∙ same.1 ∙ o.same_uri)

  pub flip : (d e : Document) → SameSource d e → SameSource e d
  unfolding SameSource
  flip d e same = (sym same.0, sym same.1)

  one_version_cases :
      IsVersioned ds
      → (d e : Document) → Old d ⊎ (d ≡ new_document s up (next_version s up ds))
      → Old e ⊎ (e ≡ new_document s up (next_version s up ds))
      → SameSource d e
      → d.version ≡ e.version
      → d.document_id ≡ e.document_id
  one_version_cases v d e (inl (r, i, k)) (inl (q, j, o)) same h =
      k.same_id
      ∙ v.one_version r q i j (same_before d e r q k o same)
          (sym k.same_version ∙ h ∙ o.same_version)
      ∙ sym o.same_id
  one_version_cases v d e (inl x) (inr n) same h =
      absurd (omega (arith, lt-new_document d e x n same, h))
  one_version_cases v d e (inr n) (inl x) same h =
      absurd (omega (arith, lt-new_document e d x n (flip d e same), h))
  one_version_cases v d e (inr n) (inr l) same h = ap (λ (x : Document). x.document_id) (n ∙ sym l)

  active_is_latest_cases :
      IsVersioned ds
      → (d e : Document) → Old d ⊎ (d ≡ new_document s up (next_version s up ds))
      → Old e ⊎ (e ≡ new_document s up (next_version s up ds))
      → SameSource d e
      → d.active ≡ true
      → e.version ≤ d.version
  active_is_latest_cases v d e (inl (r, i, k)) (inl (q, j, o)) same a = omega (
    arith,
    k.same_version,
    o.same_version,
    v.active_is_latest r q i j (same_before d e r q k o same) (k.was_active a).0,
  )
  active_is_latest_cases v d e (inl x) (inr n) same a = absurd (Old-inactive d e x n same a)
  active_is_latest_cases v d e (inr n) (inl x) same a =
      omega (arith, lt-new_document e d x n (flip d e same))
  active_is_latest_cases v d e (inr n) (inr l) same a =
      omega (arith, ap (λ (x : Document). x.version) (n ∙ sym l))

  -- the next version keeps the order of the versions
  pub next_documents-IsVersioned :
      any_of (λ (d : Document). d.document_id == up.document_id) ds ≡ false
      → IsVersioned ds
      → IsVersioned (next_documents s up (next_version s up ds) ds)
  next_documents-IsVersioned f v = record {
    document_key = document_key_next f v.document_key;
    one_version = λ d e m n.
        one_version_cases v d e (next_documents_rows d (next_version s up ds) m)
          (next_documents_rows e (next_version s up ds) n);
    active_is_latest = λ d e m n.
        active_is_latest_cases v d e (next_documents_rows d (next_version s up ds) m)
          (next_documents_rows e (next_version s up ds) n);
  }
    where
      document_key_next :
          any_of (λ (d : Document). d.document_id == up.document_id) ds ≡ false
          → Unique (map (λ (d : Document). d.document_id) ds)
          → Unique (
              map (λ (d : Document). d.document_id) (next_documents s up (next_version s up ds) ds))
      document_key_next f u =
          unfold next_documents new_document in
          Unique-append (λ (d : Document). d.document_id)
            (update (active_of actor up.source_uri) deactivate ds) _
            (any_of-update (λ (d : Document). d.document_id == up.document_id)
                (active_of actor up.source_uri) deactivate ds (λ r. refl)
              ∙ f)
            (rw
              (map-update (λ (d : Document). d.document_id) (active_of actor up.source_uri)
                deactivate ds (λ r. refl))
              u)
