-- ===== src/Knowledge/Readers.antt =====
-- The permissions that an ingestion leaves.
use customer_data_foundation.Prelude.{
  ◌≡◌, refl, ap, Bool, true, false, List, [], ◌∷◌, ◌++◌, ◌⊎◌, inl, inr, arith, In, All, any_of,
  Bool-cases, ==_refl, if◌then◌else◌,
}
use customer_data_foundation.Sql.{
  Uuid, Digest, Timestamp, append-In, In-append_left, In-append_last, In-any_of, any_of-In,
}
use customer_data_foundation.Knowledge.Store.{Permission, grants}
use customer_data_foundation.Knowledge.Ingest.{grant_all}

-- PRIMARY KEY (document_id, principal_hash)
abbrev pub PermissionKey : List Permission → Type 0
PermissionKey [] = Unit
PermissionKey (p ∷ ps) =
    (any_of (grants p.document_id p.principal_hash) ps ≡ false) × PermissionKey ps

any_of-append_false :
    (test : Permission → Bool) (ps : List Permission) (p : Permission)
    → any_of test ps ≡ false
    → test p ≡ false
    → any_of test (ps ++ p ∷ []) ≡ false
any_of-append_false test [] p h k = rw k
any_of-append_false test (q ∷ ps) p h k = ground (arith, any_of-append_false test ps p)

PermissionKey-append :
    (ps : List Permission) (p : Permission)
    → any_of (grants p.document_id p.principal_hash) ps ≡ false
    → PermissionKey ps
    → PermissionKey (ps ++ p ∷ [])
PermissionKey-append [] p f k = (refl, tt)
PermissionKey-append (q ∷ ps) p f k = (
  any_of-append_false (grants q.document_id q.principal_hash) ps p k.0 (ground (arith, f)),
  PermissionKey-append ps p (ground (arith, f)) k.1,
)

module _ (now : Timestamp) (document_id : Uuid) (actor : Digest) where
  new_permission : Digest → Permission
  new_permission r = record {
    document_id = document_id;
    principal_hash = r;
    granted_by_hash = actor;
    granted_at = now;
  }

  -- one round of the loop
  granted : Digest → List Permission → List Permission
  unfolding new_permission
  granted r ps = if any_of (grants document_id r) ps then ps else ps ++ new_permission r ∷ []

  granted-In : (r : Digest) (ps : List Permission) (p : Permission) → In p ps → In p (granted r ps)
  unfolding granted
  granted-In r ps p m = elim (Bool-cases (any_of (grants document_id r) ps)) [
    | inl e ↦ rw e m
    | inr e ↦ rw e (In-append_left ps _ p m)
  ]

  granted_key :
      (r : Digest) (ps : List Permission) → PermissionKey ps → PermissionKey (granted r ps)
  unfolding granted new_permission
  granted_key r ps k = elim (Bool-cases (any_of (grants document_id r) ps)) [
    | inl e ↦ rw e k
    | inr e ↦ rw e (PermissionKey-append ps (new_permission r) e k)
  ]

  granted_reader :
      (r : Digest) (ps : List Permission) → any_of (grants document_id r) (granted r ps) ≡ true
  unfolding granted
  granted_reader r ps = elim (Bool-cases (any_of (grants document_id r) ps)) [
    | inl e ↦ rw (e, e)
    | inr e ↦ rw e (
        In-any_of (grants document_id r) _ (In-append_last ps (new_permission r))
          (unfold new_permission in rw (==_refl document_id) (==_refl r)))
  ]

  -- a permission after the loop is one from before, or a grant of it to a reader
  abbrev pub FromGrant : List Digest → List Permission → Permission → Type 0
  FromGrant rs ps p =
      In p ps
      ⊎ ((p.document_id ≡ document_id) × (p.granted_by_hash ≡ actor) × In p.principal_hash rs)

  FromGrant-step :
      (r : Digest) (rs : List Digest) (ps : List Permission) (p : Permission)
      → FromGrant rs (granted r ps) p
      → FromGrant (r ∷ rs) ps p
  unfolding granted new_permission
  FromGrant-step r rs ps p (inr (a, b, c)) = inr (a, b, inr c)
  FromGrant-step r rs ps p (inl m) = elim (Bool-cases (any_of (grants document_id r) ps)) [
    | inl e ↦ inl (rw e at m)
    | inr e ↦ elim (append-In ps _ (rw e at m)) [
      | inl i ↦ inl i
      | inr n ↦ inr (
        ap (λ (q : Permission). q.document_id) n,
        ap (λ (q : Permission). q.granted_by_hash) n,
        inl (ap (λ (q : Permission). q.principal_hash) n),
      )
    ]
  ]

  -- what the loop does to the permissions
  pub record IsGranted (rs : List Digest) (ps qs : List Permission) : Type 0 where
    pub kept : (p : Permission) → In p ps → In p qs
    pub readers : All (λ r. any_of (grants document_id r) qs ≡ true) rs
    pub no_more : (p : Permission) → In p qs → FromGrant rs ps p

  pub grant_all-IsGranted :
      (rs : List Digest) (ps : List Permission)
      → IsGranted rs ps (grant_all now document_id actor rs ps)
  unfolding grant_all granted new_permission
  grant_all-IsGranted [] ps = record { kept = λ p m. m; readers = tt; no_more = λ p m. inl m }
  grant_all-IsGranted (r ∷ rs) ps =
      let rest = grant_all-IsGranted rs (granted r ps) in
      record {
        kept = λ p m. rest.kept p (granted-In r ps p m);
        readers = (here rest, rest.readers);
        no_more = λ p m. FromGrant-step r rs ps p (rest.no_more p m);
      }
    where
      here :
          IsGranted rs (granted r ps) (grant_all now document_id actor rs (granted r ps))
          → any_of (grants document_id r) (grant_all now document_id actor rs (granted r ps)) ≡ true
      here rest =
          let (p, m, t) = any_of-In (grants document_id r) (granted r ps) (granted_reader r ps) in
          In-any_of (grants document_id r) _ (rest.kept p m) t

  pub grant_all-PermissionKey :
      (rs : List Digest) (ps : List Permission)
      → PermissionKey ps
      → PermissionKey (grant_all now document_id actor rs ps)
  unfolding grant_all granted new_permission
  grant_all-PermissionKey [] ps k = k
  grant_all-PermissionKey (r ∷ rs) ps k =
      grant_all-PermissionKey rs (granted r ps) (granted_key r ps k)
