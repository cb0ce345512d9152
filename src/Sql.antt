-- ===== src/Sql.antt =====
-- The statements of PostgreSQL that the source sends, over a table as the list of its rows.
-- A statement sees one snapshot, so it is a function of the rows.
use customer_data_foundation.Prelude.{
  ℕ, ◌≡◌, ◌≢◌, refl, Bool, true, false, List, [], ◌∷◌, ◌++◌, map, none, some, arith, ◌==◌, ==_refl,
  if◌then◌else◌, All, In, ◌⊎◌, inl, inr, find, any_of, Bool-cases, sym, ap, ◌∙◌,
}

-- an identifier that `uuid.uuid4` draws, a SHA-256 or HMAC digest, a `timestamptz` in microseconds
abbrev pub Uuid : Type 0
Uuid = ℕ

abbrev pub Digest : Type 0
Digest = ℕ

abbrev pub Timestamp : Type 0
Timestamp = ℕ

-- `interval '1 second'`
abbrev pub second : Timestamp
second = 1000000

module _ {A : Type 0} where
  -- UPDATE table SET ... WHERE test
  unfoldable pub update : (A → Bool) → (A → A) → List A → List A
  update test f [] = []
  update test f (r ∷ rs) = (if test r then f r else r) ∷ update test f rs

  -- an update that changes no key keeps the keys
  pub map-update :
      {B : Type 0} (key : A → B) (test : A → Bool) (f : A → A) (rs : List A)
      → ((r : A) → key (f r) ≡ key r)
      → map key (update test f rs) ≡ map key rs
  unfolding update
  map-update key test f [] h = refl
  map-update key test f (r ∷ rs) h = elim (Bool-cases (test r)) [
    | inl e ↦ rw (e, h r, map-update key test f rs h)
    | inr e ↦ rw (e, map-update key test f rs h)
  ]

  pub any_of-update :
      (q test : A → Bool) (f : A → A) (rs : List A)
      → ((r : A) → q (f r) ≡ q r)
      → any_of q (update test f rs) ≡ any_of q rs
  unfolding update
  any_of-update q test f [] h = refl
  any_of-update q test f (r ∷ rs) h = elim (Bool-cases (test r)) [
    | inl e ↦ rw (e, h r, any_of-update q test f rs h)
    | inr e ↦ rw (e, any_of-update q test f rs h)
  ]

  -- a property of each row is kept if the new rows have it
  pub All-update :
      (P : A → Type 0) (test : A → Bool) (f : A → A) (rs : List A)
      → ((r : A) → In r rs → test r ≡ true → P r → P (f r))
      → All P rs
      → All P (update test f rs)
  unfolding update
  All-update P test f [] h p = tt
  All-update P test f (r ∷ rs) h p = elim (Bool-cases (test r)) [
    | inl e ↦ rw e (h r (inl refl) e p.0, All-update P test f rs (λ q m. h q (inr m)) p.1)
    | inr e ↦ rw e (p.0, All-update P test f rs (λ q m. h q (inr m)) p.1)
  ]

  -- no row passes, no row changes
  pub update-none :
      (test : A → Bool) (f : A → A) (rs : List A) → find test rs ≡ none → update test f rs ≡ rs
  unfolding update
  update-none test f [] h = refl
  update-none test f (r ∷ rs) h = elim (Bool-cases (test r)) [
    | inl e ↦ absurd (ground (arith, e, h))
    | inr e ↦ rw (e, update-none test f rs (rw e at h))
  ]

-- UNIQUE: no key stands twice
abbrev pub Unique : List ℕ → Type 0
Unique [] = Unit
Unique (k ∷ ks) = All (λ j. j ≢ k) ks × Unique ks

module _ {A : Type 0} where
  -- what an update does to one row
  pub In-update :
      (test : A → Bool) (f : A → A) (rs : List A) (r : A)
      → In r rs
      → In (if test r then f r else r) (update test f rs)
  unfolding update
  In-update test f [] r m = absurd m
  In-update test f (x ∷ rs) r (inl e) = inl (ap (λ (y : A). if test y then f y else y) e)
  In-update test f (x ∷ rs) r (inr m) = inr (In-update test f rs r m)

  -- every row after an update comes from one before it
  pub update-In :
      (test : A → Bool) (f : A → A) (rs : List A) {q : A}
      → In q (update test f rs)
      → (r : A) × In r rs × (q ≡ (if test r then f r else r))
  unfolding update
  update-In test f [] m = absurd m
  update-In test f (x ∷ rs) (inl e) = (x, inl refl, e)
  update-In test f (x ∷ rs) (inr m) = let (r, i, e) = update-In test f rs m in (r, inr i, e)

  pub any_of-In :
      (test : A → Bool) (rs : List A) → any_of test rs ≡ true → (r : A) × In r rs × (test r ≡ true)
  any_of-In test [] h = cc
  any_of-In test (x ∷ rs) h = elim (Bool-cases (test x)) [
    | inl e ↦ (x, inl refl, e)
    | inr e ↦ let (r, i, t) = any_of-In test rs (rw e at h) in (r, inr i, t)
  ]

  pub In-any_of :
      (test : A → Bool) (rs : List A) {r : A} → In r rs → test r ≡ true → any_of test rs ≡ true
  In-any_of test [] m t = absurd m
  In-any_of test (x ∷ rs) (inl e) t = rw (← e, t)
  In-any_of test (x ∷ rs) (inr m) t = elim (Bool-cases (test x)) [
    | inl e ↦ rw e
    | inr e ↦ rw e (In-any_of test rs m t)
  ]

  -- no row passes, and the update is the identity
  pub any_of-false :
      (test : A → Bool) (rs : List A) → All (λ r. test r ≡ false) rs → any_of test rs ≡ false
  any_of-false test [] h = refl
  any_of-false test (x ∷ rs) h = rw h.0 (any_of-false test rs h.1)

  pub update_id :
      (test : A → Bool) (f : A → A) (rs : List A)
      → All (λ r. test r ≡ false) rs
      → update test f rs ≡ rs
  unfolding update
  update_id test f [] h = refl
  update_id test f (x ∷ rs) h = rw (h.0, update_id test f rs h.1)

  pub In-append_left : (rs qs : List A) (r : A) → In r rs → In r (rs ++ qs)
  In-append_left [] qs r m = absurd m
  In-append_left (x ∷ rs) qs r (inl e) = inl e
  In-append_left (x ∷ rs) qs r (inr m) = inr (In-append_left rs qs r m)

  pub append-In : (rs : List A) (x : A) {r : A} → In r (rs ++ x ∷ []) → In r rs ⊎ (r ≡ x)
  append-In [] x (inl e) = inr e
  append-In [] x (inr m) = absurd m
  append-In (y ∷ rs) x (inl e) = inl (inl e)
  append-In (y ∷ rs) x (inr m) = elim (append-In rs x m) [ inl i ↦ inl (inr i) | inr e ↦ inr e ]

  pub In-append_last : (rs : List A) (x : A) → In x (rs ++ x ∷ [])
  In-append_last [] x = inl refl
  In-append_last (y ∷ rs) x = inr (In-append_last rs x)

  pub All_of-In : (P : A → Type 0) (rs : List A) → ((r : A) → In r rs → P r) → All P rs
  All_of-In P [] h = tt
  All_of-In P (x ∷ rs) h = (h x (inl refl), All_of-In P rs (λ r m. h r (inr m)))

module _ {A : Type 0} (key : A → ℕ) where
  fresh_key :
      (x : A) (rs : List A) {r : A} → All (λ j. j ≢ key x) (map key rs) → In r rs → key r ≢ key x
  fresh_key x [] h m e = absurd m
  fresh_key x (y ∷ rs) h (inl e) k = h.0 (sym (ap key e) ∙ k)
  fresh_key x (y ∷ rs) h (inr m) k = fresh_key x rs h.1 m k

  -- in a table with a unique key two rows with one key are one row
  pub Unique-In :
      (rs : List A) {a b : A} → Unique (map key rs) → In a rs → In b rs → key a ≡ key b → a ≡ b
  Unique-In [] u m n e = absurd m
  Unique-In (x ∷ rs) u (inl p) (inl q) e = p ∙ sym q
  Unique-In (x ∷ rs) u (inl p) (inr n) e = absurd (fresh_key x rs u.0 n (sym e ∙ ap key p))
  Unique-In (x ∷ rs) u (inr m) (inl q) e = absurd (fresh_key x rs u.0 m (e ∙ ap key q))
  Unique-In (x ∷ rs) u (inr m) (inr n) e = Unique-In rs u.1 m n e

  append_fresh :
      (j : ℕ) (rs : List A) (x : A)
      → key x ≢ j
      → All (λ i. i ≢ j) (map key rs)
      → All (λ i. i ≢ j) (map key (rs ++ x ∷ []))
  append_fresh j [] x ne h = (ne, tt)
  append_fresh j (r ∷ rs) x ne h = (h.0, append_fresh j rs x ne h.1)

  -- INSERT of a row with a new key
  pub Unique-append :
      (rs : List A) (x : A)
      → any_of (λ (r : A). key r == key x) rs ≡ false
      → Unique (map key rs)
      → Unique (map key (rs ++ x ∷ []))
  Unique-append [] x f u = (tt, tt)
  Unique-append (r ∷ rs) x f u = (
    append_fresh (key r) rs x (λ e. cc (f, e, ==_refl (key r))) u.0,
    Unique-append rs x
        (elim (Bool-cases (key r == key x)) [ inl e ↦ absurd (cc (f, e)) | inr e ↦ rw e at f ]) u.1,
  )

  -- a failed search by key
  pub find-none :
      (k : ℕ) (rs : List A)
      → find (λ (r : A). key r == k) rs ≡ none
      → any_of (λ (r : A). key r == k) rs ≡ false
  find-none k [] h = refl
  find-none k (r ∷ rs) h = elim (Bool-cases (key r == k)) [
    | inl e ↦ absurd (ground (arith, e, h))
    | inr e ↦ rw e (find-none k rs (rw e at h))
  ]

-- the row of a key after an update of that row
pub find-update :
    {A : Type 0} (key : A → ℕ) (k : ℕ) (f : A → A) (rs : List A) {c : A}
    → ((r : A) → key (f r) ≡ key r)
    → find (λ (r : A). key r == k) rs ≡ some c
    → find (λ (r : A). key r == k) (update (λ (r : A). key r == k) f rs) ≡ some (f c)
unfolding update
find-update key k f [] hk h = absurd (ground (arith, h))
find-update key k f (r ∷ rs) {c} hk h = elim (Bool-cases (key r == k)) [
  | inl e ↦ let same : r ≡ c = ground (arith, rw e at h) in rw (e, hk r, e, same)
  | inr e ↦ rw (e, e) (find-update key k f rs hk (rw e at h))
]
