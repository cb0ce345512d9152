-- ===== src/Api/Access.antt =====
-- Who gets what from the handlers.
use customer_data_foundation.Prelude.{
  ◌≡◌, ◌≢◌, refl, sym, ap, Bool, true, false, not, List, [], ◌∷◌, map, eq_iff, ◌||◌, ◌∙◌, Option,
  none, some, String, str_eq, all_of, is_some, select, All, Bool-cases, inl, inr, ◌⊎◌, Result, ok,
  err, find, ◌==◌, ==→eq, >>=-eq-ok, ok-injective,
}
use customer_data_foundation.Sql.{Uuid, Digest}
use customer_data_foundation.Database.{Schema, require_current_schema}
use customer_data_foundation.Text.{Text, Unicode, codes, text_eq, text_eq→eq, casefold}
use customer_data_foundation.Operations.{Operation, get_operation}
use customer_data_foundation.Api.{
  answer-injective, answer, refused, Principal, Credentials, Claims, is_allowed, has_role, strings,
  grant, check_roles, check_subject, check_claims, authenticate,
}
use customer_data_foundation.Api.Imports.{
  public_operation, OperationResponse, transact, may_read, answer_import, read_import,
}

-- what a caller has shown that the handlers accept
pub record Granted (decode : Text → Option Claims) (token : Text) (p : Principal) : Type 0 where
  pub claims : Claims
  pub decoded : decode token ≡ some claims
  pub named : claims.sub ≡ some p.subject
  pub not_empty : str_eq p.subject "" ≡ false
  pub listed : List String
  pub all_text : claims.roles ≡ some (map some listed)
  pub kept : p.roles ≡ select (λ (r : String). str_eq r "operator" || str_eq r "auditor") listed
  pub some_role : p.roles ≢ []
  pub allowed : All (λ (r : String). (r ≡ "operator") ⊎ (r ≡ "auditor")) p.roles

select-allowed :
    (rs : List String)
    → All (λ (r : String). (r ≡ "operator") ⊎ (r ≡ "auditor")) (select is_allowed rs)
select-allowed [] = tt
select-allowed (r ∷ rs) = elim (Bool-cases (str_eq r "operator")) [
  | inl operator ↦ rw operator (inl ((eq_iff r "operator").0 operator), select-allowed rs)
  | inr other ↦ elim (Bool-cases (str_eq r "auditor")) [
    | inl auditor ↦ rw (other, auditor) (inr ((eq_iff r "auditor").0 auditor), select-allowed rs)
    | inr neither ↦ rw (other, neither) (select-allowed rs)
  ]
]

-- a list in which every member is text
all-strings :
    (raw : List (Option String)) → all_of is_some raw ≡ true → raw ≡ map some (strings raw)
all-strings [] h = refl
all-strings (none ∷ raw) h = absurd (cc)
all-strings (some r ∷ raw) h = ap (λ (l : List (Option String)). some r ∷ l) (all-strings raw h)

grant-roles :
    (s : String) (rs : List String) (p : Principal)
    → grant s rs ≡ answer p
    → (s ≡ p.subject) × (rs ≡ p.roles) × (rs ≢ [])
unfolding grant
grant-roles s [] p h = absurd (cc)
grant-roles s (r ∷ rs) p h = (
  ap (λ (q : Principal). q.subject) (answer-injective h),
  ap (λ (q : Principal). q.roles) (answer-injective h),
  λ e. cc,
)

check_roles-Granted :
    (decode : Text → Option Claims) (token : Text) (c : Claims) (s : String)
    (roles : Option (List (Option String))) (p : Principal)
    → decode token ≡ some c
    → c.sub ≡ some s
    → str_eq s "" ≡ false
    → c.roles ≡ roles
    → check_roles s roles ≡ answer p
    → Granted decode token p
unfolding check_roles
check_roles-Granted decode token c s none p d n e l h = absurd (cc)
check_roles-Granted decode token c s (some raw) p d n e l h =
    elim (Bool-cases (all_of is_some raw)) [
      | inr bad ↦ absurd (nobody (rw bad at h))
      | inl good ↦
          let (same, roles, ne) =
            grant-roles s (select is_allowed (strings raw)) p (rw good at h) in
          record {
            claims = c;
            decoded = d;
            named = rw (← same) n;
            not_empty = rw (← same) e;
            listed = strings raw;
            all_text = l ∙ ap (λ (x : List (Option String)). some x) (all-strings raw good);
            kept = sym roles;
            some_role = rw (← roles) ne;
            allowed = rw (← roles) (select-allowed (strings raw));
          }
    ]
  where
    nobody : refused 401 "invalid_token" ≡ answer p → ⊥
    nobody k = cc

check_subject-Granted :
    (decode : Text → Option Claims) (token : Text) (c : Claims) (sub : Option String)
    (p : Principal)
    → decode token ≡ some c
    → c.sub ≡ sub
    → check_subject sub c.roles ≡ answer p
    → Granted decode token p
unfolding check_subject
check_subject-Granted decode token c none p d n h = absurd (cc)
check_subject-Granted decode token c (some s) p d n h = elim (Bool-cases (str_eq s "")) [
  | inl empty ↦ absurd (nobody (rw empty at h))
  | inr named ↦ check_roles-Granted decode token c s c.roles p d n named refl (rw named at h)
]
  where
    nobody : refused 401 "invalid_token" ≡ answer p → ⊥
    nobody k = cc

check_claims-Granted :
    (decode : Text → Option Claims) (token : Text) (o : Option Claims) (p : Principal)
    → decode token ≡ o
    → check_claims o ≡ answer p
    → Granted decode token p
unfolding check_claims
check_claims-Granted decode token none p d h = absurd (cc)
check_claims-Granted decode token (some c) p d h =
    check_subject-Granted decode token c c.sub p d refl h

-- A caller is let in only with a bearer token that decodes to a subject that is not empty and to a
-- list of roles that are all text. The principal has that subject, and its roles are the operator
-- and auditor roles of that list, in its order, and no others; there is at least one.
pub authenticate-Granted :
    (u : Unicode) (decode : Text → Option Claims) (o : Option Credentials) (p : Principal)
    → authenticate u decode o ≡ answer p
    → (c : Credentials) × (o ≡ some c)
      × (casefold u c.scheme ≡ codes "bearer")
      × Granted decode c.credentials p
unfolding authenticate
authenticate-Granted u decode none p h = absurd (cc)
authenticate-Granted u decode (some c) p h =
    elim (Bool-cases (text_eq (casefold u c.scheme) (codes "bearer"))) [
      | inr other ↦ absurd (nobody (rw other at h))
      | inl bearer ↦ (
        c,
        refl,
        text_eq→eq _ _ bearer,
        check_claims-Granted decode c.credentials (decode c.credentials) p refl (rw bearer at h),
      )
    ]
  where
    nobody : refused 401 "invalid_token" ≡ answer p → ⊥
    nobody k = cc

answer_import-private :
    (protected_hash : String → String → Digest) (p : Principal) (m : Result (Option Operation))
    {x : OperationResponse}
    → answer_import protected_hash p m ≡ answer x
    → (r : Operation) × (m ≡ ok (some r))
      × (x ≡ public_operation r)
      × ((has_role "auditor" p ≡ true) ⊎ (r.actor_hash ≡ protected_hash "actor" p.subject))
unfolding answer_import
answer_import-private protected_hash p (err e) h = absurd (cc)
answer_import-private protected_hash p (ok none) h = absurd (cc)
answer_import-private protected_hash p (ok (some r)) {x} h =
    elim (Bool-cases (may_read protected_hash p r)) [
      | inr refuses ↦ absurd (nobody (rw refuses at h))
      | inl may ↦ (r, refl, sym (answer-injective (rw may at h)), entitled may)
    ]
  where
    nobody : refused 404 "not_found" ≡ answer x → ⊥
    nobody k = cc

    entitled :
        may_read protected_hash p r ≡ true
        → (has_role "auditor" p ≡ true) ⊎ (r.actor_hash ≡ protected_hash "actor" p.subject)
    entitled may = elim (Bool-cases (has_role "auditor" p)) [
      | inl auditor ↦ inl auditor
      | inr operator ↦ inr (==→eq _ _ (unmasked _ (rw operator at may)))
    ]
      where
        unmasked : (b : Bool) → not (not b) ≡ true → b ≡ true
        unmasked true e = refl
        unmasked false e = cc

-- An operation is shown only to an auditor or to the subject that requested it, and what is shown
-- is the stored row of that identifier.
pub read_import-private :
    (protected_hash : String → String → Digest) (connected : Bool) (schema : Schema) (id : Uuid)
    (p : Principal) (rows : List Operation) {x : OperationResponse}
    → read_import protected_hash connected schema id p rows ≡ answer x
    → (r : Operation) × (find (λ (q : Operation). q.operation_id == id) rows ≡ some r)
      × (x ≡ public_operation r)
      × ((has_role "auditor" p ≡ true) ⊎ (r.actor_hash ≡ protected_hash "actor" p.subject))
unfolding read_import get_operation
read_import-private protected_hash connected schema id p rows h =
    let (r, m, same, may) =
      answer_import-private protected_hash p (transact connected (get_operation schema id rows))
        h in
    (r, found connected m, same, may)
  where
    found :
        (b : Bool) {r : Operation}
        → transact b (get_operation schema id rows) ≡ ok (some r)
        → find (λ (q : Operation). q.operation_id == id) rows ≡ some r
    found false m = absurd (cc)
    found true m = let (_, _, k) = >>=-eq-ok (require_current_schema schema) _ m in ok-injective k
