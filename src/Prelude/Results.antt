-- ===== src/Prelude/Results.antt =====
-- The exceptions of the program, and computations that may raise one. A database operation runs
-- in one transaction, so an error leaves the tables as they were: it carries no new state.
use mathlib.Core.Path.{◌≡◌, refl}
use mathlib.Core.Logic.{◌⊎◌, inl, inr}
use mathlib.Core.Bool.{Bool, true, false}
use mathlib.Core.Option.{Option, none, some}
use customer_data_foundation.Prelude.Tests.{if◌then◌else◌}

pub data Error : Type 0 where
  schema_not_current database_error value_error : Error
  action_not_found action_transition self_approval action_rate_limit : Error
  ai_request_limit ai_daily_budget ai_provider_unavailable embedding_provider_error index_error :
      Error

-- what a computation returns, or the exception that it raises
pub data Result {ℓ} (R : Type ℓ) : Type ℓ where
  err : Error → Result R
  ok : R → Result R

-- `if not test: raise e`
abbrev pub guard : Bool → Error → Result (Unit {0})
guard test e = if test then ok tt else err e

abbrev pub or_raise {ℓ} : {R : Type ℓ} → Option R → Error → Result R
or_raise (some r) _ = ok r
or_raise none e = err e

module _ {ℓ κ} {R : Type ℓ} {S : Type κ} where
  infixl 5 ◌>>=◌
  abbrev pub ◌>>=◌ : Result R → (R → Result S) → Result S
  err e >>= next = err e
  ok r >>= next = next r

  -- a sequence that succeeds has run both of its parts
  pub >>=-eq-ok :
      (first : Result R) (next : R → Result S) {s : S}
      → (first >>= next) ≡ ok s
      → (r : R) × (first ≡ ok r) × (next r ≡ ok s)
  >>=-eq-ok (err e) next done = cc
  >>=-eq-ok (ok r) next done = (r, refl, done)

infixl 5 ◌>>◌
abbrev pub ◌>>◌ {κ} : {S : Type κ} → Result (Unit {0}) → Result S → Result S
check >> rest = check >>= λ _. rest

pub guard-ok : (test : Bool) (e : Error) {u : Unit {0}} → guard test e ≡ ok u → test ≡ true
guard-ok true e h = refl
guard-ok false e h = cc

-- a check that let the rest run has passed
pub guard-eq-ok {κ} :
    {S : Type κ} (test : Bool) (e : Error) (rest : Result S) {s : S}
    → (guard test e >> rest) ≡ ok s
    → (test ≡ true) × (rest ≡ ok s)
guard-eq-ok true e rest h = (refl, h)
guard-eq-ok false e rest h = cc

pub Result-cases {ℓ} :
    {A : Type ℓ} (m : Result A) → ((a : A) × (m ≡ ok a)) ⊎ ((e : Error) × (m ≡ err e))
Result-cases (ok a) = inl (a, refl)
Result-cases (err e) = inr (e, refl)

pub ok-injective {ℓ} : {A : Type ℓ} {a b : A} → ok a ≡ ok b → a ≡ b
ok-injective h = cc
