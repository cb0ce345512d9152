-- ===== src/Rag/Steps.antt =====
-- Calls that read and write tables in several transactions: an exception leaves what was written.
use customer_data_foundation.Prelude.{◌≡◌, refl, Result, ok, err, Error}

-- a call on tables of type T
abbrev pub Step : Type 0 → Type 0 → Type 0
Step T A = T → Result A × T

module _ {T : Type 0} where
  abbrev pub continue_with : {A B : Type 0} → (A → Step T B) → Result A × T → Result B × T
  continue_with next (err e, t) = (err e, t)
  continue_with next (ok a, t) = next a t

  infixl 5 ◌>>=◌
  abbrev pub ◌>>=◌ : {A B : Type 0} → Step T A → (A → Step T B) → Step T B
  (m >>= next) t = continue_with next (m t)

  infixl 5 ◌>>◌
  abbrev pub ◌>>◌ : {A B : Type 0} → Step T A → Step T B → Step T B
  m >> next = m >>= λ _. next

  abbrev pub return : {A : Type 0} → A → Step T A
  return a t = (ok a, t)

  abbrev pub raise : {A : Type 0} → Error → Step T A
  raise e t = (err e, t)

  -- a call that only reads
  abbrev pub reading : {A : Type 0} → (T → Result A) → Step T A
  reading read t = (read t, t)

  abbrev pub write_back : {A : Type 0} → T → Result (A × T) → Result A × T
  write_back t (err e) = (err e, t)
  write_back t (ok (a, t')) = (ok a, t')

  -- a transaction: an exception leaves the tables as they were
  abbrev pub transaction : {A : Type 0} → (T → Result (A × T)) → Step T A
  transaction run t = write_back t (run t)

  pub continue_with-cases :
      {A B : Type 0} (P : Result B × T → Type 0) (next : A → Step T B) (r : Result A) (t : T)
      → ((e : Error) → r ≡ err e → P (err e, t))
      → ((a : A) → r ≡ ok a → P (next a t))
      → P (continue_with next (r, t))
  continue_with-cases P next (err e) t h k = h e refl
  continue_with-cases P next (ok a) t h k = k a refl

  pub write_back-cases :
      {A : Type 0} (P : Result A × T → Type 0) (t : T) (r : Result (A × T))
      → ((e : Error) → r ≡ err e → P (err e, t))
      → ((x : A × T) → r ≡ ok x → P (ok x.0, x.1))
      → P (write_back t r)
  write_back-cases P t (err e) h k = h e refl
  write_back-cases P t (ok (a, t')) h k = k (a, t') refl
