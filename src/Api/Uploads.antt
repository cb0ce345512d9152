-- ===== src/Api/Uploads.antt =====
-- The checks of an upload: the idempotency key and the size of the file.
use customer_data_foundation.Prelude.{
  ℕ, suc, ◌+◌, ◌≤◌, ◌≡◌, false, not, ◌&&◌, List, [], ◌∷◌, ◌++◌, Option, none, some, String,
  if◌then◌else◌, leb, ltb, length, arith, Bool-cases, inl, inr, length-append,
}
use customer_data_foundation.Text.{Unicode, codes, isprintable}
use customer_data_foundation.Validation.Batch.{max_file_bytes}
use customer_data_foundation.Api.{Answer, answer, refused}

unfoldable pub validate_idempotency_key : Unicode → Option String → Answer String
unfolding isprintable
validate_idempotency_key u none = refused 400 "invalid_idempotency_key"
validate_idempotency_key u (some value) =
    if not (leb 8 (length (codes value)) && leb (length (codes value)) 200)
    then refused 400 "invalid_idempotency_key"
    else if not (isprintable u (codes value))
    then refused 400 "invalid_idempotency_key"
    else answer value

abbrev pub prepend : List ℕ → Option (List ℕ) → Option (List ℕ)
prepend chunk none = none
prepend chunk (some rest) = some (chunk ++ rest)

-- The chunks that `upload.read` yields, as bytes, until an empty one; `none` is the error 413. The
-- result is what the temporary file holds and the digest has seen.
unfoldable pub persist_bounded_upload : ℕ → List (List ℕ) → Option (List ℕ)
persist_bounded_upload total_bytes [] = some []
persist_bounded_upload total_bytes ([] ∷ chunks) = some []
persist_bounded_upload total_bytes ((b ∷ bs) ∷ chunks) =
    let rest = persist_bounded_upload (total_bytes + length (b ∷ bs)) chunks in
    if ltb max_file_bytes (total_bytes + length (b ∷ bs)) then none else prepend (b ∷ bs) rest

-- the bytes up to the first empty chunk
abbrev pub sent : List (List ℕ) → List ℕ
sent [] = []
sent ([] ∷ chunks) = []
sent ((b ∷ bs) ∷ chunks) = (b ∷ bs) ++ sent chunks

bounded_from :
    (total : ℕ) (chunks : List (List ℕ))
    → total ≤ max_file_bytes
    → persist_bounded_upload total chunks
      ≡ (if leb (total + length (sent chunks)) max_file_bytes then some (sent chunks) else none)
unfolding persist_bounded_upload
bounded_from total [] h = ground (arith, h)
bounded_from total ([] ∷ chunks) h = ground (arith, h)
bounded_from total ((b ∷ bs) ∷ chunks) h =
    elim (Bool-cases (ltb max_file_bytes (total + length (b ∷ bs)))) [
      | inl large ↦ rw large (ground (arith, large, length-append bs (sent chunks)))
      | inr small ↦
          rw (small, bounded_from (total + length (b ∷ bs)) chunks (within _ _ small))
            (kept (total + suc (length bs) + length (sent chunks))
              (total + suc (length (bs ++ sent chunks)))
              (omega (arith, length-append bs (sent chunks))))
    ]
  where
    within : (n m : ℕ) → ltb m n ≡ false → n ≤ m
    within n m e = ground (arith, e)

    kept :
        (n m : ℕ)
        → n ≡ m
        → prepend (b ∷ bs) (if leb n max_file_bytes then some (sent chunks) else none)
          ≡ (if leb m max_file_bytes then some ((b ∷ bs) ++ sent chunks) else none)
    kept n m e = rw e (elim (Bool-cases (leb m max_file_bytes)) [ inl t ↦ rw t | inr f ↦ rw f ])

-- An upload is kept exactly when all that was sent is at most 10 MiB, and then it is kept as it was
-- sent; the sum is checked chunk by chunk.
pub persist_bounded_upload-exact :
    (chunks : List (List ℕ))
    → persist_bounded_upload 0 chunks
      ≡ (if leb (length (sent chunks)) max_file_bytes then some (sent chunks) else none)
persist_bounded_upload-exact chunks =
    let e : 0 + length (sent chunks) ≡ length (sent chunks) = omega arith in
    rw e at (bounded_from 0 chunks (omega arith))
