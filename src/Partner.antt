-- ===== src/Partner.antt =====
-- partner_api.py: the simulated partner, which verifies signed webhooks and is idempotent. What it
-- takes from Python's libraries (the HMAC, the SHA-256, the parse of the body) is an argument.
pub mod Receipts
pub mod Signed
mod Tests
use customer_data_foundation.Prelude.{
  ℕ, suc, ◌+◌, ◌-◌, ◌*◌, Bool, true, false, not, ◌&&◌, ◌||◌, List, [], ◌∷◌, ◌++◌, Option, none,
  some, String, Result, ok, err, ◌>>=◌, ◌>>◌, leb, ltb, ◌==◌, if◌then◌else◌, find, length, all_of,
}
use customer_data_foundation.Sql.{Uuid, Digest, update}
use customer_data_foundation.Database.{Schema, require_current_schema}
use customer_data_foundation.Outbox.{event_type_name, event_schema_version}
use customer_data_foundation.Text.{Text, codes, text_eq}

abbrev pub max_clock_skew_seconds : ℕ
max_clock_skew_seconds = 5 * 60

abbrev pub max_event_bytes : ℕ
max_event_bytes = 16 * 1024

-- rows of partner_receipts and partner_delivery_attempts
pub record Receipt : Type 0 where
  pub event_id : Uuid
  pub body_sha256 : Digest

pub record Attempt : Type 0 where
  pub event_id : Uuid
  pub attempt_count : ℕ

pub record Tables : Type 0 where
  pub receipts : List Receipt
  pub attempts : List Attempt

pub data Outcome : Type 0 where
  accepted transient_failure conflict : Outcome

abbrev pub receipt_of : Uuid → List Receipt → Option Receipt
receipt_of u receipts = find (λ (r : Receipt). r.event_id == u) receipts

abbrev pub count_attempt : Attempt → Attempt
count_attempt a = record a { attempt_count = a.attempt_count + 1 }

-- INSERT ... ON CONFLICT (event_id) DO UPDATE SET attempt_count = attempt_count + 1: the new count
-- and the new rows
unfoldable pub bump_attempt : Uuid → List Attempt → Option Attempt → ℕ × List Attempt
bump_attempt u attempts none = (1, attempts ++ record { event_id = u; attempt_count = 1 } ∷ [])
bump_attempt u attempts (some a) =
    (a.attempt_count + 1, update (λ (b : Attempt). b.event_id == u) count_attempt attempts)

unfoldable pub first_delivery :
    ℕ → Uuid → Digest → Tables → ℕ × List Attempt → (Outcome × Bool) × Tables
first_delivery simulated_failures u body_sha256 t (count, attempts) =
    if leb count simulated_failures
    then ((transient_failure, false), record t { attempts = attempts })
    else (
      (accepted, false),
      record {
        receipts = t.receipts ++ record { event_id = u; body_sha256 = body_sha256 } ∷ [];
        attempts = attempts;
      },
    )

unfoldable pub record_known :
    ℕ → Uuid → Digest → Tables → Option Receipt → (Outcome × Bool) × Tables
record_known simulated_failures u body_sha256 t (some r) =
    if r.body_sha256 == body_sha256 then ((accepted, true), t) else ((conflict, false), t)
record_known simulated_failures u body_sha256 t none =
    first_delivery simulated_failures u body_sha256 t
      (bump_attempt u t.attempts (find (λ (a : Attempt). a.event_id == u) t.attempts))

unfoldable pub record_partner_delivery :
    Schema → ℕ → Uuid → Digest → Tables → Result ((Outcome × Bool) × Tables)
record_partner_delivery schema simulated_failures u body_sha256 t = do
  require_current_schema schema
  ok (record_known simulated_failures u body_sha256 t (receipt_of u t.receipts))

-- what `PartnerEvent.model_validate(json.loads(body))` returns of a valid event; a body that is not
-- UTF-8 is taken for an invalid one
pub record PartnerEvent : Type 0 where
  pub schema_version : Text
  pub event_type : Text
  pub event_id : Uuid

-- an integer; `negsuc n` is -(n + 1)
pub data ℤ : Type 0 where
  pos : ℕ → ℤ
  negsuc : ℕ → ℤ

-- what the receiver takes from its libraries: `int` of a header, the signature of a body, its
-- parse, its digest, and `str(uuid)`
pub record Library : Type 0 where
  pub parse_int : Text → Option ℤ
  pub signature : Text → Text → Text
  pub parse_event : Text → Option PartnerEvent
  pub sha256 : Text → Digest
  pub uuid_text : Uuid → Text

pub record Request : Type 0 where
  pub event_id : Option Text
  pub timestamp : Option Text
  pub signature : Option Text
  pub idempotency_key : Option Text
  pub body : Text

-- the response: the receipt, or the HTTP status of an error
pub data Response : Type 0 where
  receipt : Uuid → Bool → Response
  failure : ℕ → String → Response

-- abs(now - timestamp)
abbrev pub distance : ℕ → ℤ → ℕ
distance now (pos s) = (now - s) + (s - now)
distance now (negsuc n) = now + suc n

-- `none` where the signature is good; `compare_digest` takes no character outside ASCII, and nothing
-- catches its TypeError
unfoldable pub check_timestamp : Library → ℕ → Text → Text → Text → Option ℤ → Option Response
check_timestamp lib now timestamp supplied body none = some (failure 400 "invalid_timestamp")
check_timestamp lib now timestamp supplied body (some seconds) =
    if ltb max_clock_skew_seconds (distance now seconds)
    then some (failure 401 "expired_signature")
    else if not (all_of (λ (c : ℕ). ltb c 128) supplied)
    then some (failure 500 "Internal Server Error")
    else if text_eq (lib.signature timestamp body) supplied
    then none
    else some (failure 401 "invalid_signature")

unfoldable pub verify_signature : Library → ℕ → Text → Text → Text → Option Response
unfolding check_timestamp
verify_signature lib now timestamp supplied body =
    check_timestamp lib now timestamp supplied body (lib.parse_int timestamp)

-- the response to an outcome
abbrev pub respond : Uuid → Outcome × Bool → Response
respond u (accepted, duplicate) = receipt u duplicate
respond u (transient_failure, duplicate) = failure 503 "simulated_failure"
respond u (conflict, duplicate) = failure 409 "event_id_reused"

abbrev pub answer_delivery : Uuid → Tables → Result ((Outcome × Bool) × Tables) → Response × Tables
answer_delivery u t (err e) = (failure 503 "partner_unavailable", t)
answer_delivery u t (ok (o, t')) = (respond u o, t')

-- `receive_import_event` behind the signature, for a parsed body
unfoldable pub receive_event :
    Library → Schema → ℕ → Text → Text → Text → Tables → Option PartnerEvent → Response × Tables
receive_event lib schema simulated_failures event_id_header idempotency_header body t none =
    (failure 422 "invalid_event", t)
receive_event lib schema simulated_failures event_id_header idempotency_header body t (some e) =
    if not (
        text_eq (lib.uuid_text e.event_id) event_id_header
        || text_eq (lib.uuid_text e.event_id) idempotency_header)
      || not (text_eq event_id_header idempotency_header)
    then (failure 409 "event_identity_mismatch", t)
    else if not (text_eq e.schema_version (codes event_schema_version))
        || not (text_eq e.event_type (codes event_type_name))
    then (failure 422 "unsupported_event", t)
    else answer_delivery e.event_id t
        (record_partner_delivery schema simulated_failures e.event_id (lib.sha256 body) t)

abbrev pub behind_signature : Option Response → Tables → Response × Tables → Response × Tables
behind_signature (some r) t x = (r, t)
behind_signature none t x = x

-- the handler for the four headers: event id, timestamp, signature, idempotency key
unfoldable pub receive_signed :
    Library
    → Schema
    → ℕ
    → ℕ
    → Text
    → Tables
    → Option Text
    → Option Text
    → Option Text
    → Option Text
    → Response × Tables
unfolding verify_signature
receive_signed lib schema simulated_failures now body t (some event_id) (some timestamp)
      (some supplied) (some key) =
    if ltb max_event_bytes (length body)
    then (failure 413 "event_too_large", t)
    else behind_signature (verify_signature lib now timestamp supplied body) t
        (receive_event lib schema simulated_failures event_id key body t (lib.parse_event body))
receive_signed lib schema simulated_failures now body t _ _ _ _ =
    (failure 400 "missing_webhook_headers", t)

unfoldable pub receive_import_event :
    Library → Schema → ℕ → ℕ → Request → Tables → Response × Tables
unfolding receive_signed
receive_import_event lib schema simulated_failures now q t =
    receive_signed lib schema simulated_failures now q.body t q.event_id q.timestamp q.signature
      q.idempotency_key
