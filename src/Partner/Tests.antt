-- ===== src/Partner/Tests.antt =====
-- The theorems on the partner's receiver at one event, with a toy signature.
use customer_data_foundation.Prelude.{◌≡◌, refl, false, [], ◌∷◌, ◌++◌, some, ok}
use customer_data_foundation.Database.{current_schema, require_current_schema}
use customer_data_foundation.Outbox.{event_type_name, event_schema_version}
use customer_data_foundation.Text.{Text, codes}
use customer_data_foundation.Partner.{
  Tables, accepted, conflict, bump_attempt, first_delivery, record_known, record_partner_delivery,
  Library, pos, Request, receipt, check_timestamp, verify_signature, receive_event, receive_signed,
  receive_import_event,
}
use customer_data_foundation.Partner.Receipts.{record_partner_delivery-again}
use customer_data_foundation.Partner.Signed.{Verified, receive_import_event-Verified}

abbrev no_rows : Tables
no_rows = record { receipts = []; attempts = [] }

abbrev one_receipt : Tables
one_receipt = record {
  receipts = record { event_id = 7; body_sha256 = 70 } ∷ [];
  attempts = record { event_id = 7; attempt_count = 1 } ∷ [];
}

is_current : require_current_schema current_schema ≡ ok tt
unfolding require_current_schema
is_current = refl

first_time :
    record_partner_delivery current_schema 0 7 70 no_rows ≡ ok ((accepted, false), one_receipt)
unfolding record_partner_delivery record_known first_delivery bump_attempt require_current_schema
first_time = refl

record_partner_delivery-again_example :
    record_partner_delivery current_schema 2 7 71 one_receipt ≡ ok ((conflict, false), one_receipt)
record_partner_delivery-again_example =
    record_partner_delivery-again current_schema current_schema 0 2 7 70 71 no_rows false first_time
      is_current

-- a library in which the signature is the timestamp and the body, and an identifier one character
abbrev toy : Library
toy = record {
  parse_int = λ t. some (pos 1000);
  signature = λ timestamp body. timestamp ++ body;
  parse_event = λ body. some (record {
    schema_version = codes event_schema_version;
    event_type = codes event_type_name;
    event_id = 7;
  });
  sha256 = λ body. 70;
  uuid_text = λ u. u ∷ [];
}

abbrev signed_request : Request
signed_request = record {
  event_id = some (7 ∷ []);
  timestamp = some (49 ∷ []);
  signature = some (49 ∷ 123 ∷ []);
  idempotency_key = some (7 ∷ []);
  body = 123 ∷ [];
}

gets_receipt :
    (receive_import_event toy current_schema 0 1200 signed_request no_rows).0 ≡ receipt 7 false
unfolding receive_import_event receive_signed verify_signature check_timestamp receive_event
    record_partner_delivery record_known first_delivery bump_attempt require_current_schema
gets_receipt = refl

receive_import_event-Verified_example :
    (event_id timestamp supplied key : Text) × (signed_request.event_id ≡ some event_id)
    × (signed_request.timestamp ≡ some timestamp)
    × (signed_request.signature ≡ some supplied)
    × (signed_request.idempotency_key ≡ some key)
    × Verified toy 1200 signed_request.body event_id timestamp supplied key 7
        (receive_import_event toy current_schema 0 1200 signed_request no_rows).1
receive_import_event-Verified_example =
    receive_import_event-Verified toy current_schema 0 1200 signed_request no_rows gets_receipt
