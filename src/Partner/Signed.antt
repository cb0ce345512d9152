-- ===== src/Partner/Signed.antt =====
-- Receipts only for signed bodies of the event that the headers name.
use customer_data_foundation.Prelude.{
  all_of, ℕ, ◌≤◌, ◌≡◌, refl, sym, ap, ◌∙◌, Bool, false, Option, none, some, arith, Result, ok, err,
  String, not, ◌||◌, In, find_sound, ==→eq, ltb, ◌==◌, Bool-cases, inl, inr, length, >>=-eq-ok,
  ok-injective,
}
use customer_data_foundation.Sql.{Uuid, Digest}
use customer_data_foundation.Database.{Schema, require_current_schema}
use customer_data_foundation.Outbox.{event_type_name, event_schema_version}
use customer_data_foundation.Text.{Text, codes, text_eq, text_eq→eq}
use customer_data_foundation.Partner.{
  Receipt, Tables, Outcome, accepted, transient_failure, conflict, answer_delivery, receipt_of,
  record_partner_delivery, ℤ, PartnerEvent, receive_signed, Library, Request, Response, receipt,
  failure, max_event_bytes, max_clock_skew_seconds, distance, check_timestamp, receive_event,
  receive_import_event, behind_signature,
}
use customer_data_foundation.Partner.Receipts.{record_known-accepted}

-- what a request that gets a receipt for `u` has shown, and the row that is stored for it
pub record Verified (lib : Library) (now : ℕ) (body : Text) (event_id timestamp supplied key : Text)
    (u : Uuid) (t' : Tables) : Type 0 where
  pub bounded : length body ≤ max_event_bytes
  pub recent :
      (seconds : ℤ) × (lib.parse_int timestamp ≡ some seconds)
      × (distance now seconds ≤ max_clock_skew_seconds)
  pub signed : lib.signature timestamp body ≡ supplied
  pub event : PartnerEvent
  pub parsed : lib.parse_event body ≡ some event
  pub identified : (event.event_id ≡ u) × (lib.uuid_text u ≡ event_id) × (lib.uuid_text u ≡ key)
  pub supported :
      (event.schema_version ≡ codes "1.0") × (event.event_type ≡ codes "customer_import.completed")
  pub stored : Receipt
  pub kept : In stored t'.receipts
  pub of_event : (stored.event_id ≡ u) × (stored.body_sha256 ≡ lib.sha256 body)

check_timestamp-none :
    (lib : Library) (now : ℕ) (timestamp supplied body : Text) (o : Option ℤ)
    → check_timestamp lib now timestamp supplied body o ≡ none
    → ((seconds : ℤ) × (o ≡ some seconds) × (distance now seconds ≤ max_clock_skew_seconds))
      × (lib.signature timestamp body ≡ supplied)
unfolding check_timestamp
check_timestamp-none lib now timestamp supplied body none h = absurd (cc)
check_timestamp-none lib now timestamp supplied body (some seconds) h =
    elim (Bool-cases (ltb max_clock_skew_seconds (distance now seconds))) [
      | inl old ↦ absurd (none_ne (rw old at h))
      | inr fresh ↦ elim (Bool-cases (not (all_of (λ (c : ℕ). ltb c 128) supplied))) [
        | inl foreign ↦ absurd (none_ne (rw (fresh, foreign) at h))
        | inr plain ↦ elim (Bool-cases (text_eq (lib.signature timestamp body) supplied)) [
          | inl good ↦ ((seconds, refl, not_above _ _ fresh), text_eq→eq _ _ good)
          | inr bad ↦ absurd (none_ne (rw (fresh, plain, bad) at h))
        ]
      ]
    ]
  where
    none_ne : {r : Response} → some r ≡ none → ⊥
    none_ne e = cc

    not_above : (a b : ℕ) → ltb a b ≡ false → b ≤ a
    not_above a b f = ground (arith, f)

-- the identifiers that the code compares: each header is the event's
same_identity :
    (i e k : Text)
    → not (text_eq i e || text_eq i k) || not (text_eq e k) ≡ false
    → (i ≡ e) × (i ≡ k)
same_identity i e k h =
    let headers : e ≡ k = text_eq→eq e k (ground (arith, h)) in
    elim (Bool-cases (text_eq i e)) [
      | inl same ↦ (text_eq→eq i e same, text_eq→eq i e same ∙ headers)
      | inr other ↦
          let same : i ≡ k = text_eq→eq i k (ground (arith, h, other)) in (same ∙ sym headers, same)
    ]

same_contract :
    (v w e f : Text) → not (text_eq v w) || not (text_eq e f) ≡ false → (v ≡ w) × (e ≡ f)
same_contract v w e f h = (text_eq→eq v w (ground (arith, h)), text_eq→eq e f (ground (arith, h)))

-- what an event that gets a receipt is, and its row
record Received (lib : Library) (event_id key body : Text) (e : PartnerEvent) (u : Uuid)
    (t' : Tables) : Type 0 where
  identity : (lib.uuid_text e.event_id ≡ event_id) × (lib.uuid_text e.event_id ≡ key)
  contract :
      (e.schema_version ≡ codes event_schema_version) × (e.event_type ≡ codes event_type_name)
  named : e.event_id ≡ u
  row : Receipt
  found : receipt_of e.event_id t'.receipts ≡ some row
  digest : row.body_sha256 ≡ lib.sha256 body

answer_delivery-receipt :
    (schema : Schema) (n : ℕ) (i : Uuid) (d : Digest) (t : Tables)
    (m : Result ((Outcome × Bool) × Tables)) {u : Uuid} {b : Bool}
    → record_partner_delivery schema n i d t ≡ m
    → (answer_delivery i t m).0 ≡ receipt u b
    → (i ≡ u)
      × ((r : Receipt) × (receipt_of i (answer_delivery i t m).1.receipts ≡ some r)
          × (r.body_sha256 ≡ d))
unfolding record_partner_delivery
answer_delivery-receipt schema n i d t (err e) m h = absurd (cc)
answer_delivery-receipt schema n i d t (ok ((transient_failure, c), t')) m h = absurd (cc)
answer_delivery-receipt schema n i d t (ok ((conflict, c), t')) m h = absurd (cc)
answer_delivery-receipt schema n i d t (ok ((accepted, c), t')) m h =
    let (_, _, g) = >>=-eq-ok (require_current_schema schema) _ m in
    let e = ok-injective g in
    let (r, f, same) =
      record_known-accepted n i d t (receipt_of i t.receipts) c refl
        (ap (λ (y : (Outcome × Bool) × Tables). y.0) e) in
    (cc, (r, ap (λ (y : (Outcome × Bool) × Tables). receipt_of i y.1.receipts) (sym e) ∙ f, same))

receive_event-Received :
    (lib : Library) (schema : Schema) (n : ℕ) (event_id key body : Text) (t : Tables)
    (o : Option PartnerEvent) {u : Uuid} {b : Bool}
    → (receive_event lib schema n event_id key body t o).0 ≡ receipt u b
    → (e : PartnerEvent) × (o ≡ some e)
      × Received lib event_id key body e u (receive_event lib schema n event_id key body t o).1
unfolding receive_event
receive_event-Received lib schema n event_id key body t none h = absurd (cc)
receive_event-Received lib schema n event_id key body t (some e) {u} {b} h =
    elim (Bool-cases (
      not (text_eq (lib.uuid_text e.event_id) event_id || text_eq (lib.uuid_text e.event_id) key)
      || not (text_eq event_id key))) [
        | inl differ ↦ absurd (nothing (rw differ at h))
        | inr same ↦
            elim (Bool-cases (
              not (text_eq e.schema_version (codes event_schema_version))
              || not (text_eq e.event_type (codes event_type_name)))) [
                | inl other ↦ absurd (nothing (rw (same, other) at h))
                | inr right ↦
                    let (v, (r, f, d)) =
                      answer_delivery-receipt schema n e.event_id (lib.sha256 body) t
                        (record_partner_delivery schema n e.event_id (lib.sha256 body) t) refl
                        (rw (same, right) at h) in
                    (
                      e,
                      refl,
                      rw (same, right)
                          (record {
                            identity = same_identity (lib.uuid_text e.event_id) event_id key same;
                            contract = same_contract _ _ _ _ right;
                            named = v;
                            row = r;
                            found = f;
                            digest = d;
                          }),
                    )
              ]
      ]
  where
    nothing : {c : ℕ} {w : String} → failure c w ≡ receipt u b → ⊥
    nothing k = cc

failed_check :
    (lib : Library) (now : ℕ) (timestamp supplied body : Text) (o : Option ℤ) (r : Response)
    {u : Uuid} {b : Bool}
    → check_timestamp lib now timestamp supplied body o ≡ some r
    → r ≡ receipt u b
    → ⊥
unfolding check_timestamp
failed_check lib now timestamp supplied body none r h e = cc
failed_check lib now timestamp supplied body (some seconds) r h e = ground (arith, h, e)

receive_signed-Verified :
    (lib : Library) (schema : Schema) (n now : ℕ) (body : Text) (t : Tables)
    (event_id timestamp supplied key : Text) {u : Uuid} {b : Bool}
    → (receive_signed lib schema n now body t
        (some event_id)
        (some timestamp)
        (some supplied)
        (some key)).0
      ≡ receipt u b
    → Verified lib now body event_id timestamp supplied key u
        (receive_signed lib schema n now body t
          (some event_id)
          (some timestamp)
          (some supplied)
          (some key)).1
unfolding receive_signed
receive_signed-Verified lib schema n now body t event_id timestamp supplied key {u} {b} h =
    elim (Bool-cases (ltb max_event_bytes (length body))) [
      | inl large ↦ absurd (too_large (rw large at h))
      | inr small ↦ rw small (
          gate small (check_timestamp lib now timestamp supplied body (lib.parse_int timestamp))
            refl (rw small at h))
    ]
  where
    too_large : failure 413 "event_too_large" ≡ receipt u b → ⊥
    too_large e = cc

    small_enough : (a c : ℕ) → ltb a c ≡ false → c ≤ a
    small_enough a c f = ground (arith, f)

    gate :
        ltb max_event_bytes (length body) ≡ false
        → (o : Option Response)
        → check_timestamp lib now timestamp supplied body (lib.parse_int timestamp) ≡ o
        → (behind_signature o t
            (receive_event lib schema n event_id key body t (lib.parse_event body))).0
          ≡ receipt u b
        → Verified lib now body event_id timestamp supplied key u
            (behind_signature o t
              (receive_event lib schema n event_id key body t (lib.parse_event body))).1
    gate small (some r) e h =
        absurd (failed_check lib now timestamp supplied body (lib.parse_int timestamp) r e h)
    gate small none e h =
        let (when, sign) =
          check_timestamp-none lib now timestamp supplied body (lib.parse_int timestamp) e in
        let (event, parse, w) =
          receive_event-Received lib schema n event_id key body t (lib.parse_event body) h in
        let (inside, same) = find_sound (λ (r : Receipt). r.event_id == event.event_id) _ w.found in
        record {
          bounded = small_enough max_event_bytes (length body) small;
          recent = when;
          signed = sign;
          event = event;
          parsed = parse;
          identified = (
            w.named,
            ap lib.uuid_text (sym w.named) ∙ w.identity.0,
            ap lib.uuid_text (sym w.named) ∙ w.identity.1,
          );
          supported = w.contract;
          stored = w.row;
          kept = inside;
          of_event = (==→eq _ _ same ∙ w.named, w.digest);
        }

-- Every receipt is for a request whose four headers are present, whose body is within the limit and
-- signed with the shared secret over its timestamp, whose timestamp is at most five minutes from now
-- in either direction, and whose body parses to an event of the supported contract. The receipt is
-- for the identifier of that event, whose text is both the event header and the idempotency key, and
-- the table then has a row of that identifier with the digest of the body.
pub receive_import_event-Verified :
    (lib : Library) (schema : Schema) (n now : ℕ) (q : Request) (t : Tables) {u : Uuid} {b : Bool}
    → (receive_import_event lib schema n now q t).0 ≡ receipt u b
    → (event_id timestamp supplied key : Text) × (q.event_id ≡ some event_id)
      × (q.timestamp ≡ some timestamp)
      × (q.signature ≡ some supplied)
      × (q.idempotency_key ≡ some key)
      × Verified lib now q.body event_id timestamp supplied key u
          (receive_import_event lib schema n now q t).1
unfolding receive_import_event
receive_import_event-Verified lib schema n now q t {u} {b} h =
    headers q.event_id q.timestamp q.signature q.idempotency_key h
  where
    headers :
        (e s g k : Option Text)
        → (receive_signed lib schema n now q.body t e s g k).0 ≡ receipt u b
        → (event_id timestamp supplied key : Text) × (e ≡ some event_id)
          × (s ≡ some timestamp)
          × (g ≡ some supplied)
          × (k ≡ some key)
          × Verified lib now q.body event_id timestamp supplied key u
              (receive_signed lib schema n now q.body t e s g k).1
    headers (some event_id) (some timestamp) (some supplied) (some key) h = (
      event_id,
      timestamp,
      supplied,
      key,
      refl,
      refl,
      refl,
      refl,
      receive_signed-Verified lib schema n now q.body t event_id timestamp supplied key h,
    )
    headers _ _ _ _ h = absurd (cc)
