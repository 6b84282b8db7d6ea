-- ===== src/Core/ContentAccess/Laws.antt =====
-- What an authorised reference implies, and what a refusal hides.
use context_layer.Base.{
  ◌≤◌, ◌≡◌, refl, Bool, true, false, Bool-cases, Option-cases, Result-cases, Text, text_eq,
  eq_of_text_eq, find, find_passes, Option, none, some, ok, inl, inr, arith, ◌⊎◌,
}
use context_layer.Contracts.{Uuid, ScopeId, SensitivityClass, ContentRef}
use context_layer.Core.Serde.{Serde}
use context_layer.Core.Grants.{
  RetrievalGrant, sensitivity_rank, sensitivity_allowed, sensitivity_allowed-le,
  retrieval_class_rank, retrieval_class_allowed, retrieval_class_allowed-le,
}
use context_layer.Core.ContentAccess.{
  RawEventLookup, RawEventLookupRepository, AuthorizedContentRef, Envelope, agrees, read_envelope,
  select_reference, authorize_envelope, authorize_indexed, authorize_row, authorize_reference,
}

-- A reference is authorised for a caller.
pub record Authorized {E : Type 0} (serde : Serde) (repo : RawEventLookupRepository E)
    (event_id : Uuid) (sha256 : Text) (grant : RetrievalGrant) (scope_allowed : ScopeId → Bool)
    (a : AuthorizedContentRef) : Type 0 where
  pub raw : RawEventLookup
  pub envelope : Envelope
  pub indexed : SensitivityClass
  pub found : repo event_id ≡ ok (some raw)
  pub scope_ok : scope_allowed raw.scope_id ≡ true
  pub indexed_ok : serde.decode_sensitivity raw.sensitivity_json ≡ ok indexed
  pub event_level : sensitivity_rank indexed ≤ sensitivity_rank grant.max_event_sensitivity
  pub decoded : read_envelope {E = E} serde event_id raw ≡ ok envelope
  pub same_event : envelope.event_id ≡ raw.event_id
  pub same_scope : envelope.scope_id ≡ raw.scope_id
  pub same_level : sensitivity_rank envelope.sensitivity ≡ sensitivity_rank indexed
  pub listed : find (λ r. text_eq r.sha256 sha256) envelope.refs ≡ some a.reference
  pub same_digest : a.reference.sha256 ≡ sha256
  pub ref_level :
      retrieval_class_rank a.reference.retrieval_class
      ≤ retrieval_class_rank grant.max_content_retrieval
  pub answers_event : a.event_id ≡ event_id
  pub answers_scope : a.scope_id ≡ envelope.scope_id
  pub answers_level : a.event_sensitivity ≡ envelope.sensitivity

select_some :
    (event_id : Uuid) (sha256 : Text) (grant : RetrievalGrant) (envelope : Envelope)
    (o : Option ContentRef) (a : AuthorizedContentRef)
    → select_reference event_id sha256 grant envelope o ≡ some a
    → (retrieval_class_allowed a.reference.retrieval_class grant.max_content_retrieval ≡ true)
      × (o ≡ some a.reference)
      × (a.event_id ≡ event_id)
      × (a.scope_id ≡ envelope.scope_id)
      × (a.event_sensitivity ≡ envelope.sensitivity)
unfolding select_reference
select_some event_id sha256 grant envelope none a h = absurd (ground arith)
select_some event_id sha256 grant envelope (some r) a h = ground arith

module _ {E : Type 0} (serde : Serde) (repo : RawEventLookupRepository E) (event_id : Uuid)
    (sha256 : Text) (grant : RetrievalGrant) (scope_allowed : ScopeId → Bool)
    (a : AuthorizedContentRef) where
  row_found :
      authorize_reference serde repo event_id sha256 grant scope_allowed ≡ ok (some a)
      → (raw : RawEventLookup) × (repo event_id ≡ ok (some raw))
        × (authorize_row {E = E} serde event_id sha256 grant scope_allowed (some raw) ≡ ok (some a))
  unfolding authorize_reference
  row_found h = elim (Result-cases (repo event_id)) [
    | inr (e, d) ↦ absurd (ground arith)
    | inl (o, d) ↦ elim (Option-cases o) [
      | inl e ↦ absurd (ground (arith, empty_row))
      | inr (raw, e) ↦ (raw, ground arith, ground arith)
    ]
  ]
    where
      empty_row : authorize_row {E = E} serde event_id sha256 grant scope_allowed none ≡ ok none
      empty_row = unfold authorize_row in refl

  row_indexed :
      (raw : RawEventLookup)
      → authorize_row {E = E} serde event_id sha256 grant scope_allowed (some raw) ≡ ok (some a)
      → (indexed : SensitivityClass) × (scope_allowed raw.scope_id ≡ true)
        × (serde.decode_sensitivity raw.sensitivity_json ≡ ok indexed)
        × (authorize_indexed {E = E} serde event_id sha256 grant raw indexed ≡ ok (some a))
  unfolding authorize_row
  row_indexed raw h = elim (Result-cases (serde.decode_sensitivity raw.sensitivity_json)) [
    | inr (m, d) ↦ absurd (ground arith)
    | inl (indexed, d) ↦ (indexed, ground arith, d, ground arith)
  ]

  indexed_envelope :
      (raw : RawEventLookup) (indexed : SensitivityClass)
      → authorize_indexed {E = E} serde event_id sha256 grant raw indexed ≡ ok (some a)
      → (envelope : Envelope) × (sensitivity_allowed indexed grant.max_event_sensitivity ≡ true)
        × (read_envelope {E = E} serde event_id raw ≡ ok envelope)
        × (authorize_envelope {E = E} serde event_id sha256 grant raw indexed envelope
            ≡ ok (some a))
  unfolding authorize_indexed
  indexed_envelope raw indexed h = elim (Result-cases (read_envelope {E = E} serde event_id raw)) [
    | inr (m, d) ↦ absurd (ground arith)
    | inl (envelope, d) ↦ (envelope, ground arith, d, ground arith)
  ]

  envelope_selected :
      (raw : RawEventLookup) (indexed : SensitivityClass) (envelope : Envelope)
      → authorize_envelope {E = E} serde event_id sha256 grant raw indexed envelope ≡ ok (some a)
      → (agrees envelope raw indexed ≡ true)
        × (select_reference event_id sha256 grant envelope
              (find (λ r. text_eq r.sha256 sha256) envelope.refs)
            ≡ some a)
  unfolding authorize_envelope
  envelope_selected raw indexed envelope h = ground arith

agrees_parts :
    (envelope : Envelope) (raw : RawEventLookup) (indexed : SensitivityClass)
    → agrees envelope raw indexed ≡ true
    → (envelope.event_id ≡ raw.event_id)
      × (envelope.scope_id ≡ raw.scope_id)
      × (sensitivity_rank envelope.sensitivity ≡ sensitivity_rank indexed)
unfolding agrees
agrees_parts envelope raw indexed h =
    (ground arith, eq_of_text_eq envelope.scope_id raw.scope_id (ground arith), ground arith)

-- If a reference is authorised then the event has a row in an allowed scope; its indexed sensitivity
-- is within the grant; the envelope decodes and agrees with the row on event, scope and
-- sensitivity; the reference is the first one of the envelope with the digest that was asked for,
-- its class is within the grant, and the answer names that event, scope and sensitivity.
pub authorize_reference-Authorized :
    {E : Type 0} (serde : Serde) (repo : RawEventLookupRepository E) (event_id : Uuid)
    (sha256 : Text) (grant : RetrievalGrant) (scope_allowed : ScopeId → Bool)
    (a : AuthorizedContentRef)
    → authorize_reference serde repo event_id sha256 grant scope_allowed ≡ ok (some a)
    → Authorized serde repo event_id sha256 grant scope_allowed a
authorize_reference-Authorized {E} serde repo event_id sha256 grant scope_allowed a h =
    let (raw, found, r) = row_found serde repo event_id sha256 grant scope_allowed a h in
    let (indexed, scope_ok, indexed_ok, i) =
      row_indexed serde repo event_id sha256 grant scope_allowed a raw r in
    let (envelope, level, decoded, v) =
      indexed_envelope serde repo event_id sha256 grant scope_allowed a raw indexed i in
    let (agree, chosen) =
      envelope_selected serde repo event_id sha256 grant scope_allowed a raw indexed envelope v in
    let (same_event, same_scope, same_level) = agrees_parts envelope raw indexed agree in
    let (class_ok, listed, for_event, for_scope, for_level) =
      select_some event_id sha256 grant envelope _ a chosen in
    record {
      raw = raw;
      envelope = envelope;
      indexed = indexed;
      found = found;
      scope_ok = scope_ok;
      indexed_ok = indexed_ok;
      event_level = sensitivity_allowed-le indexed grant.max_event_sensitivity level;
      decoded = decoded;
      same_event = same_event;
      same_scope = same_scope;
      same_level = same_level;
      listed = listed;
      same_digest =
          eq_of_text_eq a.reference.sha256 sha256
            (find_passes (λ r. text_eq r.sha256 sha256) envelope.refs a.reference listed);
      ref_level =
          retrieval_class_allowed-le a.reference.retrieval_class grant.max_content_retrieval
            class_ok;
      answers_event = for_event;
      answers_scope = for_scope;
      answers_level = for_level;
    }

-- Outside the allowed scopes, and above the granted sensitivity, an event is answered as one that
-- does not exist, whatever its envelope holds; outside the scopes, whatever its whole row holds.
pub authorize_reference_hidden :
    {E : Type 0} (serde : Serde) (repo : RawEventLookupRepository E) (event_id : Uuid)
    (sha256 : Text) (grant : RetrievalGrant) (scope_allowed : ScopeId → Bool) (raw : RawEventLookup)
    → repo event_id ≡ ok (some raw)
    → (scope_allowed raw.scope_id ≡ false)
      ⊎ ((indexed : SensitivityClass) × (serde.decode_sensitivity raw.sensitivity_json ≡ ok indexed)
          × (sensitivity_allowed indexed grant.max_event_sensitivity ≡ false))
    → authorize_reference serde repo event_id sha256 grant scope_allowed
      ≡ authorize_reference {E = E} serde (λ _. ok none) event_id sha256 grant scope_allowed
unfolding authorize_reference
authorize_reference_hidden serde repo event_id sha256 grant scope_allowed raw found (inl outside) =
    rw (found, outside, authorize_row) refl
authorize_reference_hidden serde repo event_id sha256 grant scope_allowed raw found
      (inr (indexed, d, above)) =
    elim (Bool-cases (scope_allowed raw.scope_id)) [
      | inl inside ↦ rw (found, inside, d, above) refl
      | inr outside ↦ rw (found, outside) refl
    ]
