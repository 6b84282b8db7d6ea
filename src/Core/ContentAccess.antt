-- ===== src/Core/ContentAccess.antt =====
-- crates/core/src/content_access.rs: which reference to stored content a grant authorises. The two
-- ranks that the file declares once more are those of `Grants`.
pub mod Laws
use context_layer.Base.{
  ℕ, Bool, true, false, ◌&&◌, ◌==◌, if◌then◌else◌, not, Text, text_eq, List, [], find, Option, none,
  some, Result, ok, err, ◌>>=◌, map_err,
}
use context_layer.Contracts.{
  Uuid, ScopeId, SensitivityClass, ContentRef, EventPayload, EventEnvelope, EventEnvelopeV2,
}
use context_layer.Core.Serde.{Serde}
use context_layer.Core.Grants.{
  RetrievalGrant, sensitivity_rank, sensitivity_allowed, retrieval_class_allowed,
  refs_from_v1_payload,
}

pub record RawEventLookup : Type 0 where
  pub event_id : Uuid
  pub schema_version : ℕ
  pub scope_id : ScopeId
  pub sensitivity_json : Text
  pub envelope_json : Text

-- `RawEventLookupRepository::raw_event_by_id`, for errors of type `E`.
abbrev pub RawEventLookupRepository : Type 0 → Type 0
RawEventLookupRepository E = Uuid → Result (Option RawEventLookup) E

pub record AuthorizedContentRef : Type 0 where
  pub event_id : Uuid
  pub scope_id : ScopeId
  pub event_sensitivity : SensitivityClass
  pub reference : ContentRef

pub data ContentAccessError (E : Type 0) : Type 0 where
  repository : E → ContentAccessError E
  unsupported_version : (event_id : Uuid) (version : ℕ) → ContentAccessError E
  malformed_indexed_sensitivity : (event_id : Uuid) (message : Text) → ContentAccessError E
  malformed_raw_event : (event_id : Uuid) (message : Text) → ContentAccessError E
  envelope_metadata_mismatch : (event_id : Uuid) → ContentAccessError E

-- What is read of an envelope of either version.
pub record Envelope : Type 0 where
  pub scope_id : ScopeId
  pub sensitivity : SensitivityClass
  pub refs : List ContentRef
  pub event_id : Uuid

abbrev pub sensitivity_eq : SensitivityClass → SensitivityClass → Bool
sensitivity_eq a b = sensitivity_rank a == sensitivity_rank b

envelope_of_v1 : EventEnvelope → Envelope
envelope_of_v1 e = record {
  scope_id = e.scope_id;
  sensitivity = e.sensitivity;
  refs = refs_from_v1_payload e.payload;
  event_id = e.event_id;
}

envelope_of_v2 : EventEnvelopeV2 → Envelope
envelope_of_v2 e = record {
  scope_id = e.scope_id;
  sensitivity = e.sensitivity;
  refs = e.content_refs;
  event_id = e.event_id;
}

agrees : Envelope → RawEventLookup → SensitivityClass → Bool
agrees envelope raw indexed =
    (envelope.event_id == raw.event_id)
    && (text_eq envelope.scope_id raw.scope_id && sensitivity_eq envelope.sensitivity indexed)

-- The reference that the envelope has under the digest, if its class is within the grant.
select_reference :
    Uuid → Text → RetrievalGrant → Envelope → Option ContentRef → Option AuthorizedContentRef
select_reference event_id sha256 grant envelope none = none
select_reference event_id sha256 grant envelope (some reference) =
    if retrieval_class_allowed reference.retrieval_class grant.max_content_retrieval
    then some (record {
      event_id = event_id;
      scope_id = envelope.scope_id;
      event_sensitivity = envelope.sensitivity;
      reference = reference;
    })
    else none

module _ {E : Type 0} (serde : Serde) where
  pub read_envelope : Uuid → RawEventLookup → Result Envelope (ContentAccessError E)
  unfolding envelope_of_v1 envelope_of_v2
  read_envelope event_id raw =
      if raw.schema_version == 1
      then (do
        envelope ← map_err (malformed_raw_event event_id) (serde.decode_v1 raw.envelope_json)
        ok (envelope_of_v1 envelope))
      else if raw.schema_version == 2
      then (do
        envelope ← map_err (malformed_raw_event event_id) (serde.decode_v2 raw.envelope_json)
        ok (envelope_of_v2 envelope))
      else err (unsupported_version event_id raw.schema_version)

  authorize_envelope :
      Uuid
      → Text
      → RetrievalGrant
      → RawEventLookup
      → SensitivityClass
      → Envelope
      → Result (Option AuthorizedContentRef) (ContentAccessError E)
  unfolding select_reference agrees
  authorize_envelope event_id sha256 grant raw indexed envelope =
      if agrees envelope raw indexed
      then ok (
          select_reference event_id sha256 grant envelope
            (find (λ r. text_eq r.sha256 sha256) envelope.refs))
      else err (envelope_metadata_mismatch event_id)

  -- From the indexed sensitivity on.
  authorize_indexed :
      Uuid
      → Text
      → RetrievalGrant
      → RawEventLookup
      → SensitivityClass
      → Result (Option AuthorizedContentRef) (ContentAccessError E)
  unfolding read_envelope authorize_envelope
  authorize_indexed event_id sha256 grant raw indexed =
      if sensitivity_allowed indexed grant.max_event_sensitivity
      then (do
        envelope ← read_envelope event_id raw
        authorize_envelope event_id sha256 grant raw indexed envelope)
      else ok none

  -- From the row on.
  authorize_row :
      Uuid
      → Text
      → RetrievalGrant
      → (ScopeId → Bool)
      → Option RawEventLookup
      → Result (Option AuthorizedContentRef) (ContentAccessError E)
  unfolding authorize_indexed
  authorize_row event_id sha256 grant scope_allowed none = ok none
  authorize_row event_id sha256 grant scope_allowed (some raw) =
      if scope_allowed raw.scope_id
      then (map_err (malformed_indexed_sensitivity event_id)
            (serde.decode_sensitivity raw.sensitivity_json)
          >>= authorize_indexed event_id sha256 grant raw)
      else ok none

  unfoldable pub authorize_reference :
      RawEventLookupRepository E
      → Uuid
      → Text
      → RetrievalGrant
      → (ScopeId → Bool)
      → Result (Option AuthorizedContentRef) (ContentAccessError E)
  unfolding authorize_row
  authorize_reference repo event_id sha256 grant scope_allowed = do
    raw ← map_err repository (repo event_id)
    authorize_row event_id sha256 grant scope_allowed raw
