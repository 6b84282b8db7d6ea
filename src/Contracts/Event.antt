-- ===== src/Contracts/Event.antt =====
-- The event envelopes, versions 1 and 2, and their payloads.
use context_layer.Contracts.Json.{Value}
use context_layer.Base.{ℕ, Bool, ◌&&◌, Text, text, text_eq, List, [], Option, none, ℤ, leb_ℤ, ltb_ℤ}

abbrev pub Uuid : Type 0
Uuid = ℕ

pub record OffsetDateTime : Type 0 where
  pub unix_nanos : ℤ
  pub offset_seconds : ℤ

abbrev pub before : OffsetDateTime → OffsetDateTime → Bool
before a b = ltb_ℤ a.unix_nanos b.unix_nanos

abbrev pub not_after : OffsetDateTime → OffsetDateTime → Bool
not_after a b = leb_ℤ a.unix_nanos b.unix_nanos

abbrev pub current_schema_version : ℕ
current_schema_version = 1

abbrev pub current_envelope_version : ℕ
current_envelope_version = 2

abbrev pub SourceId : Type 0
SourceId = Text

abbrev pub ScopeId : Type 0
ScopeId = Text

pub record FileIdentity : Type 0 where
  pub provider : Text
  pub namespace : Text
  pub opaque_id : List ℕ

abbrev pub identity_eq : FileIdentity → FileIdentity → Bool
identity_eq a b =
    text_eq a.provider b.provider
    && (text_eq a.namespace b.namespace && text_eq a.opaque_id b.opaque_id)

pub data EvidenceKind : Type 0 where
  observed inferred user_confirmed : EvidenceKind

pub record EvidenceDescriptor : Type 0 where
  pub kind : EvidenceKind
  pub collector : Text
  pub detail : Text

pub data SensitivityClass : Type 0 where
  metadata content_derived sensitive : SensitivityClass

pub data RetrievalClass : Type 0 where
  normal sensitive secret : RetrievalClass

pub record ContentRef : Type 0 where
  pub sha256 : Text
  pub media_type : Text
  pub byte_length : ℕ
  pub compression : Option Text
  pub storage_class : Text
  pub retrieval_class : RetrievalClass

pub data FileChange : Type 0 where
  created modified renamed moved deleted : FileChange

pub data EventPayload : Type 0 where
  task_started : (task_id : Uuid) (name : Text) → EventPayload
  file_observed : (identity : FileIdentity) (path : Text) (change : FileChange) → EventPayload
  browser_download_observed :
      (download_id : Uuid) (url : Text) (referrer : Option Text) (final_path : Text) → EventPayload
  content_observed : (content_kind : Text) (refs : List ContentRef) → EventPayload
  download_matched :
      (download_id : Uuid) (identity : FileIdentity) (url : Text) (source_event_ids : List Uuid)
      → EventPayload
  collector_gap : (collector : Text) (last_sequence : Option ℕ) (reason : Text) → EventPayload

unfoldable pub event_type : EventPayload → Text
event_type (task_started _ _) = text "task.started"
event_type (file_observed _ _ _) = text "file.observed"
event_type (browser_download_observed _ _ _ _) = text "browser.download_observed"
event_type (content_observed _ _) = text "content.observed"
event_type (download_matched _ _ _ _) = text "download.matched"
event_type (collector_gap _ _ _) = text "collector.gap"

pub record EventEnvelope : Type 0 where
  pub event_id : Uuid
  pub schema_version : ℕ
  pub source : SourceId
  pub source_sequence : Option ℕ
  pub observed_at : OffsetDateTime
  pub ingested_at : OffsetDateTime
  pub scope_id : ScopeId
  pub correlation_id : Option Uuid
  pub sensitivity : SensitivityClass
  pub payload : EventPayload
  pub evidence : EvidenceDescriptor

-- What a constructor of an event takes from outside: a fresh identifier and the clock.
pub record Stamp : Type 0 where
  pub fresh_id : Uuid
  pub now : OffsetDateTime

-- `EventEnvelope::observed`.
unfoldable pub observed_event :
    Stamp → Text → Text → OffsetDateTime → EventPayload → Text → Text → EventEnvelope
observed_event stamp source scope_id observed_at payload collector detail = record {
  event_id = stamp.fresh_id;
  schema_version = current_schema_version;
  source = source;
  source_sequence = none;
  observed_at = observed_at;
  ingested_at = stamp.now;
  scope_id = scope_id;
  correlation_id = none;
  sensitivity = SensitivityClass.metadata;
  payload = payload;
  evidence = record { kind = EvidenceKind.observed; collector = collector; detail = detail };
}

pub record EventEnvelopeV2 : Type 0 where
  pub event_id : Uuid
  pub envelope_version : ℕ
  pub event_type : Text
  pub payload_version : ℕ
  pub source : SourceId
  pub source_sequence : Option ℕ
  pub occurred_at : Option OffsetDateTime
  pub observed_at : OffsetDateTime
  pub ingested_at : OffsetDateTime
  pub device_id : Option Text
  pub scope_id : ScopeId
  pub correlation_id : Option Uuid
  pub sensitivity : SensitivityClass
  pub content_refs : List ContentRef
  pub payload : Value
  pub evidence : EvidenceDescriptor

-- `EventEnvelopeV2::observed`.
unfoldable pub observed_event_v2 :
    Stamp → Text → Text → Text → OffsetDateTime → Value → Text → Text → EventEnvelopeV2
observed_event_v2 stamp event_type source scope_id observed_at payload collector detail = record {
  event_id = stamp.fresh_id;
  envelope_version = current_envelope_version;
  event_type = event_type;
  payload_version = 1;
  source = source;
  source_sequence = none;
  occurred_at = none;
  observed_at = observed_at;
  ingested_at = stamp.now;
  device_id = none;
  scope_id = scope_id;
  correlation_id = none;
  sensitivity = SensitivityClass.metadata;
  content_refs = [];
  payload = payload;
  evidence = record { kind = EvidenceKind.observed; collector = collector; detail = detail };
}
