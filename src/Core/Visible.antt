-- ===== src/Core/Visible.antt =====
-- crates/core/src/retrieval.rs, `decode_visible_entry`: what a grant shows of one raw record.
pub mod Disclosure
use context_layer.Base.{
  ℕ, Bool, true, false, ◌&&◌, ◌==◌, if◌then◌else◌, Text, List, length, Option, none, some, Result,
  ok, err, ◌>>=◌, map_err,
}
use context_layer.Contracts.{
  Uuid, ContentRef, Value, EventEnvelope, EventEnvelopeV2, EventPayload, event_type,
}
use context_layer.Core.Serde.{Serde}
use context_layer.Core.Grants.{
  RetrievalGrant, sensitivity_allowed, filter_refs, refs_from_v1_payload,
}
use context_layer.Core.Timeline.{
  TimelineEntry, RawTimelineRecord, RetrievalError, unsupported_version, malformed_raw_event,
}

entry_v1 : EventEnvelope → List ContentRef → Option Value → TimelineEntry
unfolding event_type
entry_v1 envelope visible_refs payload = record {
  event_id = envelope.event_id;
  schema_version = envelope.schema_version;
  event_type = event_type envelope.payload;
  source = envelope.source;
  source_sequence = envelope.source_sequence;
  occurred_at = none;
  observed_at = envelope.observed_at;
  ingested_at = envelope.ingested_at;
  device_id = none;
  scope_id = envelope.scope_id;
  correlation_id = envelope.correlation_id;
  sensitivity = envelope.sensitivity;
  content_refs = visible_refs;
  payload = payload;
  evidence = envelope.evidence;
}

entry_v2 : EventEnvelopeV2 → List ContentRef → Option Value → TimelineEntry
entry_v2 envelope visible_refs payload = record {
  event_id = envelope.event_id;
  schema_version = envelope.envelope_version;
  event_type = envelope.event_type;
  source = envelope.source;
  source_sequence = envelope.source_sequence;
  occurred_at = envelope.occurred_at;
  observed_at = envelope.observed_at;
  ingested_at = envelope.ingested_at;
  device_id = envelope.device_id;
  scope_id = envelope.scope_id;
  correlation_id = envelope.correlation_id;
  sensitivity = envelope.sensitivity;
  content_refs = visible_refs;
  payload = payload;
  evidence = envelope.evidence;
}

-- The whole payload goes out only when the grant includes payloads and no reference was hidden.
shows_payload : RetrievalGrant → List ContentRef → List ContentRef → Bool
shows_payload grant visible refs = grant.include_payload && (length visible == length refs)

visible_v2 : EventEnvelopeV2 → RetrievalGrant → Option TimelineEntry
unfolding entry_v2 shows_payload
visible_v2 envelope grant =
    let visible_refs = filter_refs envelope.content_refs grant.max_content_retrieval in
    if sensitivity_allowed envelope.sensitivity grant.max_event_sensitivity
    then some (
        entry_v2 envelope visible_refs (
          if shows_payload grant visible_refs envelope.content_refs
          then some envelope.payload
          else none))
    else none

module _ {E : Type 0} (serde : Serde) where
  visible_v1 :
      Uuid → EventEnvelope → RetrievalGrant → Result (Option TimelineEntry) (RetrievalError E)
  unfolding entry_v1 shows_payload
  visible_v1 event_id envelope grant =
      let refs = refs_from_v1_payload envelope.payload in
      let visible_refs = filter_refs refs grant.max_content_retrieval in
      if sensitivity_allowed envelope.sensitivity grant.max_event_sensitivity
      then if shows_payload grant visible_refs refs
        then (do
          value ← map_err (malformed_raw_event event_id) (serde.payload_to_value envelope.payload)
          ok (some (entry_v1 envelope visible_refs (some value))))
        else ok (some (entry_v1 envelope visible_refs none))
      else ok none

  unfoldable pub decode_visible_entry :
      RawTimelineRecord → RetrievalGrant → Result (Option TimelineEntry) (RetrievalError E)
  unfolding visible_v1 visible_v2
  decode_visible_entry r grant =
      if r.schema_version == 1
      then (do
        envelope ← map_err (malformed_raw_event r.event_id) (serde.decode_v1 r.envelope_json)
        visible_v1 r.event_id envelope grant)
      else if r.schema_version == 2
      then (do
        envelope ← map_err (malformed_raw_event r.event_id) (serde.decode_v2 r.envelope_json)
        ok (visible_v2 envelope grant))
      else err (unsupported_version r.event_id r.schema_version)
