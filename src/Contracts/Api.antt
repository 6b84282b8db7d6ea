-- ===== src/Contracts/Api.antt =====
-- The local API: requests, commands, responses and results.
use context_layer.Contracts.Json.{Value}
use context_layer.Contracts.Event.{
  Uuid, OffsetDateTime, SourceId, ScopeId, SensitivityClass, ContentRef, EvidenceDescriptor,
  EventEnvelope, EventEnvelopeV2,
}
use context_layer.Base.{ℕ, Bool, Text, List, Option}

abbrev pub local_api_version : ℕ
local_api_version = 1

abbrev pub ReadCapabilityToken : Type 0
ReadCapabilityToken = Text

pub record LocalTimelineCursor : Type 0 where
  pub observed_at : OffsetDateTime
  pub event_id : Uuid

pub record LocalTimelineQuery : Type 0 where
  pub scope_id : ScopeId
  pub start_at : Option OffsetDateTime
  pub end_at : Option OffsetDateTime
  pub before : Option LocalTimelineCursor
  pub limit : ℕ

pub record LocalTimelineEntry : Type 0 where
  pub event_id : Uuid
  pub schema_version : ℕ
  pub event_type : Text
  pub source : SourceId
  pub source_sequence : Option ℕ
  pub occurred_at : Option OffsetDateTime
  pub observed_at : OffsetDateTime
  pub ingested_at : OffsetDateTime
  pub device_id : Option Text
  pub scope_id : ScopeId
  pub correlation_id : Option Uuid
  pub sensitivity : SensitivityClass
  pub content_refs : List ContentRef
  pub content_refs_omitted : ℕ
  pub payload : Option Value
  pub payload_omitted_reason : Option Text
  pub evidence : EvidenceDescriptor

pub record LocalTimelinePage : Type 0 where
  pub entries : List LocalTimelineEntry
  pub next_cursor : Option LocalTimelineCursor

pub record LocalTextContent : Type 0 where
  pub event_id : Uuid
  pub sha256 : Text
  pub media_type : Text
  pub byte_length : ℕ
  pub content : Text

pub data LocalApiCommand : Type 0 where
  handshake : (client_name : Text) → LocalApiCommand
  submit_event : (event : EventEnvelope) → LocalApiCommand
  submit_event_v2 : (event : EventEnvelopeV2) → LocalApiCommand
  query_timeline :
      (authorization : ReadCapabilityToken) (query : LocalTimelineQuery) → LocalApiCommand
  read_text_content :
      (authorization : ReadCapabilityToken) (event_id : Uuid) (sha256 : Text) → LocalApiCommand

pub record LocalApiRequest : Type 0 where
  pub request_id : Uuid
  pub protocol_version : ℕ
  pub command : LocalApiCommand

pub data LocalApiResult : Type 0 where
  ready : (server_name : Text) → LocalApiResult
  event_accepted : (event_id : Uuid) (duplicate : Bool) → LocalApiResult
  timeline_page : (page : LocalTimelinePage) → LocalApiResult
  text_content : (content : LocalTextContent) → LocalApiResult
  error : (code : Text) (message : Text) → LocalApiResult

pub record LocalApiResponse : Type 0 where
  pub request_id : Uuid
  pub protocol_version : ℕ
  pub result : LocalApiResult
