-- ===== src/Core/Timeline.antt =====
-- crates/core/src/retrieval.rs, the types of a timeline query and the checks on one.
use context_layer.Base.{
  ℕ, Bool, false, ◌&&◌, leb, Text, trim, is_empty, List, Option, some, Result, ◌>>◌, ensure, not,
}
use context_layer.Contracts.{
  Uuid, OffsetDateTime, before as earlier, SourceId, ScopeId, SensitivityClass, ContentRef, Value,
  EvidenceDescriptor,
}

abbrev pub max_timeline_page_size : ℕ
max_timeline_page_size = 200

abbrev pub raw_batch_size : ℕ
raw_batch_size = 200

abbrev pub max_raw_scan_per_query : ℕ
max_raw_scan_per_query = 5000

pub record TimelineCursor : Type 0 where
  pub observed_at : OffsetDateTime
  pub event_id : Uuid

pub record TimelineQuery : Type 0 where
  pub scope_id : ScopeId
  pub start_at : Option OffsetDateTime
  pub end_at : Option OffsetDateTime
  pub before : Option TimelineCursor
  pub limit : ℕ

pub record TimelineEntry : Type 0 where
  pub event_id : Uuid
  pub schema_version : ℕ
  pub event_type : Text
  pub source : SourceId
  pub source_sequence : Option ℕ
  pub occurred_at : Option OffsetDateTime
  pub observed_at : OffsetDateTime
  pub ingested_at : OffsetDateTime
  pub device_id : Option Text
  pub scope_id : ScopeId
  pub correlation_id : Option Uuid
  pub sensitivity : SensitivityClass
  pub content_refs : List ContentRef
  pub payload : Option Value
  pub evidence : EvidenceDescriptor

pub record TimelinePage : Type 0 where
  pub entries : List TimelineEntry
  pub next_cursor : Option TimelineCursor

pub record RawTimelineQuery : Type 0 where
  pub scope_id : ScopeId
  pub start_at : Option OffsetDateTime
  pub end_at : Option OffsetDateTime
  pub before : Option TimelineCursor
  pub limit : ℕ

pub record RawTimelineRecord : Type 0 where
  pub event_id : Uuid
  pub schema_version : ℕ
  pub observed_at : OffsetDateTime
  pub envelope_json : Text

pub record RawTimelinePage : Type 0 where
  pub records : List RawTimelineRecord
  pub has_more : Bool

-- `TimelineRepository::query_raw_timeline`, for errors of type `E`.
abbrev pub TimelineRepository : Type 0 → Type 0
TimelineRepository E = RawTimelineQuery → Result RawTimelinePage E

pub data RetrievalError (E : Type 0) : Type 0 where
  empty_scope invalid_limit invalid_time_range : RetrievalError E
  repository : E → RetrievalError E
  unsupported_version : (event_id : Uuid) (version : ℕ) → RetrievalError E
  malformed_raw_event : (event_id : Uuid) (message : Text) → RetrievalError E

abbrev pub cursor_of : RawTimelineRecord → TimelineCursor
cursor_of r = record { observed_at = r.observed_at; event_id = r.event_id }

abbrev pub ends_before_start : Option OffsetDateTime → Option OffsetDateTime → Bool
ends_before_start (some start) (some end_at) = not (earlier start end_at)
ends_before_start _ _ = false

unfoldable pub validate_query : {E : Type 0} → TimelineQuery → Result (Unit {0}) (RetrievalError E)
validate_query query = do
  ensure (not (is_empty (trim query.scope_id))) empty_scope
  ensure (leb 1 query.limit && leb query.limit max_timeline_page_size) invalid_limit
  ensure (not (ends_before_start query.start_at query.end_at)) invalid_time_range
