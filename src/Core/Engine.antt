-- ===== src/Core/Engine.antt =====
-- crates/core/src/lib.rs, `ContextEngine`: ingestion over a repository of events. A repository is its
-- state and the methods of the traits; `&mut self` may change the state also where it fails.
pub mod Laws
pub mod Runs
pub mod Errors
pub mod Preserved
use context_layer.Base.{
  ℕ, Bool, true, false, ◌==◌, if◌then◌else◌, Text, text, trim, is_empty, List, [], ◌∷◌, Option,
  none, some, Result, ok, err, ◌>>=◌, map_err, not,
}
use context_layer.Contracts.{
  Uuid, OffsetDateTime, FileIdentity, FileChange, EventPayload, file_observed,
  browser_download_observed, download_matched, EventEnvelope, EventEnvelopeV2, Stamp,
  SensitivityClass, EvidenceKind, current_schema_version, current_envelope_version,
}
use context_layer.Core.Projection.{ProjectionCommand, project_event}

pub data IngestOutcome : Type 0 where
  inserted duplicate : IngestOutcome

pub record DownloadMatchCandidate : Type 0 where
  pub download_id : Uuid
  pub identity : FileIdentity
  pub url : Text
  pub source_event_ids : List Uuid
  pub observed_at : OffsetDateTime

pub record IngestReport : Type 0 where
  pub outcome : IngestOutcome
  pub derived_event_ids : List Uuid

-- `EventRepository` and `RawEventRepository`.
pub record EventRepository (S E : Type 0) : Type 0 where
  pub append_with_projection :
      EventEnvelope → List ProjectionCommand → S → Result IngestOutcome E × S
  pub find_download_match : Text → ℕ → S → Result (Option DownloadMatchCandidate) E
  pub append_raw_v2 : EventEnvelopeV2 → S → Result IngestOutcome E × S

pub data IngestError (E : Type 0) : Type 0 where
  unsupported_schema unsupported_envelope_version : (actual expected : ℕ) → IngestError E
  empty_event_type invalid_payload_version : IngestError E
  repository : E → IngestError E

abbrev is_deleted : FileChange → Bool
is_deleted FileChange.deleted = true
is_deleted _ = false

-- The path that a download may be matched at.
unfoldable pub match_path : EventPayload → Option Text
match_path (file_observed _ path change) = if is_deleted change then none else some path
match_path (browser_download_observed _ _ _ final_path) = some final_path
match_path _ = none

abbrev pub match_tolerance_seconds : ℕ
match_tolerance_seconds = 180

unfoldable pub derived_event : Stamp → EventEnvelope → DownloadMatchCandidate → EventEnvelope
derived_event stamp event c = record {
  event_id = stamp.fresh_id;
  schema_version = current_schema_version;
  source = text "core.download-correlator";
  source_sequence = none;
  observed_at = c.observed_at;
  ingested_at = stamp.now;
  scope_id = event.scope_id;
  correlation_id = some event.event_id;
  sensitivity = SensitivityClass.metadata;
  payload = download_matched c.download_id c.identity c.url c.source_event_ids;
  evidence = record {
    kind = EvidenceKind.observed;
    collector = text "download-correlator-v1";
    detail = text "exact final path with observed events within 180 seconds";
  };
}

module _ {S E : Type 0} (repo : EventRepository S E) where
  abbrev Ingest : Type 0
  Ingest = Result IngestReport (IngestError E) × S

  report : IngestOutcome → List Uuid → Result IngestReport (IngestError E)
  report outcome ids = ok (record { outcome = outcome; derived_event_ids = ids })

  -- After the derived event was appended.
  derived_report : IngestOutcome → Uuid → Result IngestOutcome E × S → Ingest
  unfolding report
  derived_report outcome id (err e, s) = (err (repository e), s)
  derived_report outcome id (ok _, s) = (report outcome (id ∷ []), s)

  append_derived :
      Stamp → EventEnvelope → IngestOutcome → Result (Option DownloadMatchCandidate) E → S → Ingest
  unfolding derived_report report derived_event project_event
  append_derived stamp event outcome (err e) s = (err (repository e), s)
  append_derived stamp event outcome (ok none) s = (report outcome [], s)
  append_derived stamp event outcome (ok (some c)) s =
      let derived = derived_event stamp event c in
      derived_report outcome derived.event_id
        (repo.append_with_projection derived (project_event derived) s)

  correlate : Stamp → EventEnvelope → IngestOutcome → Option Text → S → Ingest
  unfolding append_derived report
  correlate stamp event outcome none s = (report outcome [], s)
  correlate stamp event outcome (some path) s =
      append_derived stamp event outcome (repo.find_download_match path match_tolerance_seconds s) s

  after_append : Stamp → EventEnvelope → Result IngestOutcome E × S → Ingest
  unfolding correlate match_path
  after_append stamp event (err e, s) = (err (repository e), s)
  after_append stamp event (ok outcome, s) =
      correlate stamp event outcome (match_path event.payload) s

  unfoldable pub ingest : Stamp → EventEnvelope → S → Ingest
  unfolding after_append project_event
  ingest stamp event s =
      if event.schema_version == current_schema_version
      then after_append stamp event (repo.append_with_projection event (project_event event) s)
      else (err (unsupported_schema event.schema_version current_schema_version), s)

  plain_report : Result IngestOutcome E × S → Ingest
  unfolding report
  plain_report (err e, s) = (err (repository e), s)
  plain_report (ok outcome, s) = (report outcome [], s)

  -- `ingested_at` is overwritten at this boundary.
  unfoldable pub ingest_v2 : Stamp → EventEnvelopeV2 → S → Ingest
  unfolding plain_report
  ingest_v2 stamp event s =
      if not (event.envelope_version == current_envelope_version)
      then (err (unsupported_envelope_version event.envelope_version current_envelope_version), s)
      else if is_empty (trim event.event_type)
      then (err empty_event_type, s)
      else if event.payload_version == 0
      then (err invalid_payload_version, s)
      else plain_report (repo.append_raw_v2 (record event { ingested_at = stamp.now }) s)
