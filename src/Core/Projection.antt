-- ===== src/Core/Projection.antt =====
-- crates/core/src/lib.rs, `ProjectionCommand` and `project_event`.
use context_layer.Base.{ℕ, Text, List, [], ◌∷◌, Option}
use context_layer.Contracts.{
  Uuid, OffsetDateTime, FileIdentity, FileChange, EventEnvelope, EventPayload, task_started,
  file_observed, browser_download_observed, content_observed, download_matched, collector_gap,
}

pub data ProjectionCommand : Type 0 where
  upsert_task : (task_id : Uuid) (name : Text) (started_at : OffsetDateTime) → ProjectionCommand
  upsert_artifact_location :
      (identity : FileIdentity) (path scope_id : Text) (observed_at : OffsetDateTime)
      (change : FileChange) (source_event_id : Uuid)
      → ProjectionCommand
  store_pending_download :
      (download_id : Uuid) (url : Text) (referrer : Option Text) (final_path : Text)
      (observed_at : OffsetDateTime) (source_event_id : Uuid)
      → ProjectionCommand
  add_observed_download_edge :
      (download_id : Uuid) (identity : FileIdentity) (url : Text) (source_event_ids : List Uuid)
      (observed_at : OffsetDateTime)
      → ProjectionCommand
  record_collector_gap :
      (collector : Text) (last_sequence : Option ℕ) (reason : Text) (observed_at : OffsetDateTime)
      → ProjectionCommand

-- `event.payload` is taken apart; the rest of the event is at hand.
unfoldable pub project_payload : EventEnvelope → EventPayload → List ProjectionCommand
project_payload event (task_started task_id name) = upsert_task task_id name event.observed_at ∷ []
project_payload event (file_observed identity path change) =
    upsert_artifact_location identity path event.scope_id event.observed_at change event.event_id
    ∷ []
project_payload event (browser_download_observed download_id url referrer final_path) =
    store_pending_download download_id url referrer final_path event.observed_at event.event_id ∷ []
project_payload event (content_observed _ _) = []
project_payload event (download_matched download_id identity url source_event_ids) =
    add_observed_download_edge download_id identity url source_event_ids event.observed_at ∷ []
project_payload event (collector_gap collector last_sequence reason) =
    record_collector_gap collector last_sequence reason event.observed_at ∷ []

unfoldable pub project_event : EventEnvelope → List ProjectionCommand
unfolding project_payload
project_event event = project_payload event event.payload
