-- ===== src/Storage/Append.antt =====
-- crates/storage-sqlite/src/lib.rs and v2.rs: the appends of raw events and the checkpoints.
pub mod Rows
pub mod Laws
pub mod Grows
pub mod Checkpoints
pub mod Reached
pub mod Stamped
pub mod Reconciled
use context_layer.Base.{
  ℕ, Bool, true, false, ◌&&◌, ◌||◌, ◌==◌, ltb, leb, if◌then◌else◌, Text, text, text_eq, List, [],
  ◌∷◌, ◌++◌, any, Option, none, some, Result, ok, err, ◌>>=◌, map_err,
}
use context_layer.Contracts.{
  Uuid, OffsetDateTime, SourceId, ScopeId, SensitivityClass, EventPayload, collector_gap,
  EventEnvelope, EventEnvelopeV2,
}
use context_layer.Core.Projection.{ProjectionCommand}
use context_layer.Core.Engine.{IngestOutcome, inserted, duplicate}
use context_layer.Core.ContentAccess.{RawEventLookup}
use context_layer.Storage.Tables.{
  Crates, StorageError, serialization, RawRow, CheckpointRow, Database, transact, format_time,
  to_sql, to_sql_option, has_event, same_checkpoint,
}
use context_layer.Storage.SortKey.{format_sort_key}
use context_layer.Storage.Apply.{apply_commands}

abbrev pub max : ℕ → ℕ → ℕ
max a b = if leb a b then b else a

-- INSERT INTO collector_checkpoint … ON CONFLICT(source, scope_id) DO UPDATE, with the flag that the
-- two statements write: `merge` of the old one and the new one.
unfoldable pub upsert_checkpoint :
    (Bool → Bool → Bool) → CheckpointRow → List CheckpointRow → List CheckpointRow
upsert_checkpoint merge new [] = new ∷ []
upsert_checkpoint merge new (c ∷ cs) =
    if same_checkpoint new.source new.scope_id c
    then record c {
      last_sequence = max c.last_sequence new.last_sequence;
      reconciliation_required = merge c.reconciliation_required new.reconciliation_required;
      updated_at = new.updated_at;
    }
      ∷ cs
    else c ∷ upsert_checkpoint merge new cs

-- MAX(reconciliation_required, excluded.reconciliation_required)
abbrev pub sticky : Bool → Bool → Bool
sticky old new = old || new

abbrev pub replaced : Bool → Bool → Bool
replaced old new = new

unfoldable pub reconcile_body :
    Crates → OffsetDateTime → Text → Text → ℕ → Database → Result (Unit {0} × Database) StorageError
unfolding upsert_checkpoint
reconcile_body crates now source scope_id last_sequence db =
    format_time crates now >>= λ updated_at. to_sql last_sequence >>= λ sequence. ok (
      tt,
      record db {
        collector_checkpoint =
            upsert_checkpoint replaced
              (record {
                source = source;
                scope_id = scope_id;
                last_sequence = sequence;
                reconciliation_required = false;
                updated_at = updated_at;
              })
              db.collector_checkpoint;
      },
    )

unfoldable pub mark_collector_reconciled :
    Crates → OffsetDateTime → Text → Text → ℕ → Database → Result (Unit {0}) StorageError × Database
unfolding reconcile_body
mark_collector_reconciled crates now source scope_id last_sequence =
    transact (reconcile_body crates now source scope_id last_sequence)

-- INSERT OR IGNORE INTO raw_event
unfoldable pub insert_raw : RawRow → List RawRow → List RawRow
insert_raw row rows = if has_event row.event_id rows then rows else rows ++ row ∷ []

-- The upsert of the checkpoint under `if let Some(sequence)`.
unfoldable pub advance_checkpoint :
    Crates
    → SourceId
    → ScopeId
    → Option ℕ
    → Bool
    → OffsetDateTime
    → Database
    → Result Database StorageError
unfolding upsert_checkpoint
advance_checkpoint crates source scope_id none gap ingested_at db = ok db
advance_checkpoint crates source scope_id (some sequence) gap ingested_at db =
    format_time crates ingested_at >>= λ updated_at. to_sql sequence >>= λ last. ok (record db {
      collector_checkpoint =
          upsert_checkpoint sticky
            (record {
              source = source;
              scope_id = scope_id;
              last_sequence = last;
              reconciliation_required = gap;
              updated_at = updated_at;
            })
            db.collector_checkpoint;
    })

abbrev pub encode : {A : Type 0} → (A → Result Text Text) → A → Result Text StorageError
encode f a = map_err serialization (f a)

-- The parameters of the insert of a version 1 event.
unfoldable pub raw_row_v1 : Crates → EventEnvelope → Result RawRow StorageError
raw_row_v1 crates event = do
  key ← format_sort_key crates event.observed_at
  observed ← format_time crates event.observed_at
  ingested ← format_time crates event.ingested_at
  sensitivity ← encode crates.serde.encode_sensitivity event.sensitivity
  json ← encode crates.serde.encode_v1 event
  sequence ← to_sql_option event.source_sequence
  ok (record {
    event_id = event.event_id;
    schema_version = event.schema_version;
    source = event.source;
    source_sequence = sequence;
    observed_at = observed;
    observed_key = key;
    ingested_at = ingested;
    scope_id = event.scope_id;
    correlation_id = event.correlation_id;
    sensitivity = sensitivity;
    envelope_json = json;
  })

unfoldable pub raw_row_v2 : Crates → EventEnvelopeV2 → Result RawRow StorageError
raw_row_v2 crates event = do
  key ← format_sort_key crates event.observed_at
  observed ← format_time crates event.observed_at
  ingested ← format_time crates event.ingested_at
  sensitivity ← encode crates.serde.encode_sensitivity event.sensitivity
  json ← encode crates.serde.encode_v2 event
  sequence ← to_sql_option event.source_sequence
  ok (record {
    event_id = event.event_id;
    schema_version = event.envelope_version;
    source = event.source;
    source_sequence = sequence;
    observed_at = observed;
    observed_key = key;
    ingested_at = ingested;
    scope_id = event.scope_id;
    correlation_id = event.correlation_id;
    sensitivity = sensitivity;
    envelope_json = json;
  })

-- `matches!(event.payload, EventPayload::CollectorGap { .. })`
unfoldable pub is_collector_gap : EventPayload → Bool
is_collector_gap (collector_gap _ _ _) = true
is_collector_gap _ = false

-- The commands run only for an event that was inserted.
unfoldable pub project_if_inserted :
    Crates
    → Bool
    → List ProjectionCommand
    → Database
    → Result (IngestOutcome × Database) StorageError
project_if_inserted crates known commands db =
    if known
    then ok (duplicate, db)
    else (apply_commands crates commands db >>= λ db'. ok (inserted, db'))

unfoldable pub append_body :
    Crates
    → EventEnvelope
    → List ProjectionCommand
    → Database
    → Result (IngestOutcome × Database) StorageError
unfolding insert_raw advance_checkpoint raw_row_v1 is_collector_gap project_if_inserted
append_body crates event commands db = raw_row_v1 crates event >>= λ row.
    advance_checkpoint crates event.source event.scope_id event.source_sequence
      (is_collector_gap event.payload) event.ingested_at
      (record db { raw_event = insert_raw row db.raw_event })
    >>= project_if_inserted crates (has_event row.event_id db.raw_event) commands

unfoldable pub append_with_projection :
    Crates
    → EventEnvelope
    → List ProjectionCommand
    → Database
    → Result IngestOutcome StorageError × Database
unfolding append_body
append_with_projection crates event commands = transact (append_body crates event commands)

-- What follows the insert: a known event returns early.
unfoldable pub store_v2 :
    Crates
    → EventEnvelopeV2
    → RawRow
    → Bool
    → Database
    → Result (IngestOutcome × Database) StorageError
unfolding insert_raw advance_checkpoint
store_v2 crates event row true db =
    ok (duplicate, record db { raw_event = insert_raw row db.raw_event })
store_v2 crates event row false db =
    advance_checkpoint crates event.source event.scope_id event.source_sequence
      (text_eq event.event_type (text "collector.gap")) event.ingested_at
      (record db { raw_event = insert_raw row db.raw_event })
    >>= λ db'. ok (inserted, db')

unfoldable pub append_body_v2 :
    Crates → EventEnvelopeV2 → Database → Result (IngestOutcome × Database) StorageError
unfolding raw_row_v2 store_v2
append_body_v2 crates event db = raw_row_v2 crates event >>= λ row.
    store_v2 crates event row (has_event row.event_id db.raw_event) db

unfoldable pub append_raw_v2 :
    Crates → EventEnvelopeV2 → Database → Result IngestOutcome StorageError × Database
unfolding append_body_v2
append_raw_v2 crates event = transact (append_body_v2 crates event)
