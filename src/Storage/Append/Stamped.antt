-- ===== src/Storage/Append/Stamped.antt =====
-- Whose clock the log goes by.
use context_layer.Base.{
  ◌≡◌, refl, sym, ap, ◌∙◌, Bool, true, false, text, text_eq, [], ◌∷◌, ◌++◌, ok, bind-ok, ok_inj,
  map_err-ok, arith,
}
use context_layer.Contracts.{EventEnvelopeV2, Stamp}
use context_layer.Core.Engine.{inserted, duplicate, IngestReport, ingest_v2}
use context_layer.Core.Engine.Preserved.{ingest_v2-append}
use context_layer.Storage.Tables.{
  Crates, serialization, RawRow, Database, format_time, to_sql_option, has_event,
}
use context_layer.Storage.SortKey.{format_sort_key}
use context_layer.Storage.Append.{
  encode, insert_raw, raw_row_v2, advance_checkpoint, append_raw_v2, append_body_v2, store_v2,
}
use context_layer.Storage.Append.Rows.{transact-ok, insert_raw-new, raw_row_v2-event_id}
use context_layer.Storage.Append.Checkpoints.{advance_checkpoint-Advanced}
use context_layer.Storage.Match.{sqlite_repository}

-- The row of an event that was inserted: the last one of the log, with the time of the ingest.
pub record Stamped (crates : Crates) (stamp : Stamp) (event : EventEnvelopeV2) (db db' : Database)
    : Type 0 where
  pub row : RawRow
  pub added : db'.raw_event ≡ db.raw_event ++ row ∷ []
  pub event_id : row.event_id ≡ event.event_id
  pub column : format_time crates stamp.now ≡ ok row.ingested_at
  pub envelope :
      crates.serde.encode_v2 (record event { ingested_at = stamp.now }) ≡ ok row.envelope_json

raw_row_v2-written :
    (crates : Crates) (event : EventEnvelopeV2) (row : RawRow)
    → raw_row_v2 crates event ≡ ok row
    → (format_time crates event.ingested_at ≡ ok row.ingested_at)
      × (crates.serde.encode_v2 event ≡ ok row.envelope_json)
unfolding raw_row_v2
raw_row_v2-written crates event row h =
    let (key, _, h1) = bind-ok (format_sort_key crates event.observed_at) _ row h in
    let (observed, _, h2) = bind-ok (format_time crates event.observed_at) _ row h1 in
    let (ingested, at, h3) = bind-ok (format_time crates event.ingested_at) _ row h2 in
    let (sensitivity, _, h4) =
      bind-ok (encode crates.serde.encode_sensitivity event.sensitivity) _ row h3 in
    let (json, encoded, h5) = bind-ok (encode crates.serde.encode_v2 event) _ row h4 in
    let (sequence, _, h6) = bind-ok (to_sql_option event.source_sequence) _ row h5 in
    let made = ok_inj h6 in
    (
      at ∙ ap (λ r. ok r.ingested_at) made,
      map_err-ok serialization (crates.serde.encode_v2 event) json encoded
          ∙ ap (λ r. ok r.envelope_json) made,
    )

store_v2-added :
    (crates : Crates) (event : EventEnvelopeV2) (row : RawRow) (there : Bool) (db db' : Database)
    → has_event row.event_id db.raw_event ≡ there
    → store_v2 crates event row there db ≡ ok (inserted, db')
    → db'.raw_event ≡ db.raw_event ++ row ∷ []
unfolding store_v2
store_v2-added crates event row true db db' t h =
    let e : duplicate ≡ inserted = ap (λ p. p.0) (ok_inj h) in absurd (ground (arith, e))
store_v2-added crates event row false db db' t h =
    let (made, advanced, done) =
      bind-ok
        (advance_checkpoint crates event.source event.scope_id event.source_sequence
          (text_eq event.event_type (text "collector.gap")) event.ingested_at
          (record db { raw_event = insert_raw row db.raw_event }))
        _ (inserted, db') h in
    let (shape, adv) =
      advance_checkpoint-Advanced crates event.source event.scope_id event.source_sequence
        (text_eq event.event_type (text "collector.gap")) event.ingested_at
        (record db { raw_event = insert_raw row db.raw_event }) made advanced in
    sym (ap (λ p. p.1.raw_event) (ok_inj done))
    ∙ ap (λ d. d.raw_event) shape
    ∙ insert_raw-new row db.raw_event t

append_body_v2-Stamped :
    (crates : Crates) (stamp : Stamp) (event : EventEnvelopeV2) (db db' : Database)
    → append_body_v2 crates (record event { ingested_at = stamp.now }) db ≡ ok (inserted, db')
    → Stamped crates stamp event db db'
unfolding append_body_v2
append_body_v2-Stamped crates stamp event db db' h =
    let sent = record event { ingested_at = stamp.now } in
    let (row, made, stored) = bind-ok (raw_row_v2 crates sent) _ (inserted, db') h in
    let (column, envelope) = raw_row_v2-written crates sent row made in
    record {
      row = row;
      added = store_v2-added crates sent row _ db db' refl stored;
      event_id = sym (raw_row_v2-event_id crates sent row made);
      column = column;
      envelope = envelope;
    }

-- The clock of a collector is not trusted: when a v2 event is ingested and was not known, one row is
-- added at the end of the log, the event's, and that row has the time of the ingest in its column and
-- in the stored envelope, which is the event but for that time, whatever time the event claims.
pub ingest_v2-Stamped :
    (crates : Crates) (stamp : Stamp) (event : EventEnvelopeV2) (db : Database) (r : IngestReport)
    (db' : Database)
    → ingest_v2 (sqlite_repository crates) stamp event db ≡ (ok r, db')
    → r.outcome ≡ inserted
    → Stamped crates stamp event db db'
unfolding sqlite_repository append_raw_v2
ingest_v2-Stamped crates stamp event db r db' h new =
    append_body_v2-Stamped crates stamp event db db' (
      transact-ok (append_body_v2 crates (record event { ingested_at = stamp.now })) db db' inserted
        (ingest_v2-append (sqlite_repository crates) stamp event db r db' h
          ∙ ap (λ o. (ok o, db')) new))
