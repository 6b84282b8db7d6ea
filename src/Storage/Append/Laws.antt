-- ===== src/Storage/Append/Laws.antt =====
-- What an append records, on every path, and what it preserves.
use context_layer.Base.{
  ◌≡◌, refl, sym, ap, ◌∙◌, subst, Bool, true, false, Bool-cases, inl, inr, text, text_eq, List, [],
  ◌∷◌, ◌++◌, Result, ok, err, bind-ok, ok_inj, arith,
}
use context_layer.Contracts.{EventEnvelope, EventEnvelopeV2}
use context_layer.Core.Projection.{ProjectionCommand}
use context_layer.Core.Engine.{IngestOutcome, inserted, duplicate}
use context_layer.Storage.Tables.{Crates, StorageError, RawRow, Database, has_event}
use context_layer.Storage.Apply.{apply_commands}
use context_layer.Storage.Apply.Frame.{SameEvidence, apply_commands-same}
use context_layer.Storage.Apply.Active.{OneActive, apply_commands-OneActive}
use context_layer.Storage.Append.{
  insert_raw, raw_row_v1, raw_row_v2, advance_checkpoint, is_collector_gap, project_if_inserted,
  append_body, append_with_projection, append_body_v2, append_raw_v2, store_v2,
}
use context_layer.Storage.Append.Rows.{
  transact_lem, raw_row_v1-event_id, has_event-append, insert_raw-new, insert_raw-known,
  transact-ok,
}
use context_layer.Storage.Append.Checkpoints.{Advanced, advance_checkpoint-Advanced}

-- What a call of `append_with_projection` did.
pub data Recorded (crates : Crates) (event : EventEnvelope) (db : Database)
    : Result IngestOutcome StorageError → Database → Type 0 where
  recorded :
      (row : RawRow) (db' : Database)
      → raw_row_v1 crates event ≡ ok row
      → has_event event.event_id db.raw_event ≡ false
      → db'.raw_event ≡ db.raw_event ++ row ∷ []
      → Advanced db.collector_checkpoint db'.collector_checkpoint
      → Recorded crates event db (ok inserted) db'
  known :
      (db' : Database)
      → has_event event.event_id db.raw_event ≡ true
      → db' ≡ record db { collector_checkpoint = db'.collector_checkpoint }
      → Advanced db.collector_checkpoint db'.collector_checkpoint
      → Recorded crates event db (ok duplicate) db'
  failed : (e : StorageError) → Recorded crates event db (err e) db

project-Recorded :
    (crates : Crates) (event : EventEnvelope) (commands : List ProjectionCommand)
    (db made : Database) (row : RawRow)
    → raw_row_v1 crates event ≡ ok row
    → made ≡ record db {
      raw_event = insert_raw row db.raw_event;
      collector_checkpoint = made.collector_checkpoint;
    }
    → Advanced db.collector_checkpoint made.collector_checkpoint
    → (r : IngestOutcome × Database)
    → project_if_inserted crates (has_event row.event_id db.raw_event) commands made ≡ ok r
    → Recorded crates event db (ok r.0) r.1
unfolding project_if_inserted insert_raw
project-Recorded crates event commands db made row hrow shape adv r h =
    let id = raw_row_v1-event_id crates event row hrow in
    elim (Bool-cases (has_event row.event_id db.raw_event)) [
      | inl t ↦
          subst (λ p. Recorded crates event db (ok p.0) p.1) (ok_inj (rw t at h))
            (known made (rw id t) (rw t at shape) adv)
      | inr t ↦
          let (db', applied, done) =
            bind-ok (apply_commands crates commands made) _ r (rw t at h) in
          let same : SameEvidence made db' = apply_commands-same crates commands made db' applied in
          subst (λ p. Recorded crates event db (ok p.0) p.1) (ok_inj done)
            (recorded row db' hrow (rw id t)
              (same.raw_event ∙ ap (λ d. d.raw_event) (rw t at shape))
              (rw (same.collector_checkpoint) adv))
    ]

append_body-Recorded :
    (crates : Crates) (event : EventEnvelope) (commands : List ProjectionCommand) (db : Database)
    (r : IngestOutcome × Database)
    → append_body crates event commands db ≡ ok r
    → Recorded crates event db (ok r.0) r.1
unfolding append_body
append_body-Recorded crates event commands db r h =
    let (row, hrow, rest) = bind-ok (raw_row_v1 crates event) _ r h in
    let (made, advanced, done) =
      bind-ok
        (advance_checkpoint crates event.source event.scope_id event.source_sequence
          (is_collector_gap event.payload) event.ingested_at
          (record db { raw_event = insert_raw row db.raw_event }))
        _ r rest in
    let (shape, adv) =
      advance_checkpoint-Advanced crates event.source event.scope_id event.source_sequence
        (is_collector_gap event.payload) event.ingested_at
        (record db { raw_event = insert_raw row db.raw_event }) made advanced in
    project-Recorded crates event commands db made row hrow shape adv r done

-- An append either fails, and the database is as before; or adds exactly the row of the event, which
-- was not there, at the end of the raw events; or finds the identifier of the event, and then changes
-- no table but the checkpoints. Checkpoints never go back and keep their reconciliation flags.
pub append_with_projection-Recorded :
    (crates : Crates) (event : EventEnvelope) (commands : List ProjectionCommand) (db : Database)
    → Recorded crates event db
        (append_with_projection crates event commands db).0
        (append_with_projection crates event commands db).1
unfolding append_with_projection
append_with_projection-Recorded crates event commands db =
    transact_lem (Recorded crates event db) (append_body crates event commands) db
      (append_body-Recorded crates event commands db) failed

project-OneActive :
    (crates : Crates) (known : Bool) (commands : List ProjectionCommand) (db : Database)
    (r : IngestOutcome × Database)
    → project_if_inserted crates known commands db ≡ ok r
    → OneActive db
    → OneActive r.1
unfolding project_if_inserted
project-OneActive crates true commands db r h w = subst (λ p. OneActive p.1) (ok_inj h) w
project-OneActive crates false commands db r h w =
    let (db', applied, done) = bind-ok (apply_commands crates commands db) _ r h in
    subst (λ p. OneActive p.1) (ok_inj done)
      (apply_commands-OneActive crates commands db db' applied w)

append_body-OneActive :
    (crates : Crates) (event : EventEnvelope) (commands : List ProjectionCommand) (db : Database)
    → OneActive db
    → (r : IngestOutcome × Database) → append_body crates event commands db ≡ ok r
    → OneActive r.1
unfolding append_body
append_body-OneActive crates event commands db w r h =
    let (row, hrow, rest) = bind-ok (raw_row_v1 crates event) _ r h in
    let (made, advanced, done) =
      bind-ok
        (advance_checkpoint crates event.source event.scope_id event.source_sequence
          (is_collector_gap event.payload) event.ingested_at
          (record db { raw_event = insert_raw row db.raw_event }))
        _ r rest in
    let (shape, adv) =
      advance_checkpoint-Advanced crates event.source event.scope_id event.source_sequence
        (is_collector_gap event.payload) event.ingested_at
        (record db { raw_event = insert_raw row db.raw_event }) made advanced in
    let locations : made.location ≡ db.location = ap (λ d. d.location) shape in
    project-OneActive crates (has_event row.event_id db.raw_event) commands made r done
      (record { at_most_one = λ id. rw locations (w.at_most_one id) })

-- Where no artifact has two active locations, none has after an append, whatever its commands are
-- and whether it succeeds or not.
pub append_with_projection-OneActive :
    (crates : Crates) (event : EventEnvelope) (commands : List ProjectionCommand) (db : Database)
    → OneActive db
    → OneActive (append_with_projection crates event commands db).1
unfolding append_with_projection
append_with_projection-OneActive crates event commands db w =
    transact_lem (λ _ db'. OneActive db') (append_body crates event commands) db
      (append_body-OneActive crates event commands db w) (λ _. w)

store_v2-inserted :
    (crates : Crates) (event : EventEnvelopeV2) (row : RawRow) (known : Bool) (db db' : Database)
    → has_event row.event_id db.raw_event ≡ known
    → store_v2 crates event row known db ≡ ok (inserted, db')
    → db'.raw_event ≡ db.raw_event ++ row ∷ []
unfolding store_v2
store_v2-inserted crates event row true db db' t h =
    let o : duplicate ≡ inserted = ap (λ p. p.0) (ok_inj h) in absurd (ground (arith, o))
store_v2-inserted crates event row false db db' t h =
    let (made, advanced, done) =
      bind-ok
        (advance_checkpoint crates event.source event.scope_id event.source_sequence
          (text_eq event.event_type (text "collector.gap")) event.ingested_at
          (record db { raw_event = insert_raw row db.raw_event }))
        _ (inserted, db') h in
    let (shape, adv) =
      advance_checkpoint-Advanced crates event.source event.scope_id event.source_sequence
        (text_eq event.event_type (text "collector.gap")) event.ingested_at
        (record db { raw_event = insert_raw row db.raw_event }) made advanced in
    sym (ap (λ p. p.1.raw_event) (ok_inj done))
    ∙ ap (λ d. d.raw_event) shape
    ∙ insert_raw-new row db.raw_event t

append_body_v2-inserted :
    (crates : Crates) (event : EventEnvelopeV2) (db db' : Database)
    → append_body_v2 crates event db ≡ ok (inserted, db')
    → (row : RawRow) × (raw_row_v2 crates event ≡ ok row)
      × (db'.raw_event ≡ db.raw_event ++ row ∷ [])
unfolding append_body_v2
append_body_v2-inserted crates event db db' h =
    let (row, hrow, rest) = bind-ok (raw_row_v2 crates event) _ (inserted, db') h in
    (row, hrow, store_v2-inserted crates event row _ db db' refl rest)

store_v2-known :
    (crates : Crates) (event : EventEnvelopeV2) (row : RawRow) (db : Database)
    → has_event row.event_id db.raw_event ≡ true
    → store_v2 crates event row true db ≡ ok (duplicate, db)
unfolding store_v2
store_v2-known crates event row db t =
    ap (λ rows. ok (duplicate, record db { raw_event = rows }))
      (insert_raw-known row db.raw_event t)

append_body_v2-known :
    (crates : Crates) (event : EventEnvelopeV2) (db : Database) (row : RawRow)
    → raw_row_v2 crates event ≡ ok row
    → has_event row.event_id db.raw_event ≡ true
    → append_body_v2 crates event db ≡ ok (duplicate, db)
unfolding append_body_v2
append_body_v2-known crates event db row hrow t =
    rw (hrow, t) (store_v2-known crates event row db t)

-- Delivering a version 2 event again, after it was stored, is a duplicate and changes nothing.
pub append_raw_v2_idempotent :
    (crates : Crates) (event : EventEnvelopeV2) (db db' : Database)
    → append_raw_v2 crates event db ≡ (ok inserted, db')
    → append_raw_v2 crates event db' ≡ (ok duplicate, db')
unfolding append_raw_v2
append_raw_v2_idempotent crates event db db' h =
    let (row, hrow, rows) =
      append_body_v2-inserted crates event db db'
        (transact-ok (append_body_v2 crates event) db db' inserted h) in
    let again : has_event row.event_id db'.raw_event ≡ true =
      rw rows (has_event-append row.event_id db.raw_event row refl) in
    rw (append_body_v2-known crates event db' row hrow again)
