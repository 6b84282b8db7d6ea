-- ===== src/Storage/Append/Reached.antt =====
-- The checkpoint that an append with a sequence number leaves.
use context_layer.Base.{
  ℕ, ◌≤◌, ◌≡◌, refl, subst, Bool, true, false, Bool-cases, inl, inr, Text, text_eq_refl, List, [],
  ◌∷◌, find, some, ok, bind-ok, ok_inj, arith,
}
use context_layer.Contracts.{SourceId, ScopeId, OffsetDateTime, EventEnvelope}
use context_layer.Core.Projection.{ProjectionCommand}
use context_layer.Core.Engine.{IngestOutcome}
use context_layer.Storage.Tables.{
  Crates, CheckpointRow, Database, same_checkpoint, format_time, to_sql,
}
use context_layer.Storage.Apply.{apply_commands}
use context_layer.Storage.Apply.Frame.{SameEvidence, apply_commands-same}
use context_layer.Storage.Append.{
  upsert_checkpoint, sticky, max, advance_checkpoint, insert_raw, raw_row_v1, is_collector_gap,
  project_if_inserted, append_body, append_with_projection,
}
use context_layer.Storage.Append.Rows.{transact-ok}

-- The checkpoint is at the sequence number or further, and has the flag if it is a gap.
abbrev pub ReachedBy : ℕ → Bool → CheckpointRow → Type 0
ReachedBy sequence gap c =
    (sequence ≤ c.last_sequence) × (gap ≡ true → c.reconciliation_required ≡ true)

abbrev pub Reached : Text → Text → ℕ → Bool → List CheckpointRow → Type 0
Reached source scope_id sequence gap cs =
    (c : CheckpointRow) × (find (same_checkpoint source scope_id) cs ≡ some c)
    × ReachedBy sequence gap c

max-le_new : (a b : ℕ) → b ≤ max a b
max-le_new a b = ground arith

sticky-new : (a b : Bool) → b ≡ true → sticky a b ≡ true
sticky-new a b h = ground (arith, h)

upsert-Reached :
    (new : CheckpointRow) (cs : List CheckpointRow)
    → Reached new.source new.scope_id new.last_sequence new.reconciliation_required
        (upsert_checkpoint sticky new cs)
unfolding upsert_checkpoint
upsert-Reached new [] =
    (new, rw (text_eq_refl new.source, text_eq_refl new.scope_id), (ground arith, λ h. h))
upsert-Reached new (d ∷ ds) = elim (Bool-cases (same_checkpoint new.source new.scope_id d)) [
  | inl t ↦ (
    record d {
      last_sequence = max d.last_sequence new.last_sequence;
      reconciliation_required = sticky d.reconciliation_required new.reconciliation_required;
      updated_at = new.updated_at;
    },
    rw (t, t),
    (
      max-le_new d.last_sequence new.last_sequence,
      sticky-new d.reconciliation_required new.reconciliation_required,
    ),
  )
  | inr t ↦ rw (t, t) (upsert-Reached new ds)
]

to_sql-same : (n m : ℕ) → to_sql n ≡ ok m → m ≡ n
to_sql-same n m h = ground arith

advance_checkpoint-Reached :
    (crates : Crates) (source : SourceId) (scope_id : ScopeId) (sequence : ℕ) (gap : Bool)
    (at : OffsetDateTime) (db db' : Database)
    → advance_checkpoint crates source scope_id (some sequence) gap at db ≡ ok db'
    → Reached source scope_id sequence gap db'.collector_checkpoint
unfolding advance_checkpoint
advance_checkpoint-Reached crates source scope_id sequence gap at db db' h =
    let (updated_at, m, rest) = bind-ok (format_time crates at) _ db' h in
    let (last, n, done) = bind-ok (to_sql sequence) _ db' rest in
    subst (λ k. Reached source scope_id k gap db'.collector_checkpoint)
      (to_sql-same sequence last n)
      (subst (λ d. Reached source scope_id last gap d.collector_checkpoint) (ok_inj done)
        (upsert-Reached
          (record {
            source = source;
            scope_id = scope_id;
            last_sequence = last;
            reconciliation_required = gap;
            updated_at = updated_at;
          })
          db.collector_checkpoint))

project-kept :
    (crates : Crates) (known : Bool) (commands : List ProjectionCommand) (db : Database)
    (r : IngestOutcome × Database)
    → project_if_inserted crates known commands db ≡ ok r
    → r.1.collector_checkpoint ≡ db.collector_checkpoint
unfolding project_if_inserted
project-kept crates true commands db r h =
    subst (λ p. p.1.collector_checkpoint ≡ db.collector_checkpoint) (ok_inj h) refl
project-kept crates false commands db r h =
    let (db', applied, done) = bind-ok (apply_commands crates commands db) _ r h in
    let same : SameEvidence db db' = apply_commands-same crates commands db db' applied in
    subst (λ p. p.1.collector_checkpoint ≡ db.collector_checkpoint) (ok_inj done)
      same.collector_checkpoint

append_body-Reached :
    (crates : Crates) (event : EventEnvelope) (commands : List ProjectionCommand) (db : Database)
    (sequence : ℕ) (r : IngestOutcome × Database)
    → event.source_sequence ≡ some sequence
    → append_body crates event commands db ≡ ok r
    → Reached event.source event.scope_id sequence
        (is_collector_gap event.payload)
        r.1.collector_checkpoint
unfolding append_body
append_body-Reached crates event commands db sequence r numbered h =
    let (row, hrow, rest) = bind-ok (raw_row_v1 crates event) _ r h in
    let (made, advanced, done) =
      bind-ok
        (advance_checkpoint crates event.source event.scope_id event.source_sequence
          (is_collector_gap event.payload) event.ingested_at
          (record db { raw_event = insert_raw row db.raw_event }))
        _ r rest in
    rw (project-kept crates _ commands made r done) (
      advance_checkpoint-Reached crates event.source event.scope_id sequence
        (is_collector_gap event.payload) event.ingested_at _ made (rw numbered at advanced))

-- An append with a sequence number, when it succeeds, leaves a checkpoint that has reached it.
pub append_with_projection-Reached :
    (crates : Crates) (event : EventEnvelope) (commands : List ProjectionCommand)
    (db db' : Database) (sequence : ℕ) (outcome : IngestOutcome)
    → event.source_sequence ≡ some sequence
    → append_with_projection crates event commands db ≡ (ok outcome, db')
    → Reached event.source event.scope_id sequence
        (is_collector_gap event.payload)
        db'.collector_checkpoint
unfolding append_with_projection
append_with_projection-Reached crates event commands db db' sequence outcome numbered h =
    append_body-Reached crates event commands db sequence (outcome, db') numbered
      (transact-ok (append_body crates event commands) db db' outcome h)
