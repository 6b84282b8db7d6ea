-- ===== src/Storage/Append/Reconciled.antt =====
-- What a reconciliation leaves at the checkpoint of its source.
use context_layer.Base.{
  ℕ, ◌≤◌, ◌≡◌, refl, ap, ◌∙◌, subst, false, Bool-cases, inl, inr, Text, text_eq_refl, List, [], ◌∷◌,
  find, some, ok, bind-ok, ok_inj, arith,
}
use context_layer.Contracts.{OffsetDateTime}
use context_layer.Storage.Tables.{
  Crates, last_source_sequence, collector_reconciliation_required, CheckpointRow, Database,
  same_checkpoint, format_time, to_sql,
}
use context_layer.Storage.Append.{
  upsert_checkpoint, replaced, max, reconcile_body, mark_collector_reconciled,
}
use context_layer.Storage.Append.Rows.{transact-ok, transact_lem}

max-le_right : (a b : ℕ) → b ≤ max a b
max-le_right a b = ground arith

to_sql-same : (n m : ℕ) → to_sql n ≡ ok m → m ≡ n
to_sql-same n m h = ground arith

find-upsert_same :
    (new : CheckpointRow) (cs : List CheckpointRow)
    → (c' : CheckpointRow) × (find
          (same_checkpoint new.source new.scope_id)
          (upsert_checkpoint replaced new cs)
        ≡ some c')
      × (new.last_sequence ≤ c'.last_sequence)
      × (c'.reconciliation_required ≡ new.reconciliation_required)
unfolding upsert_checkpoint
find-upsert_same new [] =
    (new, rw (text_eq_refl new.source, text_eq_refl new.scope_id), ground arith, refl)
find-upsert_same new (d ∷ ds) = elim (Bool-cases (same_checkpoint new.source new.scope_id d)) [
  | inl t ↦ (
    record d {
      last_sequence = max d.last_sequence new.last_sequence;
      reconciliation_required = new.reconciliation_required;
      updated_at = new.updated_at;
    },
    rw (t, t),
    max-le_right d.last_sequence new.last_sequence,
    refl,
  )
  | inr t ↦ rw (t, t) (find-upsert_same new ds)
]

reconciled :
    (new : CheckpointRow) (db db' : Database)
    → record db { collector_checkpoint = upsert_checkpoint replaced new db.collector_checkpoint }
      ≡ db'
    → new.reconciliation_required ≡ false
    → (collector_reconciliation_required new.source new.scope_id db' ≡ false)
      × ((last : ℕ) × (last_source_sequence new.source new.scope_id db' ≡ some last)
          × (new.last_sequence ≤ last))
      × (db' ≡ record db { collector_checkpoint = db'.collector_checkpoint })
unfolding collector_reconciliation_required last_source_sequence
reconciled new db db' e cleared =
    let (c, there, far, flag) = find-upsert_same new db.collector_checkpoint in
    subst
      (λ d.
        (collector_reconciliation_required new.source new.scope_id d ≡ false)
        × ((last : ℕ) × (last_source_sequence new.source new.scope_id d ≡ some last)
            × (new.last_sequence ≤ last))
        × (d ≡ record db { collector_checkpoint = d.collector_checkpoint }))
      e
      (
        rw (there, collector_reconciliation_required) (flag ∙ cleared),
        (c.last_sequence, rw (there, last_source_sequence), far),
        refl,
      )

body_cleared :
    (crates : Crates) (now : OffsetDateTime) (source scope_id : Text) (sequence : ℕ)
    (db db' : Database)
    → reconcile_body crates now source scope_id sequence db ≡ ok (tt, db')
    → (collector_reconciliation_required source scope_id db' ≡ false)
      × ((last : ℕ) × (last_source_sequence source scope_id db' ≡ some last) × (sequence ≤ last))
      × (db' ≡ record db { collector_checkpoint = db'.collector_checkpoint })
unfolding reconcile_body
body_cleared crates now source scope_id sequence db db' h =
    let (updated_at, formatted, h1) = bind-ok (format_time crates now) _ (tt, db') h in
    let (last, same, done) = bind-ok (to_sql sequence) _ (tt, db') h1 in
    let e : last ≡ sequence = to_sql-same sequence last same in
    rw (← e) (
      reconciled
        (record {
          source = source;
          scope_id = scope_id;
          last_sequence = last;
          reconciliation_required = false;
          updated_at = updated_at;
        })
        db db' (ap (λ p. p.1) (ok_inj done)) refl)

-- After a successful `mark_collector_reconciled` the source needs no reconciliation in that scope, its
-- checkpoint is at the given sequence or further, and nothing but the checkpoints has changed.
pub mark_collector_reconciled-cleared :
    (crates : Crates) (now : OffsetDateTime) (source scope_id : Text) (sequence : ℕ)
    (db db' : Database)
    → mark_collector_reconciled crates now source scope_id sequence db ≡ (ok tt, db')
    → (collector_reconciliation_required source scope_id db' ≡ false)
      × ((last : ℕ) × (last_source_sequence source scope_id db' ≡ some last) × (sequence ≤ last))
      × (db' ≡ record db { collector_checkpoint = db'.collector_checkpoint })
unfolding mark_collector_reconciled
mark_collector_reconciled-cleared crates now source scope_id sequence db db' h =
    body_cleared crates now source scope_id sequence db db'
      (transact-ok (reconcile_body crates now source scope_id sequence) db db' tt h)

-- The raw events and the locations are as before, whatever the outcome.
pub mark_collector_reconciled-frame :
    (crates : Crates) (now : OffsetDateTime) (source scope_id : Text) (sequence : ℕ) (db : Database)
    → ((mark_collector_reconciled crates now source scope_id sequence db).1.raw_event
        ≡ db.raw_event)
      × ((mark_collector_reconciled crates now source scope_id sequence db).1.location
          ≡ db.location)
unfolding mark_collector_reconciled
mark_collector_reconciled-frame crates now source scope_id sequence db =
    transact_lem (λ r db'. (db'.raw_event ≡ db.raw_event) × (db'.location ≡ db.location))
      (reconcile_body crates now source scope_id sequence) db
      (λ r h.
        let (_, _, e) = body_cleared crates now source scope_id sequence db r.1 h in
        (ap (λ d. d.raw_event) e, ap (λ d. d.location) e))
      (λ e. (refl, refl))
