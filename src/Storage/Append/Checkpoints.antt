-- ===== src/Storage/Append/Checkpoints.antt =====
-- The checkpoints of the collectors: positions do not go back, and a gap is not forgotten.
use context_layer.Base.{
  ℕ, ◌≤◌, ◌≡◌, refl, ap, subst, Bool, true, Bool-cases, inl, inr, Text, List, [], ◌∷◌, find, Option,
  none, some, ok, bind-ok, ok_inj, arith,
}
use context_layer.Contracts.{SourceId, ScopeId, OffsetDateTime}
use context_layer.Storage.Tables.{
  Crates, CheckpointRow, Database, same_checkpoint, format_time, to_sql,
}
use context_layer.Storage.Append.{upsert_checkpoint, sticky, max, advance_checkpoint}

-- The second list of checkpoints is at least as far as the first, and still has its flags.
pub record Advanced (cs cs' : List CheckpointRow) : Type 0 where
  pub forward :
      (source scope_id : Text) (c : CheckpointRow)
      → find (same_checkpoint source scope_id) cs ≡ some c
      → (c' : CheckpointRow) × (find (same_checkpoint source scope_id) cs' ≡ some c')
        × (c.last_sequence ≤ c'.last_sequence)
        × (c.reconciliation_required ≡ true → c'.reconciliation_required ≡ true)

pub Advanced-refl : (cs : List CheckpointRow) → Advanced cs cs
Advanced-refl cs = record { forward = λ source scope_id c e. (c, e, ground arith, λ r. r) }

max-le : (a b : ℕ) → a ≤ max a b
max-le a b = ground arith

sticky-true : (a b : Bool) → a ≡ true → sticky a b ≡ true
sticky-true a b h = ground arith

find-upsert :
    (new : CheckpointRow) (cs : List CheckpointRow) (source scope_id : Text) (c : CheckpointRow)
    → find (same_checkpoint source scope_id) cs ≡ some c
    → (c' : CheckpointRow) × (find
          (same_checkpoint source scope_id)
          (upsert_checkpoint sticky new cs)
        ≡ some c')
      × (c.last_sequence ≤ c'.last_sequence)
      × (c.reconciliation_required ≡ true → c'.reconciliation_required ≡ true)
unfolding upsert_checkpoint
find-upsert new [] source scope_id c h = absurd (ground arith)
find-upsert new (d ∷ ds) source scope_id c h =
    elim (Bool-cases (same_checkpoint source scope_id d)) [
      | inl found ↦
          let e : d ≡ c = ground (arith, rw found at h) in
          elim (Bool-cases (same_checkpoint new.source new.scope_id d)) [
            | inl t ↦ (
              record d {
                last_sequence = max d.last_sequence new.last_sequence;
                reconciliation_required =
                    sticky d.reconciliation_required new.reconciliation_required;
                updated_at = new.updated_at;
              },
              rw (t, found),
              rw (← e) (max-le d.last_sequence new.last_sequence),
              rw (← e) (sticky-true d.reconciliation_required new.reconciliation_required),
            )
            | inr t ↦ (c, rw (t, found) (ap some e), ground arith, λ r. r)
          ]
      | inr other ↦
          let later : find (same_checkpoint source scope_id) ds ≡ some c = rw other at h in
          elim (Bool-cases (same_checkpoint new.source new.scope_id d)) [
            | inl t ↦ (c, rw (t, other) later, ground arith, λ r. r)
            | inr t ↦ rw (t, other) (find-upsert new ds source scope_id c later)
          ]
    ]

-- Nothing but the checkpoints changes, and they advance.
pub advance_checkpoint-Advanced :
    (crates : Crates) (source : SourceId) (scope_id : ScopeId) (sequence : Option ℕ) (gap : Bool)
    (ingested_at : OffsetDateTime) (db db' : Database)
    → advance_checkpoint crates source scope_id sequence gap ingested_at db ≡ ok db'
    → (db' ≡ record db { collector_checkpoint = db'.collector_checkpoint })
      × Advanced db.collector_checkpoint db'.collector_checkpoint
unfolding advance_checkpoint
advance_checkpoint-Advanced crates source scope_id none gap at db db' h =
    let e = ok_inj h in
    subst
      (λ d.
        (d ≡ record db { collector_checkpoint = d.collector_checkpoint })
        × Advanced db.collector_checkpoint d.collector_checkpoint)
      e (refl, Advanced-refl db.collector_checkpoint)
advance_checkpoint-Advanced crates source scope_id (some sequence) gap at db db' h =
    let (updated_at, m, rest) = bind-ok (format_time crates at) _ db' h in
    let (last, n, done) = bind-ok (to_sql sequence) _ db' rest in
    subst
      (λ d.
        (d ≡ record db { collector_checkpoint = d.collector_checkpoint })
        × Advanced db.collector_checkpoint d.collector_checkpoint)
      (ok_inj done) (refl, record { forward = find-upsert _ db.collector_checkpoint })
