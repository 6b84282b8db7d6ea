-- ===== src/Agent/Collector/Gaps.antt =====
-- What a recorded gap leaves behind.
use context_layer.Base.{
  ℕ, ◌≤◌, ◌≡◌, refl, ap, subst, true, Bool-cases, inl, inr, ltb, Text, some, Result, ok, err, arith,
}
use context_layer.Contracts.{collector_gap, EventEnvelope}
use context_layer.Core.Engine.{IngestReport, IngestError, match_path, ingest as engine_ingest}
use context_layer.Core.Engine.Laws.{IngestRun, plain, derived, ingest-IngestRun}
use context_layer.Core.Projection.{project_event}
use context_layer.Storage.Tables.{
  Database, StorageError, collector_reconciliation_required, last_source_sequence,
}
use context_layer.Storage.Append.Reached.{Reached, append_with_projection-Reached}
use context_layer.Storage.Append.{is_collector_gap}
use context_layer.Storage.Match.{sqlite_repository}
use context_layer.Platform.{contract_path}
use context_layer.Agent.Collector.{
  Outside, CollectorState, source, ingest, ingest_drawn, collected_event, engine_done, record_gap,
  u64_max,
}
use context_layer.Agent.Collector.Reconcile.{open_collector}

-- The tables ask for a reconciliation of the scope, and a collector that is opened on them goes on from
-- the sequence number or a later one.
pub record Remembered (s : CollectorState) : Type 0 where
  pub required : collector_reconciliation_required source s.scope_id s.engine ≡ true
  pub resumes :
      (root : Text)
      → contract_path root ≡ s.scope_id
      → s.last_sequence ≤ (open_collector root s.engine).last_sequence

opened_at :
    (root scope_id : Text) (db : Database) (last : ℕ)
    → contract_path root ≡ scope_id
    → last_source_sequence source scope_id db ≡ some last
    → (open_collector root db).last_sequence ≡ last
unfolding open_collector
opened_at root scope_id db last same found =
    let here : last_source_sequence source (contract_path root) db ≡ some last = rw same found in
    rw (here, open_collector) refl

Reached-Remembered :
    (s : CollectorState)
    → Reached source s.scope_id s.last_sequence true s.engine.collector_checkpoint
    → Remembered s
unfolding collector_reconciliation_required last_source_sequence
Reached-Remembered s (c, found, (far, flag)) =
    let there : last_source_sequence source s.scope_id s.engine ≡ some c.last_sequence =
      rw (found, last_source_sequence) refl in
    record {
      required = rw (found, collector_reconciliation_required) (flag refl);
      resumes = λ root e. rw (opened_at root s.scope_id s.engine c.last_sequence e there) far;
    }

module _ (o : Outside) (last : ℕ) (reason detail : Text) (s s' : CollectorState) where
  abbrev gap_event : EventEnvelope
  gap_event = collected_event o s (collector_gap source (some last) reason) detail

  appended-Remembered :
      (r : IngestReport) (db : Database)
      → IngestRun
          (sqlite_repository o.crates)
          (o.derived_stamp s.last_sequence)
          gap_event
          s.engine
          r
          db
      → Remembered (record s { engine = db })
  unfolding collected_event sqlite_repository match_path is_collector_gap
  appended-Remembered r db (plain appended ids found) =
      Reached-Remembered (record s { engine = db })
        (append_with_projection-Reached o.crates gap_event (project_event gap_event) s.engine db
          s.last_sequence r.outcome refl appended)
  appended-Remembered r db (derived path c s₁ second appended at found again ids) =
      absurd (ground (arith, at))

  engine_done-Remembered :
      (x : Result IngestReport (IngestError StorageError) × Database)
      → engine_ingest
          (sqlite_repository o.crates)
          (o.derived_stamp s.last_sequence)
          gap_event
          s.engine
        ≡ x
      → engine_done o x s ≡ (ok tt, s')
      → Remembered s'
  engine_done-Remembered (err e, db) at h = absurd (ground (arith, h))
  engine_done-Remembered (ok r, db) at h = subst Remembered (ap (λ p. p.1) h) (
      appended-Remembered r db
        (ingest-IngestRun (sqlite_repository o.crates) (o.derived_stamp s.last_sequence) gap_event
          s.engine r db at).1)

  ingest_drawn-Remembered :
      ingest_drawn o (collector_gap source (some last) reason) detail s ≡ (ok tt, s')
      → Remembered s'
  unfolding ingest_drawn
  ingest_drawn-Remembered h = engine_done-Remembered _ refl h

-- A recorded gap is not forgotten, also by a collector that stops right after it: when `record_gap`
-- succeeds, the tables ask for a reconciliation of the scope, and a collector that is opened on them
-- for that scope goes on from the gap's sequence number or a later one, so that none is used again.
pub record_gap-Remembered :
    (o : Outside) (reason : Text) (s s' : CollectorState)
    → record_gap o reason s ≡ (ok tt, s')
    → Remembered s'
unfolding record_gap ingest
record_gap-Remembered o reason s s' h = elim (Bool-cases (ltb s.last_sequence u64_max)) [
  | inr full ↦ absurd (ground (arith, rw full at h))
  | inl room ↦ ingest_drawn-Remembered o s.last_sequence reason _ _ s' (rw room at h)
]
