-- ===== src/Agent/Collector/Sequence.antt =====
-- The invariants of the collector, through every call and the whole run.
use context_layer.Base.{
  ℕ, suc, ◌≤◌, ◌<◌, ◌≡◌, refl, sym, ◌∙◌, Bool-cases, inl, inr, ltb, ltb→lt, Text, List, [], ◌∷◌,
  Option, Result, ok, err, arith, append-nil,
}
use context_layer.Contracts.{EventPayload}
use context_layer.Core.Engine.{IngestReport, IngestError}
use context_layer.Core.Engine.Preserved.{ingest-kept}
use context_layer.Storage.Tables.{Database, StorageError}
use context_layer.Storage.Append.{append_with_projection, mark_collector_reconciled}
use context_layer.Storage.Append.Grows.{Grows, Grows-refl, Grows-trans, append_with_projection-Told}
use context_layer.Storage.Append.Laws.{append_with_projection-OneActive}
use context_layer.Storage.Append.Reconciled.{mark_collector_reconciled-frame}
use context_layer.Storage.Apply.Active.{OneActive, carried}
use context_layer.Storage.Match.{sqlite_repository}
use context_layer.Platform.{WatchOutcome, ReconcileIssue}
use context_layer.Agent.Collector.{
  Outside, CollectorState, ingest, ingest_drawn, engine_done, collected_event, u64_max, source,
}
use context_layer.Agent.Collector.Reconcile.{marked, mark_if_clean, run}
use context_layer.Agent.Collector.Kept.{Follows, run-Follows}

-- The second state is one that the collector may reach from the first.
pub record Advances (s s' : CollectorState) : Type 0 where
  pub root : s'.root ≡ s.root
  pub scope_id : s'.scope_id ≡ s.scope_id
  pub forward : s.last_sequence ≤ s'.last_sequence
  pub bounded : s.last_sequence ≤ u64_max → s'.last_sequence ≤ u64_max
  pub log : Grows s.engine s'.engine
  pub locations : OneActive s.engine → OneActive s'.engine

Advances-refl : (s : CollectorState) → Advances s s
Advances-refl s = record {
  root = refl;
  scope_id = refl;
  forward = ground arith;
  bounded = λ h. h;
  log = Grows-refl s.engine;
  locations = λ h. h;
}

Advances-trans : (a b c : CollectorState) → Advances a b → Advances b c → Advances a c
Advances-trans a b c f g = record {
  root = g.root ∙ f.root;
  scope_id = g.scope_id ∙ f.scope_id;
  forward = omega (arith, f.forward, g.forward);
  bounded = λ h. g.bounded (f.bounded h);
  log = Grows-trans a.engine b.engine c.engine f.log g.log;
  locations = λ h. g.locations (f.locations h);
}

-- What an ingestion by the engine does to the tables.
TablesKept : Database → Database → Type 0
TablesKept db db' = Grows db db' × (OneActive db → OneActive db')

engine_done-Advances :
    (o : Outside) (s : CollectorState)
    (x : Result IngestReport (IngestError StorageError) × Database)
    → TablesKept s.engine x.1
    → Advances s (engine_done o x s).1
unfolding TablesKept
engine_done-Advances o s (ok r, db) h = record {
  root = refl;
  scope_id = refl;
  forward = ground arith;
  bounded = λ b. b;
  log = h.0;
  locations = h.1;
}
engine_done-Advances o s (err e, db) h = record {
  root = refl;
  scope_id = refl;
  forward = ground arith;
  bounded = λ b. b;
  log = h.0;
  locations = h.1;
}

ingest_drawn-Advances :
    (o : Outside) (payload : EventPayload) (detail : Text) (s : CollectorState)
    → Advances s (ingest_drawn o payload detail s).1
unfolding ingest_drawn TablesKept
ingest_drawn-Advances o payload detail s = engine_done-Advances o s _ (
    ingest-kept (sqlite_repository o.crates) (TablesKept s.engine)
      (λ e commands db h. (
        Grows-trans s.engine db (append_with_projection o.crates e commands db).1 h.0
            (append_with_projection-Told o.crates e commands db).0,
        λ w. append_with_projection-OneActive o.crates e commands db (h.1 w),
      ))
      (o.derived_stamp s.last_sequence) (collected_event o s payload detail) s.engine
      (Grows-refl s.engine, λ w. w))

drawn :
    (s : CollectorState)
    → s.last_sequence < u64_max
    → Advances s (record s { last_sequence = suc s.last_sequence })
drawn s room = record {
  root = refl;
  scope_id = refl;
  forward = omega arith;
  bounded = λ h. omega (arith, room);
  log = Grows-refl s.engine;
  locations = λ h. h;
}

ingest-Advances :
    (o : Outside) (payload : EventPayload) (detail : Text)
    → Follows Advances (ingest o payload detail)
unfolding ingest
ingest-Advances o payload detail = record {
  related = λ s. elim (Bool-cases (ltb s.last_sequence u64_max)) [
    | inl room ↦ rw room (
        Advances-trans s _ _ (drawn s (ltb→lt _ _ room)) (ingest_drawn-Advances o payload detail _))
    | inr full ↦ rw full (Advances-refl s)
  ];
}

marked-TablesKept :
    (o : Outside) (s : CollectorState)
    → TablesKept s.engine
        (mark_collector_reconciled o.crates
          (o.now s.last_sequence)
          source
          s.scope_id
          s.last_sequence
          s.engine).1
unfolding TablesKept
marked-TablesKept o s =
    let (rows, places) =
      mark_collector_reconciled-frame o.crates (o.now s.last_sequence) source s.scope_id
        s.last_sequence s.engine in
    (([], rows ∙ sym (append-nil s.engine.raw_event)), λ w. carried (sym places) w)

marked-Advances :
    (o : Outside) (s : CollectorState) (x : Result (Unit {0}) StorageError × Database)
    → TablesKept s.engine x.1
    → Advances s (marked o x s).1
unfolding TablesKept
marked-Advances o s (ok u, db) h = record {
  root = refl;
  scope_id = refl;
  forward = ground arith;
  bounded = λ b. b;
  log = h.0;
  locations = h.1;
}
marked-Advances o s (err e, db) h = record {
  root = refl;
  scope_id = refl;
  forward = ground arith;
  bounded = λ b. b;
  log = h.0;
  locations = h.1;
}

mark_if_clean-Advances :
    (o : Outside) (issues : List ReconcileIssue) → Follows Advances (mark_if_clean o issues)
unfolding mark_if_clean
mark_if_clean-Advances o (i ∷ issues) = record { related = Advances-refl }
mark_if_clean-Advances o [] = record {
  related = λ s. marked-Advances o s _ (marked-TablesKept o s);
}

-- Through the whole run of the collector, whatever the watcher delivers and wherever it fails: the
-- scope stays, the sequence number never goes back and never exceeds that of a `u64`, the raw events
-- before are the first ones after, and an artifact has at most one active location if it had.
pub run-Advances :
    (o : Outside) (max_batches : Option ℕ) (outcomes : List (Result WatchOutcome Text))
    (s : CollectorState)
    → Advances s (run o max_batches outcomes s).1
run-Advances o max_batches outcomes s =
    (run-Follows o Advances Advances-refl Advances-trans (ingest-Advances o)
        (mark_if_clean-Advances o) max_batches outcomes).related
      s
