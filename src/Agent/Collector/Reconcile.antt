-- ===== src/Agent/Collector/Reconcile.antt =====
-- apps/context-agent/src/collector.rs: reconciliation of a scope, batches of changes, and the run.
use context_layer.Base.{
  ℕ, suc, ◌+◌, Bool, true, false, ◌||◌, leb, if◌then◌else◌, Text, text, List, [], ◌∷◌, ◌++◌, length,
  any, Option, none, some, Result, ok, err,
}
use context_layer.Contracts.{modified, deleted}
use context_layer.Storage.Tables.{
  Database, StorageError, last_source_sequence, ActiveLocation, active_locations_in_scope,
}
use context_layer.Storage.Append.{mark_collector_reconciled}
use context_layer.Platform.{
  DirectoryChange, DirectoryBatch, WatchOutcome, cancelled, ReconciledFile, ReconcileIssue,
  ReconcileReport, contract_path,
}
use context_layer.Agent.Collector.{
  Outside, source, CollectorState, storage_failed, scan_failed, watcher_failed, Step, ◌then◌,
  return, ChangeOutcome, ingested, ignored, needs_reconciliation, ReconcileSummary, same_place,
  ingest_file, record_gap, ingest_change,
}

abbrev pub is_current : List ReconciledFile → ActiveLocation → Bool
is_current files l = any (λ f. same_place f.identity (contract_path f.path) l.identity l.path) files

abbrev pub is_existing : List ActiveLocation → ReconciledFile → Bool
is_existing active f =
    any (λ l. same_place l.identity l.path f.identity (contract_path f.path)) active

module _ (o : Outside) where
  unfoldable pub path_is_under_issue : ActiveLocation → List ReconcileIssue → Bool
  path_is_under_issue l issues =
      any (λ issue. o.starts_with l.path (contract_path issue.path)) issues

  -- The loop over the files of the scan; the number of events.
  unfoldable pub insert_missing : List ActiveLocation → List ReconciledFile → Step ℕ
  unfolding ingest_file contract_path
  insert_missing active [] = return 0
  insert_missing active (f ∷ files) =
      let rest = insert_missing active files in
      if is_existing active f
      then rest
      else (ingest_file o f.identity f.path modified
            (text "scope reconciliation observed current file")
          then λ _. rest then λ n. return (suc n))

  -- The loop over the locations that were active.
  unfoldable pub delete_missing : ReconcileReport → List ActiveLocation → Step ℕ
  unfolding ingest_file path_is_under_issue
  delete_missing report [] = return 0
  delete_missing report (l ∷ ls) =
      let rest = delete_missing report ls in
      if is_current report.files l || path_is_under_issue l report.issues
      then rest
      else (ingest_file o l.identity l.path deleted
            (text "scope reconciliation did not find prior active location")
          then λ _. rest then λ n. return (suc n))

  unfoldable pub record_issues : List ReconcileIssue → Step (Unit {0})
  unfolding record_gap
  record_issues [] = return tt
  record_issues (issue ∷ issues) =
      let rest = record_issues issues in
      record_gap o
        (text "scope reconciliation could not inspect " ++ issue.path ++ text ": " ++ issue.message)
      then λ _. rest

  abbrev pub marked : Result (Unit {0}) StorageError × Database → Step (Unit {0})
  marked (ok _, db) s = (ok tt, record s { engine = db })
  marked (err e, db) s = (err (storage_failed e), record s { engine = db })

  unfoldable pub mark_if_clean : List ReconcileIssue → Step (Unit {0})
  unfolding mark_collector_reconciled
  mark_if_clean (_ ∷ _) s = (ok tt, s)
  mark_if_clean [] s =
      marked
        (mark_collector_reconciled o.crates (o.now s.last_sequence) source s.scope_id
          s.last_sequence s.engine)
        s

  -- What is done about a report, given the locations that were active before.
  unfoldable pub reconcile_steps : ReconcileReport → List ActiveLocation → Step ReconcileSummary
  unfolding ◌then◌ insert_missing delete_missing record_issues mark_if_clean
  reconcile_steps report active = insert_missing active report.files then λ inserted.
      delete_missing report active then λ deleted. record_issues report.issues then λ _.
      mark_if_clean report.issues then λ _. return (record {
        observed = length report.files;
        inserted = inserted;
        deleted = deleted;
        issues = length report.issues;
      })

  unfoldable pub reconcile_report : ReconcileReport → Step ReconcileSummary
  unfolding reconcile_steps active_locations_in_scope
  reconcile_report report s =
      reconcile_steps report (active_locations_in_scope s.scope_id s.engine) s

  abbrev pub scanned : Result ReconcileReport Text → Step ReconcileSummary
  scanned (ok report) s = reconcile_report report s
  scanned (err e) s = (err (scan_failed e), s)

  unfoldable pub reconcile : Step ReconcileSummary
  unfolding reconcile_report
  reconcile s = scanned (o.scan_scope s.last_sequence s.root) s

  -- What the changes of a batch came to: how many were ingested, and whether one had no identity.
  abbrev pub Tally : Type 0
  Tally = ℕ × Bool

  abbrev tally : ChangeOutcome → Tally → Tally
  tally ingested (n, unresolved) = (suc n, unresolved)
  tally ignored t = t
  tally needs_reconciliation (n, unresolved) = (n, true)

  unfoldable pub ingest_changes : List DirectoryChange → Step Tally
  unfolding ingest_change
  ingest_changes [] = return (0, false)
  ingest_changes (change ∷ changes) =
      let rest = ingest_changes changes in
      ingest_change o change then λ outcome. rest then λ t. return (tally outcome t)

  unfoldable pub record_batch_gap : Bool → Step ℕ
  unfolding record_gap
  record_batch_gap false = return 0
  record_batch_gap true =
      record_gap o
        (text "ReadDirectoryChangesExW returned zero bytes; scope reconciliation required")
      then λ _. return 1

  unfoldable pub settle : Tally → Step ℕ
  unfolding record_gap reconcile
  settle (n, false) = return n
  settle (n, true) =
      record_gap o (text "a directory change had no resolvable stable file identity") then λ _.
      reconcile then λ _. return (suc n)

  unfoldable pub ingest_batch : DirectoryBatch → Step ℕ
  unfolding record_batch_gap ingest_changes settle
  ingest_batch batch = record_batch_gap batch.gap_detected then λ gaps.
      ingest_changes batch.changes then λ t. settle (gaps + t.0, t.1)

  -- One turn of `run` for a batch: a gap is followed by a reconciliation.
  unfoldable pub run_batch : DirectoryBatch → Step (Unit {0})
  unfolding ingest_batch reconcile
  run_batch batch = ingest_batch batch then λ _.
      (if batch.gap_detected then reconcile then (λ _. return tt) else return tt)

  unfoldable pub limit_reached : Option ℕ → ℕ → Bool
  limit_reached none completed = false
  limit_reached (some maximum) completed = leb maximum completed

  abbrev pub stopped : Text → Step ℕ
  stopped e s = (err (watcher_failed e), s)

  -- The loop of `run` over what `read_next` gives; the number of batches completed.
  unfoldable pub run_loop : Option ℕ → ℕ → List (Result WatchOutcome Text) → Step ℕ
  unfolding run_batch limit_reached
  run_loop max_batches completed [] = return completed
  run_loop max_batches completed (ok cancelled ∷ _) = return completed
  run_loop max_batches completed (err e ∷ _) = stopped e
  run_loop max_batches completed (ok (WatchOutcome.batch batch) ∷ outcomes) =
      let rest = run_loop max_batches (suc completed) outcomes in
      run_batch batch then λ _.
      (if limit_reached max_batches (suc completed) then return (suc completed) else rest)

  unfoldable pub run : Option ℕ → List (Result WatchOutcome Text) → Step ℕ
  unfolding reconcile run_loop
  run max_batches outcomes = reconcile then λ _. run_loop max_batches 0 outcomes

-- `CollectorState::open`, after the root was resolved and the database opened.
unfoldable pub open_collector : Text → Database → CollectorState
unfolding contract_path
open_collector root db = record {
  engine = db;
  root = root;
  scope_id = contract_path root;
  last_sequence = elim (last_source_sequence source (contract_path root) db) [
    | none ↦ 0
    | some n ↦ n
  ];
}
