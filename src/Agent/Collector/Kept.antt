-- ===== src/Agent/Collector/Kept.antt =====
-- What every call of the collector keeps: a rule, and its use for the log, the locations and the
-- sequence numbers.
use context_layer.Base.{
  ℕ, Bool, true, false, if◌then◌else◌, suc, ◌||◌, Text, text, List, [], ◌∷◌, Option, none, some,
  Result, ok, err,
}
use context_layer.Contracts.{
  EventPayload, FileChange, FileIdentity, collector_gap, modified, deleted,
}
use context_layer.Storage.Tables.{ActiveLocation, active_locations_in_scope}
use context_layer.Platform.{
  DirectoryChange, DirectoryBatch, WatchOutcome, cancelled, ReconciledFile, ReconcileIssue,
  ReconcileReport,
}
use context_layer.Agent.Collector.{
  Outside, CollectorState, CollectorError, Step, resume, ◌then◌, return, source, ingest,
  ingest_file, record_gap, ingest_change, ingest_known, ingest_resolved, file_change_of,
}
use context_layer.Agent.Collector.Reconcile.{
  is_existing, is_current, path_is_under_issue, insert_missing, delete_missing, record_issues,
  mark_if_clean, reconcile_steps, reconcile_report, scanned, reconcile, ingest_changes,
  record_batch_gap, settle, ingest_batch, run_batch, limit_reached, run_loop, run,
}

-- The states before and after a call are related.
pub record Follows (R : CollectorState → CollectorState → Type 0) {A : Type 0} (m : Step A)
    : Type 0 where
  pub related : (s : CollectorState) → R s (m s).1

module _ (o : Outside) (R : CollectorState → CollectorState → Type 0)
    (same : (s : CollectorState) → R s s) (chain : (a b c : CollectorState) → R a b → R b c → R a c)
    (on_ingest : (payload : EventPayload) (detail : Text) → Follows R (ingest o payload detail))
    (on_mark : (issues : List ReconcileIssue) → Follows R (mark_if_clean o issues)) where
  resume-Follows :
      {A B : Type 0} (s : CollectorState) (x : Result A CollectorError × CollectorState)
      (next : A → Step B)
      → R s x.1
      → ((a : A) → Follows R (next a))
      → R s (resume x next).1
  resume-Follows s (ok a, s₁) next h k = chain s s₁ (next a s₁).1 h ((k a).related s₁)
  resume-Follows s (err e, s₁) next h k = h

  then-Follows :
      {A B : Type 0} {m : Step A} {next : A → Step B}
      → Follows R m
      → ((a : A) → Follows R (next a))
      → Follows R (m then next)
  unfolding ◌then◌
  then-Follows {m = m} {next = next} h k = record {
    related = λ s. resume-Follows s (m s) next (h.related s) k;
  }

  return-Follows : {A : Type 0} (a : A) → Follows R (return a)
  return-Follows a = record { related = same }

  if-Follows :
      {A : Type 0} (t : Bool) {m n : Step A}
      → Follows R m
      → Follows R n
      → Follows R (if t then m else n)
  if-Follows true h k = h
  if-Follows false h k = k

  ingest_file-Follows :
      (i : FileIdentity) (path : Text) (change : FileChange) (detail : Text)
      → Follows R (ingest_file o i path change detail)
  unfolding ingest_file
  ingest_file-Follows i path change detail = on_ingest _ detail

  record_gap-Follows : (reason : Text) → Follows R (record_gap o reason)
  unfolding record_gap
  record_gap-Follows reason = record {
    related = λ s.
        (on_ingest (collector_gap source (some s.last_sequence) reason)
            (text "collector gap requires bounded scope reconciliation")).related
          s;
  }

  ingest_resolved-Follows :
      (i : Option FileIdentity) (path : Text) (change : FileChange)
      → Follows R (ingest_resolved o i path change)
  ingest_resolved-Follows none path change = return-Follows _
  ingest_resolved-Follows (some i) path change =
      then-Follows (ingest_file-Follows i path change _) (λ _. return-Follows _)

  ingest_known-Follows :
      (change : DirectoryChange) (c : Option FileChange) → Follows R (ingest_known o change c)
  ingest_known-Follows change none = record { related = same }
  ingest_known-Follows change (some c) = record {
    related = λ s. (ingest_resolved-Follows _ _ c).related s;
  }

  insert_missing-Follows :
      (active : List ActiveLocation) (files : List ReconciledFile)
      → Follows R (insert_missing o active files)
  unfolding insert_missing
  insert_missing-Follows active [] = return-Follows 0
  insert_missing-Follows active (f ∷ files) =
      if-Follows (is_existing active f) (insert_missing-Follows active files) (
        then-Follows (ingest_file-Follows f.identity f.path modified _)
          (λ _. then-Follows (insert_missing-Follows active files) (λ n. return-Follows (suc n))))

  delete_missing-Follows :
      (report : ReconcileReport) (ls : List ActiveLocation) → Follows R (delete_missing o report ls)
  unfolding delete_missing
  delete_missing-Follows report [] = return-Follows 0
  delete_missing-Follows report (l ∷ ls) =
      if-Follows (is_current report.files l || path_is_under_issue o l report.issues)
        (delete_missing-Follows report ls)
        (then-Follows (ingest_file-Follows l.identity l.path deleted _)
          (λ _. then-Follows (delete_missing-Follows report ls) (λ n. return-Follows (suc n))))

  record_issues-Follows : (issues : List ReconcileIssue) → Follows R (record_issues o issues)
  unfolding record_issues
  record_issues-Follows [] = return-Follows tt
  record_issues-Follows (issue ∷ issues) =
      then-Follows (record_gap-Follows _) (λ _. record_issues-Follows issues)

  reconcile_report-Follows : (report : ReconcileReport) → Follows R (reconcile_report o report)
  unfolding reconcile_report
  reconcile_report-Follows report = record { related = λ s. (steps s).related s }
    where
      steps :
          (s : CollectorState)
          → Follows R (reconcile_steps o report (active_locations_in_scope s.scope_id s.engine))
      steps s = then-Follows (insert_missing-Follows _ report.files) (λ _.
          then-Follows (delete_missing-Follows report _) (λ _.
            then-Follows (record_issues-Follows report.issues)
              (λ _. then-Follows (on_mark report.issues) (λ _. return-Follows _))))

  reconcile-Follows : Follows R (reconcile o)
  unfolding reconcile
  reconcile-Follows = record {
    related = λ s. scanned-Follows (o.scan_scope s.last_sequence s.root) s;
  }
    where
      scanned-Follows :
          (r : Result ReconcileReport Text) (s : CollectorState) → R s (scanned o r s).1
      scanned-Follows (ok report) s = (reconcile_report-Follows report).related s
      scanned-Follows (err e) s = same s

  ingest_changes-Follows : (changes : List DirectoryChange) → Follows R (ingest_changes o changes)
  unfolding ingest_changes ingest_change
  ingest_changes-Follows [] = return-Follows _
  ingest_changes-Follows (change ∷ changes) =
      then-Follows (ingest_known-Follows change (file_change_of o change.action))
        (λ outcome. then-Follows (ingest_changes-Follows changes) (λ t. return-Follows _))

  record_batch_gap-Follows : (gap : Bool) → Follows R (record_batch_gap o gap)
  unfolding record_batch_gap
  record_batch_gap-Follows false = return-Follows 0
  record_batch_gap-Follows true = then-Follows (record_gap-Follows _) (λ _. return-Follows 1)

  settle-Follows : (t : ℕ × Bool) → Follows R (settle o t)
  unfolding settle
  settle-Follows (n, false) = return-Follows n
  settle-Follows (n, true) =
      then-Follows (record_gap-Follows _)
        (λ _. then-Follows reconcile-Follows (λ _. return-Follows (suc n)))

  pub ingest_batch-Follows : (batch : DirectoryBatch) → Follows R (ingest_batch o batch)
  unfolding ingest_batch
  ingest_batch-Follows batch =
      then-Follows (record_batch_gap-Follows batch.gap_detected)
        (λ gaps. then-Follows (ingest_changes-Follows batch.changes) (λ t. settle-Follows _))

  run_batch-Follows : (batch : DirectoryBatch) → Follows R (run_batch o batch)
  unfolding run_batch
  run_batch-Follows batch = then-Follows (ingest_batch-Follows batch) (λ _.
      if-Follows batch.gap_detected (then-Follows reconcile-Follows (λ _. return-Follows tt))
        (return-Follows tt))

  run_loop-Follows :
      (max_batches : Option ℕ) (completed : ℕ) (outcomes : List (Result WatchOutcome Text))
      → Follows R (run_loop o max_batches completed outcomes)
  unfolding run_loop
  run_loop-Follows max_batches completed [] = return-Follows completed
  run_loop-Follows max_batches completed (ok cancelled ∷ outcomes) = return-Follows completed
  run_loop-Follows max_batches completed (err e ∷ outcomes) = record { related = same }
  run_loop-Follows max_batches completed (ok (WatchOutcome.batch batch) ∷ outcomes) =
      then-Follows (run_batch-Follows batch) (λ _.
        if-Follows (limit_reached o max_batches (suc completed)) (return-Follows (suc completed))
          (run_loop-Follows max_batches (suc completed) outcomes))

  pub run-Follows :
      (max_batches : Option ℕ) (outcomes : List (Result WatchOutcome Text))
      → Follows R (run o max_batches outcomes)
  unfolding run
  run-Follows max_batches outcomes =
      then-Follows reconcile-Follows (λ _. run_loop-Follows max_batches 0 outcomes)
