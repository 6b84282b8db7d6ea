-- ===== src/Agent/Collector/Stable.antt =====
-- What a successful reconciliation did.
use context_layer.Base.{
  ℕ, ◌+◌, ◌≤◌, ◌≡◌, refl, ◌∙◌, subst, false, List, [], ◌∷◌, length, some, Result, ok, err, arith,
}
use context_layer.Storage.Tables.{
  Database, StorageError, ActiveLocation, active_locations_in_scope,
  collector_reconciliation_required, last_source_sequence,
}
use context_layer.Storage.Append.Reconciled.{mark_collector_reconciled-cleared}
use context_layer.Platform.{ReconcileIssue, ReconcileReport}
use context_layer.Agent.Collector.{Outside, CollectorState, source, ReconcileSummary}
use context_layer.Agent.Collector.Reconcile.{
  insert_missing, delete_missing, record_issues, marked, mark_if_clean, reconcile_steps,
  reconcile_report, reconcile,
}
use context_layer.Agent.Collector.Counted.{
  then-ok, return-Counted, Counted-trans, returned, insert_missing-Counted, delete_missing-Counted,
  record_issues-Counted, Counted,
}

module _ (o : Outside) where
  -- The checkpoint of the collector needs no reconciliation, and is at the sequence number or further.
  abbrev pub Clean : CollectorState → Type 0
  Clean s =
      (collector_reconciliation_required source s.scope_id s.engine ≡ false)
      × ((last : ℕ) × (last_source_sequence source s.scope_id s.engine ≡ some last)
          × (s.last_sequence ≤ last))

  abbrev pub CleanUnless : List ReconcileIssue → CollectorState → Type 0
  CleanUnless [] s = Clean s
  CleanUnless (_ ∷ _) s = Unit

  marked-ok :
      (x : Result (Unit {0}) StorageError × Database) (s s' : CollectorState)
      → marked o x s ≡ (ok tt, s')
      → (x ≡ (ok tt, s'.engine)) × (s' ≡ record s { engine = s'.engine })
  marked-ok (ok tt, db) s s' h = (ground (arith, h), ground (arith, h))
  marked-ok (err e, db) s s' h = absurd (ground (arith, h))

  mark_if_clean-Clean :
      (issues : List ReconcileIssue) (s s' : CollectorState)
      → mark_if_clean o issues s ≡ (ok tt, s')
      → Counted s 0 s' × CleanUnless issues s'
  unfolding mark_if_clean
  mark_if_clean-Clean (i ∷ issues) s s' h = (return-Counted tt 0 s tt s' refl h, tt)
  mark_if_clean-Clean [] s s' h =
      let (e, f) = marked-ok _ s s' h in
      let (flag, reached, frame) =
        mark_collector_reconciled-cleared o.crates (o.now s.last_sequence) source s.scope_id
          s.last_sequence s.engine s'.engine e in
      (record { events = ground (arith, f); scope_id = ground (arith, f) }, rw f (flag, reached))

  -- What a reconciliation that succeeds has done.
  pub record Reconciled (s : CollectorState) (report : ReconcileReport) (summary : ReconcileSummary)
      (s' : CollectorState) : Type 0 where
    pub observed : summary.observed ≡ length report.files
    pub issues : summary.issues ≡ length report.issues
    pub counted : Counted s (summary.inserted + summary.deleted + summary.issues) s'
    pub clean : CleanUnless report.issues s'

  steps-Reconciled :
      (report : ReconcileReport) (active : List ActiveLocation) (s : CollectorState)
      (summary : ReconcileSummary) (s' : CollectorState)
      → reconcile_steps o report active s ≡ (ok summary, s')
      → Reconciled s report summary s'
  unfolding reconcile_steps
  steps-Reconciled report active s summary s' h =
      let (inserted, (s1, h1, r1)) =
        then-ok (insert_missing o active report.files) _ s summary s' h in
      let (gone, (s2, h2, r2)) = then-ok (delete_missing o report active) _ s1 summary s' r1 in
      let (u, (s3, h3, r3)) = then-ok (record_issues o report.issues) _ s2 summary s' r2 in
      let (v, (s4, h4, r4)) = then-ok (mark_if_clean o report.issues) _ s3 summary s' r3 in
      let (e, f) =
        returned
          (record {
            observed = length report.files;
            inserted = inserted;
            deleted = gone;
            issues = length report.issues;
          })
          summary s4 s' r4 in
      let (still, clean) = mark_if_clean-Clean report.issues s3 s4 h4 in
      let c1 = insert_missing-Counted o active report.files s inserted s1 h1 in
      let c2 = delete_missing-Counted o report active s1 gone s2 h2 in
      let c3 = record_issues-Counted o report.issues s2 s3 h3 in
      let total = Counted-trans s s1 s2 inserted gone c1 c2 in
      let total3 = Counted-trans s s2 s3 (inserted + gone) (length report.issues) total c3 in
      subst (λ t. Reconciled s report summary t) f
        (subst (λ m. Reconciled s report m s4) e
          (record {
            observed = refl;
            issues = refl;
            counted = record {
              events = still.events ∙ omega (arith, total3.events);
              scope_id = still.scope_id ∙ total3.scope_id;
            };
            clean = clean;
          }))

-- A reconciliation that succeeds has drawn one sequence number for each file it inserted, each
-- location it deleted and each issue it recorded, and none else. If the scan had no issue, the
-- checkpoint of the scope no longer asks for a reconciliation, and has reached the sequence number.
pub reconcile-Reconciled :
    (o : Outside) (s : CollectorState) (report : ReconcileReport) (summary : ReconcileSummary)
    (s' : CollectorState)
    → o.scan_scope s.last_sequence s.root ≡ ok report
    → reconcile o s ≡ (ok summary, s')
    → Reconciled o s report summary s'
unfolding reconcile reconcile_report
reconcile-Reconciled o s report summary s' found h =
    steps-Reconciled o report (active_locations_in_scope s.scope_id s.engine) s summary s'
      (rw found at h)
