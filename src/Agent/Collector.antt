-- ===== src/Agent/Collector.antt =====
-- apps/context-agent/src/collector.rs: the collector of file changes of one scope. Each event takes the
-- next sequence number, so that clock and fresh identifiers are given by that number; so is what the
-- file system answers at that moment.
pub mod Reconcile
pub mod Kept
pub mod Sequence
pub mod Counted
pub mod Stable
pub mod Gaps
use context_layer.Base.{
  ℕ, suc, ◌+◌, ◌*◌, Bool, true, false, ◌&&◌, ◌||◌, ◌==◌, ltb, leb, not, if◌then◌else◌, Text, text,
  text_eq, is_empty, List, [], ◌∷◌, ◌++◌, length, any, Option, none, some, Result, ok, err, ◌>>=◌,
  map_err,
}
use context_layer.Contracts.{
  OffsetDateTime, Stamp, FileIdentity, identity_eq, FileChange, created, modified, renamed, deleted,
  EventPayload, file_observed, collector_gap, EventEnvelope, observed_event,
}
use context_layer.Core.Engine.{IngestReport, IngestError, ingest as engine_ingest}
use context_layer.Storage.Tables.{
  Crates, StorageError, Database, last_source_sequence, ActiveLocation, active_locations_in_scope,
}
use context_layer.Storage.Append.{mark_collector_reconciled}
use context_layer.Storage.Match.{sqlite_repository}
use context_layer.Platform.{
  DirectoryAction, added, removed, renamed_from, renamed_to, unknown, DirectoryChange,
  DirectoryBatch, ReconciledFile, ReconcileIssue, ReconcileReport, contract_path,
}

abbrev pub source : Text
source = text "windows.directory-watcher"

abbrev pub u64_max : ℕ
u64_max = 18446744073709551615

-- What the collector takes from outside. `starts_with` is `Path::starts_with`.
pub record Outside : Type 0 where
  pub crates : Crates
  pub stamp : ℕ → Stamp
  pub derived_stamp : ℕ → Stamp
  pub now : ℕ → OffsetDateTime
  pub join : Text → Text → Text
  pub starts_with : Text → Text → Bool
  pub file_identity : ℕ → Text → Result FileIdentity Text
  pub scan_scope : ℕ → Text → Result ReconcileReport Text

pub record CollectorState : Type 0 where
  pub engine : Database
  pub root : Text
  pub scope_id : Text
  pub last_sequence : ℕ

pub data CollectorError : Type 0 where
  sequence_exhausted : CollectorError
  ingest_failed : IngestError StorageError → CollectorError
  storage_failed : StorageError → CollectorError
  scan_failed watcher_failed : Text → CollectorError

-- A call on `&mut self`.
abbrev pub Step : Type 0 → Type 0
Step A = CollectorState → Result A CollectorError × CollectorState

-- `step?;` followed by the rest.
abbrev pub resume :
    {A B : Type 0}
    → Result A CollectorError × CollectorState
    → (A → Step B)
    → Result B CollectorError × CollectorState
resume (ok a, s) next = next a s
resume (err e, s) next = (err e, s)

infixl 5 ◌then◌
unfoldable pub ◌then◌ : {A B : Type 0} → Step A → (A → Step B) → Step B
(m then next) s = resume (m s) next

abbrev pub return : {A : Type 0} → A → Step A
return a s = (ok a, s)

pub data ChangeOutcome : Type 0 where
  ingested ignored needs_reconciliation : ChangeOutcome

pub record ReconcileSummary : Type 0 where
  pub observed : ℕ
  pub inserted : ℕ
  pub deleted : ℕ
  pub issues : ℕ

abbrev pub same_place : FileIdentity → Text → FileIdentity → Text → Bool
same_place i p j q = identity_eq i j && text_eq p q

module _ (o : Outside) where
  unfoldable pub collected_event : CollectorState → EventPayload → Text → EventEnvelope
  unfolding observed_event
  collected_event s payload detail =
      record (observed_event (o.stamp s.last_sequence) source s.scope_id
        (o.stamp s.last_sequence).now payload (text "context-agent") detail) {
          source_sequence = some s.last_sequence;
        }

  abbrev engine_done : Result IngestReport (IngestError StorageError) × Database → Step (Unit {0})
  engine_done (ok _, db) s = (ok tt, record s { engine = db })
  engine_done (err e, db) s = (err (ingest_failed e), record s { engine = db })

  -- After the sequence number was drawn, which an error does not give back.
  unfoldable pub ingest_drawn : EventPayload → Text → Step (Unit {0})
  unfolding collected_event engine_ingest sqlite_repository
  ingest_drawn payload detail s =
      engine_done
        (engine_ingest (sqlite_repository o.crates) (o.derived_stamp s.last_sequence)
          (collected_event s payload detail) s.engine)
        s

  unfoldable pub ingest : EventPayload → Text → Step (Unit {0})
  unfolding ingest_drawn
  ingest payload detail s =
      if ltb s.last_sequence u64_max
      then ingest_drawn payload detail (record s { last_sequence = suc s.last_sequence })
      else (err sequence_exhausted, s)

  unfoldable pub ingest_file : FileIdentity → Text → FileChange → Text → Step (Unit {0})
  unfolding ingest contract_path
  ingest_file identity path change = ingest (file_observed identity (contract_path path) change)

  unfoldable pub record_gap : Text → Step (Unit {0})
  unfolding ingest
  record_gap reason s =
      ingest (collector_gap source (some s.last_sequence) reason)
        (text "collector gap requires bounded scope reconciliation") s

  abbrev pub file_change_of : DirectoryAction → Option FileChange
  file_change_of added = some created
  file_change_of DirectoryAction.modified = some modified
  file_change_of renamed_to = some renamed
  file_change_of removed = some deleted
  file_change_of renamed_from = some deleted
  file_change_of (unknown _) = none

  abbrev identity_now : Result FileIdentity Text → Option FileIdentity
  identity_now (ok identity) = some identity
  identity_now (err _) = none

  abbrev is_deletion : FileChange → Bool
  is_deletion deleted = true
  is_deletion _ = false

  -- The identity of a change: its own, or for a file that should still exist the file's.
  abbrev resolve : Option FileIdentity → FileChange → Result FileIdentity Text → Option FileIdentity
  resolve (some identity) change at_path = some identity
  resolve none change at_path = if is_deletion change then none else identity_now at_path

  abbrev ingest_resolved : Option FileIdentity → Text → FileChange → Step ChangeOutcome
  ingest_resolved none path change = return needs_reconciliation
  ingest_resolved (some identity) path change =
      ingest_file identity path change (text "ReadDirectoryChangesExW extended record") then λ _.
      return ingested

  abbrev ingest_known : DirectoryChange → Option FileChange → Step ChangeOutcome
  ingest_known change none s = (ok ignored, s)
  ingest_known change (some file_change) s =
      let path = o.join s.root change.relative_path in
      ingest_resolved (resolve change.identity file_change (o.file_identity s.last_sequence path))
        path file_change s

  unfoldable pub ingest_change : DirectoryChange → Step ChangeOutcome
  unfolding ingest_file
  ingest_change change = ingest_known change (file_change_of change.action)
