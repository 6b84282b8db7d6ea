-- ===== src/Core/Engine/Runs.antt =====
-- What ingestion does, on every branch, against a description of its own.
use context_layer.Base.{
  ℕ, ◌≡◌, ◌≢◌, refl, Bool-cases, Text, text, List, [], ◌∷◌, Option, none, some, Result, ok, err,
  inl, inr, ◌==◌, ==_iff, arith,
}
use context_layer.Contracts.{
  Uuid, FileIdentity, EventEnvelope, Stamp, EventPayload, ContentRef, task_started, file_observed,
  browser_download_observed, content_observed, download_matched, collector_gap, FileChange,
  SensitivityClass, current_schema_version, created, modified, moved, renamed, deleted,
}
use context_layer.Core.Projection.{
  ProjectionCommand, upsert_task, upsert_artifact_location, store_pending_download,
  add_observed_download_edge, record_collector_gap, project_payload, project_event,
}
use context_layer.Core.Engine.{
  EventRepository, IngestOutcome, IngestReport, IngestError, unsupported_schema, repository,
  DownloadMatchCandidate, match_path, derived_event, report, derived_report, append_derived,
  correlate, after_append, ingest,
}

-- A download may be matched at the path of a file that is there, and at that of a download.
pub data MatchedAt : EventPayload → Text → Type 0 where
  at_file :
      (identity : FileIdentity) (path : Text) (change : FileChange)
      → change ≢ deleted
      → MatchedAt (file_observed identity path change) path
  at_download :
      (id : Uuid) (url : Text) (referrer : Option Text) (path : Text)
      → MatchedAt (browser_download_observed id url referrer path) path

-- The tables' commands for an event with a payload.
pub data ProjectsTo (event : EventEnvelope) : EventPayload → List ProjectionCommand → Type 0 where
  of_task :
      (id : Uuid) (name : Text)
      → ProjectsTo event (task_started id name) (upsert_task id name event.observed_at ∷ [])
  of_file :
      (identity : FileIdentity) (path : Text) (change : FileChange)
      → ProjectsTo event (file_observed identity path change) (
          upsert_artifact_location identity path event.scope_id event.observed_at change
            event.event_id
          ∷ [])
  of_download :
      (id : Uuid) (url : Text) (referrer : Option Text) (path : Text)
      → ProjectsTo event
          (browser_download_observed id url referrer path)
          (store_pending_download id url referrer path event.observed_at event.event_id ∷ [])
  of_content :
      (kind : Text) (refs : List ContentRef) → ProjectsTo event (content_observed kind refs) []
  of_match :
      (id : Uuid) (identity : FileIdentity) (url : Text) (sources : List Uuid)
      → ProjectsTo event
          (download_matched id identity url sources)
          (add_observed_download_edge id identity url sources event.observed_at ∷ [])
  of_gap :
      (collector : Text) (last : Option ℕ) (reason : Text)
      → ProjectsTo event
          (collector_gap collector last reason)
          (record_collector_gap collector last reason event.observed_at ∷ [])

-- The event that tells of a match found for another event.
pub record TellsOfMatch (stamp : Stamp) (event : EventEnvelope) (c : DownloadMatchCandidate)
    (d : EventEnvelope) : Type 0 where
  pub event_id : d.event_id ≡ stamp.fresh_id
  pub schema_version : d.schema_version ≡ current_schema_version
  pub source : d.source ≡ text "core.download-correlator"
  pub source_sequence : d.source_sequence ≡ none
  pub observed_at : d.observed_at ≡ c.observed_at
  pub ingested_at : d.ingested_at ≡ stamp.now
  pub scope_id : d.scope_id ≡ event.scope_id
  pub correlation_id : d.correlation_id ≡ some event.event_id
  pub sensitivity : d.sensitivity ≡ SensitivityClass.metadata
  pub payload : d.payload ≡ download_matched c.download_id c.identity c.url c.source_event_ids

module _ {S E : Type 0} (repo : EventRepository S E) (stamp : Stamp) where
  -- An append of an event with the commands of its payload.
  pub record Appends (event : EventEnvelope) (s : S) (r : Result IngestOutcome E) (s' : S)
      : Type 0 where
    pub commands : List ProjectionCommand
    pub projects : ProjectsTo event event.payload commands
    pub appended : repo.append_with_projection event commands s ≡ (r, s')

  -- What follows the append of an event.
  pub data Correlates (event : EventEnvelope) (outcome : IngestOutcome) (s : S)
      : Result IngestReport (IngestError E) × S → Type 0 where
    nowhere :
        ((path : Text) → MatchedAt event.payload path → ⊥)
        → Correlates event outcome s (ok (record { outcome = outcome; derived_event_ids = [] }), s)
    lookup_failed :
        (path : Text) (e : E)
        → MatchedAt event.payload path
        → repo.find_download_match path 180 s ≡ err e
        → Correlates event outcome s (err (repository e), s)
    unmatched :
        (path : Text)
        → MatchedAt event.payload path
        → repo.find_download_match path 180 s ≡ ok none
        → Correlates event outcome s (ok (record { outcome = outcome; derived_event_ids = [] }), s)
    told :
        (path : Text) (c : DownloadMatchCandidate) (d : EventEnvelope) (second : IngestOutcome)
        (s' : S)
        → MatchedAt event.payload path
        → repo.find_download_match path 180 s ≡ ok (some c)
        → TellsOfMatch stamp event c d
        → Appends d s (ok second) s'
        → Correlates event outcome s
            (ok (record { outcome = outcome; derived_event_ids = stamp.fresh_id ∷ [] }), s')
    telling_failed :
        (path : Text) (c : DownloadMatchCandidate) (d : EventEnvelope) (e : E) (s' : S)
        → MatchedAt event.payload path
        → repo.find_download_match path 180 s ≡ ok (some c)
        → TellsOfMatch stamp event c d
        → Appends d s (err e) s'
        → Correlates event outcome s (err (repository e), s')

  -- What an ingestion gives, and the state that it leaves.
  pub data Runs (event : EventEnvelope) (s : S)
      : Result IngestReport (IngestError E) × S → Type 0 where
    refused :
        event.schema_version ≢ current_schema_version
        → Runs event s (err (unsupported_schema event.schema_version current_schema_version), s)
    append_failed :
        (e : E) (s' : S)
        → event.schema_version ≡ current_schema_version
        → Appends event s (err e) s'
        → Runs event s (err (repository e), s')
    appended :
        (outcome : IngestOutcome) (s' : S) (x : Result IngestReport (IngestError E) × S)
        → event.schema_version ≡ current_schema_version
        → Appends event s (ok outcome) s'
        → Correlates event outcome s' x
        → Runs event s x

  project_payload-ProjectsTo :
      (event : EventEnvelope) (p : EventPayload) → ProjectsTo event p (project_payload event p)
  unfolding project_payload
  project_payload-ProjectsTo event (task_started id name) = of_task id name
  project_payload-ProjectsTo event (file_observed i path change) = of_file i path change
  project_payload-ProjectsTo event (browser_download_observed id url referrer path) =
      of_download id url referrer path
  project_payload-ProjectsTo event (content_observed kind refs) = of_content kind refs
  project_payload-ProjectsTo event (download_matched id i url sources) = of_match id i url sources
  project_payload-ProjectsTo event (collector_gap collector last reason) =
      of_gap collector last reason

  append-Appends :
      (event : EventEnvelope) (s s' : S) (r : Result IngestOutcome E)
      → repo.append_with_projection event (project_event event) s ≡ (r, s')
      → Appends event s r s'
  unfolding project_event
  append-Appends event s s' r h = record {
    commands = project_payload event event.payload;
    projects = project_payload-ProjectsTo event event.payload;
    appended = h;
  }

  -- Where an event is looked up, if it is.
  abbrev Where : EventPayload → Option Text → Type 0
  Where p none = (path : Text) → MatchedAt p path → ⊥
  Where p (some path) = MatchedAt p path

  match_path-Where : (p : EventPayload) → Where p (match_path p)
  unfolding match_path
  match_path-Where (task_started id name) = λ path m. elim m [ ]
  match_path-Where (file_observed i path created) = at_file i path created (λ e. ground (arith, e))
  match_path-Where (file_observed i path modified) =
      at_file i path modified (λ e. ground (arith, e))
  match_path-Where (file_observed i path moved) = at_file i path moved (λ e. ground (arith, e))
  match_path-Where (file_observed i path renamed) = at_file i path renamed (λ e. ground (arith, e))
  match_path-Where (file_observed i path deleted) = λ path' m. not_there i path path' m
    where
      not_there :
          (i : FileIdentity) (path path' : Text)
          → MatchedAt (file_observed i path deleted) path'
          → ⊥
      not_there i path _ (at_file _ _ _ there) = there refl
  match_path-Where (browser_download_observed id url referrer path) =
      at_download id url referrer path
  match_path-Where (content_observed kind refs) = λ path m. elim m [ ]
  match_path-Where (download_matched id i url sources) = λ path m. elim m [ ]
  match_path-Where (collector_gap collector last reason) = λ path m. elim m [ ]

  derived_event-TellsOfMatch :
      (event : EventEnvelope) (c : DownloadMatchCandidate)
      → TellsOfMatch stamp event c (derived_event stamp event c)
  unfolding derived_event
  derived_event-TellsOfMatch event c = record {
    event_id = refl;
    schema_version = refl;
    source = refl;
    source_sequence = refl;
    observed_at = refl;
    ingested_at = refl;
    scope_id = refl;
    correlation_id = refl;
    sensitivity = refl;
    payload = refl;
  }

  derived_report-Correlates :
      (event : EventEnvelope) (outcome : IngestOutcome) (s : S) (path : Text)
      (c : DownloadMatchCandidate) (x : Result IngestOutcome E × S)
      → MatchedAt event.payload path
      → repo.find_download_match path 180 s ≡ ok (some c)
      → repo.append_with_projection
          (derived_event stamp event c)
          (project_event (derived_event stamp event c))
          s
        ≡ x
      → Correlates event outcome s (derived_report repo outcome stamp.fresh_id x)
  unfolding derived_report report
  derived_report-Correlates event outcome s path c (ok second, s') at found h =
      told path c (derived_event stamp event c) second s' at found
        (derived_event-TellsOfMatch event c) (append-Appends _ s s' (ok second) h)
  derived_report-Correlates event outcome s path c (err e, s') at found h =
      telling_failed path c (derived_event stamp event c) e s' at found
        (derived_event-TellsOfMatch event c) (append-Appends _ s s' (err e) h)

  append_derived-Correlates :
      (event : EventEnvelope) (outcome : IngestOutcome) (s : S) (path : Text)
      (o : Result (Option DownloadMatchCandidate) E)
      → MatchedAt event.payload path
      → repo.find_download_match path 180 s ≡ o
      → Correlates event outcome s (append_derived repo stamp event outcome o s)
  unfolding append_derived report derived_event
  append_derived-Correlates event outcome s path (err e) at found = lookup_failed path e at found
  append_derived-Correlates event outcome s path (ok none) at found = unmatched path at found
  append_derived-Correlates event outcome s path (ok (some c)) at found =
      derived_report-Correlates event outcome s path c _ at found refl

  correlate-Correlates :
      (event : EventEnvelope) (outcome : IngestOutcome) (s : S) (o : Option Text)
      → Where event.payload o
      → Correlates event outcome s (correlate repo stamp event outcome o s)
  unfolding correlate report
  correlate-Correlates event outcome s none h = nowhere h
  correlate-Correlates event outcome s (some path) at =
      append_derived-Correlates event outcome s path _ at refl

  after_append-Runs :
      (event : EventEnvelope) (s : S) (x : Result IngestOutcome E × S)
      → event.schema_version ≡ current_schema_version
      → repo.append_with_projection event (project_event event) s ≡ x
      → Runs event s (after_append repo stamp event x)
  unfolding after_append
  after_append-Runs event s (err e, s') current h =
      append_failed e s' current (append-Appends event s s' (err e) h)
  after_append-Runs event s (ok outcome, s') current h =
      appended outcome s' _ current (append-Appends event s s' (ok outcome) h)
        (correlate-Correlates event outcome s' _ (match_path-Where event.payload))

-- An ingestion refuses an event of another schema version and leaves the state. Else it appends the
-- event with the commands of its payload, and fails if that does. It then asks for a download within
-- 180 seconds at the path of a file that was not deleted, or of a download, and for no other event. If
-- one is found it appends, with its command, an event that tells of the match, in the scope of the
-- first event and correlated to it, and reports its identifier. A failure of the lookup or of the
-- second append is the result, with the state that it left.
pub ingest-Runs :
    {S E : Type 0} (repo : EventRepository S E) (stamp : Stamp) (event : EventEnvelope) (s : S)
    → Runs repo stamp event s (ingest repo stamp event s)
unfolding ingest
ingest-Runs repo stamp event s =
    elim (Bool-cases (event.schema_version == current_schema_version)) [
      | inl current ↦ rw current (
          after_append-Runs repo stamp event s _
            ((==_iff event.schema_version current_schema_version).0 current) refl)
      | inr other ↦ rw other (refused (λ same. ground (arith, other, same)))
    ]
