-- ===== src/Core/Engine/Laws.antt =====
-- The calls of the repository behind a successful ingestion.
use context_layer.Base.{
  ◌≡◌, refl, Bool-cases, [], ◌∷◌, Option, none, some, Result, ok, err, ◌⊎◌, inl, inr, arith, ◌==◌,
  ==_iff, Text,
}
use context_layer.Contracts.{EventEnvelope, Stamp, current_schema_version}
use context_layer.Core.Projection.{project_event}
use context_layer.Core.Engine.{
  EventRepository, IngestOutcome, IngestReport, DownloadMatchCandidate, match_path,
  match_tolerance_seconds, derived_event, report, derived_report, append_derived, correlate,
  after_append, ingest,
}

-- The calls of the repository behind a successful `ingest`: the event is appended with its
-- projection; if a download matches at the path of the event, the derived event is appended too.
pub data IngestRun {S E : Type 0} (repo : EventRepository S E) (stamp : Stamp)
    (event : EventEnvelope) (s : S) (r : IngestReport) (s' : S) : Type 0 where
  plain :
      repo.append_with_projection event (project_event event) s ≡ (ok r.outcome, s')
      → r.derived_event_ids ≡ []
      → (match_path event.payload ≡ none)
        ⊎ ((path : Text) × (match_path event.payload ≡ some path)
            × (repo.find_download_match path match_tolerance_seconds s' ≡ ok none))
      → IngestRun repo stamp event s r s'
  derived :
      (path : Text) (c : DownloadMatchCandidate) (s₁ : S) (second : IngestOutcome)
      → repo.append_with_projection event (project_event event) s ≡ (ok r.outcome, s₁)
      → match_path event.payload ≡ some path
      → repo.find_download_match path match_tolerance_seconds s₁ ≡ ok (some c)
      → repo.append_with_projection
          (derived_event stamp event c)
          (project_event (derived_event stamp event c))
          s₁
        ≡ (ok second, s')
      → r.derived_event_ids ≡ stamp.fresh_id ∷ []
      → IngestRun repo stamp event s r s'

module _ {S E : Type 0} (repo : EventRepository S E) (stamp : Stamp) (event : EventEnvelope) (s : S)
    (r : IngestReport) (s' : S) where
  derived_report_ok :
      (outcome : IngestOutcome) (x : Result IngestOutcome E × S)
      → derived_report repo outcome stamp.fresh_id x ≡ (ok r, s')
      → (second : IngestOutcome) × (x ≡ (ok second, s'))
        × (r.outcome ≡ outcome)
        × (r.derived_event_ids ≡ stamp.fresh_id ∷ [])
  unfolding derived_report report
  derived_report_ok outcome (err e, s₁) h = absurd (ground arith)
  derived_report_ok outcome (ok second, s₁) h = (second, ground arith, ground arith, ground arith)

  append_derived-IngestRun :
      (outcome : IngestOutcome) (path : Text) (s₁ : S)
      → repo.append_with_projection event (project_event event) s ≡ (ok outcome, s₁)
      → match_path event.payload ≡ some path
      → (o : Result (Option DownloadMatchCandidate) E)
      → repo.find_download_match path match_tolerance_seconds s₁ ≡ o
      → append_derived repo stamp event outcome o s₁ ≡ (ok r, s')
      → IngestRun repo stamp event s r s'
  unfolding append_derived report derived_event
  append_derived-IngestRun outcome path s₁ first at (err e) found h = absurd (ground arith)
  append_derived-IngestRun outcome path s₁ first at (ok none) found h =
      plain (ground arith) (ground arith) (inr (path, at, ground arith))
  append_derived-IngestRun outcome path s₁ first at (ok (some c)) found h =
      let (second, appended, same, ids) = derived_report_ok outcome _ h in
      derived path c s₁ second (ground arith) at found appended ids

  correlate-IngestRun :
      (outcome : IngestOutcome) (s₁ : S)
      → repo.append_with_projection event (project_event event) s ≡ (ok outcome, s₁)
      → (o : Option Text) → match_path event.payload ≡ o
      → correlate repo stamp event outcome o s₁ ≡ (ok r, s')
      → IngestRun repo stamp event s r s'
  unfolding correlate report
  correlate-IngestRun outcome s₁ first none at h = plain (ground arith) (ground arith) (inl at)
  correlate-IngestRun outcome s₁ first (some path) at h =
      append_derived-IngestRun outcome path s₁ first at _ refl h

  after_append-IngestRun :
      (x : Result IngestOutcome E × S)
      → repo.append_with_projection event (project_event event) s ≡ x
      → after_append repo stamp event x ≡ (ok r, s')
      → IngestRun repo stamp event s r s'
  unfolding after_append
  after_append-IngestRun (err e, s₁) first h = absurd (ground arith)
  after_append-IngestRun (ok outcome, s₁) first h = correlate-IngestRun outcome s₁ first _ refl h

-- A successful `ingest`, by the calls that it made.
pub ingest-IngestRun :
    {S E : Type 0} (repo : EventRepository S E) (stamp : Stamp) (event : EventEnvelope) (s : S)
    (r : IngestReport) (s' : S)
    → ingest repo stamp event s ≡ (ok r, s')
    → (event.schema_version ≡ current_schema_version) × IngestRun repo stamp event s r s'
unfolding ingest
ingest-IngestRun repo stamp event s r s' h =
    elim (Bool-cases (event.schema_version == current_schema_version)) [
      | inl current ↦ (
        (==_iff _ _).0 current,
        after_append-IngestRun repo stamp event s r s' _ refl (rw current at h),
      )
      | inr other ↦ absurd (ground arith)
    ]
