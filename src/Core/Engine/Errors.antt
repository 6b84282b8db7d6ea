-- ===== src/Core/Engine/Errors.antt =====
-- Where an ingestion of a well-formed event can fail.
use context_layer.Base.{
  ◌≡◌, false, ◌==◌, ==_iff, trim, is_empty, none, some, Option, Result, ok, err, Text,
}
use context_layer.Contracts.{
  EventEnvelope, EventEnvelopeV2, Stamp, Uuid, current_schema_version, current_envelope_version,
}
use context_layer.Core.Engine.{
  EventRepository, IngestOutcome, IngestError, repository, DownloadMatchCandidate, report,
  derived_report, append_derived, correlate, after_append, ingest, ingest_v2, plain_report,
}

-- The result is no error but one of the repository.
abbrev pub RepositoryOnly : {A E : Type 0} → Result A (IngestError E) → Type 0
RepositoryOnly (ok _) = Unit
RepositoryOnly (err (repository _)) = Unit
RepositoryOnly (err _) = ⊥

module _ {S E : Type 0} (repo : EventRepository S E) (stamp : Stamp) where
  derived_report-only :
      (outcome : IngestOutcome) (id : Uuid) (x : Result IngestOutcome E × S)
      → RepositoryOnly (derived_report repo outcome id x).0
  unfolding derived_report report
  derived_report-only outcome id (err e, s) = tt
  derived_report-only outcome id (ok _, s) = tt

  append_derived-only :
      (event : EventEnvelope) (outcome : IngestOutcome)
      (o : Result (Option DownloadMatchCandidate) E) (s : S)
      → RepositoryOnly (append_derived repo stamp event outcome o s).0
  unfolding append_derived report
  append_derived-only event outcome (err e) s = tt
  append_derived-only event outcome (ok none) s = tt
  append_derived-only event outcome (ok (some c)) s = derived_report-only outcome _ _

  correlate-only :
      (event : EventEnvelope) (outcome : IngestOutcome) (o : Option Text) (s : S)
      → RepositoryOnly (correlate repo stamp event outcome o s).0
  unfolding correlate report
  correlate-only event outcome none s = tt
  correlate-only event outcome (some path) s = append_derived-only event outcome _ s

  after_append-only :
      (event : EventEnvelope) (x : Result IngestOutcome E × S)
      → RepositoryOnly (after_append repo stamp event x).0
  unfolding after_append
  after_append-only event (err e, s) = tt
  after_append-only event (ok outcome, s) = correlate-only event outcome _ s

  plain_report-only : (x : Result IngestOutcome E × S) → RepositoryOnly (plain_report repo x).0
  unfolding plain_report report
  plain_report-only (err e, s) = tt
  plain_report-only (ok outcome, s) = tt

  pub ingest-RepositoryOnly :
      (event : EventEnvelope) (s : S)
      → event.schema_version ≡ current_schema_version
      → RepositoryOnly (ingest repo stamp event s).0
  unfolding ingest
  ingest-RepositoryOnly event s current = rw ((==_iff _ _).1 current) (after_append-only event _)

  pub ingest_v2-RepositoryOnly :
      (event : EventEnvelopeV2) (s : S)
      → event.envelope_version ≡ current_envelope_version
      → is_empty (trim event.event_type) ≡ false
      → (event.payload_version == 0) ≡ false
      → RepositoryOnly (ingest_v2 repo stamp event s).0
  unfolding ingest_v2
  ingest_v2-RepositoryOnly event s current named versioned =
      rw ((==_iff _ _).1 current, named, versioned) (plain_report-only _)
