-- ===== src/Core/Engine/Preserved.antt =====
-- What every call of the repository preserves, ingestion preserves, also where it fails half-way.
use context_layer.Base.{
  ◌≡◌, Bool-cases, inl, inr, ◌==◌, trim, is_empty, List, none, some, Option, Result, ok, err, Text,
  arith,
}
use context_layer.Contracts.{
  EventEnvelope, EventEnvelopeV2, Stamp, Uuid, current_schema_version, current_envelope_version,
}
use context_layer.Core.Projection.{ProjectionCommand, project_event}
use context_layer.Core.Engine.{
  EventRepository, IngestOutcome, IngestReport, DownloadMatchCandidate, derived_event, report,
  derived_report, append_derived, correlate, after_append, ingest, ingest_v2, plain_report,
}

module _ {S E : Type 0} (repo : EventRepository S E) (P : S → Type 0)
    (kept : (event : EventEnvelope) (commands : List ProjectionCommand) (s : S)
      → P s
      → P (repo.append_with_projection event commands s).1)
    (stamp : Stamp) where
  derived_report-kept :
      (outcome : IngestOutcome) (id : Uuid) (x : Result IngestOutcome E × S)
      → P x.1
      → P (derived_report repo outcome id x).1
  unfolding derived_report
  derived_report-kept outcome id (err e, s) h = h
  derived_report-kept outcome id (ok _, s) h = h

  append_derived-kept :
      (event : EventEnvelope) (outcome : IngestOutcome)
      (o : Result (Option DownloadMatchCandidate) E) (s : S)
      → P s
      → P (append_derived repo stamp event outcome o s).1
  unfolding append_derived
  append_derived-kept event outcome (err e) s h = h
  append_derived-kept event outcome (ok none) s h = h
  append_derived-kept event outcome (ok (some c)) s h =
      derived_report-kept outcome _ _ (kept (derived_event stamp event c) _ s h)

  correlate-kept :
      (event : EventEnvelope) (outcome : IngestOutcome) (o : Option Text) (s : S)
      → P s
      → P (correlate repo stamp event outcome o s).1
  unfolding correlate
  correlate-kept event outcome none s h = h
  correlate-kept event outcome (some path) s h = append_derived-kept event outcome _ s h

  after_append-kept :
      (event : EventEnvelope) (x : Result IngestOutcome E × S)
      → P x.1
      → P (after_append repo stamp event x).1
  unfolding after_append
  after_append-kept event (err e, s) h = h
  after_append-kept event (ok outcome, s) h = correlate-kept event outcome _ s h

  -- A property of the repository that every append keeps is kept by `ingest`, whatever it returns.
  pub ingest-kept : (event : EventEnvelope) (s : S) → P s → P (ingest repo stamp event s).1
  unfolding ingest
  ingest-kept event s h = elim (Bool-cases (event.schema_version == current_schema_version)) [
    | inl t ↦ rw t (after_append-kept event _ (kept event (project_event event) s h))
    | inr t ↦ rw t h
  ]

plain_report-kept :
    {S E : Type 0} (repo : EventRepository S E) (P : S → Type 0) (x : Result IngestOutcome E × S)
    → P x.1
    → P (plain_report repo x).1
unfolding plain_report
plain_report-kept repo P (err e, s) h = h
plain_report-kept repo P (ok outcome, s) h = h

pub ingest_v2-kept :
    {S E : Type 0} (repo : EventRepository S E) (P : S → Type 0)
    → ((event : EventEnvelopeV2) (s : S) → P s → P (repo.append_raw_v2 event s).1)
    → (stamp : Stamp) (event : EventEnvelopeV2) (s : S) → P s
    → P (ingest_v2 repo stamp event s).1
unfolding ingest_v2
ingest_v2-kept repo P kept stamp event s h =
    elim (Bool-cases (event.envelope_version == current_envelope_version)) [
      | inr t ↦ rw t h
      | inl t ↦ elim (Bool-cases (is_empty (trim event.event_type))) [
        | inl u ↦ rw (t, u) h
        | inr u ↦ elim (Bool-cases (event.payload_version == 0)) [
          | inl v ↦ rw (t, u, v) h
          | inr v ↦ rw (t, u, v) (plain_report-kept repo P _ (kept _ s h))
        ]
      ]
    ]

plain_report-ok :
    {S E : Type 0} (repo : EventRepository S E) (x : Result IngestOutcome E × S) (r : IngestReport)
    (s' : S)
    → plain_report repo x ≡ (ok r, s')
    → x ≡ (ok r.outcome, s')
unfolding plain_report report
plain_report-ok repo (err e, s) r s' h = absurd (ground (arith, h))
plain_report-ok repo (ok outcome, s) r s' h = ground (arith, h)

-- A successful `ingest_v2` is a successful append of the event with the time of the ingest.
pub ingest_v2-append :
    {S E : Type 0} (repo : EventRepository S E) (stamp : Stamp) (event : EventEnvelopeV2) (s : S)
    (r : IngestReport) (s' : S)
    → ingest_v2 repo stamp event s ≡ (ok r, s')
    → repo.append_raw_v2 (record event { ingested_at = stamp.now }) s ≡ (ok r.outcome, s')
unfolding ingest_v2
ingest_v2-append repo stamp event s r s' h =
    elim (Bool-cases (event.envelope_version == current_envelope_version)) [
      | inr t ↦ absurd (ground (arith, rw t at h))
      | inl t ↦ elim (Bool-cases (is_empty (trim event.event_type))) [
        | inl u ↦ absurd (ground (arith, rw (t, u) at h))
        | inr u ↦ elim (Bool-cases (event.payload_version == 0)) [
          | inl v ↦ absurd (ground (arith, rw (t, u, v) at h))
          | inr v ↦ plain_report-ok repo _ r s' (rw (t, u, v) at h)
        ]
      ]
    ]
