-- ===== src/Examples/Core.antt =====
-- The core at concrete inputs.
use context_layer.Base.{
  trim, ℕ, ◌+◌, ◌≡◌, refl, ap, ◌∙◌, arith, true, false, ◌==◌, if◌then◌else◌, Text, text, List, [],
  ◌∷◌, ◌++◌, length, length-append, none, some, Result, ok, inl,
}
use context_layer.Contracts.{SensitivityClass}
use context_layer.Core.Grants.{sensitivity_allowed, retrieval_class_allowed, filter_refs}
use context_layer.Core.Timeline.{
  TimelineQuery, TimelinePage, RawTimelineRecord, TimelineRepository, validate_query,
}
use context_layer.Core.Visible.Disclosure.{Vouched}
use context_layer.Core.Retrieval.{query_timeline, raw_query, first_scan}
use context_layer.Core.Retrieval.Bounds.{Answers, FromRepository, query_timeline-Vouched}
use context_layer.Core.Retrieval.Spec.{Serves, at_start, walk, raw_page}
use context_layer.Core.Retrieval.Refinement.{query_timeline-walk}
use context_layer.Core.Retrieval.Pages.{Partition, query_timeline-Partition}
use context_layer.Core.ContentAccess.{
  RawEventLookup, RawEventLookupRepository, AuthorizedContentRef, authorize_reference,
}
use context_layer.Core.ContentAccess.Laws.{
  Authorized, authorize_reference-Authorized, authorize_reference_hidden,
}
use context_layer.Core.Engine.{EventRepository, inserted, ingest}
use context_layer.Core.Engine.Runs.{Runs, ingest-Runs}
use context_layer.Core.Visible.{decode_visible_entry}
use context_layer.Contracts.{Value}
use context_layer.Examples.{at_second, stamp, file_event, content_event, serde, grant, reference}

abbrev newer : RawTimelineRecord
newer = record {
  event_id = 6;
  schema_version = 2;
  observed_at = at_second 11;
  envelope_json = text "v2";
}

abbrev older : RawTimelineRecord
older = record {
  event_id = 5;
  schema_version = 1;
  observed_at = at_second 10;
  envelope_json = text "v1";
}

abbrev rows : List RawTimelineRecord
rows = newer ∷ older ∷ []

abbrev repo : TimelineRepository Text
repo q = elim (q.before) [
  | none ↦ ok (raw_page q.limit rows)
  | some c ↦ ok (raw_page q.limit (if c.event_id == 6 then older ∷ [] else []))
]

abbrev query : TimelineQuery
query = record {
  scope_id = text "scope.personal";
  start_at = none;
  end_at = none;
  before = none;
  limit = 1;
}

served :
    (limit : ℕ) (done : List RawTimelineRecord) (r : RawTimelineRecord)
    (rest : List RawTimelineRecord)
    → rows ≡ done ++ (r ∷ rest)
    → ◌≡◌ {A = Result _ Text}
        (ok (raw_page limit (if r.event_id == 6 then older ∷ [] else [])))
        (ok (raw_page limit rest))
served limit [] r rest e =
    let head : newer ≡ r = ground (arith, e) in
    let tail : older ∷ [] ≡ rest = ground (arith, e) in rw (← head, ← tail)
served limit (a ∷ []) r rest e =
    let head : older ≡ r = ground (arith, e) in
    let tail : [] ≡ rest = ground (arith, e) in rw (← head, ← tail)
served limit (a ∷ b ∷ done) r rest e =
    absurd (omega (arith, ap length e, length-append done (r ∷ rest)))

serves : Serves repo (raw_query query (first_scan query)) rows
serves = record {
  from_start = λ limit. refl;
  from_cursor = λ done r rest e limit. served limit done r rest e;
}

valid : validate_query {E = Text} query ≡ ok tt
unfolding validate_query trim
valid = refl

query_timeline-Vouched_example :
    Answers
      (Vouched serde grant (FromRepository repo query))
      1
      (query_timeline serde repo query grant)
query_timeline-Vouched_example = query_timeline-Vouched serde repo query grant

query_timeline-walk_example :
    query_timeline serde repo query grant ≡ some (walk serde grant 1 [] none 0 rows)
query_timeline-walk_example =
    query_timeline-walk serde grant query repo rows rows tt serves valid (at_start refl refl)

abbrev page : TimelinePage
page = record {
  entries =
      record {
        event_id = 6;
        schema_version = 2;
        event_type = text "fixture";
        source = text "fixture";
        source_sequence = some 1;
        occurred_at = none;
        observed_at = at_second 11;
        ingested_at = at_second 21;
        device_id = none;
        scope_id = text "scope.personal";
        correlation_id = none;
        sensitivity = SensitivityClass.metadata;
        content_refs = reference ∷ [];
        payload = some Value.null;
        evidence = content_event.evidence;
      }
      ∷ [];
  next_cursor = some (record { observed_at = at_second 11; event_id = 6 });
}

walked : walk {E = Text} serde grant 1 [] none 0 rows ≡ ok page
unfolding walk decode_visible_entry sensitivity_allowed filter_refs
walked = refl

answered : query_timeline serde repo query grant ≡ some (ok page)
answered =
    query_timeline-walk serde grant query repo rows rows tt serves valid (at_start refl refl)
    ∙ ap some walked

query_timeline-Partition_example : Partition Text serde grant rows rows [] page
query_timeline-Partition_example =
    query_timeline-Partition serde grant query repo rows rows tt page serves valid
      (at_start refl refl) answered

abbrev lookup : RawEventLookup
lookup = record {
  event_id = 6;
  schema_version = 2;
  scope_id = text "scope.personal";
  sensitivity_json = text "metadata";
  envelope_json = text "v2";
}

abbrev by_id : RawEventLookupRepository Text
by_id id = ok (if id == 6 then some lookup else none)

abbrev allowed : AuthorizedContentRef
allowed = record {
  event_id = 6;
  scope_id = text "scope.personal";
  event_sensitivity = SensitivityClass.metadata;
  reference = reference;
}

authorized : authorize_reference serde by_id 6 (text "ab") grant (λ _. true) ≡ ok (some allowed)
unfolding authorize_reference sensitivity_allowed retrieval_class_allowed
authorized = refl

authorize_reference-Authorized_example :
    Authorized serde by_id 6 (text "ab") grant (λ _. true) allowed
authorize_reference-Authorized_example =
    authorize_reference-Authorized serde by_id 6 (text "ab") grant (λ _. true) allowed authorized

authorize_reference_hidden_example :
    authorize_reference serde by_id 6 (text "ab") grant (λ _. false)
    ≡ authorize_reference serde (λ _. ok none) 6 (text "ab") grant (λ _. false)
authorize_reference_hidden_example =
    authorize_reference_hidden serde by_id 6 (text "ab") grant (λ _. false) lookup refl (inl refl)

-- A repository that counts its calls.
abbrev counter : EventRepository ℕ Text
counter = record {
  append_with_projection = λ event commands n. (ok inserted, n + 1);
  find_download_match = λ path tolerance n. ok (
      some (record {
        download_id = 9;
        identity = record { provider = text "ntfs"; namespace = text "vol"; opaque_id = 1 ∷ [] };
        url = text "https://example.org/r.pdf";
        source_event_ids = 4 ∷ 5 ∷ [];
        observed_at = at_second 10;
      }));
  append_raw_v2 = λ event n. (ok inserted, n + 1);
}

ingest-Runs_example : Runs counter stamp file_event 0 (ingest counter stamp file_event 0)
ingest-Runs_example = ingest-Runs counter stamp file_event 0
