-- ===== src/Agent/Requests/Answered.antt =====
-- Every request is answered, and reads change nothing.
use context_layer.Base.{
  ℕ, ◌≡◌, ◌≢◌, ◌⊎◌, inl, inr, refl, Bool-cases, leb, ◌&&◌, ◌==◌, ==_iff, Text, text, Option, none,
  some, Result, ok, err,
}
use mathlib.Core.Option
use context_layer.Contracts.{
  Uuid, Stamp, LocalTimelinePage, LocalTextContent, LocalApiCommand, handshake, submit_event,
  submit_event_v2, query_timeline, read_text_content, LocalApiRequest, LocalApiResult,
  EventEnvelope, EventEnvelopeV2, ready, event_accepted, timeline_page, text_content, error,
  LocalApiResponse, local_api_version, LocalTimelineQuery,
}
use context_layer.Core.Serde.{Serde}
use context_layer.Core.Timeline.{RetrievalError, TimelineRepository, TimelinePage, TimelineEntry}
use context_layer.Core.Retrieval.Bounds.{FromRepository, Answers, query_timeline-Vouched}
use context_layer.Core.Visible.Disclosure.{Vouched}
use context_layer.Core.Grants.{RetrievalGrant}
use context_layer.Storage.Tables.{StorageError, Database}
use context_layer.Storage.Timeline.{query_raw_timeline}
use context_layer.Core.Engine.{IngestReport, IngestError}
use context_layer.Agent.ContentRead.{ContentReadError}
use context_layer.Agent.Policy.{ReadCapabilityPolicy, ConfigurationError}
use context_layer.Agent.ReadCapability.{
  ReadRequestError, WireJson, query_granted, query_timeline_with_policy,
  query_timeline_from_environment, max_local_page_entries, core_query,
}
use context_layer.Agent.Requests.{
  Setting, submitted, queried, read, VaultView, read_from_vault, run_command, request_result,
  respond, handle_request,
}

-- The results that a command may have.
abbrev pub Suits : LocalApiCommand → LocalApiResult → Type 0
Suits _ (error _ _) = Unit
Suits (handshake _) (ready _) = Unit
Suits (submit_event event) (event_accepted id _) = id ≡ event.event_id
Suits (submit_event_v2 event) (event_accepted id _) = id ≡ event.event_id
Suits (query_timeline _ _) (timeline_page _) = Unit
Suits (read_text_content _ _ _) (text_content _) = Unit
Suits _ _ = ⊥

-- A command that submits nothing.
abbrev pub IsRead : LocalApiCommand → Type 0
IsRead (submit_event _) = ⊥
IsRead (submit_event_v2 _) = ⊥
IsRead _ = Unit

answered :
    {E : Type 0} (P : TimelineEntry → Type 0) (limit : ℕ)
    (o : Option (Result TimelinePage (RetrievalError E)))
    → Answers P limit o
    → (r : Result TimelinePage (RetrievalError E)) × (o ≡ some r)
answered P limit none h = absurd h
answered P limit (some r) h = (r, refl)

map_answered :
    {A B : Type 0} (f : A → B) (o : Option A) (a : A)
    → o ≡ some a
    → (b : B) × (Option.map f o ≡ some b)
map_answered f o a e = (f a, rw e refl)

module _ {E : Type 0} (json : WireJson) (serde : Serde) (repo : TimelineRepository E)
    (describe : RetrievalError E → Text) where
  query_granted-ends :
      (o : Option RetrievalGrant) (query : LocalTimelineQuery)
      → (r : Result LocalTimelinePage ReadRequestError) × (query_granted json serde repo describe o
            query
          ≡ some r)
  unfolding query_granted
  query_granted-ends none query = (err ReadRequestError.not_authorized, refl)
  query_granted-ends (some grant) query =
      let (r, e) =
        answered
          (Vouched serde grant (FromRepository repo (core_query json serde repo describe query))) _
          _ (query_timeline-Vouched serde repo (core_query json serde repo describe query) grant) in
      map_answered _ _ r e

  query_with_policy-ends :
      (policy : ReadCapabilityPolicy) (authorization : Text) (query : LocalTimelineQuery)
      → (r : Result LocalTimelinePage ReadRequestError) × (query_timeline_with_policy json serde
            repo describe policy authorization query
          ≡ some r)
  unfolding query_timeline_with_policy
  query_with_policy-ends policy authorization query =
      elim (Bool-cases (leb 1 query.limit && leb query.limit max_local_page_entries)) [
        | inl t ↦ rw t (query_granted-ends _ query)
        | inr t ↦ (
          err (ReadRequestError.invalid_query (text "timeline limit must be between 1 and 20")),
          rw t refl,
        )
      ]

  query_from_environment-ends :
      (policy : Result (Option ReadCapabilityPolicy) ConfigurationError) (authorization : Text)
      (query : LocalTimelineQuery)
      → (r : Result LocalTimelinePage ReadRequestError) × (query_timeline_from_environment json
            serde repo describe policy authorization query
          ≡ some r)
  unfolding query_timeline_from_environment
  query_from_environment-ends (ok (some policy)) authorization query =
      query_with_policy-ends policy authorization query
  query_from_environment-ends (ok none) authorization query = (_, refl)
  query_from_environment-ends (err e) authorization query = (_, refl)

queried-Suits :
    (setting : Setting) (authorization : Text) (query : LocalTimelineQuery)
    (r : Result LocalTimelinePage ReadRequestError)
    → Suits (query_timeline authorization query) (queried setting r)
unfolding queried
queried-Suits setting authorization query (ok page) = tt
queried-Suits setting authorization query (err e) = tt

read-Suits :
    (setting : Setting) (authorization : Text) (id : Uuid) (sha256 : Text)
    (r : Result LocalTextContent ContentReadError)
    → Suits (read_text_content authorization id sha256) (read setting r)
unfolding read
read-Suits setting authorization id sha256 (ok content) = tt
read-Suits setting authorization id sha256 (err e) = tt

read_from_vault-Suits :
    (setting : Setting) (vault : Option VaultView) (authorization : Text) (id : Uuid)
    (sha256 : Text) (db : Database)
    → Suits
        (read_text_content authorization id sha256)
        (read_from_vault setting vault authorization id sha256 db)
unfolding read_from_vault
read_from_vault-Suits setting none authorization id sha256 db = tt
read_from_vault-Suits setting (some vault) authorization id sha256 db =
    read-Suits setting authorization id sha256 _

submitted-Suits :
    (setting : Setting) (event : EventEnvelope)
    (x : Result IngestReport (IngestError StorageError) × Database)
    → Suits (submit_event event) (submitted setting event.event_id x).0
unfolding submitted
submitted-Suits setting event (ok report, db) = refl
submitted-Suits setting event (err e, db) = tt

submitted_v2-Suits :
    (setting : Setting) (event : EventEnvelopeV2)
    (x : Result IngestReport (IngestError StorageError) × Database)
    → Suits (submit_event_v2 event) (submitted setting event.event_id x).0
unfolding submitted
submitted_v2-Suits setting event (ok report, db) = refl
submitted_v2-Suits setting event (err e, db) = tt

run_command-Suits :
    (setting : Setting) (stamp : Stamp) (command : LocalApiCommand) (db : Database)
    → (result : LocalApiResult) × ((run_command setting stamp command db).0 ≡ some result)
      × Suits command result
unfolding run_command
run_command-Suits setting stamp (handshake _) db = (_, refl, tt)
run_command-Suits setting stamp (submit_event event) db = (_, refl, submitted-Suits setting event _)
run_command-Suits setting stamp (submit_event_v2 event) db =
    (_, refl, submitted_v2-Suits setting event _)
run_command-Suits setting stamp (query_timeline authorization query) db =
    let (r, e) =
      query_from_environment-ends setting.json setting.crates.serde
        (query_raw_timeline setting.crates db) setting.describe_retrieval setting.policy
        authorization query in
    (queried setting r, rw e refl, queried-Suits setting authorization query r)
run_command-Suits setting stamp (read_text_content authorization id sha256) db =
    (_, refl, read_from_vault-Suits setting _ authorization id sha256 db)

request_result-Suits :
    (setting : Setting) (stamp : Stamp) (request : LocalApiRequest) (db : Database)
    → (result : LocalApiResult) × ((request_result setting stamp request db).0 ≡ some result)
      × Suits request.command result
unfolding request_result
request_result-Suits setting stamp request db =
    elim (Bool-cases (request.protocol_version == local_api_version)) [
      | inl t ↦ rw t (run_command-Suits setting stamp request.command db)
      | inr t ↦ rw t (_, refl, tt)
    ]

-- Every request is answered: whatever the request, the tables and the policy, handling it ends with a
-- response that has the identifier of the request and the version of the API, and whose result is an
-- error or of the kind that the command asks for; an accepted event is the submitted one.
pub handle_request-Suits :
    (setting : Setting) (stamp : Stamp) (request : LocalApiRequest) (db : Database)
    → (response : LocalApiResponse) × ((handle_request setting stamp request db).0 ≡ some response)
      × ((response.request_id ≡ request.request_id)
          × ((response.protocol_version ≡ local_api_version)
              × Suits request.command response.result))
unfolding handle_request
handle_request-Suits setting stamp request db =
    let (result, e, suits) = request_result-Suits setting stamp request db in
    (respond request.request_id result, rw e refl, (refl, (refl, suits)))

run_command-read :
    (setting : Setting) (stamp : Stamp) (command : LocalApiCommand) (db : Database)
    → IsRead command
    → (run_command setting stamp command db).1 ≡ db
unfolding run_command
run_command-read setting stamp (handshake _) db h = refl
run_command-read setting stamp (submit_event event) db h = absurd h
run_command-read setting stamp (submit_event_v2 event) db h = absurd h
run_command-read setting stamp (query_timeline authorization query) db h = refl
run_command-read setting stamp (read_text_content authorization id sha256) db h = refl

-- A request that submits nothing, or that asks for another version of the API, changes no table.
pub handle_request-read :
    (setting : Setting) (stamp : Stamp) (request : LocalApiRequest) (db : Database)
    → (request.protocol_version ≢ local_api_version) ⊎ IsRead request.command
    → (handle_request setting stamp request db).1 ≡ db
unfolding handle_request request_result
handle_request-read setting stamp request db h =
    elim (Bool-cases (request.protocol_version == local_api_version)) [
      | inr t ↦ rw t refl
      | inl t ↦ elim h [
        | inl other ↦ absurd (other ((==_iff _ _).0 t))
        | inr only ↦ rw t (run_command-read setting stamp request.command db only)
      ]
    ]
