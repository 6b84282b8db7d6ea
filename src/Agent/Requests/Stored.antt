-- ===== src/Agent/Requests/Stored.antt =====
-- What the answers say of the log of raw events.
use context_layer.Base.{
  ◌≡◌, refl, subst, true, Bool-cases, inl, inr, ◌==◌, Text, Option, none, some, Result, ok, err,
}
use mathlib.Core.Option
use context_layer.Contracts.{
  Uuid, Stamp, EventEnvelope, EventEnvelopeV2, LocalTextContent, LocalTimelinePage, LocalApiCommand,
  handshake, submit_event, submit_event_v2, query_timeline, read_text_content, LocalApiRequest,
  LocalApiResult, event_accepted, local_api_version,
}
use context_layer.Core.Projection.{project_event}
use context_layer.Core.Engine.{
  IngestOutcome, inserted, duplicate, IngestReport, IngestError, ingest, ingest_v2, derived_event,
}
use context_layer.Core.Engine.Laws.{IngestRun, plain, derived, ingest-IngestRun}
use context_layer.Core.Engine.Preserved.{ingest-kept, ingest_v2-kept, ingest_v2-append}
use context_layer.Storage.Tables.{Crates, StorageError, Database, has_event}
use context_layer.Storage.Append.{append_with_projection, append_raw_v2}
use context_layer.Storage.Append.Grows.{
  Grows, Grows-refl, Grows-trans, Grows-has_event, Told, append_with_projection-Told,
  append_raw_v2-Told,
}
use context_layer.Storage.Match.{sqlite_repository}
use context_layer.Agent.ReadCapability.{ReadRequestError}
use context_layer.Agent.ContentRead.{ContentReadError}
use context_layer.Agent.Requests.{
  Setting, VaultView, is_duplicate, submitted, queried, read, read_from_vault, run_command,
  request_result, respond, handle_request,
}

ingest-Grows :
    (crates : Crates) (stamp : Stamp) (event : EventEnvelope) (db : Database)
    → Grows db (ingest (sqlite_repository crates) stamp event db).1
unfolding sqlite_repository
ingest-Grows crates stamp event db =
    ingest-kept (sqlite_repository crates) (Grows db)
      (λ e commands s h.
        Grows-trans db s (append_with_projection crates e commands s).1 h
          (append_with_projection-Told crates e commands s).0)
      stamp event db (Grows-refl db)

ingest_v2-Grows :
    (crates : Crates) (stamp : Stamp) (event : EventEnvelopeV2) (db : Database)
    → Grows db (ingest_v2 (sqlite_repository crates) stamp event db).1
unfolding sqlite_repository
ingest_v2-Grows crates stamp event db =
    ingest_v2-kept (sqlite_repository crates) (Grows db)
      (λ e s h. Grows-trans db s (append_raw_v2 crates e s).1 h (append_raw_v2-Told crates e s).0)
      stamp event db (Grows-refl db)

told :
    (id : Uuid) (db db' : Database) (x : Result IngestOutcome StorageError × Database)
    (outcome : IngestOutcome)
    → x ≡ (ok outcome, db')
    → Told id db x.0 x.1
    → Told id db (ok outcome) db'
told id db db' x outcome e h = subst (λ p. Told id db p.0 p.1) e h

run-Told :
    (crates : Crates) (stamp : Stamp) (event : EventEnvelope) (db : Database) (r : IngestReport)
    (db' : Database)
    → IngestRun (sqlite_repository crates) stamp event db r db'
    → Told event.event_id db (ok r.outcome) db'
unfolding sqlite_repository
run-Told crates stamp event db r db' (plain first none_derived unmatched) =
    told event.event_id db db' _ r.outcome first
      (append_with_projection-Told crates event (project_event event) db).1
run-Told crates stamp event db r db' (derived path c s₁ second first at found appended ids) =
    let (was, is) =
      told event.event_id db s₁ _ r.outcome first
        (append_with_projection-Told crates event (project_event event) db).1 in
    let grown : Grows s₁ db' =
      subst (λ p. Grows s₁ p.1) appended
        (append_with_projection-Told crates (derived_event stamp event c) _ s₁).0 in
    (was, Grows-has_event event.event_id s₁ db' grown is)

-- What an answer claims of the tables before and after.
abbrev pub Claims : Database → LocalApiResult → Database → Type 0
Claims db (event_accepted id known) db' =
    (has_event id db.raw_event ≡ known) × (has_event id db'.raw_event ≡ true)
Claims db _ db' = Unit

submitted-Claims :
    (setting : Setting) (id : Uuid) (db : Database)
    (x : Result IngestReport (IngestError StorageError) × Database)
    → ((r : IngestReport) (db' : Database) → x ≡ (ok r, db') → Told id db (ok r.outcome) db')
    → Grows db x.1
    → Grows db (submitted setting id x).1
      × Claims db (submitted setting id x).0 (submitted setting id x).1
unfolding submitted
submitted-Claims setting id db (err e, db') h g = (g, tt)
submitted-Claims setting id db (ok r, db') h g = (
  g,
  elim (r.outcome)
        as (λ o.
          Told id db (ok o) db'
          → (has_event id db.raw_event ≡ is_duplicate o) × (has_event id db'.raw_event ≡ true)) [
            | inserted ↦ (λ k. k)
            | duplicate ↦ λ k. k
          ]
      (h r db' refl),
)

-- What an answer, if there is one, claims.
abbrev pub AnswerClaims : Database → Option LocalApiResult → Database → Type 0
AnswerClaims db none db' = Unit
AnswerClaims db (some result) db' = Claims db result db'

queried-Claims :
    (setting : Setting) (db : Database) (o : Option (Result LocalTimelinePage ReadRequestError))
    → AnswerClaims db (Option.map (queried setting) o) db
unfolding queried
queried-Claims setting db none = tt
queried-Claims setting db (some (ok page)) = tt
queried-Claims setting db (some (err e)) = tt

read-Claims :
    (setting : Setting) (db : Database) (r : Result LocalTextContent ContentReadError)
    → Claims db (read setting r) db
unfolding read
read-Claims setting db (ok page) = tt
read-Claims setting db (err e) = tt

read_from_vault-Claims :
    (setting : Setting) (vault : Option VaultView) (authorization : Text) (id : Uuid)
    (sha256 : Text) (db : Database)
    → Claims db (read_from_vault setting vault authorization id sha256 db) db
unfolding read_from_vault
read_from_vault-Claims setting none authorization id sha256 db = tt
read_from_vault-Claims setting (some vault) authorization id sha256 db = read-Claims setting db _

ingest_v2-Told :
    (crates : Crates) (stamp : Stamp) (event : EventEnvelopeV2) (db : Database) (r : IngestReport)
    (db' : Database)
    → ingest_v2 (sqlite_repository crates) stamp event db ≡ (ok r, db')
    → Told event.event_id db (ok r.outcome) db'
unfolding sqlite_repository
ingest_v2-Told crates stamp event db r db' h =
    told event.event_id db db' _ r.outcome (ingest_v2-append _ stamp event db r db' h)
      (append_raw_v2-Told crates (record event { ingested_at = stamp.now }) db).1

run_command-Claims :
    (setting : Setting) (stamp : Stamp) (command : LocalApiCommand) (db : Database)
    → Grows db (run_command setting stamp command db).1
      × AnswerClaims db
          (run_command setting stamp command db).0
          (run_command setting stamp command db).1
unfolding run_command
run_command-Claims setting stamp (handshake _) db = (Grows-refl db, tt)
run_command-Claims setting stamp (submit_event event) db =
    submitted-Claims setting event.event_id db _
      (λ r db' h.
        run-Told setting.crates stamp event db r db' (ingest-IngestRun _ stamp event db r db' h).1)
      (ingest-Grows setting.crates stamp event db)
run_command-Claims setting stamp (submit_event_v2 event) db =
    submitted-Claims setting event.event_id db _ (ingest_v2-Told setting.crates stamp event db)
      (ingest_v2-Grows setting.crates stamp event db)
run_command-Claims setting stamp (query_timeline authorization query) db =
    (Grows-refl db, queried-Claims setting db _)
run_command-Claims setting stamp (read_text_content authorization id sha256) db =
    (Grows-refl db, read_from_vault-Claims setting _ authorization id sha256 db)

request_result-Claims :
    (setting : Setting) (stamp : Stamp) (request : LocalApiRequest) (db : Database)
    → Grows db (request_result setting stamp request db).1
      × AnswerClaims db
          (request_result setting stamp request db).0
          (request_result setting stamp request db).1
unfolding request_result
request_result-Claims setting stamp request db =
    elim (Bool-cases (request.protocol_version == local_api_version)) [
      | inl t ↦ rw t (run_command-Claims setting stamp request.command db)
      | inr t ↦ rw t (Grows-refl db, tt)
    ]

result_of-respond :
    (id : Uuid) (o : Option LocalApiResult)
    → Option.map (λ r. r.result) (Option.map (respond id) o) ≡ o
result_of-respond id none = refl
result_of-respond id (some r) = refl

-- No request removes or changes an event of the log: the raw events before it are the first ones after
-- it. And an accepted event is told truly: it is in the log afterwards, and `duplicate` says whether it
-- was there before.
pub handle_request-Claims :
    (setting : Setting) (stamp : Stamp) (request : LocalApiRequest) (db : Database)
    → Grows db (handle_request setting stamp request db).1
      × AnswerClaims db
          (Option.map (λ r. r.result) (handle_request setting stamp request db).0)
          (handle_request setting stamp request db).1
unfolding handle_request
handle_request-Claims setting stamp request db =
    let (grows, claims) = request_result-Claims setting stamp request db in
    (
      grows,
      rw (result_of-respond request.request_id (request_result setting stamp request db).0) claims,
    )
