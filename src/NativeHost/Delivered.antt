-- ===== src/NativeHost/Delivered.antt =====
-- A message of the browser, from the host to the log of the agent.
use context_layer.Base.{
  ℕ, ◌≡◌, refl, ap, sym, subst, true, false, ◌==◌, trim, is_empty, Text, text, byte_len, leb, not,
  ltb, ◌||◌, Option, some, Result, ok, err, ensure, bind-ok, ok_inj, ◌>>◌, arith,
}
use context_layer.Contracts.{
  Uuid, Stamp, EventEnvelope, EventEnvelopeV2, LocalApiCommand, submit_event, submit_event_v2,
  handshake, query_timeline, read_text_content, LocalApiRequest, LocalApiResult, event_accepted,
  error, LocalApiResponse, local_api_version, current_schema_version, current_envelope_version,
}
use context_layer.Core.Engine.{IngestReport, IngestError, repository, ingest, ingest_v2}
use context_layer.Core.Engine.Errors.{
  RepositoryOnly, ingest-RepositoryOnly, ingest_v2-RepositoryOnly,
}
use mathlib.Core.Option
use context_layer.Storage.Tables.{StorageError, Database, has_event}
use context_layer.Storage.Append.Grows.{Grows}
use context_layer.Agent.Requests.Stored.{Claims, AnswerClaims, handle_request-Claims}
use context_layer.Storage.Match.{sqlite_repository}
use context_layer.Agent.Requests.{Setting, submitted, run_command, request_result, handle_request}
use context_layer.NativeHost.{
  BrowserMessage, download_completed, active_page_changed, collector_gap, relative_path,
  title_too_long, unsupported_trigger, reason_length, validate_web_url, validate_referrer,
  is_absolute_windows_path, is_known_trigger, UrlParser, protocol_of, browser_of,
}
use context_layer.NativeHost.Request.{
  download_event, page_event, gap_event, command_from_browser, check_protocol, request_from_browser,
}

unfoldable pub message_id : BrowserMessage → Uuid
message_id (download_completed _ _ _ _ id _ _ _ _) = id
message_id (active_page_changed _ _ id _ _ _ _ _ _ _ _ _) = id
message_id (collector_gap _ _ id _ _ _) = id

-- A command that submits the event of an identifier, of versions that the engine takes.
pub data Submits (id : Uuid) : LocalApiCommand → Type 0 where
  v1 :
      (event : EventEnvelope)
      → event.event_id ≡ id
      → event.schema_version ≡ current_schema_version
      → Submits id (submit_event event)
  v2 :
      (event : EventEnvelopeV2)
      → event.event_id ≡ id
      → event.envelope_version ≡ current_envelope_version
      → is_empty (trim event.event_type) ≡ false
      → (event.payload_version == 0) ≡ false
      → Submits id (submit_event_v2 event)

ensured :
    {B E : Type 0} (m : Result (Unit {0}) E) (r : Result B E) (b : B) → (m >> r) ≡ ok b → r ≡ ok b
ensured (ok tt) r b h = h
ensured (err e) r b h = absurd (ground (arith, h))

page_event_type : is_empty (trim (text "browser.active_page_changed")) ≡ false
unfolding trim
page_event_type = refl

command-Submits :
    (parse : UrlParser) (stamp : Stamp) (computer : Option Text) (version : ℕ) (browser : Text)
    (message : BrowserMessage) (command : LocalApiCommand)
    → command_from_browser parse stamp computer version browser message ≡ ok command
    → Submits (message_id message) command
unfolding command_from_browser message_id
command-Submits parse stamp computer version browser
      (download_completed _ _ _ sequence id url referrer final_path at) command h =
    let h1 = ensured (validate_web_url parse url) _ command h in
    let h2 = ensured (validate_referrer parse referrer) _ command h1 in
    let made = ensured (ensure (is_absolute_windows_path final_path) relative_path) _ command h2 in
    subst (Submits id) (ok_inj made)
      (v1 (download_event stamp version browser sequence id url referrer final_path at) refl refl)
command-Submits parse stamp computer version browser
      (active_page_changed _ _ id sequence tab window url title pinned focused trigger at) command
      h =
    let h1 = ensured (validate_web_url parse url) _ command h in
    let h2 = ensured (ensure (leb (byte_len title) 4096) title_too_long) _ command h1 in
    let made = ensured (ensure (is_known_trigger trigger) unsupported_trigger) _ command h2 in
    subst (Submits id) (ok_inj made) (
      v2
        (page_event stamp computer browser id sequence tab window url title pinned focused trigger
          at)
        refl refl page_event_type refl)
command-Submits parse stamp computer version browser (collector_gap _ _ id last reason at) command
      h =
    let made =
      ensured (ensure (not (is_empty reason || ltb 1024 (byte_len reason))) reason_length) _ command
        h in
    subst (Submits id) (ok_inj made)
      (v1 (gap_event stamp version browser id last reason at) refl refl)

-- The event is accepted, or the repository failed.
abbrev Settled : Setting → Uuid → LocalApiResult → Type 0
Settled setting id (event_accepted accepted known) = accepted ≡ id
Settled setting id (error code message) =
    (code ≡ text "ingest_failed")
    × ((e : StorageError) × (message ≡ setting.describe_ingest (repository e)))
Settled setting id _ = ⊥

-- What an answer to the submission of an event means, given the tables before and after it.
abbrev pub Delivered : Setting → Uuid → Database → LocalApiResult → Database → Type 0
Delivered setting id db (event_accepted accepted known) db' =
    (accepted ≡ id) × (has_event id db.raw_event ≡ known) × (has_event id db'.raw_event ≡ true)
Delivered setting id db (error code message) db' =
    (code ≡ text "ingest_failed")
    × ((e : StorageError) × (message ≡ setting.describe_ingest (repository e)))
Delivered setting id db _ db' = ⊥

submitted-Settled :
    (setting : Setting) (id : Uuid) (x : Result IngestReport (IngestError StorageError) × Database)
    → RepositoryOnly x.0
    → Settled setting id (submitted setting id x).0
unfolding submitted
submitted-Settled setting id (ok report, db) h = refl
submitted-Settled setting id (err (repository e), db) h = (refl, (e, refl))
submitted-Settled setting id (err (IngestError.unsupported_schema a b), db) h = absurd h
submitted-Settled setting id (err (IngestError.unsupported_envelope_version a b), db) h = absurd h
submitted-Settled setting id (err IngestError.empty_event_type, db) h = absurd h
submitted-Settled setting id (err IngestError.invalid_payload_version, db) h = absurd h

run_command-Settled :
    (setting : Setting) (stamp : Stamp) (id : Uuid) (command : LocalApiCommand) (db : Database)
    → Submits id command
    → (result : LocalApiResult) × ((run_command setting stamp command db).0 ≡ some result)
      × Settled setting id result
unfolding run_command
run_command-Settled setting stamp id (handshake _) db x = elim x [ ]
run_command-Settled setting stamp id (query_timeline _ _) db x = elim x [ ]
run_command-Settled setting stamp id (read_text_content _ _ _) db x = elim x [ ]
run_command-Settled setting stamp id (submit_event event) db (v1 _ same current) = (
  _,
  refl,
  subst
      (λ i.
        Settled setting i
          (submitted setting event.event_id
            (ingest (sqlite_repository setting.crates) stamp event db)).0)
      same
      (submitted-Settled setting event.event_id
        (ingest (sqlite_repository setting.crates) stamp event db)
        (ingest-RepositoryOnly (sqlite_repository setting.crates) stamp event db current)),
)
run_command-Settled setting stamp id (submit_event_v2 event) db
      (v2 _ same current named versioned) =
    (
      _,
      refl,
      subst
          (λ i.
            Settled setting i
              (submitted setting event.event_id
                (ingest_v2 (sqlite_repository setting.crates) stamp event db)).0)
          same
          (submitted-Settled setting event.event_id
            (ingest_v2 (sqlite_repository setting.crates) stamp event db)
            (ingest_v2-RepositoryOnly (sqlite_repository setting.crates) stamp event db current
              named versioned)),
    )

pub request-Submits :
    (parse : UrlParser) (stamp : Stamp) (computer : Option Text) (id : Uuid)
    (message : BrowserMessage) (version : ℕ) (request : LocalApiRequest)
    → request_from_browser parse stamp computer id message ≡ ok (version, request)
    → (version ≡ protocol_of message)
      × (request.request_id ≡ id)
      × (request.protocol_version ≡ local_api_version)
      × Submits (message_id message) request.command
unfolding request_from_browser
request-Submits parse stamp computer id message version request h =
    let (command, made, e) =
      bind-ok
        (command_from_browser parse stamp computer (protocol_of message) (browser_of message)
          message)
        _ (version, request) (ensured (check_protocol message) _ (version, request) h) in
    let same = ok_inj e in
    (
      ap (λ p. p.0) (sym same),
      ap (λ p. p.1.request_id) (sym same),
      ap (λ p. p.1.protocol_version) (sym same),
      subst (λ p. Submits (message_id message) p.1.command) same
          (command-Submits parse stamp computer (protocol_of message) (browser_of message) message
            command made),
    )

Settled-Delivered :
    (setting : Setting) (id : Uuid) (db db' : Database) (result : LocalApiResult)
    → Settled setting id result
    → Claims db result db'
    → Delivered setting id db result db'
Settled-Delivered setting id db db' (event_accepted accepted known) same (was, now) =
    (same, rw same at was, rw same at now)
Settled-Delivered setting id db db' (error code message) failed claims = failed
Settled-Delivered setting id db db' (LocalApiResult.ready _) h claims = absurd h
Settled-Delivered setting id db db' (LocalApiResult.timeline_page _) h claims = absurd h
Settled-Delivered setting id db db' (LocalApiResult.text_content _) h claims = absurd h

answer-Settled :
    (parse : UrlParser) (stamp : Stamp) (computer : Option Text) (id : Uuid)
    (message : BrowserMessage) (version : ℕ) (request : LocalApiRequest)
    → request_from_browser parse stamp computer id message ≡ ok (version, request)
    → (setting : Setting) (agent_stamp : Stamp) (db : Database)
    → (version ≡ protocol_of message)
      × ((response : LocalApiResponse) × ((handle_request setting agent_stamp request db).0
            ≡ some response)
          × ((response.request_id ≡ id) × Settled setting (message_id message) response.result))
unfolding handle_request request_result
answer-Settled parse stamp computer id message version request h setting agent_stamp db =
    let (same, its_id, current, submits) =
      request-Submits parse stamp computer id message version request h in
    let (result, e, delivered) =
      run_command-Settled setting agent_stamp (message_id message) request.command db submits in
    (
      same,
      (
        record { request_id = id; protocol_version = local_api_version; result = result },
        rw (current, its_id, e) refl,
        (refl, delivered),
      ),
    )

-- A message that the host accepts reaches the log, or the answer tells that the repository failed: the
-- agent answers the request made of it, under its identifier, either by accepting the event that has
-- the identifier of the message, and then that event is in the log afterwards and the answer tells
-- whether it was before; or with an error of the repository; never by a refusal of a version, a type
-- or a payload. The events that were in the log before are its first ones afterwards.
pub host_request-Delivered :
    (parse : UrlParser) (stamp : Stamp) (computer : Option Text) (id : Uuid)
    (message : BrowserMessage) (version : ℕ) (request : LocalApiRequest)
    → request_from_browser parse stamp computer id message ≡ ok (version, request)
    → (setting : Setting) (agent_stamp : Stamp) (db : Database)
    → (version ≡ protocol_of message)
      × (Grows db (handle_request setting agent_stamp request db).1
          × ((response : LocalApiResponse) × ((handle_request setting agent_stamp request db).0
                ≡ some response)
              × ((response.request_id ≡ id)
                  × Delivered setting
                      (message_id message)
                      db
                      response.result
                      (handle_request setting agent_stamp request db).1)))
host_request-Delivered parse stamp computer id message version request h setting agent_stamp db =
    let (same, (response, e, (its_id, settled))) =
      answer-Settled parse stamp computer id message version request h setting agent_stamp db in
    let (grows, claims) = handle_request-Claims setting agent_stamp request db in
    let db' = (handle_request setting agent_stamp request db).1 in
    let told : Claims db response.result db' =
      subst (λ o. AnswerClaims db (Option.map (λ r. r.result) o) db') e claims in
    (
      same,
      (
        grows,
        (
          response,
          e,
          (
            its_id,
            Settled-Delivered setting (message_id message) db db' response.result settled told,
          ),
        ),
      ),
    )
