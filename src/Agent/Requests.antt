-- ===== src/Agent/Requests.antt =====
-- apps/context-agent/src/main.rs, `handle_request`: the dispatch of the commands of the local API over
-- the engine and the SQLite repository. The texts of errors are parameters.
pub mod Answered
pub mod Stored
use context_layer.Base.{
  ℕ, Bool, true, false, ◌==◌, if◌then◌else◌, Text, text, List, Option, none, some, Result, ok, err,
}
use mathlib.Core.Option
use context_layer.Contracts.{
  Uuid, Stamp, LocalTimelinePage, LocalTextContent, LocalApiCommand, handshake, submit_event,
  submit_event_v2, query_timeline, read_text_content, LocalApiRequest, LocalApiResult, ready,
  event_accepted, timeline_page, text_content, error, LocalApiResponse, local_api_version,
}
use context_layer.Core.Timeline.{RetrievalError}
use context_layer.Core.ContentAccess.{RawEventLookupRepository}
use context_layer.Core.Engine.{
  IngestOutcome, duplicate, IngestReport, IngestError, ingest, ingest_v2,
}
use context_layer.Storage.Tables.{Crates, StorageError, Database}
use context_layer.Storage.Match.{sqlite_repository}
use context_layer.Storage.Timeline.{query_raw_timeline, raw_event_by_id}
use context_layer.Vault.{Sha256, File}
use context_layer.Agent.Policy.{ReadCapabilityPolicy, ConfigurationError}
use context_layer.Agent.ReadCapability.{
  ReadRequestError, read_request_code, WireJson, query_timeline_from_environment,
}
use context_layer.Agent.ContentRead.{
  ContentReadError, content_read_code, read_text_content_from_environment,
}

-- The vault, as two looks at its files.
pub record VaultView : Type 0 where
  pub target : Option (List ℕ)
  pub files : List File
  pub later : List File

-- What the agent runs with.
pub record Setting : Type 0 where
  pub crates : Crates
  pub json : WireJson
  pub sha256 : Sha256
  pub content_vault : Option VaultView
  pub policy : Result (Option ReadCapabilityPolicy) ConfigurationError
  pub describe_version : ℕ → Text
  pub describe_ingest : IngestError StorageError → Text
  pub describe_retrieval : RetrievalError StorageError → Text
  pub describe_read : ReadRequestError → Text
  pub describe_content : ContentReadError → Text

abbrev is_duplicate : IngestOutcome → Bool
is_duplicate duplicate = true
is_duplicate _ = false

unfoldable pub submitted :
    Setting
    → Uuid
    → Result IngestReport (IngestError StorageError) × Database
    → LocalApiResult × Database
submitted setting event_id (ok report, db) =
    (event_accepted event_id (is_duplicate report.outcome), db)
submitted setting event_id (err e, db) =
    (error (text "ingest_failed") (setting.describe_ingest e), db)

unfoldable pub queried : Setting → Result LocalTimelinePage ReadRequestError → LocalApiResult
unfolding read_request_code
queried setting (ok page) = timeline_page page
queried setting (err e) = error (read_request_code e) (setting.describe_read e)

unfoldable pub read : Setting → Result LocalTextContent ContentReadError → LocalApiResult
unfolding content_read_code
read setting (ok content) = text_content content
read setting (err e) = error (content_read_code e) (setting.describe_content e)

abbrev pub lookup_repository : Database → RawEventLookupRepository StorageError
lookup_repository db event_id = ok (raw_event_by_id event_id db)

unfoldable pub read_from_vault :
    Setting → Option VaultView → Text → Uuid → Text → Database → LocalApiResult
unfolding read read_text_content_from_environment raw_event_by_id
read_from_vault setting none authorization event_id sha256 db =
    error (text "content_unavailable") (text "content vault is unavailable in this runtime")
read_from_vault setting (some vault) authorization event_id sha256 db = read setting (
    read_text_content_from_environment setting.crates.serde (lookup_repository db) setting.sha256
      vault.target vault.files vault.later setting.policy authorization event_id sha256)

-- `none` is a query that did not end.
unfoldable pub run_command :
    Setting → Stamp → LocalApiCommand → Database → Option LocalApiResult × Database
unfolding submitted queried read_from_vault ingest sqlite_repository query_timeline_from_environment
run_command setting stamp (handshake _) db = (some (ready (text "context-agent")), db)
run_command setting stamp (submit_event event) db =
    let done =
      submitted setting event.event_id (ingest (sqlite_repository setting.crates) stamp event db) in
    (some done.0, done.1)
run_command setting stamp (submit_event_v2 event) db =
    let done =
      submitted setting event.event_id
        (ingest_v2 (sqlite_repository setting.crates) stamp event db) in
    (some done.0, done.1)
run_command setting stamp (query_timeline authorization query) db = (
  Option.map (queried setting) (
      query_timeline_from_environment setting.json setting.crates.serde
        (query_raw_timeline setting.crates db) setting.describe_retrieval setting.policy
        authorization query),
  db,
)
run_command setting stamp (read_text_content authorization event_id sha256) db =
    (some (read_from_vault setting setting.content_vault authorization event_id sha256 db), db)

unfoldable pub request_result :
    Setting → Stamp → LocalApiRequest → Database → Option LocalApiResult × Database
unfolding run_command
request_result setting stamp request db =
    if request.protocol_version == local_api_version
    then run_command setting stamp request.command db
    else (
      some
          (error (text "unsupported_protocol") (setting.describe_version request.protocol_version)),
      db,
    )

abbrev pub respond : Uuid → LocalApiResult → LocalApiResponse
respond request_id result = record {
  request_id = request_id;
  protocol_version = local_api_version;
  result = result;
}

unfoldable pub handle_request :
    Setting → Stamp → LocalApiRequest → Database → Option LocalApiResponse × Database
unfolding request_result
handle_request setting stamp request db =
    let done = request_result setting stamp request db in
    (Option.map (respond request.request_id) done.0, done.1)
