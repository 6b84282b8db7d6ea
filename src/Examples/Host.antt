-- ===== src/Examples/Host.antt =====
-- The native host and the agent's requests at concrete inputs.
use context_layer.Base.{◌≡◌, refl, false, trim_start, Text, text, [], ◌∷◌, none, some, ok, err}
use mathlib.Core.Option
use context_layer.Contracts.{
  LocalApiRequest, LocalApiResponse, LocalApiResult, submit_event, local_api_version,
}
use context_layer.Agent.Requests.{Setting, handle_request}
use context_layer.Agent.Requests.Answered.{Suits, handle_request-Suits}
use context_layer.Agent.Requests.Stored.{AnswerClaims, handle_request-Claims}
use context_layer.Storage.Tables.{empty_database}
use context_layer.Storage.Append.Grows.{Grows}
use context_layer.NativeHost.{BrowserMessage, download_completed, UrlParser, protocol_of}
use context_layer.NativeHost.Request.{request_from_browser, download_event}
use context_layer.NativeHost.Bridge.{World, run_host}
use context_layer.NativeHost.Bridge.Relayed.{Bridged, run_host-Bridged}
use context_layer.NativeHost.Delivered.{Delivered, message_id, host_request-Delivered}
use context_layer.Examples.{at_second, stamp, crates}
use context_layer.Examples.Local.{toy, wire_json}

abbrev parse_url : UrlParser
parse_url = λ _. ok (record { scheme = text "https"; host_str = some (text "e.org") })

abbrev url : Text
url = text "https://e.org/r.pdf"

abbrev message : BrowserMessage
message = download_completed 1 (text "Edge") 4 2 9 url none (text "C:\\r.pdf") (at_second 10)

abbrev request : LocalApiRequest
request = record {
  request_id = 40;
  protocol_version = 1;
  command =
      submit_event
        (download_event stamp 1 (text "edge") 2 9 url none (text "C:\\r.pdf") (at_second 10));
}

accepted : request_from_browser parse_url stamp none 40 message ≡ ok (1, request)
unfolding request_from_browser
accepted = refl

abbrev answer : LocalApiResponse
answer = record {
  request_id = 40;
  protocol_version = local_api_version;
  result = LocalApiResult.event_accepted 9 false;
}

abbrev world : World
world = record {
  arguments = text "chrome-extension://abc/" ∷ [];
  env_origin = some (text "chrome-extension://abc");
  config = err (text "not read");
  stdin = ok message;
  parse_url = parse_url;
  computer = none;
  stamp = stamp;
  request_id = 40;
  agent = λ _. ok answer;
}

ran : run_host world ≡ ok (record answer { protocol_version = 1 })
unfolding run_host trim_start
ran = refl

run_host-Bridged_example : Bridged world (record answer { protocol_version = 1 })
run_host-Bridged_example = run_host-Bridged world (record answer { protocol_version = 1 }) ran

abbrev pub setting : Setting
setting = record {
  crates = crates;
  json = wire_json;
  sha256 = toy;
  content_vault = none;
  policy = ok none;
  describe_version = λ n. n ∷ [];
  describe_ingest = λ _. text "ingest";
  describe_retrieval = λ _. text "retrieval";
  describe_read = λ _. text "read";
  describe_content = λ _. text "content";
}

host_request-Delivered_example :
    (1 ≡ protocol_of message)
    × (Grows empty_database (handle_request setting stamp request empty_database).1
        × ((response : LocalApiResponse) × ((handle_request setting stamp request empty_database).0
              ≡ some response)
            × ((response.request_id ≡ 40)
                × Delivered setting
                    (message_id message)
                    empty_database
                    response.result
                    (handle_request setting stamp request empty_database).1)))
host_request-Delivered_example =
    host_request-Delivered parse_url stamp none 40 message 1 request accepted setting stamp
      empty_database

handle_request-Suits_example :
    (response : LocalApiResponse) × ((handle_request setting stamp request empty_database).0
      ≡ some response)
    × ((response.request_id ≡ 40)
        × ((response.protocol_version ≡ local_api_version) × Suits request.command response.result))
handle_request-Suits_example = handle_request-Suits setting stamp request empty_database

handle_request-Claims_example :
    Grows empty_database (handle_request setting stamp request empty_database).1
    × AnswerClaims empty_database
        (Option.map (λ r. r.result) (handle_request setting stamp request empty_database).0)
        (handle_request setting stamp request empty_database).1
handle_request-Claims_example = handle_request-Claims setting stamp request empty_database
