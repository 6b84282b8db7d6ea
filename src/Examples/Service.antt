-- ===== src/Examples/Service.antt =====
-- The collector, the runtime, the Screenpipe adapter and the migration at concrete inputs.
use context_layer.Base.{
  ℕ, ◌<◌, ◌≡◌, ◌++◌, ◌+◌, refl, subst, arith, true, false, Text, text, List, [], ◌∷◌, length, none,
  some, ok, err, ok_inj,
}
use context_layer.Contracts.{uint, LocalApiRequest, handshake}
use context_layer.Storage.Migrate.{Disk}
use context_layer.Storage.SortKey.{format_sort_key}
use context_layer.Storage.Apply.{apply_commands}
use context_layer.Storage.Append.{append_with_projection}
use context_layer.Storage.Tables.{empty_database}
use context_layer.Platform.{WatchOutcome, ReconcileIssueKind, ReconcileReport}
use context_layer.Screenpipe.{
  Service, SearchContent, ScreenpipeFrame, ScreenpipeCursor, accessibility, ocr, search_page_size,
}
use context_layer.Screenpipe.Fetch.{search_page, search_text_source}
use context_layer.Screenpipe.Fetch.Paging.{EndsBefore, Ended, search_text_source-Ended}
use context_layer.Screenpipe.Loopback.{BaseUrl, Client, ipv4, new_client, Safe, new_client-Safe}
use context_layer.Agent.Collector.{◌then◌, record_gap, Outside, CollectorState, ReconcileSummary}
use context_layer.Agent.Collector.Reconcile.{run, reconcile}
use context_layer.Agent.Collector.Gaps.{Remembered, record_gap-Remembered}
use context_layer.Agent.Collector.Sequence.{Advances, run-Advances}
use context_layer.Agent.Collector.Stable.{Reconciled, reconcile-Reconciled}
use context_layer.Agent.Runtime.{Runtime, RuntimeState, Turn, received, api, timeout, event_loop}
use context_layer.Agent.Runtime.Replies.{asked, answered, event_loop-answered}
use context_layer.Agent.Runtime.Producers.{FrameFate, screen_batch}
use context_layer.Agent.Runtime.Producers.Cursor.{Resumable, screen_batch-Resumable}
use context_layer.Examples.{at_second, stamp, crates, report_file}
use context_layer.Vault.{VaultError}
use context_layer.Examples.Host.{setting}

abbrev report : ReconcileReport
report = record {
  files = [];
  issues =
      record {
        path = text "C:\\w\\locked";
        kind = ReconcileIssueKind.access_denied;
        message = text "denied";
      }
      ∷ [];
}

abbrev outside : Outside
outside = record {
  crates = crates;
  stamp = λ n. record { fresh_id = n; now = at_second n };
  derived_stamp = λ n. record { fresh_id = 1000 + n; now = at_second n };
  now = at_second;
  join = λ a b. a ++ b;
  starts_with = λ a b. false;
  file_identity = λ n path. ok report_file;
  scan_scope = λ n root. ok report;
}

abbrev start : CollectorState
start = record {
  engine = empty_database;
  root = text "C:\\w";
  scope_id = text "C:\\w";
  last_sequence = 0;
}

abbrev gap : WatchOutcome
gap = WatchOutcome.batch (record { changes = []; gap_detected = true })

run-Advances_example : Advances start (run outside none (ok gap ∷ []) start).1
run-Advances_example = run-Advances outside none (ok gap ∷ []) start

abbrev summary : ReconcileSummary
summary = record { observed = 0; inserted = 0; deleted = 0; issues = 1 }

reconciled : reconcile outside start ≡ (ok summary, (reconcile outside start).1)
unfolding reconcile ◌then◌ format_sort_key apply_commands append_with_projection
reconciled = refl

reconcile-Reconciled_example : Reconciled outside start report summary (reconcile outside start).1
reconcile-Reconciled_example =
    reconcile-Reconciled outside start report summary (reconcile outside start).1 refl reconciled

gap_recorded :
    record_gap outside (text "r") start ≡ (ok tt, (record_gap outside (text "r") start).1)
unfolding record_gap format_sort_key apply_commands append_with_projection
gap_recorded = refl

record_gap-Remembered_example : Remembered (record_gap outside (text "r") start).1
record_gap-Remembered_example =
    record_gap-Remembered outside (text "r") start (record_gap outside (text "r") start).1
      gap_recorded

abbrev item : SearchContent
item = record {
  frame_id = some (uint 7);
  timestamp = some (12 ∷ []);
  app_name = none;
  window_name = some (text "w");
  text = some (text "hi");
  focused = none;
}

abbrev service : Service
service = record {
  search =
      λ source start end_at offset. ok (record { status = 200; content_length = none; body = [] });
  frame = λ id. ok (record { status = 404; content_length = none; body = [] });
  decode_search = λ body. ok (record { data_items = item ∷ []; total = none });
  format_rfc3339 = crates.format_rfc3339;
  parse_rfc3339 = crates.parse_rfc3339;
  checked_sub = λ t n. none;
  unix_epoch = at_second 0;
  parse_u64 = λ s. none;
}

abbrev seen : ScreenpipeFrame
seen = record {
  frame_id = 7;
  captured_at = at_second 12;
  app_name = none;
  window_name = some (text "w");
  text = text "hi";
  text_source = accessibility;
  focused = none;
}

abbrev cursor : ScreenpipeCursor
cursor = record { frame_id = 6; captured_at = at_second 11 }

short : (start end_at : Text) → EndsBefore service ocr start end_at 0
unfolding search_page
short start end_at offset page low found =
    let e : record { data_items = item ∷ []; total = none } ≡ page = ok_inj found in
    subst (λ p. length p.data_items < search_page_size) e (omega arith)

search_text_source-Ended_example :
    Ended (search_text_source service 1 ocr (at_second 0) (at_second 20))
search_text_source-Ended_example =
    search_text_source-Ended service ocr (at_second 0) (at_second 20) 0 1 short (omega arith)
      (omega arith)

abbrev local_url : BaseUrl
local_url = record {
  scheme = text "http";
  host = some (ipv4 127 0 0 1);
  username = [];
  password = none;
  query = none;
  fragment = none;
  path = [];
}

abbrev client : Client
client = record { base_url = record local_url { path = text "/" }; api_key = text "k" }

made : new_client (λ _. ok local_url) (text "http://127.0.0.1") (text "k") ≡ ok client
unfolding new_client
made = refl

new_client-Safe_example : Safe client.base_url
new_client-Safe_example =
    new_client-Safe (λ _. ok local_url) (text "http://127.0.0.1") (text "k") client made

abbrev runtime : Runtime
runtime = record {
  outside = outside;
  setting = setting;
  put = λ bytes files. (err (VaultError.io (text "full")), files);
  computer = none;
  max_batches = none;
  cancel = ok tt;
  describe_capture = λ _. text "capture";
}

abbrev hello : ℕ → LocalApiRequest
hello id = record { request_id = id; protocol_version = 1; command = handshake (text "c") }

abbrev turns : List Turn
turns =
    received stamp stamp (api (hello 3))
    ∷ timeout
    ∷ Turn.is_cancelled
    ∷ received stamp stamp (api (hello 4))
    ∷ []

abbrev running : RuntimeState
running = record { collector = start; files = []; completed_batches = 0 }

event_loop-answered_example :
    3 ∷ 4 ∷ []
    ≡ answered (event_loop runtime turns running).all_sent
      ++ asked (event_loop runtime turns running).left
event_loop-answered_example = event_loop-answered runtime turns running

abbrev fate : ScreenpipeFrame → FrameFate
fate f = record { cancelled = false; png = ok none; commit = λ s. some (ok tt) }

screen_batch-Resumable_example :
    Resumable service (seen ∷ []) (screen_batch (λ _. text "e") fate (some cursor) none (seen ∷ []))
screen_batch-Resumable_example =
    screen_batch-Resumable service (λ _. text "e") fate (some cursor) none (seen ∷ []) (tt, tt)
      (refl, tt)

abbrev old_disk : Disk
old_disk = record {
  user_version = 3;
  raw_event = record { event_id = 1; observed_at = 10 ∷ []; observed_key = none } ∷ [];
}
