-- ===== src/NativeHost/Request.antt =====
-- apps/context-native-host/src/main.rs, `request_from_browser`: the checks of a message and the event
-- that is submitted for it. `fresh_id` of the stamp and the request's id are `Uuid::now_v7`.
use context_layer.Base.{
  ℕ, Bool, ◌&&◌, ◌==◌, ltb, leb, not, ◌||◌, Text, text, byte_len, is_empty, Option, some, Result,
  ok, ◌>>=◌, ensure, ◌>>◌,
}
use context_layer.Contracts.{
  Uuid, OffsetDateTime, Stamp, browser_download_observed, collector_gap, EventEnvelope,
  EventEnvelopeV2, SensitivityClass, observed_event, observed_event_v2, LocalApiCommand,
  submit_event, submit_event_v2, LocalApiRequest, local_api_version,
}
use context_layer.NativeHost.{
  browser_protocol_v1, browser_protocol_v2, BrowserMessage, download_completed, active_page_changed,
  HostError, unsupported_protocol, active_page_needs_v2, unsupported_browser, relative_path,
  title_too_long, unsupported_trigger, reason_length, UrlParser, validate_web_url,
  validate_referrer, is_absolute_windows_path, protocol_of, browser_of, is_active_page,
  is_known_browser, is_known_trigger, browser_scope, browser_source, page_payload,
}

abbrev pub host_collector : Text
host_collector = text "context-native-host"

unfoldable pub download_event :
    Stamp → ℕ → Text → ℕ → Uuid → Text → Option Text → Text → OffsetDateTime → EventEnvelope
unfolding observed_event browser_scope
download_event stamp version browser source_sequence download_id url referrer final_path
      observed_at =
    record (observed_event stamp (browser_source browser) (browser_scope version) observed_at
      (browser_download_observed download_id url referrer final_path) host_collector
      (text "browser downloads API through allowlisted native messaging origin")) {
        event_id = download_id;
        source_sequence = some source_sequence;
      }

unfoldable pub page_event :
    Stamp
    → Option Text
    → Text
    → Uuid
    → ℕ
    → ℕ
    → ℕ
    → Text
    → Text
    → Bool
    → Bool
    → Text
    → OffsetDateTime
    → EventEnvelopeV2
unfolding observed_event_v2 page_payload
page_event stamp computer browser id sequence tab window url title pinned focused trigger at =
    record (observed_event_v2 stamp (text "browser.active_page_changed") (browser_source browser)
      (text "scope.personal") at (page_payload browser tab window url title pinned focused trigger)
      host_collector
      (text
        "Chromium tabs/windows active-page state through allowlisted native messaging origin")) {
          event_id = id;
          source_sequence = some sequence;
          device_id = computer;
          sensitivity = SensitivityClass.sensitive;
        }

unfoldable pub gap_event :
    Stamp → ℕ → Text → Uuid → Option ℕ → Text → OffsetDateTime → EventEnvelope
unfolding observed_event browser_scope
gap_event stamp version browser gap_id last_source_sequence reason observed_at =
    record (observed_event stamp (browser_source browser) (browser_scope version) observed_at
      (collector_gap (browser_source browser) last_source_sequence reason) host_collector
      (text "browser extension durable outbox reported a collection gap")) {
        event_id = gap_id;
        source_sequence = last_source_sequence;
      }

-- `computer` is the environment's COMPUTERNAME.
unfoldable pub command_from_browser :
    UrlParser → Stamp → Option Text → ℕ → Text → BrowserMessage → Result LocalApiCommand HostError
unfolding validate_web_url is_absolute_windows_path download_event page_event gap_event
command_from_browser parse stamp computer version browser
      (download_completed _ _ _ source_sequence download_id url referrer final_path observed_at) =
    do
      validate_web_url parse url
      validate_referrer parse referrer
      ensure (is_absolute_windows_path final_path) relative_path
      ok (
          submit_event (
            download_event stamp version browser source_sequence download_id url referrer final_path
              observed_at))
command_from_browser parse stamp computer version browser
      (active_page_changed _ _ id sequence tab window url title pinned focused trigger at) =
    do
      validate_web_url parse url
      ensure (leb (byte_len title) 4096) title_too_long
      ensure (is_known_trigger trigger) unsupported_trigger
      ok (
          submit_event_v2 (
            page_event stamp computer browser id sequence tab window url title pinned focused
              trigger at))
command_from_browser parse stamp computer version browser
      (BrowserMessage.collector_gap _ _ gap_id last_source_sequence reason observed_at) =
    do
      ensure (not (is_empty reason || ltb 1024 (byte_len reason))) reason_length
      ok (
          submit_event
            (gap_event stamp version browser gap_id last_source_sequence reason observed_at))

unfoldable pub check_protocol : BrowserMessage → Result (Unit {0}) HostError
unfolding protocol_of browser_of is_active_page
check_protocol message = do
  ensure (protocol_of message == browser_protocol_v1 || protocol_of message == browser_protocol_v2)
      unsupported_protocol
  ensure (not (is_active_page message && not (protocol_of message == browser_protocol_v2)))
      active_page_needs_v2
  ensure (is_known_browser (browser_of message)) unsupported_browser

unfoldable pub request_from_browser :
    UrlParser → Stamp → Option Text → Uuid → BrowserMessage → Result (ℕ × LocalApiRequest) HostError
unfolding check_protocol command_from_browser
request_from_browser parse stamp computer request_id message = do
  check_protocol message
  command ←
      command_from_browser parse stamp computer (protocol_of message) (browser_of message) message
  ok (
    protocol_of message,
    record { request_id = request_id; protocol_version = local_api_version; command = command },
  )
