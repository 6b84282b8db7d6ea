-- ===== src/NativeHost.antt =====
-- apps/context-native-host/src/main.rs: the messages of the browser extension, turned into requests of
-- the local API. `Url::parse`, the environment and the pipe are parameters.
pub mod Request
pub mod Accepted
pub mod Bridge
pub mod Delivered
use context_layer.Base.{
  ℕ, zero, suc, ◌-◌, Bool, true, false, ◌&&◌, ◌||◌, ◌==◌, ltb, leb, if◌then◌else◌, not, Text, text,
  text_eq, byte_len, to_bytes, char_len, is_empty, to_ascii_lowercase, eq_ignore_ascii_case,
  strip_prefix, trim_start, List, [], ◌∷◌, ◌++◌, any, find, drop, Option, none, some, Result, ok,
  err, ◌>>=◌, map_err, ensure, ◌>>◌, ok_or,
}
use context_layer.Contracts.{
  Uuid, OffsetDateTime, Stamp, EventPayload, browser_download_observed, EventEnvelope,
  EventEnvelopeV2, SensitivityClass, observed_event, observed_event_v2, Value, string, bool, uint,
  object, Fields, field, end, LocalApiCommand, submit_event, submit_event_v2, LocalApiRequest,
  LocalApiResponse, local_api_version,
}

abbrev pub browser_protocol_v1 : ℕ
browser_protocol_v1 = 1

abbrev pub browser_protocol_v2 : ℕ
browser_protocol_v2 = 2

pub data BrowserMessage : Type 0 where
  download_completed :
      (protocol_version : ℕ) (browser : Text) (browser_download_id source_sequence : ℕ)
      (download_id : Uuid) (url : Text) (referrer : Option Text) (final_path : Text)
      (observed_at : OffsetDateTime)
      → BrowserMessage
  active_page_changed :
      (protocol_version : ℕ) (browser : Text) (observation_id : Uuid)
      (source_sequence tab_id window_id : ℕ) (url title : Text) (pinned window_focused : Bool)
      (trigger : Text) (observed_at : OffsetDateTime)
      → BrowserMessage
  collector_gap :
      (protocol_version : ℕ) (browser : Text) (gap_id : Uuid) (last_source_sequence : Option ℕ)
      (reason : Text) (observed_at : OffsetDateTime)
      → BrowserMessage

-- The places where the host gives up.
pub data HostError : Type 0 where
  missing_origin origin_not_allowlisted empty_allowlist : HostError
  unsupported_protocol active_page_needs_v2 unsupported_browser : HostError
  url_too_long not_a_web_url : HostError
  url_parse : Text → HostError
  relative_path title_too_long unsupported_trigger reason_length : HostError
  io : Text → HostError

-- What is used of a parsed `Url`.
pub record ParsedUrl : Type 0 where
  pub scheme : Text
  pub host_str : Option Text

abbrev pub UrlParser : Type 0
UrlParser = Text → Result ParsedUrl Text

abbrev is_some {ℓ} : {A : Type ℓ} → Option A → Bool
is_some none = false
is_some (some _) = true

-- `str::get(..n)`: the first n bytes, if they end between two characters.
unfoldable pub get_prefix : ℕ → Text → Option Text
get_prefix zero s = some []
get_prefix (suc n) [] = none
get_prefix (suc n) (c ∷ s) =
    let rest = get_prefix (suc n - char_len c) s in
    if leb (char_len c) (suc n) then elim rest [ none ↦ none | some p ↦ some (c ∷ p) ] else none

abbrev pub prefix_matches : Option Text → Text → Bool
prefix_matches none literal = false
prefix_matches (some prefix) literal = eq_ignore_ascii_case prefix literal

unfoldable pub has_web_prefix : Text → Bool
unfolding get_prefix
has_web_prefix value =
    prefix_matches (get_prefix 7 value) (text "http://")
    || prefix_matches (get_prefix 8 value) (text "https://")

abbrev pub is_web_scheme : Text → Bool
is_web_scheme scheme = text_eq scheme (text "http") || text_eq scheme (text "https")

unfoldable pub validate_web_url : UrlParser → Text → Result (Unit {0}) HostError
unfolding has_web_prefix
validate_web_url parse value = do
  ensure (leb (byte_len value) 16384) url_too_long
  parsed ← map_err url_parse (parse value)
  ensure (has_web_prefix value && (is_web_scheme parsed.scheme && is_some parsed.host_str))
      not_a_web_url

abbrev is_ascii_alphabetic : ℕ → Bool
is_ascii_alphabetic c = (leb b'A' c && leb c b'Z') || (leb b'a' c && leb c b'z')

abbrev is_separator : ℕ → Bool
is_separator c = (c == 0x5c) || (c == b'/')

abbrev pub drive_absolute : List ℕ → Bool
drive_absolute (a ∷ b ∷ c ∷ _) = is_ascii_alphabetic a && ((b == b':') && is_separator c)
drive_absolute _ = false

abbrev pub unc_absolute : Text → Bool
unc_absolute (a ∷ b ∷ rest) = (a == 0x5c) && ((b == 0x5c) && any is_separator rest)
unc_absolute _ = false

unfoldable pub is_absolute_windows_path : Text → Bool
is_absolute_windows_path value = drive_absolute (to_bytes value) || unc_absolute value

unfoldable pub protocol_of : BrowserMessage → ℕ
protocol_of (download_completed v _ _ _ _ _ _ _ _) = v
protocol_of (active_page_changed v _ _ _ _ _ _ _ _ _ _ _) = v
protocol_of (collector_gap v _ _ _ _ _) = v

unfoldable pub browser_of : BrowserMessage → Text
browser_of (download_completed _ b _ _ _ _ _ _ _) = to_ascii_lowercase b
browser_of (active_page_changed _ b _ _ _ _ _ _ _ _ _ _) = to_ascii_lowercase b
browser_of (collector_gap _ b _ _ _ _) = to_ascii_lowercase b

unfoldable pub is_active_page : BrowserMessage → Bool
is_active_page (active_page_changed _ _ _ _ _ _ _ _ _ _ _ _) = true
is_active_page _ = false

abbrev pub is_known_browser : Text → Bool
is_known_browser b =
    text_eq b (text "chrome") || (text_eq b (text "edge") || text_eq b (text "chromium"))

abbrev pub is_known_trigger : Text → Bool
is_known_trigger t =
    text_eq t (text "startup")
    || (text_eq t (text "installed")
        || (text_eq t (text "tab_activated")
            || (text_eq t (text "page_updated")
                || (text_eq t (text "window_focused") || text_eq t (text "window_blurred")))))

unfoldable pub browser_scope : ℕ → Text
browser_scope v = if v == browser_protocol_v1 then text "scope.downloads" else text "scope.personal"

abbrev pub browser_source : Text → Text
browser_source browser = text "browser." ++ browser

abbrev validate_referrer : UrlParser → Option Text → Result (Unit {0}) HostError
validate_referrer parse none = ok tt
validate_referrer parse (some referrer) = validate_web_url parse referrer

-- The payload of a page: the `Map` of serde_json is ordered by key.
unfoldable pub page_payload : Text → ℕ → ℕ → Text → Text → Bool → Bool → Text → Value
page_payload browser tab_id window_id url title pinned window_focused trigger = object (
    field (text "browser") (string browser) (
      field (text "pinned") (bool pinned) (
        field (text "tab_id") (uint tab_id) (
          field (text "title") (string title) (
            field (text "trigger") (string trigger) (
              field (text "url") (string url) (
                field (text "window_focused") (bool window_focused)
                  (field (text "window_id") (uint window_id) end))))))))
