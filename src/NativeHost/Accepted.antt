-- ===== src/NativeHost/Accepted.antt =====
-- Which messages the host accepts.
use context_layer.Base.{
  text_eq_iff, or_iff, and_iff, ensure_iff, last_iff, iff_trans, both_iff, value_iff, link_iff,
  test_iff, le_iff, bound_iff, ℕ, ◌≤◌, ◌≡◌, ◌↔◌, ◌⊎◌, refl, Bool, true, false, ◌||◌, ◌==◌, leb, ltb,
  not, Text, text, text_eq, byte_len, is_empty, [], ◌∷◌, Option, none, some, ok, ensure, ensure-ok,
  bind-ok, map_err, map_err-ok, to_ascii_lowercase, arith, ==_iff, leb→le, le→leb, ◌>>◌,
}
use context_layer.Contracts.{Uuid, Stamp, LocalApiCommand, LocalApiRequest}
use context_layer.NativeHost.{
  BrowserMessage, download_completed, active_page_changed, collector_gap, HostError,
  unsupported_protocol, active_page_needs_v2, unsupported_browser, relative_path, title_too_long,
  unsupported_trigger, reason_length, ParsedUrl, UrlParser, has_web_prefix, is_some, is_web_scheme,
  validate_web_url, validate_referrer, is_absolute_windows_path, protocol_of, browser_of,
  is_known_browser, is_known_trigger,
}
use context_layer.NativeHost.Request.{command_from_browser, check_protocol, request_from_browser}

-- A URL of the web: short, `http` or `https` as written and as parsed, and with a host.
abbrev pub WebUrl : UrlParser → Text → Type 0
WebUrl parse value =
    (byte_len value ≤ 16384)
    × ((u : ParsedUrl) × (parse value ≡ ok u)
        × (has_web_prefix value ≡ true)
        × ((u.scheme ≡ text "http") ⊎ (u.scheme ≡ text "https"))
        × ((host : Text) × (u.host_str ≡ some host)))

abbrev pub WebReferrer : UrlParser → Option Text → Type 0
WebReferrer parse none = Unit
WebReferrer parse (some referrer) = WebUrl parse referrer

abbrev pub KnownBrowser : Text → Type 0
KnownBrowser b = (b ≡ text "chrome") ⊎ ((b ≡ text "edge") ⊎ (b ≡ text "chromium"))

-- What is asked of a message of each kind.
abbrev pub WellFormed : UrlParser → BrowserMessage → Type 0
WellFormed parse (download_completed _ _ _ _ _ url referrer final_path _) =
    WebUrl parse url × (WebReferrer parse referrer × (is_absolute_windows_path final_path ≡ true))
WellFormed parse (active_page_changed _ _ _ _ _ _ url title _ _ trigger _) =
    WebUrl parse url × ((byte_len title ≤ 4096) × (is_known_trigger trigger ≡ true))
WellFormed parse (collector_gap _ _ _ _ reason _) =
    (is_empty reason ≡ false) × (byte_len reason ≤ 1024)

-- Pages came with version 2.
abbrev pub KnownVersion : BrowserMessage → Type 0
KnownVersion (active_page_changed v _ _ _ _ _ _ _ _ _ _ _) = v ≡ 2
KnownVersion (download_completed v _ _ _ _ _ _ _ _) = (v ≡ 1) ⊎ (v ≡ 2)
KnownVersion (collector_gap v _ _ _ _ _) = (v ≡ 1) ⊎ (v ≡ 2)

abbrev pub Acceptable : UrlParser → BrowserMessage → Type 0
Acceptable parse message =
    (KnownVersion message × KnownBrowser (browser_of message)) × WellFormed parse message

scheme_iff : (s : Text) → (is_web_scheme s ≡ true) ↔ ((s ≡ text "http") ⊎ (s ≡ text "https"))
scheme_iff s =
    or_iff (text_eq s (text "http")) (text_eq s (text "https")) (text_eq_iff s (text "http"))
      (text_eq_iff s (text "https"))

browser_iff : (b : Text) → (is_known_browser b ≡ true) ↔ KnownBrowser b
browser_iff b =
    or_iff (text_eq b (text "chrome")) (text_eq b (text "edge") || text_eq b (text "chromium"))
      (text_eq_iff b (text "chrome"))
      (or_iff (text_eq b (text "edge")) (text_eq b (text "chromium")) (text_eq_iff b (text "edge"))
        (text_eq_iff b (text "chromium")))

host_iff : (o : Option Text) → (is_some o ≡ true) ↔ ((host : Text) × (o ≡ some host))
host_iff none = (λ h. absurd (ground (arith, h)), λ h. absurd (ground (arith, h.1)))
host_iff (some host) = (λ h. (host, refl), λ h. refl)

validate_web_url-WebUrl :
    (parse : UrlParser) (value : Text) → validate_web_url parse value ≡ ok tt → WebUrl parse value
unfolding validate_web_url
validate_web_url-WebUrl parse value h =
    let (short, h1) = (ensure_iff (leb (byte_len value) 16384) _ _ tt).0 h in
    let (u, parsed, h2) = bind-ok (map_err HostError.url_parse (parse value)) _ tt h1 in
    let tests = ensure-ok _ _ tt h2 in
    let (prefixed, rest) = (and_iff (has_web_prefix value) _).0 tests in
    let (scheme, host) = (and_iff (is_web_scheme u.scheme) _).0 rest in
    (
      leb→le _ _ short,
      (
        u,
        map_err-ok _ (parse value) u parsed,
        prefixed,
        (scheme_iff u.scheme).0 scheme,
        (host_iff u.host_str).0 host,
      ),
    )

WebUrl-validate_web_url :
    (parse : UrlParser) (value : Text) → WebUrl parse value → validate_web_url parse value ≡ ok tt
unfolding validate_web_url
WebUrl-validate_web_url parse value (short, (u, parsed, prefixed, scheme, host)) =
    let t : leb (byte_len value) 16384 ≡ true = le→leb _ _ short in
    rw (t, parsed, prefixed, (scheme_iff u.scheme).1 scheme, (host_iff u.host_str).1 host)

validate_web_url_iff :
    (parse : UrlParser) (value : Text) → (validate_web_url parse value ≡ ok tt) ↔ WebUrl parse value
validate_web_url_iff parse value =
    (validate_web_url-WebUrl parse value, WebUrl-validate_web_url parse value)

validate_referrer_iff :
    (parse : UrlParser) (referrer : Option Text)
    → (validate_referrer parse referrer ≡ ok tt) ↔ WebReferrer parse referrer
validate_referrer_iff parse none = (λ h. tt, λ h. refl)
validate_referrer_iff parse (some referrer) = validate_web_url_iff parse referrer

reason_iff :
    (reason : Text)
    → (not (is_empty reason || ltb 1024 (byte_len reason)) ≡ true)
      ↔ ((is_empty reason ≡ false) × (byte_len reason ≤ 1024))
reason_iff [] = (λ h. absurd (ground (arith, h)), λ h. absurd (ground (arith, h.0)))
reason_iff (c ∷ s) = (λ h. (refl, ground (arith, h)), λ h. ground (arith, h.1))

versions_iff : (v : ℕ) → (((v == 1) || (v == 2)) ≡ true) ↔ ((v ≡ 1) ⊎ (v ≡ 2))
versions_iff v = or_iff (v == 1) (v == 2) (==_iff v 1) (==_iff v 2)

page_version_iff :
    (v : ℕ) → ((((v == 1) || (v == 2)) ≡ true) × (not (not (v == 2)) ≡ true)) ↔ (v ≡ 2)
page_version_iff v = (λ h. ground (arith, h.1), λ h. (ground (arith, h), ground (arith, h)))

checks_iff :
    (a b c : Bool)
    → ((ensure a unsupported_protocol
          >> (ensure b active_page_needs_v2 >> ensure c unsupported_browser))
        ≡ ok tt)
      ↔ (((a ≡ true) × (b ≡ true)) × (c ≡ true))
checks_iff a b c =
    iff_trans
      (ensure_iff a unsupported_protocol
        (ensure b active_page_needs_v2 >> ensure c unsupported_browser) tt)
      (iff_trans
        (both_iff (λ h. h, λ h. h)
          (iff_trans (ensure_iff b active_page_needs_v2 (ensure c unsupported_browser) tt)
            (both_iff (λ h. h, λ h. h) (last_iff c unsupported_browser))))
        (λ h. ((h.0, h.1.0), h.1.1), λ h. (h.0.0, (h.0.1, h.1))))

both_versions_iff :
    (v : ℕ) → (((((v == 1) || (v == 2)) ≡ true)) × (true ≡ true)) ↔ ((v ≡ 1) ⊎ (v ≡ 2))
both_versions_iff v = (λ h. (versions_iff v).0 h.0, λ h. ((versions_iff v).1 h, refl))

protocol_iff :
    (message : BrowserMessage)
    → (check_protocol message ≡ ok tt) ↔ (KnownVersion message × KnownBrowser (browser_of message))
unfolding check_protocol
protocol_iff (download_completed v b _ _ _ _ _ _ _) =
    iff_trans (checks_iff _ true (is_known_browser (to_ascii_lowercase b)))
      (both_iff (both_versions_iff v) (browser_iff (to_ascii_lowercase b)))
protocol_iff (active_page_changed v b _ _ _ _ _ _ _ _ _ _) =
    iff_trans (checks_iff _ (not (not (v == 2))) (is_known_browser (to_ascii_lowercase b)))
      (both_iff (page_version_iff v) (browser_iff (to_ascii_lowercase b)))
protocol_iff (collector_gap v b _ _ _ _) =
    iff_trans (checks_iff _ true (is_known_browser (to_ascii_lowercase b)))
      (both_iff (both_versions_iff v) (browser_iff (to_ascii_lowercase b)))

command_iff :
    (parse : UrlParser) (stamp : Stamp) (computer : Option Text) (version : ℕ) (browser : Text)
    (message : BrowserMessage)
    → ((command : LocalApiCommand) × (command_from_browser parse stamp computer version browser
            message
          ≡ ok command))
      ↔ WellFormed parse message
unfolding command_from_browser
command_iff parse stamp computer version browser
      (download_completed _ _ _ sequence id url referrer final_path at) =
    link_iff (validate_web_url parse url) _ (validate_web_url_iff parse url) (
      link_iff (validate_referrer parse referrer) _ (validate_referrer_iff parse referrer)
        (value_iff _ _ (last_iff (is_absolute_windows_path final_path) relative_path)))
command_iff parse stamp computer version browser
      (active_page_changed _ _ id sequence tab window url title pinned focused trigger at) =
    link_iff (validate_web_url parse url) _ (validate_web_url_iff parse url) (
      link_iff (ensure (leb (byte_len title) 4096) title_too_long) _
        (test_iff _ title_too_long (le_iff (byte_len title) 4096))
        (value_iff _ _ (last_iff (is_known_trigger trigger) unsupported_trigger)))
command_iff parse stamp computer version browser (collector_gap _ _ id last reason at) =
    value_iff _ _ (test_iff _ reason_length (reason_iff reason))

pub request_from_browser-Acceptable :
    (parse : UrlParser) (stamp : Stamp) (computer : Option Text) (id : Uuid)
    (message : BrowserMessage)
    → ((out : ℕ × LocalApiRequest) × (request_from_browser parse stamp computer id message
          ≡ ok out))
      ↔ Acceptable parse message
unfolding request_from_browser
request_from_browser-Acceptable parse stamp computer id message =
    link_iff (check_protocol message) _ (protocol_iff message) (
      iff_trans
        (bound_iff
          (command_from_browser parse stamp computer (protocol_of message) (browser_of message)
            message)
          _)
        (command_iff parse stamp computer (protocol_of message) (browser_of message) message))
