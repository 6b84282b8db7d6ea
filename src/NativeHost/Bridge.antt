-- ===== src/NativeHost/Bridge.antt =====
-- apps/context-native-host/src/main.rs, `main` and `load_allowed_origins`: from the arguments and one
-- message of the browser to one response. Frames and the pipe are what they deliver.
pub mod Relayed
use context_layer.Base.{
  ℕ, ◌≡◌, ap, Bool, true, ◌==◌, Text, text, text_eq, is_empty, strip_prefix, trim_start, List, [],
  ◌∷◌, any, find, not, map_err-ok, Option, none, some, Result, ok, ◌>>=◌, map_err, ensure,
  ensure-ok, bind-ok, ok_inj, ◌>>◌, ok_or, arith,
}
use mathlib.Core.List.{reverse}
use context_layer.Contracts.{Uuid, Stamp, LocalApiRequest, LocalApiResponse}
use context_layer.NativeHost.{
  BrowserMessage, HostError, missing_origin, origin_not_allowlisted, empty_allowlist, io, UrlParser,
  is_some,
}
use context_layer.NativeHost.Request.{request_from_browser}

abbrev pub is_origin : Text → Bool
is_origin value = is_some (strip_prefix (text "chrome-extension://") value)

-- `str::trim_end_matches('/')`.
unfoldable pub trim_end_slashes : Text → Text
unfolding trim_start
trim_end_slashes s = reverse (trim_start (λ c. c == b'/') (reverse s))

-- `env_origin` is CONTEXT_LAYER_ALLOWED_EXTENSION_ORIGIN, `config` the parsed file.
unfoldable pub load_allowed_origins :
    Option Text → Result (List Text) Text → Result (List Text) HostError
load_allowed_origins (some origin) config = ok (origin ∷ [])
load_allowed_origins none config =
    map_err io config >>= λ origins. ensure (not (is_empty origins)) empty_allowlist >> ok origins

abbrev pub is_allowed : Text → List Text → Bool
is_allowed origin allowed =
    any (λ a. text_eq (trim_end_slashes origin) (trim_end_slashes a)) allowed

-- The outside world of one run.
pub record World : Type 0 where
  pub arguments : List Text
  pub env_origin : Option Text
  pub config : Result (List Text) Text
  pub stdin : Result BrowserMessage Text
  pub parse_url : UrlParser
  pub computer : Option Text
  pub stamp : Stamp
  pub request_id : Uuid
  pub agent : LocalApiRequest → Result LocalApiResponse Text

-- The response that `main` writes to the browser.
unfoldable pub run_host : World → Result LocalApiResponse HostError
unfolding load_allowed_origins request_from_browser trim_end_slashes
run_host w = do
  origin ← ok_or (find is_origin w.arguments) missing_origin
  allowed ← load_allowed_origins w.env_origin w.config
  ensure (is_allowed origin allowed) origin_not_allowlisted
  message ← map_err io w.stdin
  bridged ← request_from_browser w.parse_url w.stamp w.computer w.request_id message
  response ← map_err io (w.agent bridged.1)
  ok (record response { protocol_version = bridged.0 })
