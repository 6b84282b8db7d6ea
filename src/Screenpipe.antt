-- ===== src/Screenpipe.antt =====
-- crates/screenpipe-adapter/src/lib.rs: frames from the local Screenpipe service. HTTP, JSON and the
-- `time` and `url` crates are parameters.
pub mod Fetch
pub mod Loopback
use context_layer.Base.{
  ℕ, zero, suc, ◌+◌, ◌*◌, ◌-◌, min, Bool, true, false, ◌&&◌, ◌||◌, ◌==◌, ltb, leb, not,
  if◌then◌else◌, Text, text, trim, is_empty, List, [], ◌∷◌, ◌++◌, length, take, any, Option, none,
  some, Result, ok, err, ◌>>=◌, ensure, ◌>>◌, map_err,
}
use context_layer.Contracts.{OffsetDateTime, before, Value, Number}

abbrev pub search_page_size : ℕ
search_page_size = 20

abbrev pub max_results_per_source : ℕ
max_results_per_source = 20000

-- In nanoseconds.
abbrev pub initial_backfill : ℕ
initial_backfill = 300000000000

abbrev pub cursor_overlap : ℕ
cursor_overlap = 2000000000

abbrev pub max_search_response_bytes : ℕ
max_search_response_bytes = 64 * 1024 * 1024

abbrev pub max_screenshot_bytes : ℕ
max_screenshot_bytes = 16 * 1024 * 1024

pub data ScreenTextSource : Type 0 where
  accessibility ocr : ScreenTextSource

abbrev pub as_str : ScreenTextSource → Text
as_str accessibility = text "accessibility"
as_str ocr = text "ocr"

abbrev pub priority : ScreenTextSource → ℕ
priority accessibility = 2
priority ocr = 1

pub record ScreenpipeFrame : Type 0 where
  pub frame_id : ℕ
  pub captured_at : OffsetDateTime
  pub app_name : Option Text
  pub window_name : Option Text
  pub text : Text
  pub text_source : ScreenTextSource
  pub focused : Option Bool

pub record ScreenpipeCursor : Type 0 where
  pub frame_id : ℕ
  pub captured_at : OffsetDateTime

abbrev pub from_frame : ScreenpipeFrame → ScreenpipeCursor
from_frame f = record { frame_id = f.frame_id; captured_at = f.captured_at }

pub data ScreenpipeError : Type 0 where
  missing_api_key : ScreenpipeError
  non_loopback_base_url invalid_url : Text → ScreenpipeError
  authentication : ScreenpipeError
  api_status : (endpoint : Text) (status : ℕ) → ScreenpipeError
  response_too_large : (endpoint : Text) (limit : ℕ) → ScreenpipeError
  too_many_results : (content_type : Text) (limit : ℕ) → ScreenpipeError
  source_cursor_reset : (last_frame_id : ℕ) → ScreenpipeError
  http io json timestamp_format timestamp_parse : Text → ScreenpipeError

-- A response, read to its end.
pub record Response : Type 0 where
  pub status : ℕ
  pub content_length : Option ℕ
  pub body : List ℕ

pub record SearchContent : Type 0 where
  pub frame_id : Option Value
  pub timestamp : Option Text
  pub app_name : Option Text
  pub window_name : Option Text
  pub text : Option Text
  pub focused : Option Bool

pub record SearchResponse : Type 0 where
  pub data_items : List SearchContent
  pub total : Option ℕ

-- What is used of reqwest, serde_json, `time` and `str::parse`.
pub record Service : Type 0 where
  pub search : ScreenTextSource → Text → Text → ℕ → Result Response Text
  pub frame : ℕ → Result Response Text
  pub decode_search : List ℕ → Result SearchResponse Text
  pub format_rfc3339 : OffsetDateTime → Result Text Text
  pub parse_rfc3339 : Text → Result OffsetDateTime Text
  pub checked_sub : OffsetDateTime → ℕ → Option OffsetDateTime
  pub unix_epoch : OffsetDateTime
  pub parse_u64 : Text → Option ℕ

abbrev has_text : ScreenpipeFrame → Bool
has_text f = not (is_empty (trim f.text))

abbrev none_or_empty : Option Text → Bool
none_or_empty none = true
none_or_empty (some s) = is_empty s

abbrev or_else {ℓ} : {A : Type ℓ} → Option A → Option A → Option A
or_else none b = b
or_else (some a) b = some a

abbrev takes_text : ScreenpipeFrame → ScreenpipeFrame → Bool
takes_text existing candidate =
    (not (has_text existing) && has_text candidate)
    || (has_text candidate && ltb (priority existing.text_source) (priority candidate.text_source))

unfoldable pub merge_candidate : ScreenpipeFrame → ScreenpipeFrame → ScreenpipeFrame
merge_candidate existing candidate = record existing {
  text = if takes_text existing candidate then candidate.text else existing.text;
  text_source =
      if takes_text existing candidate then candidate.text_source else existing.text_source;
  app_name = if none_or_empty existing.app_name then candidate.app_name else existing.app_name;
  window_name =
      if none_or_empty existing.window_name then candidate.window_name else existing.window_name;
  focused = or_else existing.focused candidate.focused;
  captured_at =
      if before existing.captured_at candidate.captured_at
      then candidate.captured_at
      else existing.captured_at;
}

abbrev pub value_to_u64 : Service → Option Value → Option ℕ
value_to_u64 svc (some (Value.number (Number.pos_int n))) = some n
value_to_u64 svc (some (Value.string s)) = svc.parse_u64 s
value_to_u64 svc _ = none

unfoldable pub clean_optional : Option Text → Option Text
clean_optional none = none
clean_optional (some s) = if is_empty (trim s) then none else some s

abbrev text_or_empty : Option Text → Text
text_or_empty none = []
text_or_empty (some s) = s

abbrev frame_of :
    Service
    → ScreenTextSource
    → SearchContent
    → Option ℕ
    → Option Text
    → Result (Option ScreenpipeFrame) ScreenpipeError
frame_of svc source c (some frame_id) (some timestamp) =
    map_err timestamp_parse (svc.parse_rfc3339 timestamp) >>= λ captured_at. ok (
      some (record {
        frame_id = frame_id;
        captured_at = captured_at;
        app_name = clean_optional c.app_name;
        window_name = clean_optional c.window_name;
        text = text_or_empty c.text;
        text_source = source;
        focused = c.focused;
      }))
frame_of svc source c _ _ = ok none

unfoldable pub into_frame :
    Service → ScreenTextSource → SearchContent → Result (Option ScreenpipeFrame) ScreenpipeError
unfolding clean_optional
into_frame svc source c = frame_of svc source c (value_to_u64 svc c.frame_id) c.timestamp

abbrev pub is_success : ℕ → Bool
is_success status = leb 200 status && leb status 299

unfoldable pub require_success : Text → Response → Result Response ScreenpipeError
require_success endpoint r =
    if is_success r.status then ok r else err (api_status endpoint r.status)

abbrev declared_over : ℕ → Option ℕ → Bool
declared_over limit none = false
declared_over limit (some n) = ltb limit n

-- At most one byte more than the limit is read.
unfoldable pub read_bounded : Text → ℕ → Response → Result (List ℕ) ScreenpipeError
read_bounded endpoint limit r =
    if declared_over limit r.content_length
    then err (response_too_large endpoint limit)
    else (let bytes = take (suc limit) r.body in
        if ltb limit (length bytes) then err (response_too_large endpoint limit) else ok bytes)
