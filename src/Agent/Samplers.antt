-- ===== src/Agent/Samplers.antt =====
-- apps/context-agent/src/personal.rs: the foreground window and the idle time, as events of changes.
pub mod Quiet
use context_layer.Base.{
  ℕ, Bool, true, false, ◌&&◌, ◌==◌, ltb, if◌then◌else◌, Text, text, text_eq, List, [], ◌∷◌, ◌++◌,
  Option, none, some, Result, ok, err,
}
use context_layer.Contracts.{
  OffsetDateTime, Stamp, EventEnvelopeV2, observed_event_v2, SensitivityClass, Value, string, uint,
  object, field, end, null,
}
use context_layer.Platform.Activity.{ForegroundActivity}

pub data InputIdleBucket : Type 0 where
  under_one_minute one_to_five_minutes five_to_thirty_minutes thirty_minutes_or_more :
      InputIdleBucket

unfoldable pub from_millis : ℕ → InputIdleBucket
from_millis n =
    if ltb n 60000
    then under_one_minute
    else if ltb n 300000
    then one_to_five_minutes
    else if ltb n 1800000
    then five_to_thirty_minutes
    else thirty_minutes_or_more

abbrev pub label : InputIdleBucket → Text
label under_one_minute = text "lt_1m"
label one_to_five_minutes = text "1m_to_5m"
label five_to_thirty_minutes = text "5m_to_30m"
label thirty_minutes_or_more = text "gte_30m"

abbrev pub bucket_index : InputIdleBucket → ℕ
bucket_index under_one_minute = 0
bucket_index one_to_five_minutes = 1
bucket_index five_to_thirty_minutes = 2
bucket_index thirty_minutes_or_more = 3

abbrev pub text_option_eq : Option Text → Option Text → Bool
text_option_eq none none = true
text_option_eq (some s) (some t) = text_eq s t
text_option_eq _ _ = false

abbrev pub foreground_eq : Option ForegroundActivity → Option ForegroundActivity → Bool
foreground_eq none none = true
foreground_eq (some a) (some b) =
    (a.process_id == b.process_id)
    && (text_option_eq a.process_path b.process_path && text_eq a.window_title b.window_title)
foreground_eq _ _ = false

pub record PersonalActivitySampler : Type 0 where
  pub last_foreground : Option (Option ForegroundActivity)
  pub last_idle_bucket : Option InputIdleBucket
  pub device_id : Option Text
  pub foreground_error : Option Text
  pub idle_error : Option Text

abbrev pub new_sampler : Option Text → PersonalActivitySampler
new_sampler computer = record {
  last_foreground = none;
  last_idle_bucket = none;
  device_id = computer;
  foreground_error = none;
  idle_error = none;
}

-- What a part of a poll adds.
pub record PersonalPoll : Type 0 where
  pub events : List EventEnvelopeV2
  pub diagnostics : List Text

abbrev pub nothing : PersonalPoll
nothing = record { events = []; diagnostics = [] }

abbrev pub both : PersonalPoll → PersonalPoll → PersonalPoll
both a b = record { events = a.events ++ b.events; diagnostics = a.diagnostics ++ b.diagnostics }

abbrev pub Sampling : Type 0
Sampling = PersonalPoll × PersonalActivitySampler

abbrev path_value : Option Text → Value
path_value none = null
path_value (some s) = string s

unfoldable pub foreground_payload : Option ForegroundActivity → Value
foreground_payload (some a) = object (
    field (text "process_id") (uint a.process_id) (
      field (text "process_path") (path_value a.process_path)
        (field (text "window_title") (string a.window_title) end)))
foreground_payload none = object (
    field (text "process_id") null
      (field (text "process_path") null (field (text "window_title") null end)))

unfoldable pub foreground_event :
    Stamp → OffsetDateTime → Option Text → Option ForegroundActivity → EventEnvelopeV2
unfolding observed_event_v2 foreground_payload
foreground_event stamp observed_at device foreground =
    record (observed_event_v2 stamp (text "ui.foreground_changed") (text "windows.foreground")
      (text "scope.personal") observed_at (foreground_payload foreground)
      (text "windows-foreground-v1") (text "GetForegroundWindow + window title + process image")) {
        device_id = device;
        sensitivity = SensitivityClass.sensitive;
      }

unfoldable pub idle_event : Stamp → OffsetDateTime → Option Text → ℕ → EventEnvelopeV2
unfolding observed_event_v2 from_millis
idle_event stamp observed_at device idle_millis =
    record (observed_event_v2 stamp (text "user.input_idle_bucket_changed")
      (text "windows.input-idle") (text "scope.personal") observed_at
      (object (
        field (text "bucket") (string (label (from_millis idle_millis))) (
          field (text "idle_millis") (uint idle_millis)
            (field (text "measurement") (string (text "last_input_tick")) end))))
      (text "windows-input-idle-v1")
      (text "GetLastInputInfo sampled into sparse duration buckets")) {
        device_id = device;
        sensitivity = SensitivityClass.metadata;
      }

abbrev same_foreground : Option (Option ForegroundActivity) → Option ForegroundActivity → Bool
same_foreground none f = false
same_foreground (some g) f = foreground_eq g f

abbrev same_bucket : Option InputIdleBucket → InputIdleBucket → Bool
same_bucket none b = false
same_bucket (some a) b = bucket_index a == bucket_index b

-- What a poll takes from Windows, and the stamps of its events.
pub record Sample : Type 0 where
  pub foreground : Result (Option ForegroundActivity) Text
  pub idle_millis : Result ℕ Text
  pub observed_at : OffsetDateTime
  pub foreground_stamp : Stamp
  pub idle_stamp : Stamp

unfoldable pub observe_foreground :
    Sample
    → Option ForegroundActivity
    → PersonalActivitySampler
    → List EventEnvelopeV2 × PersonalActivitySampler
unfolding foreground_event
observe_foreground sample foreground s =
    if same_foreground s.last_foreground foreground then ([], s) else (
      foreground_event sample.foreground_stamp sample.observed_at s.device_id foreground ∷ [],
      record s { last_foreground = some foreground },
    )

unfoldable pub observe_idle :
    Sample → ℕ → PersonalActivitySampler → List EventEnvelopeV2 × PersonalActivitySampler
unfolding idle_event from_millis
observe_idle sample idle_millis s =
    if same_bucket s.last_idle_bucket (from_millis idle_millis) then ([], s) else (
      idle_event sample.idle_stamp sample.observed_at s.device_id idle_millis ∷ [],
      record s { last_idle_bucket = some (from_millis idle_millis) },
    )

-- `take().is_some()` of the last error.
abbrev recovered : Option Text → Text → List Text
recovered none message = []
recovered (some _) message = message ∷ []

abbrev is_reported : Option Text → Text → Bool
is_reported none message = false
is_reported (some last) message = text_eq last message

unfoldable pub poll_foreground :
    Sample → Result (Option ForegroundActivity) Text → PersonalActivitySampler → Sampling
unfolding observe_foreground
poll_foreground sample (ok foreground) s =
    let seen = observe_foreground sample foreground (record s { foreground_error = none }) in
    (
      record {
        events = seen.0;
        diagnostics =
            recovered s.foreground_error (text "windows foreground activity sampling recovered");
      },
      seen.1,
    )
poll_foreground sample (err message) s =
    if is_reported s.foreground_error message then (nothing, s) else (
      record {
        events = [];
        diagnostics = (text "windows foreground activity sampling failed: " ++ message) ∷ [];
      },
      record s { foreground_error = some message },
    )

unfoldable pub poll_idle : Sample → Result ℕ Text → PersonalActivitySampler → Sampling
unfolding observe_idle
poll_idle sample (ok idle_millis) s =
    let seen = observe_idle sample idle_millis (record s { idle_error = none }) in
    (
      record {
        events = seen.0;
        diagnostics = recovered s.idle_error (text "windows input-idle sampling recovered");
      },
      seen.1,
    )
poll_idle sample (err message) s = if is_reported s.idle_error message then (nothing, s) else (
  record {
    events = [];
    diagnostics = (text "windows input-idle sampling failed: " ++ message) ∷ [];
  },
  record s { idle_error = some message },
)

unfoldable pub poll : Sample → PersonalActivitySampler → Sampling
unfolding poll_foreground poll_idle
poll sample s =
    let first = poll_foreground sample sample.foreground s in
    let second = poll_idle sample sample.idle_millis first.1 in (both first.0 second.0, second.1)
