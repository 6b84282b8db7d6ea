-- ===== src/Agent/Runtime/Producers.antt =====
-- apps/context-agent/src/runtime.rs: the threads that sample the clipboard and Screenpipe, and where
-- Screenpipe starts.
pub mod Cursor
use context_layer.Base.{
  ℕ, Bool, true, false, ◌&&◌, ◌||◌, if◌then◌else◌, Text, text, text_eq, List, [], ◌∷◌, ◌++◌, Option,
  none, some, Result, ok, err,
}
use context_layer.Contracts.{OffsetDateTime, EventEnvelopeV2}
use context_layer.Core.Serde.{Serde}
use context_layer.Storage.Tables.{Database}
use context_layer.Storage.Timeline.{latest_raw_event_envelope_for_source}
use context_layer.Platform.Clipboard.{
  ClipboardSnapshot, non_text, ClipboardError, would_block, sequence_of,
}
use context_layer.Screenpipe.{
  ScreenpipeFrame, ScreenpipeCursor, ScreenpipeError, response_too_large, from_frame,
}
use context_layer.Screenpipe.Loopback.{BaseUrl, Client, new_client}
use context_layer.Agent.Captures.{ScreenpipeScreenshot, png, not_found, omitted_too_large}

abbrev pub screenpipe_source : Text
screenpipe_source = text "screenpipe.local"

abbrev pub personal_scope : Text
personal_scope = text "scope.personal"

abbrev pub unwrap_or {ℓ} : {A : Type ℓ} → Option A → A → A
unwrap_or none b = b
unwrap_or (some a) b = a

abbrev first_of {ℓ} : {A : Type ℓ} → Option A → Option A → Option A
first_of (some a) b = some a
first_of none b = b

-- SCREENPIPE_LOCAL_API_KEY, SCREENPIPE_API_KEY and SCREENPIPE_LOCAL_API_URL.
pub record ScreenpipeEnvironment : Type 0 where
  pub local_api_key : Option Text
  pub api_key : Option Text
  pub local_api_url : Option Text

abbrev cursor_of_event : Option ℕ → Option OffsetDateTime → Option ScreenpipeCursor
cursor_of_event (some frame_id) (some captured_at) =
    some (record { frame_id = frame_id; captured_at = captured_at })
cursor_of_event _ _ = none

-- `none` disables the adapter, `some none` starts without a cursor.
abbrev cursor_of_json : Result EventEnvelopeV2 Text → Option (Option ScreenpipeCursor)
cursor_of_json (err e) = none
cursor_of_json (ok event) = elim (cursor_of_event event.source_sequence event.occurred_at) [
  | none ↦ none
  | some c ↦ some (some c)
]

abbrev stored_cursor : Serde → Option Text → Option (Option ScreenpipeCursor)
stored_cursor serde none = some none
stored_cursor serde (some json) = cursor_of_json (serde.decode_v2 json)

abbrev with_client :
    Result Client ScreenpipeError
    → Option (Option ScreenpipeCursor)
    → Option (Client × Option ScreenpipeCursor)
with_client (err e) cursor = none
with_client (ok client) none = none
with_client (ok client) (some cursor) = some (client, cursor)

abbrev with_key :
    (Text → Result BaseUrl Text)
    → Serde
    → Text
    → Option Text
    → Database
    → Option (Client × Option ScreenpipeCursor)
with_key parse serde url none db = none
with_key parse serde url (some key) db =
    with_client (new_client parse url key) (
      stored_cursor serde
        (latest_raw_event_envelope_for_source screenpipe_source personal_scope db))

unfoldable pub screenpipe_runtime_config :
    (Text → Result BaseUrl Text)
    → Serde
    → ScreenpipeEnvironment
    → Database
    → Option (Client × Option ScreenpipeCursor)
unfolding new_client latest_raw_event_envelope_for_source
screenpipe_runtime_config parse serde env db =
    with_key parse serde (unwrap_or env.local_api_url (text "http://localhost:3030"))
      (first_of env.local_api_key env.api_key) db

-- What the sampler of the clipboard remembers.
pub record ClipboardSampler : Type 0 where
  pub last_sequence : Option ℕ
  pub last_error : Option Text

abbrev is_non_text : ClipboardSnapshot → Bool
is_non_text (non_text _) = true
is_non_text _ = false

abbrev is_reported : Option Text → Text → Bool
is_reported none message = false
is_reported (some last) message = text_eq last message

abbrev report : Option Text → Text → Option Text
report last message = if is_reported last message then last else some message

abbrev clipboard_failed :
    (ClipboardError → Text) → ClipboardError → ClipboardSampler → ClipboardSampler
clipboard_failed describe (would_block _) s = s
clipboard_failed describe e s = record s { last_error = report s.last_error (describe e) }

-- One turn of the sampler: the snapshot that is sent, if any.
unfoldable pub sample_clipboard :
    (ClipboardError → Text)
    → Result (Option ClipboardSnapshot) ClipboardError
    → ClipboardSampler
    → Option ClipboardSnapshot × ClipboardSampler
unfolding sequence_of
sample_clipboard describe (ok none) s = (none, s)
sample_clipboard describe (ok (some snapshot)) s = (
  if is_non_text snapshot then none else some snapshot,
  record { last_sequence = some (sequence_of snapshot); last_error = none },
)
sample_clipboard describe (err e) s = (none, clipboard_failed describe e s)

pub data BatchEnd : Type 0 where
  completed failed returned : BatchEnd

-- How far a batch of frames came; `committed` are the frames that the event loop took.
pub record ScreenRun : Type 0 where
  pub ended : BatchEnd
  pub cursor : Option ScreenpipeCursor
  pub last_error : Option Text
  pub committed : List ScreenpipeFrame

-- What a frame meets: the cancellation, the answer to `fetch_frame_png`, and the commit, where `none`
-- is a closed channel or no answer in time.
pub record FrameFate : Type 0 where
  pub cancelled : Bool
  pub png : Result (Option (List ℕ)) ScreenpipeError
  pub commit : ScreenpipeScreenshot → Option (Result (Unit {0}) Text)

abbrev screenshot_of :
    Result (Option (List ℕ)) ScreenpipeError → Result ScreenpipeScreenshot ScreenpipeError
screenshot_of (ok (some bytes)) = ok (ScreenpipeScreenshot.png bytes)
screenshot_of (ok none) = ok not_found
screenshot_of (err (response_too_large _ _)) = ok omitted_too_large
screenshot_of (err e) = err e

module _ (describe : ScreenpipeError → Text) (fate : ScreenpipeFrame → FrameFate) where
  abbrev halt : BatchEnd → Option ScreenpipeCursor → Option Text → ScreenRun
  halt ended cursor last_error = record {
    ended = ended;
    cursor = cursor;
    last_error = last_error;
    committed = [];
  }

  abbrev take_frame : ScreenpipeFrame → ScreenRun → ScreenRun
  take_frame frame rest = record rest { committed = frame ∷ rest.committed }

  -- `rest` is the batch after the frame, from the cursor at the frame.
  abbrev after_commit :
      ScreenpipeFrame
      → Option ScreenpipeCursor
      → Option Text
      → Option (Result (Unit {0}) Text)
      → ScreenRun
      → ScreenRun
  after_commit frame cursor last_error none rest = halt returned cursor last_error
  after_commit frame cursor last_error (some (err message)) rest =
      halt failed cursor (report last_error message)
  after_commit frame cursor last_error (some (ok _)) rest = take_frame frame rest

  abbrev after_screenshot :
      ScreenpipeFrame
      → Option ScreenpipeCursor
      → Option Text
      → Result ScreenpipeScreenshot ScreenpipeError
      → ScreenRun
      → ScreenRun
  after_screenshot frame cursor last_error (err e) rest =
      halt failed cursor (report last_error (describe e))
  after_screenshot frame cursor last_error (ok screenshot) rest =
      after_commit frame cursor last_error ((fate frame).commit screenshot) rest

  -- The loop over the frames of one fetch.
  unfoldable pub screen_batch :
      Option ScreenpipeCursor → Option Text → List ScreenpipeFrame → ScreenRun
  screen_batch cursor last_error [] = halt completed cursor last_error
  screen_batch cursor last_error (frame ∷ frames) =
      let rest = screen_batch (some (from_frame frame)) none frames in
      if (fate frame).cancelled
      then halt returned cursor last_error
      else after_screenshot frame cursor last_error (screenshot_of (fate frame).png) rest
