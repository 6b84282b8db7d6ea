-- ===== src/Agent/Captures.antt =====
-- apps/context-agent/src/clipboard_capture.rs and screenpipe_capture.rs: the events of a clipboard
-- snapshot and of a screen frame, whose contents go to the vault. `put` is `ContentVault::put_bytes`.
pub mod Retained
use context_layer.Base.{
  ℕ, ◌*◌, Bool, true, false, ◌==◌, ltb, if◌then◌else◌, Text, text, text_eq, to_bytes, byte_len,
  is_empty, strip_prefix, List, [], ◌∷◌, ◌++◌, Option, none, some, Result, ok, err,
}
use context_layer.Contracts.{
  OffsetDateTime, Stamp, EventEnvelopeV2, observed_event_v2, SensitivityClass, RetrievalClass,
  ContentRef, Value, string, uint, bool, null, array, object, field, end, Items, nil, cons,
}
use context_layer.Vault.{StoredContent, VaultError, File}
use context_layer.Platform.Clipboard.{ClipboardSnapshot, non_text, text_snapshot, oversized_text}
use context_layer.Screenpipe.{ScreenpipeFrame, as_str}

abbrev pub max_screen_text_bytes : ℕ
max_screen_text_bytes = 8 * 1024 * 1024

abbrev pub png_signature : List ℕ
png_signature = 0x89 ∷ 0x50 ∷ 0x4e ∷ 0x47 ∷ 0x0d ∷ 0x0a ∷ 0x1a ∷ 0x0a ∷ []

pub data ScreenpipeScreenshot : Type 0 where
  png : List ℕ → ScreenpipeScreenshot
  not_found omitted_too_large : ScreenpipeScreenshot

pub data CaptureError : Type 0 where
  vault : VaultError → CaptureError
  not_png : CaptureError

abbrev pub PutBytes : Type 0
PutBytes = List ℕ → List File → Result StoredContent VaultError × List File

unfoldable pub vault_ref : Text → StoredContent → ContentRef
vault_ref media_type stored = record {
  sha256 = stored.sha256;
  media_type = media_type;
  byte_length = stored.byte_length;
  compression = none;
  storage_class = text "local_vault";
  retrieval_class = RetrievalClass.sensitive;
}

abbrev pub utf8_text : Text
utf8_text = text "text/plain; charset=utf-8"

unfoldable pub text_event :
    Stamp → Option Text → OffsetDateTime → ℕ → ℕ → StoredContent → EventEnvelopeV2
unfolding observed_event_v2 vault_ref
text_event stamp computer observed_at sequence raw_utf16_bytes stored =
    record (observed_event_v2 stamp (text "clipboard.text_observed") (text "windows.clipboard")
      (text "scope.personal") observed_at
      (object (
        field (text "clipboard_sequence") (uint sequence) (
          field (text "raw_utf16_bytes") (uint raw_utf16_bytes)
            (field (text "text_encoding") (string (text "utf-8")) end))))
      (text "windows-clipboard-v1")
      (text "CF_UNICODETEXT clipboard snapshot stored by content hash")) {
        content_refs = vault_ref utf8_text stored ∷ [];
        device_id = computer;
        sensitivity = SensitivityClass.sensitive;
      }

unfoldable pub omitted_event : Stamp → Option Text → OffsetDateTime → ℕ → ℕ → ℕ → EventEnvelopeV2
unfolding observed_event_v2
omitted_event stamp computer observed_at sequence raw_utf16_bytes limit =
    record (observed_event_v2 stamp (text "clipboard.text_omitted") (text "windows.clipboard")
      (text "scope.personal") observed_at
      (object (
        field (text "clipboard_sequence") (uint sequence) (
          field (text "raw_utf16_byte_limit") (uint limit) (
            field (text "raw_utf16_bytes") (uint raw_utf16_bytes)
              (field (text "reason") (string (text "capture_size_limit")) end)))))
      (text "windows-clipboard-v1")
      (text "clipboard text exceeded the bounded raw capture limit")) {
        device_id = computer;
        sensitivity = SensitivityClass.sensitive;
      }

abbrev text_captured :
    (StoredContent → EventEnvelopeV2)
    → Result StoredContent VaultError × List File
    → Result (Option EventEnvelopeV2) CaptureError × List File
text_captured event (ok stored, files) = (ok (some (event stored)), files)
text_captured event (err e, files) = (err (vault e), files)

-- `computer` is the environment's COMPUTERNAME.
unfoldable pub event_from_snapshot :
    PutBytes
    → Stamp
    → Option Text
    → ℕ
    → ClipboardSnapshot
    → OffsetDateTime
    → List File
    → Result (Option EventEnvelopeV2) CaptureError × List File
unfolding text_event omitted_event
event_from_snapshot put stamp computer limit (non_text _) observed_at files = (ok none, files)
event_from_snapshot put stamp computer limit (text_snapshot sequence content bytes) observed_at
      files =
    text_captured (text_event stamp computer observed_at sequence bytes)
      (put (to_bytes content) files)
event_from_snapshot put stamp computer limit (oversized_text sequence bytes) observed_at files =
    (ok (some (omitted_event stamp computer observed_at sequence bytes limit)), files)

-- What became of one part of a frame: its status, its reference and its role.
pub record Part : Type 0 where
  pub status : Text
  pub refs : List ContentRef
  pub roles : Items

abbrev pub Captured : Type 0
Captured = Result Part CaptureError × List File

abbrev pub omitted : Text → Part
omitted status = record { status = status; refs = []; roles = nil }

abbrev text_part : Text → StoredContent → Part
text_part source stored = record {
  status = text "retained";
  refs = vault_ref utf8_text stored ∷ [];
  roles =
      cons
        (object (
          field (text "role") (string (text "screen_text")) (
            field (text "sha256") (string stored.sha256)
              (field (text "source") (string source) end))))
        nil;
}

abbrev screenshot_part : StoredContent → Part
screenshot_part stored = record {
  status = text "retained";
  refs = vault_ref (text "image/png") stored ∷ [];
  roles =
      cons
        (object (
          field (text "role") (string (text "screenshot"))
            (field (text "sha256") (string stored.sha256) end)))
        nil;
}

abbrev kept : (StoredContent → Part) → Result StoredContent VaultError × List File → Captured
kept part (ok stored, files) = (ok (part stored), files)
kept part (err e, files) = (err (vault e), files)

unfoldable pub capture_text : PutBytes → ScreenpipeFrame → List File → Captured
unfolding vault_ref
capture_text put frame files =
    if is_empty frame.text
    then (ok (omitted (text "empty")), files)
    else if ltb max_screen_text_bytes (byte_len frame.text)
    then (ok (omitted (text "omitted_too_large")), files)
    else kept (text_part (as_str frame.text_source)) (put (to_bytes frame.text) files)

abbrev starts_with : List ℕ → List ℕ → Bool
starts_with prefix bytes = elim (strip_prefix prefix bytes) [ none ↦ false | some _ ↦ true ]

unfoldable pub capture_screenshot : PutBytes → ScreenpipeScreenshot → List File → Captured
unfolding vault_ref
capture_screenshot put not_found files = (ok (omitted (text "not_found")), files)
capture_screenshot put omitted_too_large files = (ok (omitted (text "omitted_too_large")), files)
capture_screenshot put (png bytes) files =
    if starts_with png_signature bytes
    then kept screenshot_part (put bytes files)
    else (err not_png, files)

abbrev append_items : Items → Items → Items
append_items nil rest = rest
append_items (cons v items) rest = cons v (append_items items rest)

abbrev text_value : Option Text → Value
text_value none = null
text_value (some s) = string s

abbrev bool_value : Option Bool → Value
bool_value none = null
bool_value (some b) = bool b

unfoldable pub frame_event :
    Stamp → Option Text → ScreenpipeFrame → OffsetDateTime → Part → Part → EventEnvelopeV2
unfolding observed_event_v2
frame_event stamp computer frame observed_at words picture =
    record (observed_event_v2 stamp (text "ui.snapshot_observed") (text "screenpipe.local")
      (text "scope.personal") observed_at
      (object (
        field (text "app_name") (text_value frame.app_name) (
          field (text "backend") (string (text "screenpipe")) (
            field (text "content_roles") (array (append_items words.roles picture.roles)) (
              field (text "focused") (bool_value frame.focused) (
                field (text "screenpipe_frame_id") (uint frame.frame_id) (
                  field (text "screenshot_status") (string picture.status) (
                    field (text "text_source") (string (as_str frame.text_source)) (
                      field (text "text_status") (string words.status)
                        (field (text "window_name") (text_value frame.window_name) end))))))))))
      (text "screenpipe-rest-v1") (text "Screenpipe localhost REST search plus frame PNG")) {
        occurred_at = some frame.captured_at;
        source_sequence = some frame.frame_id;
        device_id = computer;
        sensitivity = SensitivityClass.sensitive;
        content_refs = words.refs ++ picture.refs;
      }

abbrev with_screenshot :
    (Part → Part → EventEnvelopeV2)
    → Part
    → Captured
    → Result EventEnvelopeV2 CaptureError × List File
with_screenshot event words (ok picture, files) = (ok (event words picture), files)
with_screenshot event words (err e, files) = (err e, files)

abbrev with_text :
    PutBytes
    → ScreenpipeScreenshot
    → (Part → Part → EventEnvelopeV2)
    → Captured
    → Result EventEnvelopeV2 CaptureError × List File
with_text put screenshot event (err e, files) = (err e, files)
with_text put screenshot event (ok words, files) =
    with_screenshot event words (capture_screenshot put screenshot files)

unfoldable pub event_from_frame :
    PutBytes
    → Stamp
    → Option Text
    → ScreenpipeFrame
    → ScreenpipeScreenshot
    → OffsetDateTime
    → List File
    → Result EventEnvelopeV2 CaptureError × List File
unfolding capture_text capture_screenshot frame_event
event_from_frame put stamp computer frame screenshot observed_at files =
    with_text put screenshot (frame_event stamp computer frame observed_at)
      (capture_text put frame files)
