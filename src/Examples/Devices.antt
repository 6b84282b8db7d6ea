-- ===== src/Examples/Devices.antt =====
-- Windows, the samplers and the captures at concrete inputs.
use context_layer.Base.{
  ℕ, ◌≡◌, ◌≢◌, ◌+◌, ◌*◌, ◌^◌, ◌%◌, ◌≤◌, refl, arith, true, false, text, List, [], ◌∷◌, drop, length,
  Option, none, some, ok, err,
}
use context_layer.Contracts.{EventEnvelopeV2}
use context_layer.Vault.{StoredContent}
use context_layer.Platform.{DirectoryBatch}
use context_layer.Platform.ChangeBuffer.{Layout, parse_extended_change_buffer}
use context_layer.Platform.ChangeBuffer.Parsed.{
  Parsed, parse_extended_change_buffer-Parsed, parse_extended_change_buffer-bound,
}
use context_layer.Platform.Clipboard.{
  text_snapshot, Calls, Steady, clipboard_snapshot_if_changed, clipboard_snapshot_if_changed-Steady,
}
use context_layer.Platform.Activity.{input_idle_millis, input_idle_millis-rollover}
use context_layer.Agent.Samplers.{Sample, new_sampler, nothing, poll}
use context_layer.Agent.Samplers.Quiet.{poll_quiet}
use context_layer.Agent.Captures.{PutBytes, text_event, event_from_snapshot}
use context_layer.Agent.Captures.Retained.{Guarded, Hidden, event_from_snapshot-Hidden}
use context_layer.Examples.{at_second, stamp}

-- A header of four bytes: the next offset, the action, the identity and the length of the name.
abbrev first_byte : List ℕ → ℕ
first_byte [] = 0
first_byte (a ∷ _) = a

abbrev byte : ℕ → List ℕ → ℕ
byte n bytes = first_byte (drop n bytes)

abbrev layout : Layout
layout = record {
  header_bytes = 4;
  next_entry_offset = byte 0;
  action = byte 1;
  file_id = byte 2;
  file_name_length = byte 3;
}

abbrev buffer : List ℕ
buffer = 6 ∷ 1 ∷ 9 ∷ 2 ∷ 97 ∷ 0 ∷ 0 ∷ 2 ∷ 9 ∷ 2 ∷ 98 ∷ 0 ∷ 0 ∷ 0 ∷ []

parse_extended_change_buffer-Parsed_example :
    Parsed layout buffer 12
      (text "vol")
      (parse_extended_change_buffer layout buffer 12 (text "vol"))
parse_extended_change_buffer-Parsed_example =
    parse_extended_change_buffer-Parsed layout buffer 12 (text "vol") (omega arith)

abbrev gap : DirectoryBatch
gap = record { changes = []; gap_detected = true }

empty_read : parse_extended_change_buffer layout buffer 0 (text "vol") ≡ some (ok gap)
unfolding parse_extended_change_buffer
empty_read = refl

parse_extended_change_buffer-bound_example : length gap.changes * 4 ≤ 0
parse_extended_change_buffer-bound_example =
    parse_extended_change_buffer-bound layout buffer 0 (text "vol") gap (omega arith) empty_read

input_idle_millis-rollover_example :
    input_idle_millis (ok (4294967290 % 2 ^ 32)) ((4294967290 + 10) % 2 ^ 32) ≡ ok 10
input_idle_millis-rollover_example = input_idle_millis-rollover 4294967290 10 (omega arith)

abbrev calls : Calls
calls = record {
  sequence = 5;
  sequence_after = 5;
  format_available = true;
  open_clipboard = ok tt;
  clipboard_data = ok tt;
  global_size = 4;
  global_lock = ok (104 ∷ 0 ∷ []);
}

snapped :
    clipboard_snapshot_if_changed (some 4) 100 calls ≡ ok (some (text_snapshot 5 (text "h") 4))
unfolding clipboard_snapshot_if_changed
snapped = refl

clipboard_snapshot_if_changed-Steady_example :
    (◌≢◌ {A = ℕ} 5 0)
    × ((◌≢◌ {A = Option ℕ} (some 4) (some 5)) × Steady 100 calls (text_snapshot 5 (text "h") 4))
clipboard_snapshot_if_changed-Steady_example =
    clipboard_snapshot_if_changed-Steady (some 4) 100 calls (text_snapshot 5 (text "h") 4) snapped

abbrev sample : Sample
sample = record {
  foreground = ok (some (record { process_id = 7; process_path = none; window_title = text "t" }));
  idle_millis = err (text "no input");
  observed_at = at_second 9;
  foreground_stamp = stamp;
  idle_stamp = stamp;
}

poll_quiet_example :
    poll sample (poll sample (new_sampler none)).1 ≡ (nothing, (poll sample (new_sampler none)).1)
poll_quiet_example = poll_quiet sample (new_sampler none)

abbrev stored : StoredContent
stored = record { sha256 = text "ab"; byte_length = 1; path = []; duplicate = false }

abbrev put : PutBytes
put bytes files = (ok stored, files)

abbrev copied : EventEnvelopeV2
copied = text_event stamp none (at_second 9) 5 4 stored

captured :
    event_from_snapshot put stamp none 100 (text_snapshot 5 (text "h") 4) (at_second 9) []
    ≡ (ok (some copied), [])
unfolding event_from_snapshot
captured = refl

event_from_snapshot-Hidden_example : Guarded copied × Hidden copied
event_from_snapshot-Hidden_example =
    event_from_snapshot-Hidden put stamp none 100 (text_snapshot 5 (text "h") 4) (at_second 9) []
      copied [] captured
