-- ===== src/Examples/Local.antt =====
-- Frames, stored content and the reads of the agent at concrete inputs.
use context_layer.Base.{
  zero, suc, sym, ℕ, ◌+◌, ◌%◌, ◌≤◌, ◌≡◌, ◌↔◌, refl, arith, true, false, Text, text, List, [], ◌∷◌,
  ◌++◌, length, Option, none, some, ok,
}
use context_layer.Contracts.{LocalTimelinePage, Value, SensitivityClass}
use context_layer.Core.Timeline.{TimelineEntry, TimelineCursor}
use context_layer.LocalIpc.{Json, read_frame, write_frame}
use context_layer.LocalIpc.RoundTrip.{read_frame-write_frame}
use context_layer.Vault.{
  Sha256, File, StoredContent, Weather, hex_sha256, path_for_digest, put_bytes, read_verified_bytes,
  regular,
}
use context_layer.Vault.Integrity.{read_verified_bytes-integrity, put_bytes-read_verified_bytes}
use context_layer.Agent.Policy.{constant_time_equal}
use context_layer.Agent.ReadCapability.{WireJson, map_wire_page}
use context_layer.Agent.ReadCapability.Tokens.{constant_time_equal_iff}
use context_layer.Agent.ReadCapability.Wire.{WirePage, map_wire_page-WirePage}
use context_layer.Examples.{at_second, grant, reference, content_event}

-- A message is its own JSON.
abbrev raw_json : Json (List ℕ)
raw_json = record { to_vec = λ v. ok v; from_slice = λ v. ok v }

sent : write_frame raw_json (7 ∷ 8 ∷ []) (1 ∷ []) ≡ ok (1 ∷ 2 ∷ 0 ∷ 0 ∷ 0 ∷ 7 ∷ 8 ∷ [])
unfolding write_frame
sent = refl

read_frame-write_frame_example :
    (frame : List ℕ) × (1 ∷ 2 ∷ 0 ∷ 0 ∷ 0 ∷ 7 ∷ 8 ∷ [] ≡ (1 ∷ []) ++ frame)
    × ((rest : List ℕ) → read_frame raw_json (frame ++ rest) ≡ ok (7 ∷ 8 ∷ [], rest))
read_frame-write_frame_example =
    read_frame-write_frame raw_json (7 ∷ 8 ∷ []) (1 ∷ []) (1 ∷ 2 ∷ 0 ∷ 0 ∷ 0 ∷ 7 ∷ 8 ∷ [])
      (λ payload h. sym h) sent

abbrev repeat : ℕ → ℕ → List ℕ
repeat zero b = []
repeat (suc n) b = b ∷ repeat n b

-- A digest of 32 bytes that is the sum of the input.
abbrev pair : List ℕ
pair = 1 ∷ 2 ∷ []

abbrev other : List ℕ
other = 1 ∷ 3 ∷ []

abbrev two_bytes : List ℕ
two_bytes = 7 ∷ 8 ∷ []

abbrev sum : List ℕ → ℕ
sum [] = 0
sum (b ∷ bytes) = (b + sum bytes) % 256

abbrev pub toy : Sha256
toy bytes = repeat 32 (sum bytes)

abbrev calm : Weather
calm = record {
  create_dir_all = none;
  open_temp = none;
  write_all = none;
  partial = [];
  appears = none;
  rename = none;
  resolves = false;
  resolves_later = false;
}

abbrev pub digest : Text
digest = text "0f0f0f0f0f0f0f0f0f0f0f0f0f0f0f0f0f0f0f0f0f0f0f0f0f0f0f0f0f0f0f0f"

abbrev place : List Text
place = text "0f" ∷ text "0f" ∷ digest ∷ []

abbrev content : StoredContent
content = record { sha256 = digest; byte_length = 2; path = place; duplicate = false }

abbrev pub files : List File
files = record { path = place; entry = regular (7 ∷ 8 ∷ []) } ∷ []

put : put_bytes toy calm (text "u") (7 ∷ 8 ∷ []) [] ≡ (ok content, files)
unfolding put_bytes
put = refl

put_bytes-read_verified_bytes_example :
    read_verified_bytes toy digest 10 none files files ≡ ok (7 ∷ 8 ∷ [])
put_bytes-read_verified_bytes_example =
    put_bytes-read_verified_bytes toy calm (text "u") (7 ∷ 8 ∷ []) [] files content 10 none put refl
      (omega arith) (omega arith)

read : read_verified_bytes toy digest 10 none files files ≡ ok (7 ∷ 8 ∷ [])
unfolding read_verified_bytes
read = refl

read_verified_bytes-integrity_example :
    (hex_sha256 toy two_bytes ≡ digest)
    × (length two_bytes ≤ 10)
    × ((path : List Text) × (path_for_digest digest ≡ ok path))
read_verified_bytes-integrity_example =
    read_verified_bytes-integrity toy digest 10 none files files two_bytes read

constant_time_equal_iff_example : (constant_time_equal pair other ≡ true) ↔ (pair ≡ other)
constant_time_equal_iff_example =
    constant_time_equal_iff pair other (omega arith, (omega arith, tt))
      (omega arith, (omega arith, tt))

-- A serializer whose pages are one byte long for every entry.
abbrev pub wire_json : WireJson
wire_json = record {
  value_to_vec = λ v. ok (text "null");
  page_to_vec = λ page. ok (repeat (length page.entries) 1);
}

abbrev entry : TimelineEntry
entry = record {
  event_id = 6;
  schema_version = 2;
  event_type = text "fixture";
  source = text "fixture";
  source_sequence = some 1;
  occurred_at = none;
  observed_at = at_second 11;
  ingested_at = at_second 21;
  device_id = none;
  scope_id = text "scope.personal";
  correlation_id = none;
  sensitivity = SensitivityClass.metadata;
  content_refs = reference ∷ [];
  payload = some Value.null;
  evidence = content_event.evidence;
}

abbrev core_cursor : Option TimelineCursor
core_cursor = some (record { observed_at = at_second 11; event_id = 6 })

abbrev wire_page : LocalTimelinePage
wire_page = record {
  entries =
      record {
        event_id = 6;
        schema_version = 2;
        event_type = text "fixture";
        source = text "fixture";
        source_sequence = some 1;
        occurred_at = none;
        observed_at = at_second 11;
        ingested_at = at_second 21;
        device_id = none;
        scope_id = text "scope.personal";
        correlation_id = none;
        sensitivity = SensitivityClass.metadata;
        content_refs = reference ∷ [];
        content_refs_omitted = 0;
        payload = some Value.null;
        payload_omitted_reason = none;
        evidence = content_event.evidence;
      }
      ∷ [];
  next_cursor = some (record { observed_at = at_second 11; event_id = 6 });
}

mapped : map_wire_page wire_json (entry ∷ []) core_cursor grant ≡ ok wire_page
unfolding map_wire_page
mapped = refl

map_wire_page-WirePage_example : WirePage wire_json (entry ∷ []) core_cursor wire_page
map_wire_page-WirePage_example =
    map_wire_page-WirePage wire_json (entry ∷ []) core_cursor grant wire_page mapped
