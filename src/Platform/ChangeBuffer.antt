-- ===== src/Platform/ChangeBuffer.antt =====
-- crates/platform-windows/src/watcher.rs, `parse_extended_change_buffer`. The layout of
-- FILE_NOTIFY_EXTENDED_INFORMATION is of windows-sys, a parameter.
pub mod Parsed
use context_layer.Base.{
  ℕ, zero, suc, ◌+◌, ◌-◌, ◌*◌, ◌/◌, ◌%◌, ◌^◌, Bool, true, false, ◌&&◌, ◌||◌, ◌==◌, ltb, leb, not,
  if◌then◌else◌, Text, text, List, [], ◌∷◌, ◌++◌, length, take, drop, Option, none, some, Result,
  ok, err, ◌>>=◌, ensure, ◌>>◌, ok_or,
}
use mathlib.Core.Option
use context_layer.Contracts.{FileIdentity}
use context_layer.Platform.{
  DirectoryAction, added, removed, modified, renamed_from, renamed_to, unknown, DirectoryChange,
  DirectoryBatch,
}

-- EXTENDED_HEADER_BYTES, and the fields of the header that some bytes start with.
pub record Layout : Type 0 where
  pub header_bytes : ℕ
  pub next_entry_offset : List ℕ → ℕ
  pub action : List ℕ → ℕ
  pub file_id : List ℕ → ℕ
  pub file_name_length : List ℕ → ℕ

pub data ParseError : Type 0 where
  exceeds_buffer truncated_header odd_filename filename_overflow : ParseError
  truncated_filename invalid_utf16 invalid_next_entry : ParseError

-- `chunks_exact(2)` and `u16::from_le_bytes`.
unfoldable pub code_units : List ℕ → List ℕ
code_units (a ∷ b ∷ bytes) = (a + b * 256) ∷ code_units bytes
code_units _ = []

abbrev is_high : ℕ → Bool
is_high u = leb 0xd800 u && leb u 0xdbff

abbrev is_low : ℕ → Bool
is_low u = leb 0xdc00 u && leb u 0xdfff

-- `String::from_utf16`, with the high surrogate that waits for its low one.
unfoldable pub decode_utf16 : Option ℕ → List ℕ → Option Text
decode_utf16 none [] = some []
decode_utf16 (some high) [] = none
decode_utf16 none (u ∷ us) =
    let pair = decode_utf16 (some u) us in
    let rest = decode_utf16 none us in
    if is_high u then pair else if is_low u then none else Option.map (λ s. u ∷ s) rest
decode_utf16 (some high) (u ∷ us) =
    let rest = decode_utf16 none us in
    if is_low u
    then Option.map (λ s. (0x10000 + (high - 0xd800) * 1024 + (u - 0xdc00)) ∷ s) rest
    else none

unfoldable pub action_of : ℕ → DirectoryAction
action_of n =
    if n == 1
    then added
    else if n == 2
    then removed
    else if n == 3
    then modified
    else if n == 4
    then renamed_from
    else if n == 5
    then renamed_to
    else unknown n

-- `u64::to_be_bytes`.
abbrev pub to_be_bytes : ℕ → List ℕ
to_be_bytes n =
    (n / 2 ^ 56 % 256)
    ∷ (n / 2 ^ 48 % 256)
    ∷ (n / 2 ^ 40 % 256)
    ∷ (n / 2 ^ 32 % 256)
    ∷ (n / 2 ^ 24 % 256)
    ∷ (n / 2 ^ 16 % 256)
    ∷ (n / 2 ^ 8 % 256)
    ∷ (n % 256)
    ∷ []

module _ (layout : Layout) (buffer : List ℕ) (bytes_returned : ℕ) (volume_namespace : Text) where
  -- The change whose header stands at the offset.
  unfoldable pub read_change : ℕ → Result DirectoryChange ParseError
  unfolding code_units decode_utf16 action_of
  read_change offset =
      let header = drop offset buffer in
      let name_bytes = layout.file_name_length header in
      let name_start = offset + layout.header_bytes in
      do
        ensure (leb name_start bytes_returned) truncated_header
        ensure (name_bytes % 2 == 0) odd_filename
        ensure (ltb (name_start + name_bytes) (2 ^ 64)) filename_overflow
        ensure (leb (name_start + name_bytes) bytes_returned) truncated_filename
        name ←
            ok_or (decode_utf16 none (code_units (take name_bytes (drop name_start buffer))))
              invalid_utf16
        ok (record {
          action = action_of (layout.action header);
          relative_path = name;
          identity = some (record {
            provider = text "windows-file-id-v1";
            namespace = volume_namespace;
            opaque_id = to_be_bytes (layout.file_id header);
          });
        })

  -- Where the next header stands; `none` is the end of the chain.
  unfoldable pub next_offset : ℕ → Result (Option ℕ) ParseError
  next_offset offset =
      let next = layout.next_entry_offset (drop offset buffer) in
      if next == 0
      then ok none
      else if ltb next layout.header_bytes || ltb bytes_returned (offset + next)
      then err invalid_next_entry
      else ok (some (offset + next))

  abbrev Changes : Type 0
  Changes = Option (Result (List DirectoryChange) ParseError)

  abbrev and_then : DirectoryChange → Changes → Changes
  and_then change rest = Option.map (λ r. r >>= λ changes. ok (change ∷ changes)) rest

  after_change : DirectoryChange → Result (Option ℕ) ParseError → (ℕ → Changes) → Changes
  after_change change (err e) loop = some (err e)
  after_change change (ok none) loop = some (ok (change ∷ []))
  after_change change (ok (some offset)) loop = and_then change (loop offset)

  at_change : Result DirectoryChange ParseError → ℕ → (ℕ → Changes) → Changes
  unfolding after_change next_offset
  at_change (err e) offset loop = some (err e)
  at_change (ok change) offset loop = after_change change (next_offset offset) loop

  -- The loop; `none` is the fuel used up.
  read_changes : ℕ → ℕ → Changes
  unfolding at_change read_change
  read_changes zero offset = none
  read_changes (suc fuel) offset = at_change (read_change offset) offset (read_changes fuel)

  unfoldable pub parse_extended_change_buffer : Option (Result DirectoryBatch ParseError)
  unfolding read_changes
  parse_extended_change_buffer =
      if bytes_returned == 0
      then some (ok (record { changes = []; gap_detected = true }))
      else if ltb (length buffer) bytes_returned
      then some (err exceeds_buffer)
      else Option.map
          (λ r. r >>= λ changes. ok (record { changes = changes; gap_detected = false }))
          (read_changes (bytes_returned + 1) 0)
