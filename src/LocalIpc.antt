-- ===== src/LocalIpc.antt =====
-- crates/local-ipc/src/lib.rs: frames of JSON behind a length of four bytes. A reader is the bytes that
-- are left in the stream, a writer the bytes written so far; both are in memory, and writing to one
-- does not fail.
pub mod RoundTrip
use context_layer.Base.{
  ℕ, zero, suc, ◌+◌, ◌*◌, ◌/◌, ◌%◌, ◌^◌, Bool, true, false, leb, ltb, if◌then◌else◌, Text, text,
  List, [], ◌∷◌, ◌++◌, length, take, drop, Result, ok, err, ◌>>=◌, map_err, ensure, ◌>>◌,
}

abbrev pub max_frame_bytes : ℕ
max_frame_bytes = 1024 * 1024

pub data FrameError : Type 0 where
  io : Text → FrameError
  too_large : (actual maximum : ℕ) → FrameError
  json : Text → FrameError

-- serde_json at one type of messages.
pub record Json (T : Type 0) : Type 0 where
  pub to_vec : T → Result (List ℕ) Text
  pub from_slice : List ℕ → Result T Text

-- `read_exact`, which gives the bytes and what is left.
unfoldable pub read_exact : ℕ → List ℕ → Result (List ℕ × List ℕ) FrameError
read_exact n input =
    if leb n (length input)
    then ok (take n input, drop n input)
    else err (io (text "failed to fill whole buffer"))

abbrev pub u32_from_le_bytes : List ℕ → ℕ
u32_from_le_bytes [] = 0
u32_from_le_bytes (b ∷ bs) = b + 256 * u32_from_le_bytes bs

abbrev pub u32_to_le_bytes : ℕ → List ℕ
u32_to_le_bytes n = n % 256 ∷ (n / 256) % 256 ∷ (n / 65536) % 256 ∷ (n / 16777216) % 256 ∷ []

module _ {T : Type 0} (serde : Json T) where
  unfoldable pub read_frame : List ℕ → Result (T × List ℕ) FrameError
  unfolding read_exact
  read_frame input = do
    (length_bytes, body) ← read_exact 4 input
    let n = u32_from_le_bytes length_bytes
    ensure (leb n max_frame_bytes) (too_large n max_frame_bytes)
    (payload, rest) ← read_exact n body
    value ← map_err json (serde.from_slice payload)
    ok (value, rest)

  unfoldable pub write_frame : T → List ℕ → Result (List ℕ) FrameError
  write_frame value output = do
    payload ← map_err json (serde.to_vec value)
    ensure (leb (length payload) max_frame_bytes) (too_large (length payload) max_frame_bytes)
    ok ((output ++ u32_to_le_bytes (length payload % 2 ^ 32)) ++ payload)
