-- ===== src/Platform/Clipboard.antt =====
-- crates/platform-windows/src/clipboard.rs: a snapshot of the clipboard. The calls of Windows are given
-- by what they return.
use context_layer.Base.{
  ℕ, ◌+◌, ◌-◌, ◌*◌, ◌/◌, ◌%◌, ◌≤◌, ◌≡◌, ◌≢◌, refl, subst, ◌<◌, Bool, false, Bool-cases, inl, inr,
  ◌&&◌, ◌||◌, ◌==◌, ==_iff, ltb, leb, if◌then◌else◌, not, Text, text, List, [], ◌∷◌, take, Option,
  none, some, Result, ok, err, ◌>>=◌, ensure, ensure-ok, ◌>>◌, bind-ok, ok_inj, arith,
}

pub data ClipboardSnapshot : Type 0 where
  non_text : (sequence : ℕ) → ClipboardSnapshot
  text_snapshot : (sequence : ℕ) (content : Text) (raw_utf16_bytes : ℕ) → ClipboardSnapshot
  oversized_text : (sequence raw_utf16_bytes : ℕ) → ClipboardSnapshot

unfoldable pub sequence_of : ClipboardSnapshot → ℕ
sequence_of (non_text s) = s
sequence_of (text_snapshot s _ _) = s
sequence_of (oversized_text s _) = s

pub data ClipboardError : Type 0 where
  invalid_input odd_length : ClipboardError
  would_block : (operation : Text) → ClipboardError
  os : Text → ClipboardError

-- GetClipboardSequenceNumber at the start and at the end, IsClipboardFormatAvailable, OpenClipboard,
-- GetClipboardData, GlobalSize, and the units behind GlobalLock.
pub record Calls : Type 0 where
  pub sequence : ℕ
  pub sequence_after : ℕ
  pub format_available : Bool
  pub open_clipboard : Result (Unit {0}) Text
  pub clipboard_data : Result (Unit {0}) Text
  pub global_size : ℕ
  pub global_lock : Result (List ℕ) Text

abbrev is_high : ℕ → Bool
is_high u = leb 0xd800 u && leb u 0xdbff

abbrev is_low : ℕ → Bool
is_low u = leb 0xdc00 u && leb u 0xdfff

-- `String::from_utf16_lossy`, with the high surrogate that waits for its low one.
unfoldable pub from_utf16_lossy : Option ℕ → List ℕ → Text
from_utf16_lossy none [] = []
from_utf16_lossy (some high) [] = 0xfffd ∷ []
from_utf16_lossy none (u ∷ us) =
    let pair = from_utf16_lossy (some u) us in
    let rest = from_utf16_lossy none us in
    if is_high u then pair else if is_low u then 0xfffd ∷ rest else u ∷ rest
from_utf16_lossy (some high) (u ∷ us) =
    let pair = from_utf16_lossy (some u) us in
    let rest = from_utf16_lossy none us in
    if is_low u
    then (0x10000 + (high - 0xd800) * 1024 + (u - 0xdc00)) ∷ rest
    else if is_high u
    then 0xfffd ∷ pair
    else 0xfffd ∷ u ∷ rest

-- The units before the first zero.
unfoldable pub until_zero : List ℕ → List ℕ
until_zero [] = []
until_zero (u ∷ us) = let rest = until_zero us in if u == 0 then [] else u ∷ rest

abbrev map_os : {A : Type 0} → Result A Text → Result A ClipboardError
map_os (ok a) = ok a
map_os (err e) = err (os e)

unfoldable pub ensure_sequence_stable : Calls → Text → Result (Unit {0}) ClipboardError
ensure_sequence_stable calls operation =
    ensure (calls.sequence_after == calls.sequence) (would_block operation)

unfoldable pub read_text : Calls → Result ClipboardSnapshot ClipboardError
unfolding ensure_sequence_stable from_utf16_lossy until_zero
read_text calls = do
  ensure (calls.global_size % 2 == 0) odd_length
  memory ← map_os calls.global_lock
  ensure_sequence_stable calls (text "reading text")
  ok (
      text_snapshot calls.sequence
        (from_utf16_lossy none (until_zero (take (calls.global_size / 2) memory)))
        calls.global_size)

-- With the clipboard open.
unfoldable pub read_open : ℕ → Calls → Result ClipboardSnapshot ClipboardError
unfolding read_text
read_open max_raw_utf16_bytes calls =
    if ltb max_raw_utf16_bytes calls.global_size
    then (ensure_sequence_stable calls (text "measuring text")
        >> ok (oversized_text calls.sequence calls.global_size))
    else read_text calls

unfoldable pub read_snapshot : ℕ → Calls → Result ClipboardSnapshot ClipboardError
unfolding read_open
read_snapshot max_raw_utf16_bytes calls =
    if not calls.format_available
    then (ensure_sequence_stable calls (text "checking available formats")
        >> ok (non_text calls.sequence))
    else (map_os calls.open_clipboard
        >> (map_os calls.clipboard_data >> read_open max_raw_utf16_bytes calls))

abbrev is_last : Option ℕ → ℕ → Bool
is_last none sequence = false
is_last (some last) sequence = last == sequence

unfoldable pub clipboard_snapshot_if_changed :
    Option ℕ → ℕ → Calls → Result (Option ClipboardSnapshot) ClipboardError
unfolding read_snapshot
clipboard_snapshot_if_changed last_sequence max_raw_utf16_bytes calls =
    if ltb max_raw_utf16_bytes 2
    then err invalid_input
    else if (calls.sequence == 0) || is_last last_sequence calls.sequence
    then ok none
    else (read_snapshot max_raw_utf16_bytes calls >>= λ snapshot. ok (some snapshot))

-- What a snapshot holds, against the limit.
abbrev pub Within : ℕ → ClipboardSnapshot → Type 0
Within limit (non_text s) = Unit
Within limit (text_snapshot s t bytes) = (bytes ≤ limit) × (bytes % 2 ≡ 0)
Within limit (oversized_text s bytes) = limit < bytes

-- A snapshot is of one moment: it carries the number that the clipboard had before and after.
abbrev pub Steady : ℕ → Calls → ClipboardSnapshot → Type 0
Steady limit calls s =
    (sequence_of s ≡ calls.sequence) × ((calls.sequence_after ≡ calls.sequence) × Within limit s)

stable :
    (calls : Calls) (operation : Text) (u : Unit {0})
    → ensure_sequence_stable calls operation ≡ ok u
    → calls.sequence_after ≡ calls.sequence
unfolding ensure_sequence_stable
stable calls operation u h =
    (==_iff _ _).0 (ensure-ok (calls.sequence_after == calls.sequence) (would_block operation) u h)

read_text-Steady :
    (limit : ℕ) (calls : Calls) (s : ClipboardSnapshot)
    → calls.global_size ≤ limit
    → read_text calls ≡ ok s
    → Steady limit calls s
unfolding read_text sequence_of
read_text-Steady limit calls s small h =
    let (u, even, h1) = bind-ok (ensure (calls.global_size % 2 == 0) odd_length) _ s h in
    let (memory, locked, h2) = bind-ok (map_os calls.global_lock) _ s h1 in
    let (v, same, h3) = bind-ok (ensure_sequence_stable calls (text "reading text")) _ s h2 in
    subst (Steady limit calls) (ok_inj h3)
      (refl, (stable calls _ v same, (small, (==_iff _ _).0 (ensure-ok _ odd_length u even))))

read_open-Steady :
    (limit : ℕ) (calls : Calls) (s : ClipboardSnapshot)
    → read_open limit calls ≡ ok s
    → Steady limit calls s
unfolding read_open sequence_of
read_open-Steady limit calls s h = elim (Bool-cases (ltb limit calls.global_size)) [
  | inl t ↦
      let (u, same, done) =
        bind-ok (ensure_sequence_stable calls (text "measuring text")) _ s (rw t at h) in
      subst (Steady limit calls) (ok_inj done) (refl, (stable calls _ u same, ground (arith, t)))
  | inr t ↦ read_text-Steady limit calls s (ground (arith, t)) (rw t at h)
]

read_snapshot-Steady :
    (limit : ℕ) (calls : Calls) (s : ClipboardSnapshot)
    → read_snapshot limit calls ≡ ok s
    → Steady limit calls s
unfolding read_snapshot sequence_of
read_snapshot-Steady limit calls s h = elim (Bool-cases (calls.format_available)) [
  | inr t ↦
      let (u, same, done) =
        bind-ok (ensure_sequence_stable calls (text "checking available formats")) _ s
          (rw t at h) in
      subst (Steady limit calls) (ok_inj done) (refl, (stable calls _ u same, tt))
  | inl t ↦
      let (u, opened, h1) = bind-ok (map_os calls.open_clipboard) _ s (rw t at h) in
      let (v, got, h2) = bind-ok (map_os calls.clipboard_data) _ s h1 in
      read_open-Steady limit calls s h2
]

fresh : (n : ℕ) (last : Option ℕ) → ((n == 0) || is_last last n) ≡ false → (n ≢ 0) × (last ≢ some n)
fresh n none h = (λ e. ground (arith, h, e), λ e. ground (arith, e))
fresh n (some m) h = (λ e. ground (arith, h, e), λ e. ground (arith, h, e))

some_inj : {A : Type 0} {a b : A} → ◌≡◌ {A = Option A} (some a) (some b) → a ≡ b
some_inj e = ground (arith, e)

-- A snapshot is taken only when the clipboard's number is not zero and not the last one, and shows one
-- moment: it has that number, which was the same after the reading. A text keeps within the limit of
-- bytes and has whole units; one that is reported as too large is over the limit.
pub clipboard_snapshot_if_changed-Steady :
    (last : Option ℕ) (limit : ℕ) (calls : Calls) (s : ClipboardSnapshot)
    → clipboard_snapshot_if_changed last limit calls ≡ ok (some s)
    → (calls.sequence ≢ 0) × ((last ≢ some calls.sequence) × Steady limit calls s)
unfolding clipboard_snapshot_if_changed
clipboard_snapshot_if_changed-Steady last limit calls s h = elim (Bool-cases (ltb limit 2)) [
  | inl t ↦ absurd (ground (arith, rw t at h))
  | inr t ↦ elim (Bool-cases ((calls.sequence == 0) || is_last last calls.sequence)) [
    | inl u ↦ absurd (ground (arith, rw (t, u) at h))
    | inr u ↦
        let (found, h1, h2) = bind-ok (read_snapshot limit calls) _ (some s) (rw (t, u) at h) in
        let e : found ≡ s = some_inj (ok_inj h2) in
        let (present, changed) = fresh calls.sequence last u in
        (
          present,
          (changed, subst (Steady limit calls) e (read_snapshot-Steady limit calls found h1)),
        )
  ]
]
