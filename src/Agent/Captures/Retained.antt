-- ===== src/Agent/Captures/Retained.antt =====
-- What captures record, and that a grant below `Sensitive` sees nothing of it.
use context_layer.Base.{
  ℕ, ◌≤◌, ◌≡◌, refl, ap, subst, false, Bool-cases, inl, inr, ltb, is_empty, byte_len, to_bytes,
  Text, text, List, [], ◌∷◌, length, length-append, All, All-append, Option, none, some, Result, ok,
  err, ok_inj, arith,
}
use context_layer.Contracts.{
  OffsetDateTime, Stamp, EventEnvelopeV2, SensitivityClass, RetrievalClass, ContentRef,
}
use context_layer.Core.Grants.{sensitivity_allowed, filter_refs}
use context_layer.Vault.{StoredContent, VaultError, File}
use context_layer.Platform.Clipboard.{ClipboardSnapshot, non_text, text_snapshot, oversized_text}
use context_layer.Screenpipe.{ScreenpipeFrame}
use context_layer.Agent.Captures.{
  PutBytes, ScreenpipeScreenshot, png, not_found, omitted_too_large, Part, Captured, kept,
  text_captured, text_event, event_from_snapshot, starts_with, png_signature, max_screen_text_bytes,
  capture_text, capture_screenshot, with_screenshot, with_text, frame_event, event_from_frame,
}

-- A reference to sensitive content of the vault.
abbrev pub Sealed : ContentRef → Type 0
Sealed r =
    (r.retrieval_class ≡ RetrievalClass.sensitive)
    × ((r.storage_class ≡ text "local_vault") × (r.compression ≡ none))

-- An event of a capture: of the personal scope, sensitive, and with sealed references.
pub record Guarded (event : EventEnvelopeV2) : Type 0 where
  pub scope_id : event.scope_id ≡ text "scope.personal"
  pub sensitivity : event.sensitivity ≡ SensitivityClass.sensitive
  pub references : All Sealed event.content_refs

SealedPart : ℕ → Captured → Type 0
SealedPart n (err e, files) = Unit
SealedPart n (ok part, files) = All Sealed part.refs × (length part.refs ≤ n)

kept-SealedPart :
    (part : StoredContent → Part) (x : Result StoredContent VaultError × List File)
    → ((stored : StoredContent) → All Sealed (part stored).refs × (length (part stored).refs ≤ 1))
    → SealedPart 1 (kept part x)
unfolding SealedPart
kept-SealedPart part (ok stored, files) h = h stored
kept-SealedPart part (err e, files) h = tt

capture_text-SealedPart :
    (put : PutBytes) (frame : ScreenpipeFrame) (files : List File)
    → SealedPart 1 (capture_text put frame files)
unfolding capture_text SealedPart
capture_text-SealedPart put frame files = elim (Bool-cases (is_empty frame.text)) [
  | inl t ↦ rw t (tt, omega arith)
  | inr t ↦ elim (Bool-cases (ltb max_screen_text_bytes (byte_len frame.text))) [
    | inl u ↦ rw (t, u) (tt, omega arith)
    | inr u ↦
        rw (t, u)
          (kept-SealedPart _ (put (to_bytes frame.text) files)
            (λ stored. (((refl, (refl, refl)), tt), omega arith)))
  ]
]

capture_screenshot-SealedPart :
    (put : PutBytes) (screenshot : ScreenpipeScreenshot) (files : List File)
    → SealedPart 1 (capture_screenshot put screenshot files)
unfolding capture_screenshot SealedPart
capture_screenshot-SealedPart put not_found files = (tt, omega arith)
capture_screenshot-SealedPart put omitted_too_large files = (tt, omega arith)
capture_screenshot-SealedPart put (png bytes) files =
    elim (Bool-cases (starts_with png_signature bytes)) [
      | inl t ↦ rw t (
          kept-SealedPart _ (put bytes files) (λ stored. (((refl, (refl, refl)), tt), omega arith)))
      | inr t ↦ rw t tt
    ]

-- The event of a frame.
pub record FrameEvent (frame : ScreenpipeFrame) (event : EventEnvelopeV2) : Type 0 where
  pub guarded : Guarded event
  pub at_most_two : length event.content_refs ≤ 2
  pub sequence : event.source_sequence ≡ some frame.frame_id
  pub occurred : event.occurred_at ≡ some frame.captured_at

with_screenshot-FrameEvent :
    (stamp : Stamp) (computer : Option Text) (frame : ScreenpipeFrame)
    (observed_at : OffsetDateTime) (words : Part) (x : Captured) (event : EventEnvelopeV2)
    (files : List File)
    → All Sealed words.refs × (length words.refs ≤ 1)
    → SealedPart 1 x
    → with_screenshot (frame_event stamp computer frame observed_at) words x ≡ (ok event, files)
    → FrameEvent frame event
unfolding SealedPart frame_event
with_screenshot-FrameEvent stamp computer frame observed_at words (err e, fs) event files w p h =
    absurd (ground (arith, h))
with_screenshot-FrameEvent stamp computer frame observed_at words (ok picture, fs) event files w p
      h =
    subst (FrameEvent frame) (ok_inj (ap (λ x. x.0) h)) (record {
      guarded = record {
        scope_id = refl;
        sensitivity = refl;
        references = All-append Sealed words.refs picture.refs w.0 p.0;
      };
      at_most_two = omega (arith, w.1, p.1, length-append words.refs picture.refs);
      sequence = refl;
      occurred = refl;
    })

with_text-FrameEvent :
    (put : PutBytes) (stamp : Stamp) (computer : Option Text) (frame : ScreenpipeFrame)
    (screenshot : ScreenpipeScreenshot) (observed_at : OffsetDateTime) (x : Captured)
    (event : EventEnvelopeV2) (files : List File)
    → SealedPart 1 x
    → with_text put screenshot (frame_event stamp computer frame observed_at) x ≡ (ok event, files)
    → FrameEvent frame event
unfolding SealedPart
with_text-FrameEvent put stamp computer frame screenshot observed_at (err e, fs) event files p h =
    absurd (ground (arith, h))
with_text-FrameEvent put stamp computer frame screenshot observed_at (ok words, fs) event files p
      h =
    with_screenshot-FrameEvent stamp computer frame observed_at words
      (capture_screenshot put screenshot fs) event files p
      (capture_screenshot-SealedPart put screenshot fs) h

-- The event of a captured screen has the frame's number as its sequence and the frame's time as its
-- time, is sensitive, of the personal scope, and has at most two references, both to sensitive
-- content of the vault.
pub event_from_frame-FrameEvent :
    (put : PutBytes) (stamp : Stamp) (computer : Option Text) (frame : ScreenpipeFrame)
    (screenshot : ScreenpipeScreenshot) (observed_at : OffsetDateTime) (files : List File)
    (event : EventEnvelopeV2) (files' : List File)
    → event_from_frame put stamp computer frame screenshot observed_at files ≡ (ok event, files')
    → FrameEvent frame event
unfolding event_from_frame
event_from_frame-FrameEvent put stamp computer frame screenshot observed_at files event files' h =
    with_text-FrameEvent put stamp computer frame screenshot observed_at
      (capture_text put frame files) event files' (capture_text-SealedPart put frame files) h

-- No grant below `Sensitive` sees the references of the event, or the event.
abbrev pub Hidden : EventEnvelopeV2 → Type 0
Hidden event =
    (filter_refs event.content_refs RetrievalClass.normal ≡ [])
    × ((sensitivity_allowed event.sensitivity SensitivityClass.metadata ≡ false)
        × (sensitivity_allowed event.sensitivity SensitivityClass.content_derived ≡ false))

filter_refs-hidden :
    (refs : List ContentRef) → All Sealed refs → filter_refs refs RetrievalClass.normal ≡ []
unfolding filter_refs
filter_refs-hidden [] h = refl
filter_refs-hidden (r ∷ refs) h = rw (h.0.0) (filter_refs-hidden refs h.1)

Guarded-Hidden : (event : EventEnvelopeV2) → Guarded event → Hidden event
unfolding sensitivity_allowed
Guarded-Hidden event g =
    (filter_refs-hidden event.content_refs g.references, rw (g.sensitivity) (refl, refl))

text_captured-Guarded :
    (stamp : Stamp) (computer : Option Text) (observed_at : OffsetDateTime) (sequence bytes : ℕ)
    (x : Result StoredContent VaultError × List File) (event : EventEnvelopeV2) (files : List File)
    → text_captured (text_event stamp computer observed_at sequence bytes) x
      ≡ (ok (some event), files)
    → Guarded event
unfolding text_event
text_captured-Guarded stamp computer observed_at sequence bytes (err e, fs) event files h =
    absurd (ground (arith, h))
text_captured-Guarded stamp computer observed_at sequence bytes (ok stored, fs) event files h =
    subst Guarded (some_inj (ok_inj (ap (λ x. x.0) h)))
      (record { scope_id = refl; sensitivity = refl; references = ((refl, (refl, refl)), tt) })
  where
    some_inj : {A : Type 0} {a b : A} → ◌≡◌ {A = Option A} (some a) (some b) → a ≡ b
    some_inj e = ground (arith, e)

event_from_snapshot-Guarded :
    (put : PutBytes) (stamp : Stamp) (computer : Option Text) (limit : ℕ)
    (snapshot : ClipboardSnapshot) (observed_at : OffsetDateTime) (files : List File)
    (event : EventEnvelopeV2) (files' : List File)
    → event_from_snapshot put stamp computer limit snapshot observed_at files
      ≡ (ok (some event), files')
    → Guarded event
unfolding event_from_snapshot
event_from_snapshot-Guarded put stamp computer limit (non_text s) at files event files' h =
    absurd (ground (arith, h))
event_from_snapshot-Guarded put stamp computer limit (text_snapshot s content n) at files event
      files' h =
    text_captured-Guarded stamp computer at s n (put (to_bytes content) files) event files' h
event_from_snapshot-Guarded put stamp computer limit (oversized_text s n) at files event files' h =
    subst Guarded (some_inj (ok_inj (ap (λ x. x.0) h)))
      (record { scope_id = refl; sensitivity = refl; references = tt })
  where
    some_inj : {A : Type 0} {a b : A} → ◌≡◌ {A = Option A} (some a) (some b) → a ≡ b
    some_inj e = ground (arith, e)

-- What is captured of the clipboard is sensitive, of the personal scope, and refers to sensitive
-- content of the vault alone; a grant whose classes are below sensitive keeps none of its references
-- and does not admit the event.
pub event_from_snapshot-Hidden :
    (put : PutBytes) (stamp : Stamp) (computer : Option Text) (limit : ℕ)
    (snapshot : ClipboardSnapshot) (observed_at : OffsetDateTime) (files : List File)
    (event : EventEnvelopeV2) (files' : List File)
    → event_from_snapshot put stamp computer limit snapshot observed_at files
      ≡ (ok (some event), files')
    → Guarded event × Hidden event
event_from_snapshot-Hidden put stamp computer limit snapshot observed_at files event files' h =
    let g =
      event_from_snapshot-Guarded put stamp computer limit snapshot observed_at files event files'
        h in
    (g, Guarded-Hidden event g)
