-- ===== src/Agent/Samplers/Quiet.antt =====
-- A sampler reports changes only.
use context_layer.Base.{
  ℕ, ◌≡◌, refl, true, Bool-cases, inl, inr, ==_iff, Text, text_eq_refl, Option, none, some, Result,
  ok, err,
}
use context_layer.Platform.Activity.{ForegroundActivity}
use context_layer.Agent.Samplers.{
  PersonalActivitySampler, nothing, Sample, text_option_eq, foreground_eq, same_foreground,
  same_bucket, bucket_index, from_millis, observe_foreground, observe_idle, is_reported,
  poll_foreground, poll_idle, poll,
}

text_option_eq_refl : (o : Option Text) → text_option_eq o o ≡ true
text_option_eq_refl none = refl
text_option_eq_refl (some s) = text_eq_refl s

foreground_eq_refl : (f : Option ForegroundActivity) → foreground_eq f f ≡ true
foreground_eq_refl none = refl
foreground_eq_refl (some a) =
    rw ((==_iff a.process_id a.process_id).1 refl, text_option_eq_refl a.process_path)
      (text_eq_refl a.window_title)

-- The sampler knows what it would see.
foreground_known :
    (sample : Sample) (f : Option ForegroundActivity) (s : PersonalActivitySampler)
    → same_foreground (observe_foreground sample f s).1.last_foreground f ≡ true
unfolding observe_foreground
foreground_known sample f s = elim (Bool-cases (same_foreground s.last_foreground f)) [
  | inl t ↦ rw t t
  | inr t ↦ rw t (foreground_eq_refl f)
]

bucket_known :
    (sample : Sample) (n : ℕ) (s : PersonalActivitySampler)
    → same_bucket (observe_idle sample n s).1.last_idle_bucket (from_millis n) ≡ true
unfolding observe_idle
bucket_known sample n s = elim (Bool-cases (same_bucket s.last_idle_bucket (from_millis n))) [
  | inl t ↦ rw t t
  | inr t ↦ rw t ((==_iff (bucket_index (from_millis n)) (bucket_index (from_millis n))).1 refl)
]

-- There is nothing to report about a result of the foreground window.
KnownForeground : Result (Option ForegroundActivity) Text → PersonalActivitySampler → Type 0
KnownForeground (ok f) s =
    (s.foreground_error ≡ none) × (same_foreground s.last_foreground f ≡ true)
KnownForeground (err m) s = is_reported s.foreground_error m ≡ true

KnownIdle : Result ℕ Text → PersonalActivitySampler → Type 0
KnownIdle (ok n) s = (s.idle_error ≡ none) × (same_bucket s.last_idle_bucket (from_millis n) ≡ true)
KnownIdle (err m) s = is_reported s.idle_error m ≡ true

poll_foreground-Known :
    (sample : Sample) (r : Result (Option ForegroundActivity) Text) (s : PersonalActivitySampler)
    → KnownForeground r (poll_foreground sample r s).1
unfolding poll_foreground observe_foreground KnownForeground
poll_foreground-Known sample (ok f) s = elim (Bool-cases (same_foreground s.last_foreground f)) [
  | inl t ↦ rw t (refl, t)
  | inr t ↦ rw t (refl, foreground_eq_refl f)
]
poll_foreground-Known sample (err m) s = elim (Bool-cases (is_reported s.foreground_error m)) [
  | inl t ↦ rw t t
  | inr t ↦ rw t (text_eq_refl m)
]

poll_idle-Known :
    (sample : Sample) (r : Result ℕ Text) (s : PersonalActivitySampler)
    → KnownIdle r (poll_idle sample r s).1
unfolding poll_idle observe_idle KnownIdle
poll_idle-Known sample (ok n) s =
    elim (Bool-cases (same_bucket s.last_idle_bucket (from_millis n))) [
      | inl t ↦ rw t (refl, t)
      | inr t ↦
          rw t (refl, (==_iff (bucket_index (from_millis n)) (bucket_index (from_millis n))).1 refl)
    ]
poll_idle-Known sample (err m) s = elim (Bool-cases (is_reported s.idle_error m)) [
  | inl t ↦ rw t t
  | inr t ↦ rw t (text_eq_refl m)
]

-- The idle part leaves the foreground part alone.
poll_idle-foreground :
    (sample : Sample) (r : Result ℕ Text) (f : Result (Option ForegroundActivity) Text)
    (s : PersonalActivitySampler)
    → KnownForeground f s
    → KnownForeground f (poll_idle sample r s).1
unfolding poll_idle observe_idle KnownForeground
poll_idle-foreground sample (ok n) (ok f) s k =
    elim (Bool-cases (same_bucket s.last_idle_bucket (from_millis n))) [
      | inl t ↦ rw t k
      | inr t ↦ rw t k
    ]
poll_idle-foreground sample (ok n) (err m) s k =
    elim (Bool-cases (same_bucket s.last_idle_bucket (from_millis n))) [
      | inl t ↦ rw t k
      | inr t ↦ rw t k
    ]
poll_idle-foreground sample (err e) (ok f) s k = elim (Bool-cases (is_reported s.idle_error e)) [
  | inl t ↦ rw t k
  | inr t ↦ rw t k
]
poll_idle-foreground sample (err e) (err m) s k = elim (Bool-cases (is_reported s.idle_error e)) [
  | inl t ↦ rw t k
  | inr t ↦ rw t k
]

foreground_quiet :
    (sample : Sample) (r : Result (Option ForegroundActivity) Text) (s : PersonalActivitySampler)
    → KnownForeground r s
    → poll_foreground sample r s ≡ (nothing, s)
unfolding poll_foreground observe_foreground KnownForeground
foreground_quiet sample (ok f) s k = rw (k.1, k.0) refl
foreground_quiet sample (err m) s k = rw k refl

idle_quiet :
    (sample : Sample) (r : Result ℕ Text) (s : PersonalActivitySampler)
    → KnownIdle r s
    → poll_idle sample r s ≡ (nothing, s)
unfolding poll_idle observe_idle KnownIdle
idle_quiet sample (ok n) s k = rw (k.1, k.0) refl
idle_quiet sample (err m) s k = rw k refl

-- Polling again, when Windows answers the same, reports neither an event nor a diagnostic and leaves
-- the sampler as it is, whatever the sampler was before: also a failure is reported once.
pub poll_quiet :
    (sample : Sample) (s : PersonalActivitySampler)
    → poll sample (poll sample s).1 ≡ (nothing, (poll sample s).1)
unfolding poll
poll_quiet sample s =
    let first = (poll_foreground sample sample.foreground s).1 in
    let after = (poll_idle sample sample.idle_millis first).1 in
    let seen =
      poll_idle-foreground sample sample.idle_millis sample.foreground first
        (poll_foreground-Known sample sample.foreground s) in
    let idle = poll_idle-Known sample sample.idle_millis first in
    rw
      (
        foreground_quiet sample sample.foreground after seen,
        idle_quiet sample sample.idle_millis after idle,
      )
      refl
