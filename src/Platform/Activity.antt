-- ===== src/Platform/Activity.antt =====
-- crates/platform-windows/src/activity.rs: the foreground window and the time since the last input.
use context_layer.Base.{ℕ, ◌+◌, ◌-◌, ◌%◌, ◌^◌, ◌<◌, ◌≡◌, ap, Text, Option, Result, ok, ◌>>=◌, arith}

pub record ForegroundActivity : Type 0 where
  pub process_id : ℕ
  pub process_path : Option Text
  pub window_title : Text

-- `u32::wrapping_sub`, of numbers below 2^32.
abbrev pub wrapping_sub : ℕ → ℕ → ℕ
wrapping_sub a b = (a + 2 ^ 32 - b) % 2 ^ 32

-- `last_input` is what GetLastInputInfo gives, `now` is GetTickCount.
unfoldable pub input_idle_millis : Result ℕ Text → ℕ → Result ℕ Text
input_idle_millis last_input now = last_input >>= λ tick. ok (wrapping_sub now tick)

-- The idle time is right across the rollover of the tick counter: when some milliseconds have passed
-- since an input at any time, fewer than 2^32, the two 32-bit ticks give back that number.
pub input_idle_millis-rollover :
    (input elapsed : ℕ)
    → elapsed < 2 ^ 32
    → input_idle_millis (ok (input % 2 ^ 32)) ((input + elapsed) % 2 ^ 32) ≡ ok elapsed
unfolding input_idle_millis
input_idle_millis-rollover input elapsed h = ap ok (omega (arith, h))
