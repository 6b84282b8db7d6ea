-- ===== src/Examples/Clock.antt =====
-- A calendar of one second, over which the laws of time hold.
use context_layer.Base.{
  ℕ, zero, suc, ◌≡◌, refl, arith, ltb, if◌then◌else◌, Text, text, [], ◌∷◌, Result, ok, err, ok_inj,
  pos, ℤ, negsuc, pos_part, neg_part, ltb_ℤ,
}
use context_layer.Contracts.{OffsetDateTime, before}
use context_layer.Storage.Tables.{Crates, UtcTime}
use context_layer.Storage.SortKey.{text_lt, format_sort_key}
use context_layer.Storage.SortKey.Order.{IsUtc, TimeLaws, calendar_lt, format_sort_key-order}
use context_layer.Examples.{crates}

-- The nanoseconds of the first second of 2000; every other time is in the year -1.
abbrev utc_of_nanos : ℕ → UtcTime
utc_of_nanos n = record {
  year = if ltb n 1000000000 then pos 2000 else negsuc 0;
  month = 1;
  day = 1;
  hour = 0;
  minute = 0;
  second = 0;
  nanosecond = if ltb n 1000000000 then n else 0;
}

abbrev early : ℤ → UtcTime
early (pos n) = utc_of_nanos n
early (negsuc n) = utc_of_nanos 1000000000

abbrev read_parts : ℕ → ℕ → ℤ
read_parts p zero = pos p
read_parts p (suc n) = negsuc n

abbrev parse_parts : Text → Result OffsetDateTime Text
parse_parts (a ∷ b ∷ c ∷ d ∷ []) =
    ok (record { unix_nanos = read_parts a b; offset_seconds = read_parts c d })
parse_parts _ = err (text "parse")

abbrev clock : Crates
clock = record crates {
  format_rfc3339 = λ t. ok (
      pos_part t.unix_nanos
      ∷ neg_part t.unix_nanos
      ∷ pos_part t.offset_seconds
      ∷ neg_part t.offset_seconds
      ∷ []);
  parse_rfc3339 = parse_parts;
  to_utc = λ t. early t.unix_nanos;
}

early-IsUtc : (z : ℤ) → IsUtc (early z)
early-IsUtc (pos n) = record {
  month_lt = omega arith;
  day_lt = omega arith;
  hour_lt = omega arith;
  minute_lt = omega arith;
  second_lt = omega arith;
  nanosecond_lt = ground arith;
}
early-IsUtc (negsuc n) = record {
  month_lt = omega arith;
  day_lt = omega arith;
  hour_lt = omega arith;
  minute_lt = omega arith;
  second_lt = omega arith;
  nanosecond_lt = ground arith;
}

read_parts_lem : (z : ℤ) → read_parts (pos_part z) (neg_part z) ≡ z
read_parts_lem (pos n) = refl
read_parts_lem (negsuc n) = refl

early-order :
    (y z : ℤ) (year year' : ℕ)
    → (early y).year ≡ pos year
    → (early z).year ≡ pos year'
    → calendar_lt year (early y) year' (early z) ≡ ltb_ℤ y z
early-order (pos m) (pos n) year year' hy hz = ground arith
early-order (pos m) (negsuc n) year year' hy hz = absurd (ground arith)
early-order (negsuc m) z year year' hy hz = absurd (ground arith)

laws : TimeLaws clock
laws = record {
  to_utc-IsUtc = λ t. early-IsUtc t.unix_nanos;
  parse-format =
      λ t s h. rw (← ok_inj h, read_parts_lem t.unix_nanos, read_parts_lem t.offset_seconds);
  calendar_order = λ s t year year' hs ht. early-order s.unix_nanos t.unix_nanos year year' hs ht;
}

abbrev nanosecond : ℕ → OffsetDateTime
nanosecond n = record { unix_nanos = pos n; offset_seconds = pos 0 }

key_9 : format_sort_key clock (nanosecond 9) ≡ ok (text "2000-01-01T00:00:00.000000009Z")
unfolding format_sort_key
key_9 = refl

key_10 : format_sort_key clock (nanosecond 10) ≡ ok (text "2000-01-01T00:00:00.000000010Z")
unfolding format_sort_key
key_10 = refl

format_sort_key-order_example :
    text_lt (text "2000-01-01T00:00:00.000000009Z") (text "2000-01-01T00:00:00.000000010Z")
    ≡ before (nanosecond 9) (nanosecond 10)
format_sort_key-order_example =
    format_sort_key-order clock laws (nanosecond 9) (nanosecond 10)
      (text "2000-01-01T00:00:00.000000009Z") (text "2000-01-01T00:00:00.000000010Z") key_9 key_10
