-- ===== src/Storage/SortKey/Order.antt =====
-- The text order of sort keys is the order of instants.
use context_layer.Base.{
  ℕ, zero, suc, ◌+◌, ◌/◌, ◌%◌, ◌^◌, ◌<◌, ◌≡◌, refl, ◌∙◌, Bool, false, ◌&&◌, ◌||◌, ◌==◌, ltb, Text,
  List, [], ◌∷◌, ◌++◌, append_assoc, ℤ, pos, negsuc, ok, arith,
}
use native.Mathlib.Nat.{pow-suc}
use context_layer.Contracts.{OffsetDateTime, before}
use context_layer.Storage.Tables.{UtcTime, Crates}
use context_layer.Storage.SortKey.{
  text_lt, pad, Field, write_fields, key_fields, key_of_year, format_sort_key,
}

pad-lt :
    (w a b : ℕ) (s t : Text)
    → a < 10 ^ w
    → b < 10 ^ w
    → text_lt (pad w a ++ s) (pad w b ++ t) ≡ (ltb a b || ((a == b) && text_lt s t))
unfolding pad
pad-lt zero a b s t ha hb = ground arith
pad-lt (suc w) a b s t ha hb =
    rw (append_assoc (pad w (a / 10)) (_ ∷ []) s, append_assoc (pad w (b / 10)) (_ ∷ []) t)
      (pad-lt w (a / 10) (b / 10) ((b'0' + a % 10) ∷ s) ((b'0' + b % 10) ∷ t) (tenth w a ha)
          (tenth w b hb)
        ∙ ground arith)
  where
    tenth : (w a : ℕ) → a < 10 ^ suc w → a / 10 < 10 ^ w
    tenth w a h = omega (arith, pow-suc 10 w)

-- The fields of two keys have the same shape, and their values fit.
abbrev Aligned : List Field → List Field → Type 0
Aligned [] [] = Unit
Aligned (f ∷ fs) (g ∷ gs) =
    (f.width ≡ g.width)
    × (f.mark ≡ g.mark)
    × (f.value < 10 ^ f.width)
    × (g.value < 10 ^ g.width)
    × Aligned fs gs
Aligned _ _ = ⊥

-- The lexicographic order of the values.
abbrev fields_lt : List Field → List Field → Bool
fields_lt (f ∷ fs) (g ∷ gs) = ltb f.value g.value || ((f.value == g.value) && fields_lt fs gs)
fields_lt _ _ = false

write_fields-lt :
    (fs gs : List Field)
    → Aligned fs gs
    → text_lt (write_fields fs) (write_fields gs) ≡ fields_lt fs gs
unfolding write_fields
write_fields-lt [] [] h = refl
write_fields-lt [] (g ∷ gs) h = absurd h
write_fields-lt (f ∷ fs) [] h = absurd h
write_fields-lt (f ∷ fs) (g ∷ gs) h =
    rw (h.0, h.1)
      (pad-lt g.width f.value g.value (g.mark ∷ write_fields fs) (g.mark ∷ write_fields gs)
          (rw (← h.0) h.2) h.3
        ∙ ground (arith, write_fields-lt fs gs h.4))

-- The ranges of the parts of a calendar time.
pub record IsUtc (t : UtcTime) : Type 0 where
  pub month_lt : t.month < 100
  pub day_lt : t.day < 100
  pub hour_lt : t.hour < 100
  pub minute_lt : t.minute < 100
  pub second_lt : t.second < 100
  pub nanosecond_lt : t.nanosecond < 1000000000

abbrev pub then_lt : ℕ → ℕ → Bool → Bool
then_lt a b rest = ltb a b || ((a == b) && rest)

-- The order of calendar times, from the year down to the nanosecond.
abbrev pub calendar_lt : ℕ → UtcTime → ℕ → UtcTime → Bool
calendar_lt year s year' t = then_lt year year' (
    then_lt s.month t.month (
      then_lt s.day t.day (
        then_lt s.hour t.hour (
          then_lt s.minute t.minute
            (then_lt s.second t.second (then_lt s.nanosecond t.nanosecond false))))))

-- What the `time` crate documents: parts are in range, parsing inverts formatting up to the written
-- offset, and from the year 0 on the calendar is ordered as the instants are.
pub record TimeLaws (crates : Crates) : Type 0 where
  pub to_utc-IsUtc : (t : OffsetDateTime) → IsUtc (crates.to_utc t)
  pub parse-format :
      (t : OffsetDateTime) (s : Text)
      → crates.format_rfc3339 t ≡ ok s
      → crates.parse_rfc3339 s ≡ ok t
  pub calendar_order :
      (s t : OffsetDateTime) (year year' : ℕ)
      → (crates.to_utc s).year ≡ pos year
      → (crates.to_utc t).year ≡ pos year'
      → calendar_lt year (crates.to_utc s) year' (crates.to_utc t) ≡ before s t

key_of_year-ok :
    (t : UtcTime) (z : ℤ) (k : Text)
    → key_of_year t z ≡ ok k
    → (year : ℕ) × (z ≡ pos year) × (year < 10000) × (k ≡ write_fields (key_fields year t))
unfolding key_of_year
key_of_year-ok t (pos year) k h = (year, refl, ground arith, ground arith)
key_of_year-ok t (negsuc n) k h = absurd (ground arith)

-- Two instants that have sort keys are ordered as their keys are, as texts.
pub format_sort_key-order :
    (crates : Crates) (laws : TimeLaws crates) (s t : OffsetDateTime) (ks kt : Text)
    → format_sort_key crates s ≡ ok ks
    → format_sort_key crates t ≡ ok kt
    → text_lt ks kt ≡ before s t
unfolding format_sort_key
format_sort_key-order crates laws s t ks kt hs ht =
    let (year, ys, in_s, es) = key_of_year-ok (crates.to_utc s) (crates.to_utc s).year ks hs in
    let (year', yt, in_t, et) = key_of_year-ok (crates.to_utc t) (crates.to_utc t).year kt ht in
    let u : IsUtc (crates.to_utc s) = laws.to_utc-IsUtc s in
    let v : IsUtc (crates.to_utc t) = laws.to_utc-IsUtc t in
    rw (es, et)
      (write_fields-lt (key_fields year (crates.to_utc s)) (key_fields year' (crates.to_utc t))
          (aligned year year' (crates.to_utc s) (crates.to_utc t) in_s in_t u v)
        ∙ laws.calendar_order s t year year' ys yt)
  where
    aligned :
        (year year' : ℕ) (a b : UtcTime)
        → year < 10000
        → year' < 10000
        → IsUtc a
        → IsUtc b
        → Aligned (key_fields year a) (key_fields year' b)
    aligned year year' a b hy hy' u v = (
      refl,
      refl,
      hy,
      hy',
      (
        refl,
        refl,
        u.month_lt,
        v.month_lt,
        (
          refl,
          refl,
          u.day_lt,
          v.day_lt,
          (
            refl,
            refl,
            u.hour_lt,
            v.hour_lt,
            (
              refl,
              refl,
              u.minute_lt,
              v.minute_lt,
              (
                refl,
                refl,
                u.second_lt,
                v.second_lt,
                (refl, refl, u.nanosecond_lt, v.nanosecond_lt, tt),
              ),
            ),
          ),
        ),
      ),
    )
