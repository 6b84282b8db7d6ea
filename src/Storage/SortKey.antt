-- ===== src/Storage/SortKey.antt =====
-- crates/storage-sqlite/src/lib.rs, `format_sort_key`: a text key whose order is that of time.
pub mod Order
use context_layer.Base.{
  ltb, ◌==◌, ◌&&◌, ◌||◌, Bool, true, false, ℕ, zero, suc, ◌+◌, ◌/◌, ◌%◌, leb, if◌then◌else◌, Text,
  text, List, [], ◌∷◌, ◌++◌, ℤ, pos, negsuc, Result, ok, err, ◌>>=◌,
}
use context_layer.Contracts.{OffsetDateTime}
use context_layer.Storage.Tables.{UtcTime, Crates, StorageError, timestamp_out_of_sortable_range}

-- SQLite's BINARY collation, at texts of ASCII characters.
abbrev pub text_lt : Text → Text → Bool
text_lt s [] = false
text_lt [] (b ∷ t) = true
text_lt (a ∷ s) (b ∷ t) = ltb a b || ((a == b) && text_lt s t)

-- `{:0w}` at a number of at most w digits.
pub pad : ℕ → ℕ → Text
pad zero n = []
pad (suc w) n = pad w (n / 10) ++ (b'0' + n % 10) ∷ []

-- A number at its width, and the character that follows it.
pub record Field : Type 0 where
  pub width : ℕ
  pub value : ℕ
  pub mark : ℕ

pub write_fields : List Field → Text
unfolding pad
write_fields [] = []
write_fields (f ∷ fs) = pad f.width f.value ++ (f.mark ∷ write_fields fs)

abbrev pub key_fields : ℕ → UtcTime → List Field
key_fields year t =
    record { width = 4; value = year; mark = b'-' }
    ∷ record { width = 2; value = t.month; mark = b'-' }
    ∷ record { width = 2; value = t.day; mark = b'T' }
    ∷ record { width = 2; value = t.hour; mark = b':' }
    ∷ record { width = 2; value = t.minute; mark = b':' }
    ∷ record { width = 2; value = t.second; mark = b'.' }
    ∷ record { width = 9; value = t.nanosecond; mark = b'Z' }
    ∷ []

key_of_year : UtcTime → ℤ → Result Text StorageError
unfolding write_fields
key_of_year t (pos year) =
    if leb year 9999
    then ok (write_fields (key_fields year t))
    else err (timestamp_out_of_sortable_range (pos year))
key_of_year t (negsuc n) = err (timestamp_out_of_sortable_range (negsuc n))

unfoldable pub format_sort_key : Crates → OffsetDateTime → Result Text StorageError
unfolding key_of_year
format_sort_key crates value = let utc = crates.to_utc value in key_of_year utc utc.year
