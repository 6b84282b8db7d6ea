-- ===== src/Storage/Migrate.antt =====
-- crates/storage-sqlite/src/lib.rs, `migrate` and `backfill_observed_keys`: an old database file is
-- brought to the current version. Of the tables, the columns of raw_event that a migration reads or
-- writes are kept; a key is `none` where the column is NULL or not there yet.
pub mod Keyed
use context_layer.Base.{
  ℕ, suc, Bool, true, false, ◌==◌, ltb, if◌then◌else◌, Text, text, List, [], ◌∷◌, map, Option, none,
  some, Result, ok, err, ◌>>=◌, map_err,
}
use context_layer.Contracts.{Uuid}
use context_layer.Storage.Tables.{
  Crates, StorageError, sqlite, timestamp_parse, unsupported_database_version,
}
use context_layer.Storage.SortKey.{format_sort_key}

abbrev pub current_database_version : ℕ
current_database_version = 4

pub record OldRow : Type 0 where
  pub event_id : Uuid
  pub observed_at : Text
  pub observed_key : Option Text

pub record Disk : Type 0 where
  pub user_version : ℕ
  pub raw_event : List OldRow

-- Whether the n-th script fails: those of versions 1 to 3, the new column, and that of version 4.
abbrev pub Scripts : Type 0
Scripts = ℕ → Option Text

abbrev batch_done : Option Text → Disk → Result Disk StorageError
batch_done none d = ok d
batch_done (some e) d = err (sqlite e)

abbrev execute_batch : Scripts → ℕ → Disk → Result Disk StorageError
execute_batch scripts n d = batch_done (scripts n) d

-- The key of a row that has none.
unfoldable pub key_of : Crates → OldRow → Result Text StorageError
key_of crates row =
    map_err timestamp_parse (crates.parse_rfc3339 row.observed_at) >>= λ observed_at.
    format_sort_key crates observed_at

abbrev keep_or_fill : Crates → OldRow → Option Text → Result OldRow StorageError
keep_or_fill crates row (some key) = ok row
keep_or_fill crates row none =
    key_of crates row >>= λ key. ok (record row { observed_key = some key })

unfoldable pub backfill_observed_keys : Crates → List OldRow → Result (List OldRow) StorageError
unfolding key_of
backfill_observed_keys crates [] = ok []
backfill_observed_keys crates (row ∷ rows) = keep_or_fill crates row row.observed_key >>= λ filled.
    backfill_observed_keys crates rows >>= λ others. ok (filled ∷ others)

-- A script that leaves the modelled columns, and the version after it.
abbrev plain_step : Scripts → ℕ → Disk → Result Disk StorageError
plain_step scripts n d = execute_batch scripts n d >>= λ d'. ok (record d' { user_version = n })

abbrev key_step : Crates → Scripts → Disk → Result Disk StorageError
key_step crates scripts d = execute_batch scripts 4 d >>= λ altered.
    backfill_observed_keys crates altered.raw_event >>= λ rows.
    execute_batch scripts 5 (record altered { raw_event = rows }) >>= λ d'.
    ok (record d' { user_version = current_database_version })

abbrev settled : Disk → Result Disk StorageError → Result (Unit {0}) StorageError × Disk
settled d (ok d') = (ok tt, d')
settled d (err e) = (err e, d)

-- `if version == n { … }`: a transaction, after the steps before it.
unfoldable pub at_version :
    ℕ
    → (Disk → Result Disk StorageError)
    → Result (Unit {0}) StorageError × Disk
    → Result (Unit {0}) StorageError × Disk
at_version n body (err e, d) = (err e, d)
at_version n body (ok _, d) = if d.user_version == n then settled d (body d) else (ok tt, d)

unfoldable pub migrate : Crates → Scripts → Disk → Result (Unit {0}) StorageError × Disk
unfolding at_version backfill_observed_keys
migrate crates scripts d =
    if ltb current_database_version d.user_version
    then (err (unsupported_database_version d.user_version current_database_version), d)
    else at_version 3 (key_step crates scripts) (
        at_version 2 (plain_step scripts 3)
          (at_version 1 (plain_step scripts 2) (at_version 0 (plain_step scripts 1) (ok tt, d))))
