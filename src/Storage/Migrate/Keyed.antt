-- ===== src/Storage/Migrate/Keyed.antt =====
-- A migrated database has a sort key for every event.
use context_layer.Base.{ℕ, ◌≤◌, ◌≡◌, List, [], ◌∷◌, Option, none, some, Result, ok, err, Text}
use context_layer.Storage.Tables.{Crates, StorageError}
use context_layer.Storage.Migrate.{OldRow, Disk, key_of}

-- A row, and the row with its key.
abbrev FilledKey : Crates → OldRow → Option Text → Option Text → Type 0
FilledKey crates row (some key) new = new ≡ some key
FilledKey crates row none new = (key : Text) × (key_of crates row ≡ ok key) × (new ≡ some key)

abbrev pub Filled : Crates → List OldRow → List OldRow → Type 0
Filled crates [] [] = Unit
Filled crates (old ∷ olds) (new ∷ news) =
    ((new.event_id ≡ old.event_id)
      × ((new.observed_at ≡ old.observed_at)
          × FilledKey crates old old.observed_key new.observed_key))
    × Filled crates olds news
Filled crates _ _ = ⊥

-- The steps before the keys: the events are as they were, and the version has come to n at least.
abbrev Reached : ℕ → Disk → Result (Unit {0}) StorageError × Disk → Type 0
Reached n d (err e, d') = d'.raw_event ≡ d.raw_event
Reached n d (ok _, d') =
    (d'.raw_event ≡ d.raw_event) × ((n ≤ d'.user_version) × (d'.user_version ≤ 3))

-- How a migration ends.
abbrev pub Migrated : Crates → Disk → Result (Unit {0}) StorageError × Disk → Type 0
Migrated crates d (err e, d') = d'.raw_event ≡ d.raw_event
Migrated crates d (ok _, d') = (d'.user_version ≡ 4) × Filled crates d.raw_event d'.raw_event
