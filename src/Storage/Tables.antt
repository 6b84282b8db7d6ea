-- ===== src/Storage/Tables.antt =====
-- crates/storage-sqlite/src/lib.rs: the tables of the schema, the errors, and the plain queries. An
-- identifier column holds the text of a UUID, which is injective, and is kept as the UUID;
-- `last_change` and `evidence_json` are kept as the values whose JSON text they hold.
use context_layer.Base.{
  ℕ, Bool, false, ◌&&◌, ◌==◌, leb, if◌then◌else◌, Text, text, text_eq, List, [], ◌∷◌, ◌++◌, any,
  find, length, Option, none, some, ℤ, Result, ok, err, ◌>>=◌, map_err,
}
use mathlib.Core.Option
use context_layer.Contracts.{
  Uuid, OffsetDateTime, FileIdentity, identity_eq, FileChange, SourceId, ScopeId,
}
use context_layer.Core.Serde.{Serde}

-- A calendar time in UTC.
pub record UtcTime : Type 0 where
  pub year : ℤ
  pub month : ℕ
  pub day : ℕ
  pub hour : ℕ
  pub minute : ℕ
  pub second : ℕ
  pub nanosecond : ℕ

-- What the source uses of the `time` and `uuid` crates, and of serde.
pub record Crates : Type 0 where
  pub serde : Serde
  pub format_rfc3339 : OffsetDateTime → Result Text Text
  pub parse_rfc3339 : Text → Result OffsetDateTime Text
  pub to_utc : OffsetDateTime → UtcTime
  -- the n-th identifier that `Uuid::now_v7` gives to an artifact
  pub new_artifact_id : ℕ → Uuid

pub data StorageError : Type 0 where
  sqlite serialization timestamp timestamp_parse : Text → StorageError
  unsupported_database_version : (actual supported : ℕ) → StorageError
  timestamp_out_of_sortable_range : (year : ℤ) → StorageError

pub record RawRow : Type 0 where
  pub event_id : Uuid
  pub schema_version : ℕ
  pub source : SourceId
  pub source_sequence : Option ℕ
  pub observed_at : Text
  pub observed_key : Text
  pub ingested_at : Text
  pub scope_id : ScopeId
  pub correlation_id : Option Uuid
  pub sensitivity : Text
  pub envelope_json : Text

pub record TaskRow : Type 0 where
  pub task_id : Uuid
  pub name : Text
  pub started_at : Text

pub record ArtifactRow : Type 0 where
  pub artifact_id : Uuid
  pub identity : FileIdentity

pub record LocationRow : Type 0 where
  pub artifact_id : Uuid
  pub path : Text
  pub scope_id : ScopeId
  pub observed_at : Text
  pub active : Bool
  pub last_change : FileChange
  pub source_event_id : Uuid

pub record PendingRow : Type 0 where
  pub download_id : Uuid
  pub url : Text
  pub referrer : Option Text
  pub final_path : Text
  pub observed_at : Text
  pub source_event_id : Uuid
  pub matched_at : Option Text

pub record EdgeRow : Type 0 where
  pub artifact_id : Uuid
  pub predicate : Text
  pub object_value : Text
  pub status : Text
  pub evidence : List Uuid
  pub created_at : Text

pub record GapRow : Type 0 where
  pub collector : Text
  pub last_sequence : Option ℕ
  pub reason : Text
  pub observed_at : Text

pub record CheckpointRow : Type 0 where
  pub source : SourceId
  pub scope_id : ScopeId
  pub last_sequence : ℕ
  pub reconciliation_required : Bool
  pub updated_at : Text

-- The tables, and the number of artifact identifiers drawn so far.
pub record Database : Type 0 where
  pub raw_event : List RawRow
  pub task : List TaskRow
  pub artifact : List ArtifactRow
  pub location : List LocationRow
  pub pending_download : List PendingRow
  pub edge : List EdgeRow
  pub collector_gap : List GapRow
  pub collector_checkpoint : List CheckpointRow
  pub minted : ℕ

abbrev pub empty_database : Database
empty_database = record {
  raw_event = [];
  task = [];
  artifact = [];
  location = [];
  pending_download = [];
  edge = [];
  collector_gap = [];
  collector_checkpoint = [];
  minted = 0;
}

-- The end of a transaction: what a failing body wrote is rolled back.
abbrev pub commit :
    {A : Type 0} → Database → Result (A × Database) StorageError → Result A StorageError × Database
commit db (ok r) = (ok r.0, r.1)
commit db (err e) = (err e, db)

abbrev pub transact :
    {A : Type 0}
    → (Database → Result (A × Database) StorageError)
    → Database
    → Result A StorageError × Database
transact body db = commit db (body db)

abbrev pub format_time : Crates → OffsetDateTime → Result Text StorageError
format_time crates t = map_err timestamp (crates.format_rfc3339 t)

-- rusqlite binds a `u64` as an INTEGER, and fails above `i64::MAX`.
abbrev pub to_sql : ℕ → Result ℕ StorageError
to_sql n = if leb n 9223372036854775807 then ok n else err (sqlite (text "ToSqlConversionFailure"))

abbrev pub to_sql_option : Option ℕ → Result (Option ℕ) StorageError
to_sql_option none = ok none
to_sql_option (some n) = to_sql n >>= λ m. ok (some m)

abbrev pub has_event : Uuid → List RawRow → Bool
has_event id rows = any (λ r. r.event_id == id) rows

abbrev pub same_checkpoint : SourceId → ScopeId → CheckpointRow → Bool
same_checkpoint source scope_id c = text_eq c.source source && text_eq c.scope_id scope_id

unfoldable pub last_source_sequence : Text → Text → Database → Option ℕ
last_source_sequence source scope_id db =
    Option.map (λ c. c.last_sequence)
      (find (same_checkpoint source scope_id) db.collector_checkpoint)

unfoldable pub collector_reconciliation_required : Text → Text → Database → Bool
collector_reconciliation_required source scope_id db =
    elim (find (same_checkpoint source scope_id) db.collector_checkpoint) [
      | none ↦ false
      | some c ↦ c.reconciliation_required
    ]

abbrev pub raw_event_count : Database → ℕ
raw_event_count db = length db.raw_event

abbrev pub artifact_count : Database → ℕ
artifact_count db = length db.artifact

unfoldable pub find_artifact : FileIdentity → Database → Option Uuid
find_artifact identity db =
    Option.map (λ a. a.artifact_id) (find (λ a. identity_eq a.identity identity) db.artifact)

pub record ActiveLocation : Type 0 where
  pub identity : FileIdentity
  pub path : Text

-- The join of a location with its artifact.
abbrev pub artifact_of : Database → LocationRow → Option ArtifactRow
artifact_of db l = find (λ a. a.artifact_id == l.artifact_id) db.artifact

active_from : Database → ScopeId → List LocationRow → List ActiveLocation
active_from db scope_id [] = []
active_from db scope_id (l ∷ ls) =
    if l.active && text_eq l.scope_id scope_id
    then (elim (artifact_of db l) [
      | none ↦ []
      | some a ↦ record { identity = a.identity; path = l.path } ∷ []
    ])
      ++ active_from db scope_id ls
    else active_from db scope_id ls

unfoldable pub active_locations_in_scope : ScopeId → Database → List ActiveLocation
unfolding active_from
active_locations_in_scope scope_id db = active_from db scope_id db.location

active_path : Database → FileIdentity → List LocationRow → Option Text
active_path db identity [] = none
active_path db identity (l ∷ ls) =
    if l.active
      && (elim (artifact_of db l) [ none ↦ false | some a ↦ identity_eq a.identity identity ])
    then some l.path
    else active_path db identity ls

unfoldable pub active_location_for : FileIdentity → Database → Option Text
unfolding active_path
active_location_for identity db = active_path db identity db.location
