-- ===== src/Storage/Apply.antt =====
-- crates/storage-sqlite/src/lib.rs, `apply_command`: the writes of one projection command.
pub mod Frame
pub mod Active
use Prim.Native.String.{String}
use context_layer.Base.{
  ℕ, suc, ◌+◌, Bool, true, false, ◌&&◌, ◌||◌, ◌==◌, if◌then◌else◌, not, Text, text, text_eq, List,
  [], ◌∷◌, ◌++◌, map, any, retain, Option, none, some, Result, ok, err, ◌>>=◌, ◌>>◌, ensure,
}
use context_layer.Contracts.{Uuid, OffsetDateTime, FileIdentity, FileChange, ScopeId}
use context_layer.Core.Projection.{
  ProjectionCommand, upsert_task, upsert_artifact_location, store_pending_download,
  add_observed_download_edge, record_collector_gap,
}
use context_layer.Storage.Tables.{
  Crates, StorageError, sqlite, TaskRow, LocationRow, PendingRow, EdgeRow, GapRow, Database,
  format_time, to_sql_option, has_event, find_artifact,
}

abbrev pub constraint_failed : String → StorageError
constraint_failed what = sqlite (text what)

-- `REFERENCES raw_event(event_id)`
abbrev pub references_event : Uuid → Database → Result (Unit {0}) StorageError
references_event id db = ensure (has_event id db.raw_event) (constraint_failed "FOREIGN KEY")

-- An insert of an artifact, whose identifier is the primary key.
pub insert_artifact : Crates → FileIdentity → Database → Result (Uuid × Database) StorageError
insert_artifact crates identity db =
    let id = crates.new_artifact_id db.minted in
    if any (λ a. a.artifact_id == id) db.artifact
    then err (constraint_failed "UNIQUE artifact.artifact_id")
    else ok (
      id,
      record db {
        artifact = db.artifact ++ record { artifact_id = id; identity = identity } ∷ [];
        minted = suc db.minted;
      },
    )

pub found_or :
    Crates → FileIdentity → Database → Option Uuid → Result (Uuid × Database) StorageError
unfolding insert_artifact
found_or crates identity db (some id) = ok (id, db)
found_or crates identity db none = insert_artifact crates identity db

pub get_or_create_artifact :
    Crates → FileIdentity → Database → Result (Uuid × Database) StorageError
unfolding found_or
get_or_create_artifact crates identity db = found_or crates identity db (find_artifact identity db)

abbrev pub at_place : Uuid → Text → LocationRow → Bool
at_place artifact_id path l = (l.artifact_id == artifact_id) && text_eq l.path path

-- UPDATE location SET active = 0, … WHERE artifact_id = ?1 AND path = ?2
abbrev pub retire : Uuid → Text → Text → FileChange → Uuid → LocationRow → LocationRow
retire artifact_id path observed change event l =
    if at_place artifact_id path l
    then record l {
      observed_at = observed;
      active = false;
      last_change = change;
      source_event_id = event;
    }
    else l

-- UPDATE location SET active = 0 WHERE artifact_id = ?1
abbrev pub deactivate : Uuid → LocationRow → LocationRow
deactivate artifact_id l = if l.artifact_id == artifact_id then record l { active = false } else l

-- INSERT INTO location … ON CONFLICT(artifact_id, path) DO UPDATE
unfoldable pub upsert_location : LocationRow → List LocationRow → List LocationRow
upsert_location new [] = new ∷ []
upsert_location new (l ∷ ls) =
    if at_place new.artifact_id new.path l then new ∷ ls else l ∷ upsert_location new ls

-- The index one_active_location_per_artifact, for a row that is about to become active.
abbrev pub other_active : LocationRow → List LocationRow → Bool
other_active new ls =
    any
      (λ l.
        l.active
        && ((l.artifact_id == new.artifact_id) && not (at_place new.artifact_id new.path l)))
      ls

pub delete_location :
    Crates
    → Text
    → FileChange
    → Uuid
    → OffsetDateTime
    → Option Uuid
    → Database
    → Result Database StorageError
delete_location crates path change event observed_at none db = ok db
delete_location crates path change event observed_at (some id) db =
    format_time crates observed_at >>= λ observed.
    (if any (at_place id path) db.location then references_event event db else ok tt)
    >> ok (record db { location = map (retire id path observed change event) db.location })

pub place_location : LocationRow → Database → Result Database StorageError
unfolding upsert_location
place_location new db =
    let cleared = map (deactivate new.artifact_id) db.location in
    ensure (not (other_active new cleared)) (constraint_failed "UNIQUE location.artifact_id")
    >> references_event new.source_event_id db
    >> ok (record db { location = upsert_location new cleared })

abbrev pub is_deleted : FileChange → Bool
is_deleted FileChange.deleted = true
is_deleted _ = false

pub apply_location :
    Crates
    → FileIdentity
    → Text
    → ScopeId
    → OffsetDateTime
    → FileChange
    → Uuid
    → Database
    → Result Database StorageError
unfolding delete_location place_location
apply_location crates identity path scope_id observed_at change event db =
    if is_deleted change
    then delete_location crates path change event observed_at (find_artifact identity db) db
    else (get_or_create_artifact crates identity db >>= λ (id, db').
        format_time crates observed_at >>= λ observed.
        place_location
          (record {
            artifact_id = id;
            path = path;
            scope_id = scope_id;
            observed_at = observed;
            active = true;
            last_change = change;
            source_event_id = event;
          })
          db')

-- INSERT INTO task … ON CONFLICT(task_id) DO UPDATE SET name
pub upsert_task_row : TaskRow → List TaskRow → List TaskRow
upsert_task_row new [] = new ∷ []
upsert_task_row new (t ∷ ts) =
    if t.task_id == new.task_id
    then record t { name = new.name } ∷ ts
    else t ∷ upsert_task_row new ts

-- INSERT OR IGNORE INTO edge, under UNIQUE(artifact_id, predicate, object_value, status)
abbrev same_edge : EdgeRow → EdgeRow → Bool
same_edge a b =
    (a.artifact_id == b.artifact_id)
    && (text_eq a.predicate b.predicate
        && (text_eq a.object_value b.object_value && text_eq a.status b.status))

pub insert_edge : EdgeRow → List EdgeRow → List EdgeRow
insert_edge new es = if any (same_edge new) es then es else es ++ new ∷ []

-- UPDATE pending_download SET matched_at = ?2 WHERE download_id = ?1
abbrev mark_matched : Uuid → Text → PendingRow → PendingRow
mark_matched id observed p =
    if p.download_id == id then record p { matched_at = some observed } else p

pub apply_edge :
    Crates
    → Uuid
    → FileIdentity
    → Text
    → List Uuid
    → OffsetDateTime
    → Database
    → Result Database StorageError
unfolding insert_edge
apply_edge crates download_id identity url source_event_ids observed_at db =
    get_or_create_artifact crates identity db >>= λ (id, db').
    format_time crates observed_at >>= λ observed. ok (record db' {
      edge =
          insert_edge
            (record {
              artifact_id = id;
              predicate = text "downloaded_from";
              object_value = url;
              status = text "observed";
              evidence = source_event_ids;
              created_at = observed;
            })
            db'.edge;
      pending_download = map (mark_matched download_id observed) db'.pending_download;
    })

pub apply_pending : Crates → PendingRow → OffsetDateTime → Database → Result Database StorageError
apply_pending crates new observed_at db = format_time crates observed_at >>= λ observed.
    references_event new.source_event_id db
    >> ok (record db {
      pending_download =
          retain (λ p. not (p.download_id == new.download_id)) db.pending_download
          ++ record new { observed_at = observed } ∷ [];
    })

unfoldable pub apply_command : Crates → ProjectionCommand → Database → Result Database StorageError
unfolding apply_location upsert_task_row apply_edge apply_pending
apply_command crates (upsert_task task_id name started_at) db =
    format_time crates started_at >>= λ started. ok (record db {
      task =
          upsert_task_row (record { task_id = task_id; name = name; started_at = started }) db.task;
    })
apply_command crates (upsert_artifact_location identity path scope_id observed_at change event) db =
    apply_location crates identity path scope_id observed_at change event db
apply_command crates (store_pending_download download_id url referrer final_path observed_at event)
      db =
    apply_pending crates
      (record {
        download_id = download_id;
        url = url;
        referrer = referrer;
        final_path = final_path;
        observed_at = [];
        source_event_id = event;
        matched_at = none;
      })
      observed_at db
apply_command crates
      (add_observed_download_edge download_id identity url source_event_ids observed_at) db =
    apply_edge crates download_id identity url source_event_ids observed_at db
apply_command crates (record_collector_gap collector last_sequence reason observed_at) db =
    format_time crates observed_at >>= λ observed. to_sql_option last_sequence >>= λ sequence.
    ok (record db {
      collector_gap =
          db.collector_gap
          ++ record {
            collector = collector;
            last_sequence = sequence;
            reason = reason;
            observed_at = observed;
          }
            ∷ [];
    })

-- `for command in commands { apply_command(&tx, command)?; }`
unfoldable pub apply_commands :
    Crates → List ProjectionCommand → Database → Result Database StorageError
unfolding apply_command
apply_commands crates [] db = ok db
apply_commands crates (c ∷ cs) db =
    apply_command crates c db >>= λ db'. apply_commands crates cs db'
