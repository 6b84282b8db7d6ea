-- ===== src/Storage/Match.antt =====
-- crates/storage-sqlite/src/lib.rs, `find_download_match`; the repository of the engine. Where the
-- statement leaves the order of equal rows open, the first one in the tables' order is taken.
pub mod Rows
pub mod Laws
use context_layer.Base.{
  ℕ, ◌/◌, Bool, true, false, ◌&&◌, ◌||◌, ◌==◌, ltb, leb, if◌then◌else◌, not, Text, text, text_eq,
  eq_ignore_ascii_case, List, [], ◌∷◌, ◌++◌, Option, none, some, Result, ok, err, ◌>>=◌, map_err,
  distance,
}
use context_layer.Contracts.{Uuid, OffsetDateTime}
use context_layer.Core.Engine.{DownloadMatchCandidate, EventRepository}
use context_layer.Storage.Tables.{
  Crates, StorageError, sqlite, timestamp_parse, ArtifactRow, LocationRow, PendingRow, Database,
  artifact_of,
}
use context_layer.Storage.SortKey.{text_lt}
use context_layer.Storage.Append.{append_with_projection, append_raw_v2}

-- A row of the join.
pub record Joined : Type 0 where
  pub pending : PendingRow
  pub location : LocationRow
  pub artifact : ArtifactRow

abbrev pub join_artifact : PendingRow → LocationRow → Option ArtifactRow → List Joined
join_artifact p l none = []
join_artifact p l (some a) = record { pending = p; location = l; artifact = a } ∷ []

-- JOIN location l ON l.path = pd.final_path COLLATE NOCASE AND l.active = 1 JOIN artifact
unfoldable pub join_locations : Database → PendingRow → List LocationRow → List Joined
join_locations db p [] = []
join_locations db p (l ∷ ls) =
    let rest = join_locations db p ls in
    if l.active && eq_ignore_ascii_case l.path p.final_path
    then join_artifact p l (artifact_of db l) ++ rest
    else rest

abbrev pub is_unmatched : PendingRow → Bool
is_unmatched p = elim (p.matched_at) [ none ↦ true | some _ ↦ false ]

unfoldable pub candidates : Database → Text → List PendingRow → List Joined
unfolding join_locations
candidates db path [] = []
candidates db path (p ∷ ps) =
    let rest = candidates db path ps in
    if is_unmatched p && eq_ignore_ascii_case p.final_path path
    then join_locations db p db.location ++ rest
    else rest

-- ORDER BY pd.observed_at DESC LIMIT 1
abbrev pub newer_candidate : Joined → Option Joined → Joined
newer_candidate j none = j
newer_candidate j (some best) =
    if text_lt j.pending.observed_at best.pending.observed_at then best else j

unfoldable pub newest_candidate : List Joined → Option Joined
newest_candidate [] = none
newest_candidate (j ∷ js) = some (newer_candidate j (newest_candidate js))

-- CASE WHEN pd.observed_at >= l.observed_at THEN pd.observed_at ELSE l.observed_at END
abbrev pub latest_observed : Joined → Text
latest_observed j =
    if text_lt j.pending.observed_at j.location.observed_at
    then j.location.observed_at
    else j.pending.observed_at

abbrev pub first_times : PendingRow → List LocationRow → Option (Text × Text)
first_times p [] = none
first_times p (l ∷ ls) =
    if l.active && eq_ignore_ascii_case l.path p.final_path
    then some (p.observed_at, l.observed_at)
    else first_times p ls

-- The second query: the times of the first joined row of the download.
unfoldable pub match_times : Database → Uuid → List PendingRow → Result (Text × Text) StorageError
match_times db id [] = err (sqlite (text "QueryReturnedNoRows"))
match_times db id (p ∷ ps) =
    let rest = match_times db id ps in
    if p.download_id == id
    then elim (first_times p db.location) [ none ↦ rest | some times ↦ ok times ]
    else rest

abbrev pub parse : Crates → Text → Result OffsetDateTime StorageError
parse crates s = map_err timestamp_parse (crates.parse_rfc3339 s)

-- `(a - b).whole_seconds().abs()`
abbrev pub seconds_between : OffsetDateTime → OffsetDateTime → ℕ
seconds_between a b = distance a.unix_nanos b.unix_nanos / 1000000000

abbrev pub within :
    ℕ
    → OffsetDateTime
    → OffsetDateTime
    → Joined
    → Crates
    → Result (Option DownloadMatchCandidate) StorageError
within tolerance_seconds download_time file_time j crates =
    if ltb tolerance_seconds (seconds_between download_time file_time)
    then ok none
    else (parse crates (latest_observed j) >>= λ observed_at. ok (
        some (record {
          download_id = j.pending.download_id;
          identity = j.artifact.identity;
          url = j.pending.url;
          source_event_ids = j.pending.source_event_id ∷ j.location.source_event_id ∷ [];
          observed_at = observed_at;
        })))

unfoldable pub check_match :
    Crates → ℕ → Database → Option Joined → Result (Option DownloadMatchCandidate) StorageError
unfolding match_times
check_match crates tolerance_seconds db none = ok none
check_match crates tolerance_seconds db (some j) =
    match_times db j.pending.download_id db.pending_download >>= λ times.
    parse crates times.0 >>= λ download_time.
    parse crates times.1 >>= λ file_time. within tolerance_seconds download_time file_time j crates

unfoldable pub find_download_match :
    Crates → Text → ℕ → Database → Result (Option DownloadMatchCandidate) StorageError
unfolding candidates newest_candidate check_match
find_download_match crates path tolerance_seconds db =
    check_match crates tolerance_seconds db
      (newest_candidate (candidates db path db.pending_download))

-- `impl EventRepository for SqliteRepository` and `impl RawEventRepository for SqliteRepository`.
unfoldable pub sqlite_repository : Crates → EventRepository Database StorageError
unfolding find_download_match
sqlite_repository crates = record {
  append_with_projection = append_with_projection crates;
  find_download_match = find_download_match crates;
  append_raw_v2 = append_raw_v2 crates;
}
