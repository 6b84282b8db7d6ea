-- ===== src/Storage/Timeline.antt =====
-- crates/storage-sqlite/src/retrieval.rs, content_access.rs and the lookups of v2.rs: the reads of the
-- raw events. Identifiers are compared as texts of UUIDs, whose order is that of their numbers.
pub mod Laws
use context_layer.Base.{
  ℕ, zero, suc, ◌+◌, ◌^◌, min, Bool, true, false, ◌&&◌, ◌||◌, ◌==◌, ltb, leb, if◌then◌else◌, not,
  Text, text, text_eq, List, [], ◌∷◌, find, retain, length, take, Option, none, some, Result, ok,
  err, ◌>>=◌, map_err,
}
use mathlib.Core.Option
use context_layer.Contracts.{Uuid, OffsetDateTime, ScopeId}
use context_layer.Core.Timeline.{
  TimelineCursor, RawTimelineQuery, RawTimelineRecord, RawTimelinePage,
}
use context_layer.Core.ContentAccess.{RawEventLookup}
use context_layer.Storage.Tables.{Crates, StorageError, sqlite, timestamp_parse, RawRow, Database}
use context_layer.Storage.SortKey.{text_lt, format_sort_key}

-- `Option::transpose` after a map.
abbrev pub key_option : Crates → Option OffsetDateTime → Result (Option Text) StorageError
key_option crates none = ok none
key_option crates (some t) = format_sort_key crates t >>= λ key. ok (some key)

-- The bounds of a query, as the statement's parameters.
pub record Bounds : Type 0 where
  pub start_at : Option Text
  pub end_at : Option Text
  pub cursor : Option (Text × Uuid)

abbrev pub cursor_key : Crates → Option TimelineCursor → Result (Option (Text × Uuid)) StorageError
cursor_key crates none = ok none
cursor_key crates (some c) =
    format_sort_key crates c.observed_at >>= λ key. ok (some (key, c.event_id))

unfoldable pub bounds_of : Crates → RawTimelineQuery → Result Bounds StorageError
bounds_of crates query = do
  start_at ← key_option crates query.start_at
  end_at ← key_option crates query.end_at
  cursor ← cursor_key crates query.before
  ok (record { start_at = start_at; end_at = end_at; cursor = cursor })

abbrev pub from : Option Text → Text → Bool
from none key = true
from (some start) key = not (text_lt key start)

abbrev pub until : Option Text → Text → Bool
until none key = true
until (some stop) key = text_lt key stop

abbrev pub after_cursor : Option (Text × Uuid) → RawRow → Bool
after_cursor none r = true
after_cursor (some (key, id)) r =
    text_lt r.observed_key key || (text_eq r.observed_key key && ltb r.event_id id)

-- The WHERE clause.
abbrev pub selected : ScopeId → Bounds → RawRow → Bool
selected scope_id b r =
    text_eq r.scope_id scope_id
    && (from b.start_at r.observed_key
        && (until b.end_at r.observed_key && after_cursor b.cursor r))

-- `a` stands before `b` under ORDER BY observed_key DESC, event_id DESC.
abbrev pub newer : RawRow → RawRow → Bool
newer a b =
    text_lt b.observed_key a.observed_key
    || (text_eq a.observed_key b.observed_key && ltb b.event_id a.event_id)

unfoldable pub insert_newest : RawRow → List RawRow → List RawRow
insert_newest r [] = r ∷ []
insert_newest r (s ∷ rows) =
    let rest = insert_newest r rows in if newer s r then s ∷ rest else r ∷ s ∷ rows

unfoldable pub newest_first : List RawRow → List RawRow
unfolding insert_newest
newest_first [] = []
newest_first (r ∷ rows) = insert_newest r (newest_first rows)

-- `limit.saturating_add(1)`, and `i64::try_from(…).unwrap_or(i64::MAX)`.
abbrev pub sql_limit : ℕ → ℕ
sql_limit limit = min (min (limit + 1) 18446744073709551615) 9223372036854775807

unfoldable pub decode_row : Crates → RawRow → Result RawTimelineRecord StorageError
decode_row crates r =
    if ltb r.schema_version 65536
    then (map_err timestamp_parse (crates.parse_rfc3339 r.observed_at) >>= λ observed_at.
        ok (record {
          event_id = r.event_id;
          schema_version = r.schema_version;
          observed_at = observed_at;
          envelope_json = r.envelope_json;
        }))
    else err (sqlite (text "IntegralValueOutOfRange"))

unfoldable pub decode_rows : Crates → List RawRow → Result (List RawTimelineRecord) StorageError
unfolding decode_row
decode_rows crates [] = ok []
decode_rows crates (r ∷ rows) =
    decode_row crates r >>= λ first. decode_rows crates rows >>= λ rest. ok (first ∷ rest)

-- The rows of a query, in order.
unfoldable pub matching : ScopeId → Bounds → Database → List RawRow
unfolding newest_first
matching scope_id b db = newest_first (retain (selected scope_id b) db.raw_event)

unfoldable pub query_raw_timeline :
    Crates → Database → RawTimelineQuery → Result RawTimelinePage StorageError
unfolding bounds_of matching decode_rows
query_raw_timeline crates db query = bounds_of crates query >>= λ b.
    decode_rows crates (take (sql_limit query.limit) (matching query.scope_id b db)) >>= λ records.
    ok (record { records = take query.limit records; has_more = ltb query.limit (length records) })

unfoldable pub raw_event_by_id : Uuid → Database → Option RawEventLookup
raw_event_by_id event_id db =
    Option.map
      (λ r. record {
        event_id = event_id;
        schema_version = r.schema_version;
        scope_id = r.scope_id;
        sensitivity_json = r.sensitivity;
        envelope_json = r.envelope_json;
      })
      (find (λ r. r.event_id == event_id) db.raw_event)

-- The row of the highest sequence of a source and scope.
abbrev later : Option RawRow → RawRow → Option RawRow
later none r = some r
later (some best) r = elim (best.source_sequence) [
  | none ↦ some r
  | some m ↦ elim (r.source_sequence) [
    | none ↦ some best
    | some n ↦ if ltb m n then some r else some best
  ]
]

latest_row : Text → Text → Option RawRow → List RawRow → Option RawRow
latest_row source scope_id best [] = best
latest_row source scope_id best (r ∷ rows) = elim (r.source_sequence) [
  | none ↦ latest_row source scope_id best rows
  | some n ↦
      latest_row source scope_id
        (if text_eq r.source source && text_eq r.scope_id scope_id then later best r else best) rows
]

unfoldable pub latest_raw_event_envelope_for_source : Text → Text → Database → Option Text
unfolding latest_row
latest_raw_event_envelope_for_source source scope_id db =
    Option.map (λ r. r.envelope_json) (latest_row source scope_id none db.raw_event)
