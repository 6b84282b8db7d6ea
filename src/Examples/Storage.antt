-- ===== src/Examples/Storage.antt =====
-- The repository over SQLite at concrete inputs.
use context_layer.Base.{
  ℕ, ◌≤◌, false, ◌≡◌, refl, sym, ◌∙◌, Memᴰ, arith, true, text, trim, List, [], ◌∷◌, none, some, ok,
}
use context_layer.Contracts.{FileChange}
use context_layer.Core.Engine.{DownloadMatchCandidate, inserted, duplicate, IngestReport, ingest_v2}
use context_layer.Storage.Append.Stamped.{Stamped, ingest_v2-Stamped}
use context_layer.Core.Projection.{ProjectionCommand, upsert_artifact_location}
use context_layer.Core.Timeline.{RawTimelineQuery, RawTimelineRecord}
use context_layer.Storage.Tables.{
  collector_reconciliation_required, last_source_sequence, Database, empty_database, RawRow,
}
use context_layer.Storage.SortKey.{format_sort_key}
use context_layer.Storage.Append.Reconciled.{mark_collector_reconciled-cleared}
use context_layer.Storage.Append.{mark_collector_reconciled, append_with_projection, append_raw_v2}
use context_layer.Storage.Append.Laws.{
  Recorded, append_with_projection-Recorded, append_with_projection-OneActive,
  append_raw_v2_idempotent,
}
use context_layer.Storage.Apply.Active.{OneActive, active_count}
use context_layer.Storage.Match.{find_download_match, sqlite_repository}
use context_layer.Storage.Match.Laws.{DistinctRows, Matched, find_download_match-Matched}
use context_layer.Storage.Timeline.{Bounds}
use context_layer.Examples.{at_second, stamp, file_event, content_event, report_file, crates}

abbrev move_file : ProjectionCommand
move_file =
    upsert_artifact_location report_file (text "C:\\r.pdf") (text "scope.personal") (at_second 10)
      FileChange.created 5

append_with_projection-Recorded_example :
    Recorded crates file_event empty_database
      (append_with_projection crates file_event (move_file ∷ []) empty_database).0
      (append_with_projection crates file_event (move_file ∷ []) empty_database).1
append_with_projection-Recorded_example =
    append_with_projection-Recorded crates file_event (move_file ∷ []) empty_database

nothing_active : OneActive empty_database
unfolding active_count
nothing_active = record { at_most_one = λ id. omega arith }

append_with_projection-OneActive_example :
    OneActive (append_with_projection crates file_event (move_file ∷ []) empty_database).1
append_with_projection-OneActive_example =
    append_with_projection-OneActive crates file_event (move_file ∷ []) empty_database
      nothing_active

stored :
    append_raw_v2 crates content_event empty_database
    ≡ (ok inserted, (append_raw_v2 crates content_event empty_database).1)
unfolding append_raw_v2 format_sort_key
stored = refl

append_raw_v2_idempotent_example :
    append_raw_v2 crates content_event (append_raw_v2 crates content_event empty_database).1
    ≡ (ok duplicate, (append_raw_v2 crates content_event empty_database).1)
append_raw_v2_idempotent_example =
    append_raw_v2_idempotent crates content_event empty_database
      (append_raw_v2 crates content_event empty_database).1 stored

abbrev new_event : IngestReport
new_event = record { outcome = inserted; derived_event_ids = [] }

ingested :
    ingest_v2 (sqlite_repository crates) stamp content_event empty_database
    ≡ (ok new_event, (ingest_v2 (sqlite_repository crates) stamp content_event empty_database).1)
unfolding sqlite_repository ingest_v2 append_raw_v2 format_sort_key trim
ingested = refl

ingest_v2-Stamped_example :
    Stamped crates stamp content_event empty_database
      (ingest_v2 (sqlite_repository crates) stamp content_event empty_database).1
ingest_v2-Stamped_example =
    ingest_v2-Stamped crates stamp content_event empty_database new_event
      (ingest_v2 (sqlite_repository crates) stamp content_event empty_database).1 ingested refl

abbrev row : RawRow
row = record {
  event_id = 6;
  schema_version = 2;
  source = text "fixture";
  source_sequence = some 1;
  observed_at = 11 ∷ [];
  observed_key = text "2024-01-01T00:00:11.000000000Z";
  ingested_at = 21 ∷ [];
  scope_id = text "scope.personal";
  correlation_id = none;
  sensitivity = text "metadata";
  envelope_json = text "v2";
}

abbrev two_rows : Database
two_rows = record empty_database {
  raw_event =
      record row {
        event_id = 5;
        observed_at = 10 ∷ [];
        observed_key = text "2024-01-01T00:00:10.000000000Z";
      }
      ∷ row
      ∷ [];
}

abbrev raw_query : RawTimelineQuery
raw_query = record {
  scope_id = text "scope.personal";
  start_at = none;
  end_at = none;
  before = none;
  limit = 1;
}

abbrev open_bounds : Bounds
open_bounds = record { start_at = none; end_at = none; cursor = none }

abbrev records : List RawTimelineRecord
records =
    record {
      event_id = 6;
      schema_version = 2;
      observed_at = at_second 11;
      envelope_json = text "v2";
    }
    ∷ record {
      event_id = 5;
      schema_version = 2;
      observed_at = at_second 10;
      envelope_json = text "v2";
    }
    ∷ []

abbrev download_and_file : Database
download_and_file = record empty_database {
  artifact = record { artifact_id = 100; identity = report_file } ∷ [];
  location =
      record {
        artifact_id = 100;
        path = text "C:\\R.pdf";
        scope_id = text "scope.personal";
        observed_at = 10 ∷ [];
        active = true;
        last_change = FileChange.created;
        source_event_id = 5;
      }
      ∷ [];
  pending_download =
      record {
        download_id = 9;
        url = text "https://example.org/r.pdf";
        referrer = none;
        final_path = text "C:\\r.pdf";
        observed_at = 12 ∷ [];
        source_event_id = 4;
        matched_at = none;
      }
      ∷ [];
}

abbrev match : DownloadMatchCandidate
match = record {
  download_id = 9;
  identity = report_file;
  url = text "https://example.org/r.pdf";
  source_event_ids = 4 ∷ 5 ∷ [];
  observed_at = at_second 12;
}

found : find_download_match crates (text "c:\\R.PDF") 180 download_and_file ≡ ok (some match)
unfolding find_download_match
found = refl

distinct : DistinctRows download_and_file
distinct = record {
  downloads = λ p q m n e. only m ∙ sym (only n);
  locations = λ path l k m n a b h g. only m ∙ sym (only n);
}
  where
    only : {A : Type 0} {a b : A} → Memᴰ a (b ∷ []) → a ≡ b
    only (Memᴰ.head e) = e
    only (Memᴰ.tail m) = elim m [ ]

find_download_match-Matched_example : Matched crates (text "c:\\R.PDF") 180 download_and_file match
find_download_match-Matched_example =
    find_download_match-Matched crates (text "c:\\R.PDF") 180 download_and_file match distinct found

-- A source that had a gap, before and after it was reconciled.
abbrev with_gap : Database
with_gap = record empty_database {
  collector_checkpoint =
      record {
        source = text "watcher";
        scope_id = text "scope.personal";
        last_sequence = 9;
        reconciliation_required = true;
        updated_at = 10 ∷ [];
      }
      ∷ [];
}

abbrev without_gap : Database
without_gap = record empty_database {
  collector_checkpoint =
      record {
        source = text "watcher";
        scope_id = text "scope.personal";
        last_sequence = 9;
        reconciliation_required = false;
        updated_at = 30 ∷ [];
      }
      ∷ [];
}

marked :
    mark_collector_reconciled crates
      (at_second 30)
      (text "watcher")
      (text "scope.personal")
      4
      with_gap
    ≡ (ok tt, without_gap)
unfolding mark_collector_reconciled
marked = refl

mark_collector_reconciled-cleared_example :
    (collector_reconciliation_required (text "watcher") (text "scope.personal") without_gap ≡ false)
    × ((last : ℕ) × (last_source_sequence (text "watcher") (text "scope.personal") without_gap
          ≡ some last)
        × (4 ≤ last))
    × (without_gap ≡ record with_gap { collector_checkpoint = without_gap.collector_checkpoint })
mark_collector_reconciled-cleared_example =
    mark_collector_reconciled-cleared crates (at_second 30) (text "watcher") (text "scope.personal")
      4 with_gap without_gap marked
