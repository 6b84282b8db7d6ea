-- ===== src/Core/Retrieval.antt =====
-- crates/core/src/retrieval.rs, `RetrievalEngine::query_timeline`: the loop over raw batches.
pub mod Bounds
pub mod Spec
pub mod Batches
pub mod Refinement
pub mod Pages
use context_layer.Base.{
  ℕ, zero, suc, ◌+◌, ◌-◌, min, Bool, true, false, ◌&&◌, ◌||◌, ltb, leb, ◌==◌, if◌then◌else◌,
  is_empty, List, [], ◌∷◌, ◌++◌, length, Option, none, some, Result, ok, err, ◌>>=◌, map_err,
}
use context_layer.Core.Serde.{Serde}
use context_layer.Core.Grants.{RetrievalGrant}
use context_layer.Core.Timeline.{
  max_raw_scan_per_query, raw_batch_size, TimelineCursor, TimelineQuery, TimelineEntry,
  TimelinePage, RawTimelineQuery, RawTimelineRecord, RawTimelinePage, TimelineRepository,
  RetrievalError, repository, cursor_of, validate_query,
}
use context_layer.Core.Visible.{decode_visible_entry}

-- The loop's variables.
pub record Scan : Type 0 where
  pub entries : List TimelineEntry
  pub raw_cursor : Option TimelineCursor
  pub scanned : ℕ
  pub next_cursor : Option TimelineCursor

-- The `for` loop over a batch falls through, or returns a page.
pub data Flow : Type 0 where
  fall_through : Scan → Flow
  return_page : TimelinePage → Flow

abbrev pub push : Option TimelineEntry → List TimelineEntry → List TimelineEntry
push none entries = entries
push (some entry) entries = entries ++ entry ∷ []

-- The arguments of the raw query for the next batch.
abbrev pub raw_query : TimelineQuery → Scan → RawTimelineQuery
raw_query query s = record {
  scope_id = query.scope_id;
  start_at = query.start_at;
  end_at = query.end_at;
  before = s.raw_cursor;
  limit = min raw_batch_size (max_raw_scan_per_query - s.scanned);
}

-- One round of the `while` loop breaks, returns a page, or goes on.
pub data Round : Type 0 where
  leave again : Scan → Round
  back : TimelinePage → Round

after_batch : Bool → Flow → Round
after_batch has_more (return_page page) = back page
after_batch true (fall_through s) = again (record s { next_cursor = s.raw_cursor })
after_batch false (fall_through s) = leave (record s { next_cursor = none })

-- After the loop.
finish : TimelineQuery → Scan → TimelinePage
finish query s = record {
  entries = s.entries;
  next_cursor =
      if leb max_raw_scan_per_query s.scanned && ltb (length s.entries) query.limit
      then s.raw_cursor
      else s.next_cursor;
}

abbrev pub first_scan : TimelineQuery → Scan
first_scan query = record {
  entries = [];
  raw_cursor = query.before;
  scanned = 0;
  next_cursor = none;
}

-- One round scans at least one record, so one more round than the budget is enough.
abbrev pub query_fuel : ℕ
query_fuel = suc max_raw_scan_per_query

module _ {E : Type 0} (serde : Serde) (repo : TimelineRepository E) where
  pub scan_batch :
      TimelineQuery
      → RetrievalGrant
      → (record_count : ℕ) (has_more : Bool) (index : ℕ) → List RawTimelineRecord
      → Scan
      → Result Flow (RetrievalError E)
  scan_batch query grant record_count has_more index [] s = ok (fall_through s)
  scan_batch query grant record_count has_more index (r ∷ rs) s =
      decode_visible_entry serde r grant >>= λ visible.
      let s' : Scan = record s {
        entries = push visible s.entries;
        raw_cursor = some (cursor_of r);
        scanned = s.scanned + 1;
      } in
      let rest = scan_batch query grant record_count has_more (index + 1) rs s' in
      if length s'.entries == query.limit
      then ok (
          return_page (record {
            entries = s'.entries;
            next_cursor =
                if ltb (index + 1) record_count || has_more then some (cursor_of r) else none;
          }))
      else rest

  query_round : TimelineQuery → RetrievalGrant → Scan → Result Round (RetrievalError E)
  unfolding scan_batch after_batch
  query_round query grant s = do
    page ← map_err repository (repo (raw_query query s))
    if is_empty page.records then ok (leave (record s { next_cursor = none })) else do
      flow ← scan_batch query grant (length page.records) page.has_more 0 page.records s
      ok (after_batch page.has_more flow)

  -- What follows a round, given the rest of the loop.
  after_round :
      TimelineQuery
      → (Scan → Option (Result TimelinePage (RetrievalError E)))
      → Result Round (RetrievalError E)
      → Option (Result TimelinePage (RetrievalError E))
  unfolding finish
  after_round query loop (err e) = some (err e)
  after_round query loop (ok (back page)) = some (ok page)
  after_round query loop (ok (leave s)) = some (ok (finish query s))
  after_round query loop (ok (again s)) = loop s

  -- The `while` loop; `none` means that the fuel ran out.
  query_loop :
      TimelineQuery → RetrievalGrant → ℕ → Scan → Option (Result TimelinePage (RetrievalError E))
  unfolding query_round after_round finish
  query_loop query grant zero s = none
  query_loop query grant (suc fuel) s =
      let rest = after_round query (query_loop query grant fuel) (query_round query grant s) in
      if ltb (length s.entries) query.limit && ltb s.scanned max_raw_scan_per_query
      then rest
      else some (ok (finish query s))

  if_valid :
      Result (Unit {0}) (RetrievalError E)
      → Option (Result TimelinePage (RetrievalError E))
      → Option (Result TimelinePage (RetrievalError E))
  if_valid (err e) answer = some (err e)
  if_valid (ok _) answer = answer

  pub query_timeline :
      TimelineQuery → RetrievalGrant → Option (Result TimelinePage (RetrievalError E))
  unfolding query_loop if_valid
  query_timeline query grant =
      if_valid (validate_query query) (query_loop query grant query_fuel (first_scan query))
