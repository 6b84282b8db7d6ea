-- ===== src/Core/Retrieval/Spec.antt =====
-- What a timeline query means over the rows of its scope and time range: one pass, a row at a time.
use context_layer.Base.{
  ℕ, ◌+◌, ◌≡◌, refl, sym, ◌∙◌, ltb, leb, ◌==◌, if◌then◌else◌, is_empty, List, [], ◌∷◌, ◌++◌,
  append_assoc, length, take, Option, none, some, Result, ok, ◌>>=◌,
}
use context_layer.Core.Serde.{Serde}
use context_layer.Core.Grants.{RetrievalGrant}
use context_layer.Core.Timeline.{
  TimelineCursor, TimelineEntry, TimelinePage, RawTimelineQuery, RawTimelineRecord, RawTimelinePage,
  TimelineRepository, RetrievalError, max_raw_scan_per_query, cursor_of,
}
use context_layer.Core.Visible.{decode_visible_entry}
use context_layer.Core.Retrieval.{push}

-- The answer to a raw query where `rest` are the rows after its cursor.
abbrev pub raw_page : ℕ → List RawTimelineRecord → RawTimelinePage
raw_page limit rest = record { records = take limit rest; has_more = ltb limit (length rest) }

-- The repository serves `rows`, in this order, to the scope and time range of the query.
pub record Serves {E : Type 0} (repo : TimelineRepository E) (q : RawTimelineQuery)
    (rows : List RawTimelineRecord) : Type 0 where
  pub from_start :
      (limit : ℕ) → repo (record q { before = none; limit = limit }) ≡ ok (raw_page limit rows)
  pub from_cursor :
      (done : List RawTimelineRecord) (r : RawTimelineRecord) (rest : List RawTimelineRecord)
      → rows ≡ done ++ (r ∷ rest)
      → (limit : ℕ)
      → repo (record q { before = some (cursor_of r); limit = limit }) ≡ ok (raw_page limit rest)

-- `rest` are the rows that follow the cursor.
pub data At (rows : List RawTimelineRecord) (c : Option TimelineCursor)
    (rest : List RawTimelineRecord) : Type 0 where
  at_start : c ≡ none → rows ≡ rest → At rows c rest
  past :
      (done : List RawTimelineRecord) (r : RawTimelineRecord)
      → c ≡ some (cursor_of r)
      → rows ≡ done ++ (r ∷ rest)
      → At rows c rest

-- The rows up to here.
pub behind :
    {rows rest : List RawTimelineRecord} {c : Option TimelineCursor}
    → At rows c rest
    → (done : List RawTimelineRecord) × (rows ≡ done ++ rest)
behind (at_start _ e) = ([], e)
behind {rest = rest} (past done r _ e) = (done ++ r ∷ [], e ∙ sym (append_assoc done (r ∷ []) rest))

pub At-step :
    {rows rest : List RawTimelineRecord} {c : Option TimelineCursor} (r : RawTimelineRecord)
    → At rows c (r ∷ rest)
    → At rows (some (cursor_of r)) rest
At-step r at = let (done, e) = behind at in past done r refl e

module _ {E : Type 0} (serde : Serde) (grant : RetrievalGrant) (limit : ℕ) where
  -- One pass, a row at a time: the specification of the query.
  unfoldable pub walk :
      List TimelineEntry
      → Option TimelineCursor
      → ℕ
      → List RawTimelineRecord
      → Result TimelinePage (RetrievalError E)
  walk entries cursor scanned [] = ok (record {
    entries = entries;
    next_cursor = if leb max_raw_scan_per_query scanned then cursor else none;
  })
  walk entries cursor scanned (r ∷ rows) =
      if leb max_raw_scan_per_query scanned
      then ok (record { entries = entries; next_cursor = cursor })
      else (decode_visible_entry serde r grant >>= λ visible.
          let entries' = push visible entries in
          let rest = walk entries' (some (cursor_of r)) (scanned + 1) rows in
          if length entries' == limit
          then ok (record {
            entries = entries';
            next_cursor = if is_empty rows then none else some (cursor_of r);
          })
          else rest)
