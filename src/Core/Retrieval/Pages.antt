-- ===== src/Core/Retrieval/Pages.antt =====
-- The pages of a query partition the rows: no row is skipped and none is shown twice.
use context_layer.Base.{
  ℕ, ◌+◌, ◌<◌, ◌≡◌, refl, sym, ap, ◌∙◌, true, leb, ◌==◌, if◌then◌else◌, Bool-cases, is_empty, List,
  [], ◌∷◌, ◌++◌, append_assoc, append-nil, length, Option, none, some, Result, ok, ◌>>=◌,
  Result-cases, ◌⊎◌, inl, inr, arith,
}
use context_layer.Core.Serde.{Serde}
use context_layer.Core.Grants.{RetrievalGrant}
use context_layer.Core.Timeline.{
  TimelineCursor, TimelineQuery, TimelineEntry, TimelinePage, RawTimelineRecord, TimelineRepository,
  RetrievalError, validate_query, max_raw_scan_per_query, cursor_of,
}
use context_layer.Core.Visible.{decode_visible_entry}
use context_layer.Core.Retrieval.{push, query_timeline, raw_query, first_scan}
use context_layer.Core.Retrieval.Spec.{Serves, At, behind, walk}
use context_layer.Core.Retrieval.Refinement.{query_timeline-walk}

module _ {E : Type 0} (serde : Serde) (grant : RetrievalGrant) where
  -- The entries that the grant shows of some rows, in their order.
  unfoldable pub shown_of : List RawTimelineRecord → Result (List TimelineEntry) (RetrievalError E)
  shown_of [] = ok []
  shown_of (r ∷ rows) = decode_visible_entry serde r grant >>= λ visible.
      shown_of rows >>= λ entries. ok (push visible [] ++ entries)

-- The cursor stands right after a row, and `rest` follows.
abbrev pub Past : List RawTimelineRecord → Option TimelineCursor → List RawTimelineRecord → Type 0
Past rows c rest =
    (done : List RawTimelineRecord) × (r : RawTimelineRecord) × (c ≡ some (cursor_of r))
    × (rows ≡ done ++ (r ∷ rest))

push-append :
    (v : Option TimelineEntry) (entries : List TimelineEntry)
    → push v entries ≡ entries ++ push v []
push-append none entries = sym (append-nil entries)
push-append (some e) entries = refl

-- The page shows exactly what is visible in `seen`, the rows from the query's cursor on; either no
-- row is left, and there is no cursor, or the cursor stands before the rows that are left.
pub record Partition (E : Type 0) (serde : Serde) (grant : RetrievalGrant)
    (rows rest : List RawTimelineRecord) (entries : List TimelineEntry) (page : TimelinePage)
    : Type 0 where
  pub seen : List RawTimelineRecord
  pub left : List RawTimelineRecord
  pub fresh : List TimelineEntry
  pub split : rest ≡ seen ++ left
  pub shown : shown_of {E = E} serde grant seen ≡ ok fresh
  pub listed : page.entries ≡ entries ++ fresh
  pub goes_on : ((page.next_cursor ≡ none) × (left ≡ [])) ⊎ Past rows page.next_cursor left

module _ {E : Type 0} (serde : Serde) (grant : RetrievalGrant) (limit : ℕ)
    (rows : List RawTimelineRecord) where
  -- Nothing more is read.
  stop :
      (entries : List TimelineEntry) (rest : List RawTimelineRecord) (page : TimelinePage)
      → page.entries ≡ entries
      → ((page.next_cursor ≡ none) × (rest ≡ [])) ⊎ Past rows page.next_cursor rest
      → Partition E serde grant rows rest entries page
  unfolding shown_of
  stop entries rest page same goes_on = record {
    seen = [];
    left = rest;
    fresh = [];
    split = refl;
    shown = refl;
    listed = same ∙ sym (append-nil entries);
    goes_on = goes_on;
  }

  -- One more row in front.
  extend :
      (r : RawTimelineRecord) (v : Option TimelineEntry) (entries : List TimelineEntry)
      (rest : List RawTimelineRecord) (page : TimelinePage)
      → decode_visible_entry {E = E} serde r grant ≡ ok v
      → Partition E serde grant rows rest (push v entries) page
      → Partition E serde grant rows (r ∷ rest) entries page
  unfolding shown_of
  extend r v entries rest page d p = record {
    seen = r ∷ p.seen;
    left = p.left;
    fresh = push v [] ++ p.fresh;
    split = ap (◌∷◌ r) p.split;
    shown = rw (d, p.shown);
    listed =
        p.listed
        ∙ ap (λ xs. xs ++ p.fresh) (push-append v entries)
        ∙ append_assoc entries (push v []) p.fresh;
    goes_on = p.goes_on;
  }

  full_stop :
      (entries : List TimelineEntry) (cursor : Option TimelineCursor) (scanned : ℕ)
      (rest : List RawTimelineRecord) (page : TimelinePage)
      → (scanned < max_raw_scan_per_query) ⊎ Past rows cursor rest
      → leb max_raw_scan_per_query scanned ≡ true
      → page.entries ≡ entries
      → page.next_cursor ≡ cursor
      → Partition E serde grant rows rest entries page
  full_stop entries cursor scanned rest page (inl room) full same next = absurd (ground arith)
  full_stop entries cursor scanned rest page (inr (done, r, e, split)) full same next =
      stop entries rest page same (inr (done, r, next ∙ e, split))

  walk-Partition :
      (entries : List TimelineEntry) (cursor : Option TimelineCursor) (scanned : ℕ)
      (rest : List RawTimelineRecord) (page : TimelinePage)
      → (scanned < max_raw_scan_per_query) ⊎ Past rows cursor rest
      → (done : List RawTimelineRecord) → rows ≡ done ++ rest
      → walk {E = E} serde grant limit entries cursor scanned rest ≡ ok page
      → Partition E serde grant rows rest entries page
  unfolding walk
  walk-Partition entries cursor scanned [] page pos done split h =
      elim (Bool-cases (leb max_raw_scan_per_query scanned)) [
        | inl full ↦ full_stop entries cursor scanned [] page pos full (ground arith) (ground arith)
        | inr room ↦ stop entries [] page (ground arith) (inl (ground arith, refl))
      ]
  walk-Partition entries cursor scanned (r ∷ rest) page pos done split h =
      elim (Bool-cases (leb max_raw_scan_per_query scanned)) [
        | inl full ↦
            full_stop entries cursor scanned (r ∷ rest) page pos full (ground arith) (ground arith)
        | inr room ↦ elim (Result-cases (decode_visible_entry {E = E} serde r grant)) [
          | inr (m, d) ↦ absurd (ground arith)
          | inl (v, d) ↦
              extend r v entries rest page d (elim (Bool-cases (length (push v entries) == limit)) [
                | inl full ↦
                    stop (push v entries) rest page (ground arith)
                      (after_full r rest page done split (ground arith))
                | inr part ↦
                    walk-Partition (push v entries) (some (cursor_of r)) (scanned + 1) rest page
                      (inr (done, r, refl, split)) (done ++ r ∷ [])
                      (split ∙ sym (append_assoc done (r ∷ []) rest)) (ground arith)
              ])
        ]
      ]
    where
      after_full :
          (r : RawTimelineRecord) (rest : List RawTimelineRecord) (page : TimelinePage)
          (done : List RawTimelineRecord)
          → rows ≡ done ++ (r ∷ rest)
          → page.next_cursor ≡ (if is_empty rest then none else some (cursor_of r))
          → ((page.next_cursor ≡ none) × (rest ≡ [])) ⊎ Past rows page.next_cursor rest
      after_full r [] page done split next = inl (next, refl)
      after_full r (x ∷ rest) page done split next = inr (done, r, next, split)

-- Over a repository that serves `rows` by keyset, a page of a valid query shows exactly what the
-- grant shows of the rows from the cursor on up to some row, in order. It has no cursor only if no row
-- is left; otherwise its cursor is that of the last row read, and the rows left follow it, so that
-- the query at that cursor neither skips nor repeats a row.
pub query_timeline-Partition :
    {E : Type 0} (serde : Serde) (grant : RetrievalGrant) (query : TimelineQuery)
    (repo : TimelineRepository E) (rows rest : List RawTimelineRecord) (u : Unit {0})
    (page : TimelinePage)
    → Serves repo (raw_query query (first_scan query)) rows
    → validate_query {E = E} query ≡ ok u
    → At rows query.before rest
    → query_timeline serde repo query grant ≡ some (ok page)
    → Partition E serde grant rows rest [] page
query_timeline-Partition {E} serde grant query repo rows rest u page serves good at h =
    let (done, split) = behind at in
    walk-Partition {E = E} serde grant query.limit rows [] query.before 0 rest page
      (inl (omega arith)) done split
      (cc (query_timeline-walk serde grant query repo rows rest u serves good at))
