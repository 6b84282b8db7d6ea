-- ===== src/Core/Retrieval/Batches.antt =====
-- The loop over one batch makes the pass over its rows.
use context_layer.Base.{
  ℕ, suc, ◌+◌, ◌≤◌, ◌<◌, ◌≡◌, refl, Bool, true, false, ltb, leb, ◌==◌, ◌||◌, if◌then◌else◌,
  Bool-cases, is_empty, List, [], ◌∷◌, ◌++◌, length, Result, ok, err, Result-cases, inl, inr, arith,
  not,
}
use context_layer.Core.Serde.{Serde}
use context_layer.Core.Grants.{RetrievalGrant}
use context_layer.Core.Timeline.{
  TimelineQuery, TimelinePage, RawTimelineRecord, TimelineRepository, RetrievalError,
  max_raw_scan_per_query,
}
use context_layer.Core.Visible.{decode_visible_entry}
use context_layer.Core.Retrieval.Bounds.{length-push}
use context_layer.Core.Retrieval.{Scan, Flow, fall_through, return_page, push, scan_batch}
use context_layer.Core.Retrieval.Spec.{At, At-step, walk}

-- The code's test for a further row.
more_rows :
    (more : Bool) (xs ys : List RawTimelineRecord) (index count : ℕ)
    → is_empty ys ≡ not more
    → index + suc (length xs) ≡ count
    → (ltb (index + 1) count || more) ≡ not (is_empty (xs ++ ys))
more_rows more [] ys index count last ends = ground arith
more_rows more (x ∷ xs) ys index count last ends = ground arith

if-not {ℓ} : {A : Type ℓ} (b : Bool) (x y : A) → (if not b then x else y) ≡ (if b then y else x)
if-not true x y = refl
if-not false x y = refl

module _ {E : Type 0} (serde : Serde) (grant : RetrievalGrant) (query : TimelineQuery)
    (repo : TimelineRepository E) (rows : List RawTimelineRecord) where
  -- The result of a batch agrees with the pass; `ys` are the rows after the batch.
  abbrev pub Matches :
      List RawTimelineRecord
      → ℕ
      → Result Flow (RetrievalError E)
      → Result TimelinePage (RetrievalError E)
      → Type 0
  Matches ys total (err e) w = w ≡ err e
  Matches ys total (ok (return_page page)) w = w ≡ ok page
  Matches ys total (ok (fall_through s)) w =
      (w ≡ walk serde grant query.limit s.entries s.raw_cursor s.scanned ys)
      × (length s.entries < query.limit)
      × (s.scanned ≡ total)
      × At rows s.raw_cursor ys

  pub scan_batch-Matches :
      (more : Bool) (ys : List RawTimelineRecord) (count total : ℕ) (index : ℕ)
      (xs : List RawTimelineRecord) (s : Scan)
      → is_empty ys ≡ not more
      → index + length xs ≡ count
      → s.scanned + length xs ≡ total
      → total ≤ max_raw_scan_per_query
      → length s.entries < query.limit
      → At rows s.raw_cursor (xs ++ ys)
      → Matches ys total
          (scan_batch serde repo query grant count more index xs s)
          (walk serde grant query.limit s.entries s.raw_cursor s.scanned (xs ++ ys))
  unfolding scan_batch walk
  scan_batch-Matches more ys count total index [] s last ends sum room short at =
      (refl, short, omega arith, at)
  scan_batch-Matches more ys count total index (r ∷ xs) s last ends sum room short at =
      let room_left : leb max_raw_scan_per_query s.scanned ≡ false = ground arith in
      elim (Result-cases (decode_visible_entry {E = E} serde r grant)) [
        | inr (m, d) ↦ rw (d, room_left) refl
        | inl (v, d) ↦ elim (Bool-cases (length (push v s.entries) == query.limit)) [
          | inl full ↦
              rw (d, full, room_left) (rw (more_rows more xs ys index count last ends, if-not) refl)
          | inr part ↦
              rw (d, part, room_left)
                (scan_batch-Matches more ys count total (index + 1) xs _ last (omega arith)
                  (omega arith) room (ground (arith, length-push v s.entries, part)) (At-step r at))
        ]
      ]
