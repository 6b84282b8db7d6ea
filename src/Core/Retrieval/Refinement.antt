-- ===== src/Core/Retrieval/Refinement.antt =====
-- Over a repository that serves rows by keyset, the batched query is the pass of the specification.
use context_layer.Base.{
  ℕ, zero, suc, ◌+◌, ◌-◌, ◌≤◌, ◌<◌, ◌≡◌, refl, sym, ap, ◌∙◌, min, Bool, true, false, ltb, ◌&&◌,
  Bool-cases, is_empty, List, [], ◌∷◌, ◌++◌, length, take, drop, take-append-drop, length-take,
  Option, none, some, Result, ok, err, ◌>>=◌, inl, inr, arith, not, le→leb,
}
use context_layer.Core.Serde.{Serde}
use context_layer.Core.Grants.{RetrievalGrant}
use context_layer.Core.Timeline.{
  TimelineCursor, TimelineQuery, TimelinePage, RawTimelineQuery, RawTimelineRecord,
  TimelineRepository, RetrievalError, validate_query, max_raw_scan_per_query, raw_batch_size,
}
use context_layer.Core.Retrieval.Bounds.{validate_query-limit}
use context_layer.Core.Retrieval.{
  Scan, Flow, fall_through, return_page, scan_batch, query_loop, query_round, after_round, Round,
  leave, again, back, after_batch, query_timeline, finish, raw_query, first_scan, query_fuel,
}
use context_layer.Core.Retrieval.Spec.{Serves, raw_page, At, at_start, past, walk}
use context_layer.Core.Retrieval.Batches.{Matches, scan_batch-Matches}

is_empty-drop :
    (n : ℕ) (xs : List RawTimelineRecord) → is_empty (drop n xs) ≡ not (ltb n (length xs))
is_empty-drop zero [] = refl
is_empty-drop zero (x ∷ xs) = ground arith
is_empty-drop (suc n) [] = ground arith
is_empty-drop (suc n) (x ∷ xs) = is_empty-drop n xs ∙ ground arith

module _ {E : Type 0} (serde : Serde) (grant : RetrievalGrant) (query : TimelineQuery)
    (repo : TimelineRepository E) (rows : List RawTimelineRecord) where
  -- A round and the pass agree.
  abbrev RoundMatches :
      ℕ → Result Round (RetrievalError E) → Result TimelinePage (RetrievalError E) → Type 0
  RoundMatches n (err e) w = w ≡ err e
  RoundMatches n (ok (back page)) w = w ≡ ok page
  RoundMatches n (ok (leave s)) w = w ≡ ok (finish query s)
  RoundMatches n (ok (again s)) w =
      (rest : List RawTimelineRecord) × (w
        ≡ walk serde grant query.limit s.entries s.raw_cursor s.scanned rest)
      × At rows s.raw_cursor rest
      × (length s.entries < query.limit)
      × (n < s.scanned)
      × (s.scanned ≤ max_raw_scan_per_query)

  after_batch-RoundMatches :
      (more : Bool) (ys : List RawTimelineRecord) (n total : ℕ) (r : Result Flow (RetrievalError E))
      (w : Result TimelinePage (RetrievalError E))
      → is_empty ys ≡ not more
      → n < total
      → total ≤ max_raw_scan_per_query
      → Matches serde grant query repo rows ys total r w
      → RoundMatches n (r >>= λ flow. ok (after_batch more flow)) w
  unfolding after_batch finish walk
  after_batch-RoundMatches more ys n total (err e) w last grows room h = h
  after_batch-RoundMatches more ys n total (ok (return_page page)) w last grows room h = h
  after_batch-RoundMatches true ys n total (ok (fall_through s)) w last grows room h =
      (ys, h.0, h.3, h.1, omega arith, omega arith)
  after_batch-RoundMatches false [] n total (ok (fall_through s)) w last grows room h =
      h.0 ∙ ground arith
  after_batch-RoundMatches false (y ∷ ys) n total (ok (fall_through s)) w last grows room h = cc

  abbrev pub ask : Option TimelineCursor → ℕ → RawTimelineQuery
  ask c n = record {
    scope_id = query.scope_id;
    start_at = query.start_at;
    end_at = query.end_at;
    before = c;
    limit = n;
  }

  answer :
      Serves repo (ask none 0) rows
      → (c : Option TimelineCursor) (rest : List RawTimelineRecord) (n : ℕ) → At rows c rest
      → repo (ask c n) ≡ ok (raw_page n rest)
  answer serves c rest n (at_start e same) = rw (e, ← same) (serves.from_start n)
  answer serves c rest n (past done r e split) = rw e (serves.from_cursor done r rest split n)

  -- A batch of the next `suc n` rows, if there is a row.
  batch-RoundMatches :
      (n : ℕ) (s : Scan) (r : RawTimelineRecord) (rest : List RawTimelineRecord)
      → s.scanned + suc n ≤ max_raw_scan_per_query
      → length s.entries < query.limit
      → At rows s.raw_cursor (r ∷ rest)
      → RoundMatches s.scanned
          (scan_batch serde repo query grant
              (length (r ∷ take n rest))
              (ltb (suc n) (length (r ∷ rest)))
              0
              (r ∷ take n rest)
              s
            >>= λ flow. ok (after_batch (ltb (suc n) (length (r ∷ rest))) flow))
          (walk serde grant query.limit s.entries s.raw_cursor s.scanned (r ∷ rest))
  batch-RoundMatches n s r rest room short at =
      after_batch-RoundMatches (ltb (suc n) (length (r ∷ rest))) (drop n rest) s.scanned
        (s.scanned + length (r ∷ take n rest)) _ _ last (omega arith) fits
        (rw (← split) (
          scan_batch-Matches serde grant query repo rows (ltb (suc n) (length (r ∷ rest)))
            (drop n rest) (length (r ∷ take n rest)) _ 0 (r ∷ take n rest) s last (omega arith) refl
            fits short (rw split at)))
    where
      split : r ∷ (take n rest ++ drop n rest) ≡ r ∷ rest
      split = ap (◌∷◌ r) (take-append-drop n rest)

      last : is_empty (drop n rest) ≡ not (ltb (suc n) (length (r ∷ rest)))
      last = is_empty-drop n rest ∙ ground arith

      fits : s.scanned + length (r ∷ take n rest) ≤ max_raw_scan_per_query
      fits = omega (arith, length-take n rest)

  finish_full :
      (s : Scan) (rest : List RawTimelineRecord)
      → max_raw_scan_per_query ≤ s.scanned
      → length s.entries < query.limit
      → ok (finish query s)
        ≡ walk {E = E} serde grant query.limit s.entries s.raw_cursor s.scanned rest
  unfolding finish walk
  finish_full s [] full short = ground arith
  finish_full s (r ∷ rest) full short = rw (le→leb _ _ full) (ground arith)

  after_round-walk :
      (n : ℕ) (loop : Scan → Option (Result TimelinePage (RetrievalError E)))
      (r : Result Round (RetrievalError E)) (w : Result TimelinePage (RetrievalError E))
      → RoundMatches n r w
      → ((s : Scan) (rest : List RawTimelineRecord)
          → At rows s.raw_cursor rest
          → length s.entries < query.limit
          → n < s.scanned
          → s.scanned ≤ max_raw_scan_per_query
          → loop s ≡ some (walk serde grant query.limit s.entries s.raw_cursor s.scanned rest))
      → after_round serde repo query loop r ≡ some w
  unfolding after_round
  after_round-walk n loop (err e) w k next = ap some (sym k)
  after_round-walk n loop (ok (back page)) w k next = ap some (sym k)
  after_round-walk n loop (ok (leave s)) w k next = ap some (sym k)
  after_round-walk n loop (ok (again s)) w k next = next s k.0 k.2 k.3 k.4 k.5 ∙ ap some (sym k.1)

  batch_size :
      (s : Scan)
      → s.scanned < max_raw_scan_per_query
      → min raw_batch_size (max_raw_scan_per_query - s.scanned)
        ≡ suc (min raw_batch_size (max_raw_scan_per_query - s.scanned) - 1)
  batch_size s room = omega arith

  query_round-RoundMatches :
      Serves repo (ask none 0) rows
      → (s : Scan) (rest : List RawTimelineRecord) → s.scanned < max_raw_scan_per_query
      → length s.entries < query.limit
      → At rows s.raw_cursor rest
      → RoundMatches s.scanned
          (query_round serde repo query grant s)
          (walk serde grant query.limit s.entries s.raw_cursor s.scanned rest)
  unfolding query_round walk finish
  query_round-RoundMatches serves s [] room short at =
      rw (answer serves s.raw_cursor [] _ at, batch_size s room) (ground arith)
  query_round-RoundMatches serves s (r ∷ rest) room short at =
      rw (answer serves s.raw_cursor (r ∷ rest) _ at, batch_size s room)
        (batch-RoundMatches (min raw_batch_size (max_raw_scan_per_query - s.scanned) - 1) s r rest
          (omega arith) short at)

  query_loop-walk :
      Serves repo (ask none 0) rows
      → (fuel : ℕ) (s : Scan) (rest : List RawTimelineRecord)
      → max_raw_scan_per_query - s.scanned < fuel
      → s.scanned ≤ max_raw_scan_per_query
      → length s.entries < query.limit
      → At rows s.raw_cursor rest
      → query_loop serde repo query grant fuel s
        ≡ some (walk serde grant query.limit s.entries s.raw_cursor s.scanned rest)
  unfolding query_loop
  query_loop-walk serves zero s rest enough within short at = absurd (omega arith)
  query_loop-walk serves (suc fuel) s rest enough within short at =
      elim (Bool-cases
        (ltb (length s.entries) query.limit && ltb s.scanned max_raw_scan_per_query)) [
          | inr over ↦ rw over (ap some (finish_full s rest (ground arith) short))
          | inl goes_on ↦ rw goes_on (
              after_round-walk s.scanned (query_loop serde repo query grant fuel)
                (query_round serde repo query grant s) _
                (query_round-RoundMatches serves s rest (ground arith) short at)
                (λ s' rest' at' short' grows within'.
                  query_loop-walk serves fuel s' rest' (later s' grows (ground arith)) within'
                    short' at'))
        ]
    where
      later :
          (s' : Scan)
          → s.scanned < s'.scanned
          → s.scanned < max_raw_scan_per_query
          → max_raw_scan_per_query - s'.scanned < fuel
      later s' grows room = omega arith

-- Over a repository that serves `rows` by keyset, a valid query whose cursor is before `rest`
-- returns what one pass over `rest` returns: the batches make no difference.
pub query_timeline-walk :
    {E : Type 0} (serde : Serde) (grant : RetrievalGrant) (query : TimelineQuery)
    (repo : TimelineRepository E) (rows rest : List RawTimelineRecord) (u : Unit {0})
    → Serves repo (raw_query query (first_scan query)) rows
    → validate_query {E = E} query ≡ ok u
    → At rows query.before rest
    → query_timeline serde repo query grant
      ≡ some (walk serde grant query.limit [] query.before 0 rest)
unfolding query_timeline
query_timeline-walk serde grant query repo rows rest u serves good at = rw good (
    query_loop-walk serde grant query repo rows
      (record { from_start = serves.from_start; from_cursor = serves.from_cursor }) query_fuel
      (first_scan query) rest (omega arith) (omega arith)
      (omega (arith, validate_query-limit query u good)) at)
