-- ===== src/Core/Retrieval/Bounds.antt =====
-- Whatever the repository answers: the query ends, its page is within the limit, and what every
-- shown entry satisfies holds of the page.
use context_layer.Base.{
  ℕ, zero, suc, ◌+◌, ◌≤◌, ◌<◌, ◌≡◌, refl, Bool, true, false, ltb, ◌==◌, Bool-cases, is_empty, List,
  [], ◌∷◌, length, length-append, All, All-append, All-map, All-Memᴰ, Memᴰ, Option, none, some,
  Result, ok, err, Result-cases, inl, inr, arith, ◌>>=◌, ◌-◌, ◌&&◌,
}
use context_layer.Core.Serde.{Serde}
use context_layer.Core.Grants.{RetrievalGrant}
use context_layer.Core.Timeline.{
  TimelineQuery, TimelineEntry, TimelinePage, RawTimelineRecord, RawTimelineQuery, RawTimelinePage,
  TimelineRepository, RetrievalError, validate_query, max_raw_scan_per_query,
}
use context_layer.Core.Visible.{decode_visible_entry}
use context_layer.Core.Retrieval.{
  Scan, Flow, fall_through, return_page, push, scan_batch, query_loop, query_round, after_round,
  Round, leave, again, back, after_batch, query_timeline, finish, raw_query, first_scan, query_fuel,
}
use context_layer.Core.Visible.Disclosure.{Vouched, decode_visible_entry-Vouched}

-- A record that the repository gave for a raw query of the query's scope and times.
pub data FromRepository {E : Type 0} (repo : TimelineRepository E) (query : TimelineQuery)
    (r : RawTimelineRecord) : Type 0 where
  given :
      (q : RawTimelineQuery) (page : RawTimelinePage)
      → q.scope_id ≡ query.scope_id
      → q.start_at ≡ query.start_at
      → q.end_at ≡ query.end_at
      → repo q ≡ ok page
      → Memᴰ r page.records
      → FromRepository repo query r

-- A page holds at most `limit` entries, each with the property.
pub record PageOf (P : TimelineEntry → Type 0) (limit : ℕ) (page : TimelinePage) : Type 0 where
  pub bounded : length page.entries ≤ limit
  pub each : All P page.entries

-- The batch loop's result, from a state that has scanned `scanned` records.
abbrev FlowOf :
    {E : Type 0} → (TimelineEntry → Type 0) → ℕ → ℕ → Result Flow (RetrievalError E) → Type 0
FlowOf P limit scanned (err e) = Unit
FlowOf P limit scanned (ok (return_page page)) = PageOf P limit page
FlowOf P limit scanned (ok (fall_through s)) =
    (length s.entries < limit) × All P s.entries × (s.scanned ≡ scanned)

-- The query's outcome: the fuel did not run out, and a page is as above.
abbrev pub Answers :
    {E : Type 0}
    → (TimelineEntry → Type 0)
    → ℕ
    → Option (Result TimelinePage (RetrievalError E))
    → Type 0
Answers P limit none = ⊥
Answers P limit (some (err e)) = Unit
Answers P limit (some (ok page)) = PageOf P limit page

pub length-push :
    (v : Option TimelineEntry) (entries : List TimelineEntry)
    → length (push v entries) ≤ length entries + 1
length-push none entries = omega arith
length-push (some e) entries = omega (arith, length-append entries (e ∷ []))

All-push :
    (P : TimelineEntry → Type 0) (v : Option TimelineEntry) (entries : List TimelineEntry)
    → ((e : TimelineEntry) → v ≡ some e → P e)
    → All P entries
    → All P (push v entries)
All-push P none entries h k = k
All-push P (some e) entries h k = All-append P entries (e ∷ []) k (h e refl, tt)

pub validate_query-limit :
    {E : Type 0} (query : TimelineQuery) (u : Unit {0})
    → validate_query {E = E} query ≡ ok u
    → 1 ≤ query.limit
unfolding validate_query
validate_query-limit query u h = ground arith

pub length_pos : {A : Type 0} (xs : List A) → is_empty xs ≡ false → 0 < length xs
length_pos [] h = cc
length_pos (x ∷ xs) h = omega arith

module _ {E : Type 0} (serde : Serde) (repo : TimelineRepository E) (query : TimelineQuery)
    (grant : RetrievalGrant) (P : TimelineEntry → Type 0)
    (shown : (r : RawTimelineRecord) (e : TimelineEntry)
      → FromRepository repo query r
      → decode_visible_entry {E = E} serde r grant ≡ ok (some e)
      → P e) where
  scan_batch-FlowOf :
      (count : ℕ) (more : Bool) (index : ℕ) (rs : List RawTimelineRecord) (s : Scan) (total : ℕ)
      → s.scanned + length rs ≡ total
      → length s.entries < query.limit
      → All P s.entries
      → All (FromRepository repo query) rs
      → FlowOf P query.limit total (scan_batch serde repo query grant count more index rs s)
  unfolding scan_batch
  scan_batch-FlowOf count more index [] s total sum short h from = (short, h, omega arith)
  scan_batch-FlowOf count more index (r ∷ rs) s total sum short h from =
      elim (Result-cases (decode_visible_entry {E = E} serde r grant)) [
        | inr (m, d) ↦ rw d tt
        | inl (v, d) ↦
            let every : All P (push v s.entries) =
              All-push P v s.entries (λ e q. shown r e from.0 (rw (← q) d)) h in
            elim (Bool-cases (length (push v s.entries) == query.limit)) [
              | inl full ↦ rw (d, full) (record { bounded = ground (arith, full); each = every })
              | inr part ↦
                  rw (d, part)
                    (scan_batch-FlowOf count more (index + 1) rs _ total (omega arith)
                      (ground (arith, length-push v s.entries, part)) every from.1)
            ]
      ]

  finish-PageOf :
      (s : Scan)
      → length s.entries ≤ query.limit
      → All P s.entries
      → PageOf P query.limit (finish query s)
  unfolding finish
  finish-PageOf s short h = record { bounded = short; each = h }

  -- A round that does not end the query has scanned a record.
  abbrev RoundOf : ℕ → Result Round (RetrievalError E) → Type 0
  RoundOf scanned (err e) = Unit
  RoundOf scanned (ok (back page)) = PageOf P query.limit page
  RoundOf scanned (ok (leave s)) = (length s.entries ≤ query.limit) × All P s.entries
  RoundOf scanned (ok (again s)) =
      (length s.entries < query.limit) × All P s.entries × (scanned < s.scanned)

  after_batch-RoundOf :
      (more : Bool) (n total : ℕ) (r : Result Flow (RetrievalError E))
      → n < total
      → FlowOf P query.limit total r
      → RoundOf n (r >>= λ flow. ok (after_batch more flow))
  unfolding after_batch
  after_batch-RoundOf more n total (err e) grows h = tt
  after_batch-RoundOf more n total (ok (return_page page)) grows h = h
  after_batch-RoundOf true n total (ok (fall_through s)) grows h = (h.0, h.1, omega arith)
  after_batch-RoundOf false n total (ok (fall_through s)) grows h = (omega arith, h.1)

  query_round-RoundOf :
      (s : Scan)
      → length s.entries < query.limit
      → All P s.entries
      → RoundOf s.scanned (query_round serde repo query grant s)
  unfolding query_round
  query_round-RoundOf s short h = elim (Result-cases (repo (raw_query query s))) [
    | inr (e, failed) ↦ rw failed tt
    | inl (page, answered) ↦ elim (Bool-cases (is_empty page.records)) [
      | inl none_left ↦ rw (answered, none_left) (omega arith, h)
      | inr some_left ↦
          rw (answered, some_left)
            (after_batch-RoundOf page.has_more s.scanned (s.scanned + length page.records) _
              (omega (arith, length_pos page.records some_left))
              (scan_batch-FlowOf (length page.records) page.has_more 0 page.records s _ refl short h
                (All-map (λ r m. given (raw_query query s) page refl refl refl answered m)
                  page.records (All-Memᴰ page.records))))
    ]
  ]

  after_round-Answers :
      (scanned : ℕ) (loop : Scan → Option (Result TimelinePage (RetrievalError E)))
      (r : Result Round (RetrievalError E))
      → RoundOf scanned r
      → ((s : Scan)
          → length s.entries < query.limit
          → All P s.entries
          → scanned < s.scanned
          → Answers P query.limit (loop s))
      → Answers P query.limit (after_round serde repo query loop r)
  unfolding after_round
  after_round-Answers scanned loop (err e) k next = tt
  after_round-Answers scanned loop (ok (back page)) k next = k
  after_round-Answers scanned loop (ok (leave s)) k next = finish-PageOf s k.0 k.1
  after_round-Answers scanned loop (ok (again s)) k next = next s k.0 k.1 k.2

  query_loop-Answers :
      (fuel : ℕ) (s : Scan)
      → max_raw_scan_per_query - s.scanned < fuel
      → length s.entries < query.limit
      → All P s.entries
      → Answers P query.limit (query_loop serde repo query grant fuel s)
  unfolding query_loop
  query_loop-Answers zero s enough short h = absurd (omega arith)
  query_loop-Answers (suc fuel) s enough short h =
      elim (Bool-cases
        (ltb (length s.entries) query.limit && ltb s.scanned max_raw_scan_per_query)) [
          | inr over ↦ rw over (finish-PageOf s (omega arith) h)
          | inl goes_on ↦ rw goes_on (
              after_round-Answers s.scanned (query_loop serde repo query grant fuel) _
                (query_round-RoundOf s short h)
                (λ s' short' h' grows.
                  query_loop-Answers fuel s' (later s' grows (ground arith)) short' h'))
        ]
    where
      later :
          (s' : Scan)
          → s.scanned < s'.scanned
          → s.scanned < max_raw_scan_per_query
          → max_raw_scan_per_query - s'.scanned < fuel
      later s' grows room = omega arith

  query_timeline-Answers : Answers P query.limit (query_timeline serde repo query grant)
  unfolding query_timeline
  query_timeline-Answers = elim (Result-cases (validate_query {E = E} query)) [
    | inr (e, bad) ↦ rw bad tt
    | inl (u, good) ↦ rw good (
        query_loop-Answers query_fuel (first_scan query) (omega arith)
          (omega (arith, validate_query-limit {E = E} query u good)) tt)
  ]

-- For every repository, query and grant the query ends, with an error or with a page of at most
-- `limit` entries. Each entry tells of the event of a record that the repository gave for the query's
-- scope and times: it has the event's identifier, scope and sensitivity; that event is no more
-- sensitive than the grant allows; the entry lists exactly the references within the grant's class;
-- and a payload that it carries is the event's own, which it carries only if the grant includes
-- payloads and every reference of the event is within that class.
pub query_timeline-Vouched :
    {E : Type 0} (serde : Serde) (repo : TimelineRepository E) (query : TimelineQuery)
    (grant : RetrievalGrant)
    → Answers
        (Vouched serde grant (FromRepository repo query))
        query.limit
        (query_timeline serde repo query grant)
query_timeline-Vouched {E} serde repo query grant =
    query_timeline-Answers serde repo query grant (Vouched serde grant (FromRepository repo query))
      (λ r e origin h.
        decode_visible_entry-Vouched {E = E} serde r grant (FromRepository repo query) e origin h)
