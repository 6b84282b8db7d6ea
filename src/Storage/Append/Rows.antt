-- ===== src/Storage/Append/Rows.antt =====
-- Transactions and rows: what the proofs about appends share.
use context_layer.Base.{
  ℕ, ◌≡◌, ap, true, false, inl, inr, List, [], ◌∷◌, ◌++◌, Result, ok, err, Result-cases, bind-ok,
  ok_inj, arith,
}
use context_layer.Contracts.{EventEnvelope, EventEnvelopeV2}
use context_layer.Storage.Tables.{
  Crates, StorageError, RawRow, Database, transact, format_time, to_sql_option, has_event,
}
use context_layer.Storage.SortKey.{format_sort_key}
use context_layer.Storage.Append.{encode, insert_raw, raw_row_v1, raw_row_v2}

-- A transaction, by its outcome.
pub transact_lem {ℓ} :
    {A : Type 0} (P : Result A StorageError → Database → Type ℓ)
    (body : Database → Result (A × Database) StorageError) (db : Database)
    → ((r : A × Database) → body db ≡ ok r → P (ok r.0) r.1)
    → ((e : StorageError) → P (err e) db)
    → P (transact body db).0 (transact body db).1
transact_lem P body db done undone = elim (Result-cases (body db)) [
  | inl (r, h) ↦ rw h (done r h)
  | inr (e, h) ↦ rw h (undone e)
]

pub raw_row_v1-event_id :
    (crates : Crates) (event : EventEnvelope) (row : RawRow)
    → raw_row_v1 crates event ≡ ok row
    → event.event_id ≡ row.event_id
unfolding raw_row_v1
raw_row_v1-event_id crates event row h =
    let (key, _, h1) = bind-ok (format_sort_key crates event.observed_at) _ row h in
    let (observed, _, h2) = bind-ok (format_time crates event.observed_at) _ row h1 in
    let (ingested, _, h3) = bind-ok (format_time crates event.ingested_at) _ row h2 in
    let (sensitivity, _, h4) =
      bind-ok (encode crates.serde.encode_sensitivity event.sensitivity) _ row h3 in
    let (json, _, h5) = bind-ok (encode crates.serde.encode_v1 event) _ row h4 in
    let (sequence, _, h6) = bind-ok (to_sql_option event.source_sequence) _ row h5 in
    ap (λ r. r.event_id) (ok_inj h6)

pub raw_row_v2-event_id :
    (crates : Crates) (event : EventEnvelopeV2) (row : RawRow)
    → raw_row_v2 crates event ≡ ok row
    → event.event_id ≡ row.event_id
unfolding raw_row_v2
raw_row_v2-event_id crates event row h =
    let (key, _, h1) = bind-ok (format_sort_key crates event.observed_at) _ row h in
    let (observed, _, h2) = bind-ok (format_time crates event.observed_at) _ row h1 in
    let (ingested, _, h3) = bind-ok (format_time crates event.ingested_at) _ row h2 in
    let (sensitivity, _, h4) =
      bind-ok (encode crates.serde.encode_sensitivity event.sensitivity) _ row h3 in
    let (json, _, h5) = bind-ok (encode crates.serde.encode_v2 event) _ row h4 in
    let (sequence, _, h6) = bind-ok (to_sql_option event.source_sequence) _ row h5 in
    ap (λ r. r.event_id) (ok_inj h6)

pub has_event-append :
    (id : ℕ) (rows : List RawRow) (row : RawRow)
    → id ≡ row.event_id
    → has_event id (rows ++ row ∷ []) ≡ true
has_event-append id [] row h = ground arith
has_event-append id (r ∷ rows) row h = ground (arith, has_event-append id rows row h)

pub transact-ok :
    {A : Type 0} (body : Database → Result (A × Database) StorageError) (db db' : Database) (a : A)
    → transact body db ≡ (ok a, db')
    → body db ≡ ok (a, db')
transact-ok body db db' a h = elim (Result-cases (body db)) [
  | inl ((b, made), e) ↦
      let first : ◌≡◌ {A = Result _ StorageError} (ok b) (ok a) = ap (λ p. p.0) (rw e at h) in
      let second : made ≡ db' = ap (λ p. p.1) (rw e at h) in rw (e, ok_inj first, second)
  | inr (x, e) ↦
      let first : ◌≡◌ {A = Result _ StorageError} (err x) (ok a) = ap (λ p. p.0) (rw e at h) in
      absurd (ground (arith, first))
]

pub insert_raw-new :
    (row : RawRow) (rows : List RawRow)
    → has_event row.event_id rows ≡ false
    → insert_raw row rows ≡ rows ++ row ∷ []
unfolding insert_raw
insert_raw-new row rows h = rw h

pub insert_raw-known :
    (row : RawRow) (rows : List RawRow)
    → has_event row.event_id rows ≡ true
    → insert_raw row rows ≡ rows
unfolding insert_raw
insert_raw-known row rows h = rw h
