-- ===== src/Storage/Append/Grows.antt =====
-- The log of raw events only grows, and what an append accepts is in it.
use context_layer.Base.{
  ◌≡◌, refl, sym, ap, ◌∙◌, subst, Bool, true, false, text, text_eq, List, [], ◌∷◌, ◌++◌,
  append_assoc, append-nil, Result, ok, err, bind-ok, ok_inj, arith,
}
use context_layer.Contracts.{Uuid, EventEnvelope, EventEnvelopeV2}
use context_layer.Core.Projection.{ProjectionCommand}
use context_layer.Core.Engine.{IngestOutcome, inserted, duplicate}
use context_layer.Storage.Tables.{Crates, StorageError, RawRow, Database, has_event}
use context_layer.Storage.Append.{
  insert_raw, raw_row_v2, advance_checkpoint, append_with_projection, append_body_v2, append_raw_v2,
  store_v2,
}
use context_layer.Storage.Append.Checkpoints.{advance_checkpoint-Advanced}
use context_layer.Storage.Append.Laws.{
  Recorded, recorded, known, failed, append_with_projection-Recorded,
}
use context_layer.Storage.Append.Rows.{
  transact_lem, raw_row_v1-event_id, raw_row_v2-event_id, has_event-append, insert_raw-new,
  insert_raw-known,
}

-- The raw events of the first tables are the first ones of the second tables.
abbrev pub Grows : Database → Database → Type 0
Grows db db' = (more : List RawRow) × (db'.raw_event ≡ db.raw_event ++ more)

pub Grows-refl : (db : Database) → Grows db db
Grows-refl db = ([], sym (append-nil db.raw_event))

pub Grows-trans : (a b c : Database) → Grows a b → Grows b c → Grows a c
Grows-trans a b c (m, e) (n, f) =
    (m ++ n, f ∙ ap (λ rows. rows ++ n) e ∙ append_assoc a.raw_event m n)

has_event-more :
    (id : Uuid) (rows more : List RawRow)
    → has_event id rows ≡ true
    → has_event id (rows ++ more) ≡ true
has_event-more id [] more h = absurd (ground (arith, h))
has_event-more id (r ∷ rows) more h = ground (arith, h, has_event-more id rows more)

pub Grows-has_event :
    (id : Uuid) (db db' : Database)
    → Grows db db'
    → has_event id db.raw_event ≡ true
    → has_event id db'.raw_event ≡ true
Grows-has_event id db db' (more, e) h = rw e (has_event-more id db.raw_event more h)

abbrev pub is_duplicate : IngestOutcome → Bool
is_duplicate duplicate = true
is_duplicate inserted = false

-- What an answer about an event says: whether the event was there, and that it is now.
abbrev pub Told : Uuid → Database → Result IngestOutcome StorageError → Database → Type 0
Told id db (err _) db' = Unit
Told id db (ok outcome) db' =
    (has_event id db.raw_event ≡ is_duplicate outcome) × (has_event id db'.raw_event ≡ true)

Recorded-Told :
    (crates : Crates) (event : EventEnvelope) (db : Database)
    (r : Result IngestOutcome StorageError) (db' : Database)
    → Recorded crates event db r db'
    → Grows db db' × Told event.event_id db r db'
Recorded-Told crates event db _ _ (recorded row db' made fresh added adv) = (
  (row ∷ [], added),
  (
    fresh,
    rw added (
        has_event-append event.event_id db.raw_event row
          (raw_row_v1-event_id crates event row made)),
  ),
)
Recorded-Told crates event db _ _ (known db' there same adv) =
    (([], ap (λ d. d.raw_event) same ∙ sym (append-nil db.raw_event)), (there, rw same there))
Recorded-Told crates event db _ _ (failed e) = (Grows-refl db, tt)

pub append_with_projection-Told :
    (crates : Crates) (event : EventEnvelope) (commands : List ProjectionCommand) (db : Database)
    → Grows db (append_with_projection crates event commands db).1
      × Told event.event_id db
          (append_with_projection crates event commands db).0
          (append_with_projection crates event commands db).1
append_with_projection-Told crates event commands db =
    Recorded-Told crates event db _ _ (append_with_projection-Recorded crates event commands db)

store_v2-Told :
    (crates : Crates) (event : EventEnvelopeV2) (row : RawRow) (there : Bool) (db : Database)
    (r : IngestOutcome × Database)
    → has_event row.event_id db.raw_event ≡ there
    → store_v2 crates event row there db ≡ ok r
    → Grows db r.1 × Told row.event_id db (ok r.0) r.1
unfolding store_v2
store_v2-Told crates event row true db r t h =
    subst (λ p. Grows db p.1 × Told row.event_id db (ok p.0) p.1) (ok_inj h)
      (
        ([], insert_raw-known row db.raw_event t ∙ sym (append-nil db.raw_event)),
        (t, rw (insert_raw-known row db.raw_event t) t),
      )
store_v2-Told crates event row false db r t h =
    let (made, advanced, done) =
      bind-ok
        (advance_checkpoint crates event.source event.scope_id event.source_sequence
          (text_eq event.event_type (text "collector.gap")) event.ingested_at
          (record db { raw_event = insert_raw row db.raw_event }))
        _ r h in
    let (shape, adv) =
      advance_checkpoint-Advanced crates event.source event.scope_id event.source_sequence
        (text_eq event.event_type (text "collector.gap")) event.ingested_at
        (record db { raw_event = insert_raw row db.raw_event }) made advanced in
    let rows : made.raw_event ≡ db.raw_event ++ row ∷ [] =
      ap (λ d. d.raw_event) shape ∙ insert_raw-new row db.raw_event t in
    subst (λ p. Grows db p.1 × Told row.event_id db (ok p.0) p.1) (ok_inj done)
      ((row ∷ [], rows), (t, rw rows (has_event-append row.event_id db.raw_event row refl)))

append_body_v2-Told :
    (crates : Crates) (event : EventEnvelopeV2) (db : Database) (r : IngestOutcome × Database)
    → append_body_v2 crates event db ≡ ok r
    → Grows db r.1 × Told event.event_id db (ok r.0) r.1
unfolding append_body_v2
append_body_v2-Told crates event db r h =
    let (row, hrow, rest) = bind-ok (raw_row_v2 crates event) _ r h in
    rw (raw_row_v2-event_id crates event row hrow) (store_v2-Told crates event row _ db r refl rest)

pub append_raw_v2-Told :
    (crates : Crates) (event : EventEnvelopeV2) (db : Database)
    → Grows db (append_raw_v2 crates event db).1
      × Told event.event_id db (append_raw_v2 crates event db).0 (append_raw_v2 crates event db).1
unfolding append_raw_v2
append_raw_v2-Told crates event db =
    transact_lem (λ r db'. Grows db db' × Told event.event_id db r db')
      (append_body_v2 crates event) db (append_body_v2-Told crates event db)
      (λ e. (Grows-refl db, tt))
