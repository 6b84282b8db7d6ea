-- ===== src/Storage/Apply/Frame.antt =====
-- What a projection leaves alone: the raw events and the checkpoints.
use context_layer.Base.{
  ◌≡◌, refl, ap, ◌∙◌, subst, any, ◌==◌, not, Bool-cases, inl, inr, if◌then◌else◌, Text, List, [],
  ◌∷◌, map, Option, none, some, Result, ok, ◌>>◌, ensure, bind-ok, ok_inj, arith,
}
use context_layer.Contracts.{Uuid, OffsetDateTime, FileIdentity, FileChange, ScopeId}
use context_layer.Core.Projection.{
  ProjectionCommand, upsert_task, upsert_artifact_location, store_pending_download,
  add_observed_download_edge, record_collector_gap,
}
use context_layer.Storage.Tables.{
  Crates, StorageError, LocationRow, PendingRow, Database, format_time, to_sql_option,
  find_artifact,
}
use context_layer.Storage.Apply.{
  insert_artifact, found_or, get_or_create_artifact, at_place, references_event, retire,
  delete_location, place_location, apply_location, apply_edge, apply_pending, apply_command,
  apply_commands, is_deleted, other_active, deactivate, constraint_failed,
}

-- The second database has the evidence of the first.
pub record SameEvidence (db db' : Database) : Type 0 where
  pub raw_event : db'.raw_event ≡ db.raw_event
  pub collector_checkpoint : db'.collector_checkpoint ≡ db.collector_checkpoint

abbrev same : (db : Database) → SameEvidence db db
same db = record { raw_event = refl; collector_checkpoint = refl }

abbrev via : {a b c : Database} → SameEvidence a b → SameEvidence b c → SameEvidence a c
via s t = record {
  raw_event = t.raw_event ∙ s.raw_event;
  collector_checkpoint = t.collector_checkpoint ∙ s.collector_checkpoint;
}

-- The database of a result that is given written out.
abbrev at_ok :
    {db made db' : Database}
    → SameEvidence db made
    → ◌≡◌ {A = Result Database StorageError} (ok made) (ok db')
    → SameEvidence db db'
at_ok {db = db} s h = subst (SameEvidence db) (ok_inj h) s

found_or-same :
    (crates : Crates) (identity : FileIdentity) (db db' : Database) (o : Option Uuid) (id : Uuid)
    → found_or crates identity db o ≡ ok (id, db')
    → SameEvidence db db'
unfolding found_or insert_artifact
found_or-same crates identity db db' (some known) id h =
    subst (SameEvidence db) (ap (λ p. p.1) (ok_inj h)) (same db)
found_or-same crates identity db db' none id h =
    elim (Bool-cases (any (λ a. a.artifact_id == crates.new_artifact_id db.minted) db.artifact)) [
      | inl t ↦ absurd (ground (arith, rw t at h))
      | inr t ↦
          subst (SameEvidence db) (ap (λ p. p.1) (ok_inj (rw t at h)))
            (record { raw_event = refl; collector_checkpoint = refl })
    ]

get_or_create_artifact-same :
    (crates : Crates) (identity : FileIdentity) (db db' : Database) (id : Uuid)
    → get_or_create_artifact crates identity db ≡ ok (id, db')
    → SameEvidence db db'
unfolding get_or_create_artifact
get_or_create_artifact-same crates identity db db' id h =
    found_or-same crates identity db db' (find_artifact identity db) id h

delete_location-same :
    (crates : Crates) (path : Text) (change : FileChange) (event : Uuid)
    (observed_at : OffsetDateTime) (o : Option Uuid) (db db' : Database)
    → delete_location crates path change event observed_at o db ≡ ok db'
    → SameEvidence db db'
unfolding delete_location
delete_location-same crates path change event observed_at none db db' h = at_ok (same db) h
delete_location-same crates path change event observed_at (some id) db db' h =
    let (observed, formatted, rest) = bind-ok (format_time crates observed_at) _ db' h in
    let (u, checked, done) =
      bind-ok (if any (at_place id path) db.location then references_event event db else ok tt)
        (λ _. ok (record db { location = map (retire id path observed change event) db.location }))
        db' rest in
    at_ok (record { raw_event = refl; collector_checkpoint = refl }) done

place_location-same :
    (new : LocationRow) (db db' : Database) → place_location new db ≡ ok db' → SameEvidence db db'
unfolding place_location
place_location-same new db db' h =
    let (u, m, rest) =
      bind-ok
        (ensure (not (other_active new (map (deactivate new.artifact_id) db.location)))
            (constraint_failed "UNIQUE location.artifact_id")
          >> references_event new.source_event_id db)
        _ db' h in
    at_ok (record { raw_event = refl; collector_checkpoint = refl }) rest

apply_location-same :
    (crates : Crates) (identity : FileIdentity) (path : Text) (scope_id : ScopeId)
    (observed_at : OffsetDateTime) (change : FileChange) (event : Uuid) (db db' : Database)
    → apply_location crates identity path scope_id observed_at change event db ≡ ok db'
    → SameEvidence db db'
unfolding apply_location
apply_location-same crates identity path scope_id observed_at change event db db' h =
    elim (Bool-cases (is_deleted change)) [
      | inl t ↦
          delete_location-same crates path change event observed_at (find_artifact identity db) db
            db' (rw t at h)
      | inr t ↦
          let ((id, made), created, rest) =
            bind-ok (get_or_create_artifact crates identity db) _ db' (rw t at h) in
          let (observed, m, placed) = bind-ok (format_time crates observed_at) _ db' rest in
          via (get_or_create_artifact-same crates identity db made id created)
            (place_location-same _ made db' placed)
    ]

apply_edge-same :
    (crates : Crates) (download : Uuid) (identity : FileIdentity) (url : Text) (events : List Uuid)
    (observed_at : OffsetDateTime) (db db' : Database)
    → apply_edge crates download identity url events observed_at db ≡ ok db'
    → SameEvidence db db'
unfolding apply_edge
apply_edge-same crates download identity url events observed_at db db' h =
    let ((id, made), created, rest) = bind-ok (get_or_create_artifact crates identity db) _ db' h in
    let (observed, m, done) = bind-ok (format_time crates observed_at) _ db' rest in
    via (get_or_create_artifact-same crates identity db made id created)
      (at_ok (record { raw_event = refl; collector_checkpoint = refl }) done)

apply_pending-same :
    (crates : Crates) (new : PendingRow) (observed_at : OffsetDateTime) (db db' : Database)
    → apply_pending crates new observed_at db ≡ ok db'
    → SameEvidence db db'
unfolding apply_pending
apply_pending-same crates new observed_at db db' h =
    let (observed, m, rest) = bind-ok (format_time crates observed_at) _ db' h in
    let (u, checked, done) = bind-ok (references_event new.source_event_id db) _ db' rest in
    at_ok (record { raw_event = refl; collector_checkpoint = refl }) done

pub apply_command-same :
    (crates : Crates) (c : ProjectionCommand) (db db' : Database)
    → apply_command crates c db ≡ ok db'
    → SameEvidence db db'
unfolding apply_command
apply_command-same crates (upsert_task id name at) db db' h =
    let (started, m, done) = bind-ok (format_time crates at) _ db' h in
    at_ok (record { raw_event = refl; collector_checkpoint = refl }) done
apply_command-same crates (upsert_artifact_location identity path scope_id at change event) db db'
      h =
    apply_location-same crates identity path scope_id at change event db db' h
apply_command-same crates (store_pending_download id url referrer path at event) db db' h =
    apply_pending-same crates
      (record {
        download_id = id;
        url = url;
        referrer = referrer;
        final_path = path;
        observed_at = [];
        source_event_id = event;
        matched_at = none;
      })
      at db db' h
apply_command-same crates (add_observed_download_edge id identity url events at) db db' h =
    apply_edge-same crates id identity url events at db db' h
apply_command-same crates (record_collector_gap collector last reason at) db db' h =
    let (observed, m, rest) = bind-ok (format_time crates at) _ db' h in
    let (sequence, n, done) = bind-ok (to_sql_option last) _ db' rest in
    at_ok (record { raw_event = refl; collector_checkpoint = refl }) done

pub apply_commands-same :
    (crates : Crates) (cs : List ProjectionCommand) (db db' : Database)
    → apply_commands crates cs db ≡ ok db'
    → SameEvidence db db'
unfolding apply_commands
apply_commands-same crates [] db db' h = at_ok (same db) h
apply_commands-same crates (c ∷ cs) db db' h =
    let (made, first, rest) = bind-ok (apply_command crates c db) _ db' h in
    via (apply_command-same crates c db made first) (apply_commands-same crates cs made db' rest)
