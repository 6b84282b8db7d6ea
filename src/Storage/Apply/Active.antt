-- ===== src/Storage/Apply/Active.antt =====
-- At most one location of an artifact is active.
use context_layer.Base.{
  ℕ, ◌+◌, ◌≤◌, ◌≡◌, refl, ap, subst, false, any, ◌==◌, ◌&&◌, not, Bool-cases, inl, inr,
  if◌then◌else◌, Text, List, [], ◌∷◌, map, Option, none, some, ok, ◌>>◌, ensure, bind-ok, ok_inj,
  arith,
}
use context_layer.Contracts.{Uuid, OffsetDateTime, FileIdentity, FileChange, ScopeId}
use context_layer.Storage.Tables.{
  Crates, LocationRow, Database, format_time, to_sql_option, find_artifact,
}
use context_layer.Core.Projection.{
  ProjectionCommand, upsert_task, upsert_artifact_location, store_pending_download,
  add_observed_download_edge, record_collector_gap,
}
use context_layer.Storage.Apply.{
  at_place, retire, deactivate, upsert_location, other_active, insert_artifact, found_or,
  get_or_create_artifact, references_event, delete_location, place_location, apply_location,
  apply_edge, apply_pending, apply_command, apply_commands, is_deleted, constraint_failed,
}

-- The number of active locations of an artifact.
unfoldable pub active_count : Uuid → List LocationRow → ℕ
active_count id [] = 0
active_count id (l ∷ ls) = (if l.active && (l.artifact_id == id) then 1 else 0) + active_count id ls

-- After the statement that clears the artifact, none of its locations is active.
pub active_count-deactivate :
    (id : Uuid) (ls : List LocationRow) → active_count id (map (deactivate id) ls) ≡ 0
unfolding active_count
active_count-deactivate id [] = refl
active_count-deactivate id (l ∷ ls) = ground (arith, active_count-deactivate id ls)

pub active_count-deactivate_other :
    (id other : Uuid) (ls : List LocationRow)
    → (id == other) ≡ false
    → active_count other (map (deactivate id) ls) ≡ active_count other ls
unfolding active_count
active_count-deactivate_other id other [] h = refl
active_count-deactivate_other id other (l ∷ ls) h =
    ground (arith, active_count-deactivate_other id other ls h)

pub active_count-upsert :
    (new : LocationRow) (ls : List LocationRow)
    → active_count new.artifact_id ls ≡ 0
    → active_count new.artifact_id (upsert_location new ls) ≤ 1
unfolding active_count upsert_location
active_count-upsert new [] h = ground arith
active_count-upsert new (l ∷ ls) h = ground (arith, active_count-upsert new ls)

pub active_count-upsert_other :
    (new : LocationRow) (other : Uuid) (ls : List LocationRow)
    → (new.artifact_id == other) ≡ false
    → active_count other (upsert_location new ls) ≡ active_count other ls
unfolding active_count upsert_location
active_count-upsert_other new other [] h = ground arith
active_count-upsert_other new other (l ∷ ls) h =
    ground (arith, active_count-upsert_other new other ls h)

pub active_count-retire :
    (id other : Uuid) (path observed : Text) (change : FileChange) (event : Uuid)
    (ls : List LocationRow)
    → active_count other (map (retire id path observed change event) ls) ≤ active_count other ls
unfolding active_count
active_count-retire id other path observed change event [] = ground arith
active_count-retire id other path observed change event (l ∷ ls) =
    ground (arith, active_count-retire id other path observed change event ls)

-- The partial unique index is never violated by the row that follows the clearing statement.
pub other_active-deactivate :
    (new : LocationRow) (ls : List LocationRow)
    → other_active new (map (deactivate new.artifact_id) ls) ≡ false
other_active-deactivate new [] = refl
other_active-deactivate new (l ∷ ls) = ground (arith, other_active-deactivate new ls)

-- The invariant of the index one_active_location_per_artifact.
pub record OneActive (db : Database) : Type 0 where
  pub at_most_one : (id : Uuid) → active_count id db.location ≤ 1

found_or-location :
    (crates : Crates) (identity : FileIdentity) (db db' : Database) (o : Option Uuid) (id : Uuid)
    → found_or crates identity db o ≡ ok (id, db')
    → db.location ≡ db'.location
unfolding found_or insert_artifact
found_or-location crates identity db db' (some known) id h = ap (λ p. p.1.location) (ok_inj h)
found_or-location crates identity db db' none id h =
    elim (Bool-cases (any (λ a. a.artifact_id == crates.new_artifact_id db.minted) db.artifact)) [
      | inl t ↦ absurd (ground (arith, rw t at h))
      | inr t ↦ ap (λ p. p.1.location) (ok_inj (rw t at h))
    ]

pub carried : {db db' : Database} → db.location ≡ db'.location → OneActive db → OneActive db'
carried e w = record { at_most_one = λ id. rw (← e) (w.at_most_one id) }

created-OneActive :
    (crates : Crates) (identity : FileIdentity) (db db' : Database) (id : Uuid)
    → get_or_create_artifact crates identity db ≡ ok (id, db')
    → OneActive db
    → OneActive db'
unfolding get_or_create_artifact
created-OneActive crates identity db db' id h =
    carried (found_or-location crates identity db db' (find_artifact identity db) id h)

delete_location-OneActive :
    (crates : Crates) (path : Text) (change : FileChange) (event : Uuid)
    (observed_at : OffsetDateTime) (o : Option Uuid) (db db' : Database)
    → delete_location crates path change event observed_at o db ≡ ok db'
    → OneActive db
    → OneActive db'
unfolding delete_location
delete_location-OneActive crates path change event observed_at none db db' h w =
    subst OneActive (ok_inj h) w
delete_location-OneActive crates path change event observed_at (some id) db db' h w =
    let (observed, formatted, rest) = bind-ok (format_time crates observed_at) _ db' h in
    let (u, checked, done) =
      bind-ok (if any (at_place id path) db.location then references_event event db else ok tt) _
        db' rest in
    record {
      at_most_one = λ other. rw (← ap (λ d. d.location) (ok_inj done)) (
          omega (
            arith,
            active_count-retire id other path observed change event db.location,
            w.at_most_one other,
          ));
    }

placed-le :
    (new : LocationRow) (id : Uuid) (ls : List LocationRow)
    → active_count id ls ≤ 1
    → active_count id (upsert_location new (map (deactivate new.artifact_id) ls)) ≤ 1
placed-le new id ls h = elim (Bool-cases (new.artifact_id == id)) [
  | inl t ↦
      let e : new.artifact_id ≡ id = ground (arith, t) in
      rw (← e) (
        active_count-upsert new (map (deactivate new.artifact_id) ls)
          (active_count-deactivate new.artifact_id ls))
  | inr t ↦
      rw
        (
          active_count-upsert_other new id (map (deactivate new.artifact_id) ls) t,
          active_count-deactivate_other new.artifact_id id ls t,
        )
        h
]

place_location-OneActive :
    (new : LocationRow) (db db' : Database)
    → place_location new db ≡ ok db'
    → OneActive db
    → OneActive db'
unfolding place_location
place_location-OneActive new db db' h w =
    let (u, m, rest) =
      bind-ok
        (ensure (not (other_active new (map (deactivate new.artifact_id) db.location)))
            (constraint_failed "UNIQUE location.artifact_id")
          >> references_event new.source_event_id db)
        _ db' h in
    record {
      at_most_one = λ id.
          rw (← ap (λ d. d.location) (ok_inj rest))
            (placed-le new id db.location (w.at_most_one id));
    }

apply_location-OneActive :
    (crates : Crates) (identity : FileIdentity) (path : Text) (scope_id : ScopeId)
    (observed_at : OffsetDateTime) (change : FileChange) (event : Uuid) (db db' : Database)
    → apply_location crates identity path scope_id observed_at change event db ≡ ok db'
    → OneActive db
    → OneActive db'
unfolding apply_location
apply_location-OneActive crates identity path scope_id observed_at change event db db' h w =
    elim (Bool-cases (is_deleted change)) [
      | inl t ↦
          delete_location-OneActive crates path change event observed_at (find_artifact identity db)
            db db' (rw t at h) w
      | inr t ↦
          let ((id, made), created, rest) =
            bind-ok (get_or_create_artifact crates identity db) _ db' (rw t at h) in
          let (observed, m, placed) = bind-ok (format_time crates observed_at) _ db' rest in
          place_location-OneActive _ made db' placed
            (created-OneActive crates identity db made id created w)
    ]

apply_command-OneActive :
    (crates : Crates) (c : ProjectionCommand) (db db' : Database)
    → apply_command crates c db ≡ ok db'
    → OneActive db
    → OneActive db'
unfolding apply_command apply_edge apply_pending
apply_command-OneActive crates (upsert_task id name at) db db' h w =
    let (started, m, done) = bind-ok (format_time crates at) _ db' h in
    carried (ap (λ d. d.location) (ok_inj done)) w
apply_command-OneActive crates (upsert_artifact_location identity path scope_id at change event) db
      db' h w =
    apply_location-OneActive crates identity path scope_id at change event db db' h w
apply_command-OneActive crates (store_pending_download id url referrer path at event) db db' h w =
    let (observed, m, rest) = bind-ok (format_time crates at) _ db' h in
    let (u, checked, done) = bind-ok (references_event event db) _ db' rest in
    carried (ap (λ d. d.location) (ok_inj done)) w
apply_command-OneActive crates (add_observed_download_edge id identity url events at) db db' h w =
    let ((artifact, made), created, rest) =
      bind-ok (get_or_create_artifact crates identity db) _ db' h in
    let (observed, m, done) = bind-ok (format_time crates at) _ db' rest in
    carried (ap (λ d. d.location) (ok_inj done))
      (created-OneActive crates identity db made artifact created w)
apply_command-OneActive crates (record_collector_gap collector last reason at) db db' h w =
    let (observed, m, rest) = bind-ok (format_time crates at) _ db' h in
    let (sequence, n, done) = bind-ok (to_sql_option last) _ db' rest in
    carried (ap (λ d. d.location) (ok_inj done)) w

pub apply_commands-OneActive :
    (crates : Crates) (cs : List ProjectionCommand) (db db' : Database)
    → apply_commands crates cs db ≡ ok db'
    → OneActive db
    → OneActive db'
unfolding apply_commands
apply_commands-OneActive crates [] db db' h w = subst OneActive (ok_inj h) w
apply_commands-OneActive crates (c ∷ cs) db db' h w =
    let (made, first, rest) = bind-ok (apply_command crates c db) _ db' h in
    apply_commands-OneActive crates cs made db' rest
      (apply_command-OneActive crates c db made first w)
