-- ===== src/Core/Visible/Disclosure.antt =====
-- What an entry may disclose under a grant.
use context_layer.Base.{
  ◌≤◌, ◌≡◌, ◌≢◌, refl, true, List, [], ◌∷◌, length, All, Bool-cases, leb→le, none, some, Result, ok,
  Text, inl, inr, arith, ◌⊎◌, Result-cases,
}
use context_layer.Contracts.{
  Uuid, ScopeId, SensitivityClass, RetrievalClass, Value, ContentRef, EventEnvelope,
  EventEnvelopeV2,
}
use context_layer.Core.Serde.{Serde}
use context_layer.Core.Grants.{
  RetrievalGrant, sensitivity_rank, sensitivity_allowed, filter_refs, refs_from_v1_payload, Within,
  retrieval_class_allowed, Within-of_length, sensitivity_allowed-le,
}
use context_layer.Core.Timeline.{TimelineEntry, RawTimelineRecord}
use context_layer.Core.Visible.{shows_payload, visible_v1, visible_v2, decode_visible_entry}

-- What matters of an event, apart from its version. `value` is its payload as JSON.
pub record HeldEvent : Type 0 where
  pub event_id : Uuid
  pub scope_id : ScopeId
  pub sensitivity : SensitivityClass
  pub refs : List ContentRef
  pub value : Result Value Text

abbrev pub held_v1 : Serde → EventEnvelope → HeldEvent
held_v1 serde env = record {
  event_id = env.event_id;
  scope_id = env.scope_id;
  sensitivity = env.sensitivity;
  refs = refs_from_v1_payload env.payload;
  value = serde.payload_to_value env.payload;
}

abbrev pub held_v2 : EventEnvelopeV2 → HeldEvent
held_v2 env = record {
  event_id = env.event_id;
  scope_id = env.scope_id;
  sensitivity = env.sensitivity;
  refs = env.content_refs;
  value = ok env.payload;
}

-- The event that a record holds.
pub data Holds (serde : Serde) (r : RawTimelineRecord) (event : HeldEvent) : Type 0 where
  of_v1 :
      (env : EventEnvelope)
      → r.schema_version ≡ 1
      → serde.decode_v1 r.envelope_json ≡ ok env
      → event ≡ held_v1 serde env
      → Holds serde r event
  of_v2 :
      (env : EventEnvelopeV2)
      → r.schema_version ≡ 2
      → serde.decode_v2 r.envelope_json ≡ ok env
      → event ≡ held_v2 env
      → Holds serde r event

-- The second list has exactly the references of the first within the class, in their order.
pub data Picks (maximum : RetrievalClass) : List ContentRef → List ContentRef → Type 0 where
  done : Picks maximum [] []
  keep :
      {r : ContentRef} {rs picked : List ContentRef}
      → Within maximum r
      → Picks maximum rs picked
      → Picks maximum (r ∷ rs) (r ∷ picked)
  skip :
      {r : ContentRef} {rs picked : List ContentRef}
      → (Within maximum r → ⊥)
      → Picks maximum rs picked
      → Picks maximum (r ∷ rs) picked

filter_refs-Picks :
    (refs : List ContentRef) (maximum : RetrievalClass)
    → Picks maximum refs (filter_refs refs maximum)
unfolding filter_refs
filter_refs-Picks [] maximum = done
filter_refs-Picks (r ∷ rs) maximum =
    elim (Bool-cases (retrieval_class_allowed r.retrieval_class maximum)) [
      | inl within ↦ rw within (keep (leb→le _ _ within) (filter_refs-Picks rs maximum))
      | inr beyond ↦
          rw beyond (skip (λ within. ground (arith, beyond, within)) (filter_refs-Picks rs maximum))
    ]

-- The entry tells of the event, and stays within the grant.
pub record Permitted (grant : RetrievalGrant) (event : HeldEvent) (e : TimelineEntry) : Type 0 where
  pub event_id : e.event_id ≡ event.event_id
  pub scope_id : e.scope_id ≡ event.scope_id
  pub sensitivity : e.sensitivity ≡ event.sensitivity
  pub event_level :
      sensitivity_rank event.sensitivity ≤ sensitivity_rank grant.max_event_sensitivity
  pub refs_picked : Picks grant.max_content_retrieval event.refs e.content_refs
  pub payload_own : (v : Value) → e.payload ≡ some v → event.value ≡ ok v
  pub payload_granted : e.payload ≢ none → grant.include_payload ≡ true
  pub payload_whole : e.payload ≢ none → All (Within grant.max_content_retrieval) event.refs

-- What the code establishes of an entry that it shows.
record Shown (grant : RetrievalGrant) (event : HeldEvent) (e : TimelineEntry) : Type 0 where
  same_id : e.event_id ≡ event.event_id
  same_scope : e.scope_id ≡ event.scope_id
  same_sensitivity : e.sensitivity ≡ event.sensitivity
  allowed : sensitivity_allowed event.sensitivity grant.max_event_sensitivity ≡ true
  filtered : e.content_refs ≡ filter_refs event.refs grant.max_content_retrieval
  own : (v : Value) → e.payload ≡ some v → event.value ≡ ok v
  payload_kept :
      e.payload ≢ none
      → shows_payload grant (filter_refs event.refs grant.max_content_retrieval) event.refs ≡ true

shows_payload-length :
    (grant : RetrievalGrant) (visible refs : List ContentRef)
    → shows_payload grant visible refs ≡ true
    → (grant.include_payload ≡ true) × (length visible ≡ length refs)
unfolding shows_payload
shows_payload-length grant visible refs h = ground arith

Shown-Permitted :
    (grant : RetrievalGrant) (event : HeldEvent) (e : TimelineEntry)
    → Shown grant event e
    → Permitted grant event e
Shown-Permitted grant event e h = record {
  event_id = h.same_id;
  scope_id = h.same_scope;
  sensitivity = h.same_sensitivity;
  event_level = sensitivity_allowed-le _ _ h.allowed;
  refs_picked = rw h.filtered (filter_refs-Picks event.refs grant.max_content_retrieval);
  payload_own = h.own;
  payload_granted = λ p. (shows_payload-length grant _ event.refs (h.payload_kept p)).0;
  payload_whole = λ p.
      Within-of_length event.refs _ (shows_payload-length grant _ event.refs (h.payload_kept p)).1;
}

visible_v2-Shown :
    (env : EventEnvelopeV2) (grant : RetrievalGrant) (e : TimelineEntry)
    → visible_v2 env grant ≡ some e
    → Shown grant (held_v2 env) e
unfolding visible_v2
visible_v2-Shown env grant e h = ground arith

visible_v1-Shown :
    {E : Type 0} (serde : Serde) (id : Uuid) (env : EventEnvelope) (grant : RetrievalGrant)
    (e : TimelineEntry)
    → visible_v1 {E = E} serde id env grant ≡ ok (some e)
    → Shown grant (held_v1 serde env) e
unfolding visible_v1
visible_v1-Shown serde id env grant e h = ground arith

-- The entry tells of the event of some record with the property, and discloses no more of it than the
-- grant permits.
abbrev pub Vouched : Serde → RetrievalGrant → (RawTimelineRecord → Type 0) → TimelineEntry → Type 0
Vouched serde grant From e =
    (r : RawTimelineRecord) × From r
    × ((event : HeldEvent) × Holds serde r event × Permitted grant event e)

abbrev Told : Serde → RetrievalGrant → RawTimelineRecord → TimelineEntry → Type 0
Told serde grant r e = (event : HeldEvent) × Holds serde r event × Permitted grant event e

decode_v1-Told :
    {E : Type 0} (serde : Serde) (r : RawTimelineRecord) (grant : RetrievalGrant)
    (e : TimelineEntry)
    → r.schema_version ≡ 1
    → decode_visible_entry {E = E} serde r grant ≡ ok (some e)
    → Told serde grant r e
unfolding decode_visible_entry
decode_v1-Told {E} serde r grant e v h = elim (Result-cases (serde.decode_v1 r.envelope_json)) [
  | inl (env, d) ↦ (
    held_v1 serde env,
    of_v1 env v d refl,
    Shown-Permitted grant _ e
        (visible_v1-Shown {E = E} serde r.event_id env grant e (ground arith)),
  )
  | inr (m, d) ↦ absurd (ground arith)
]

decode_v2-Told :
    {E : Type 0} (serde : Serde) (r : RawTimelineRecord) (grant : RetrievalGrant)
    (e : TimelineEntry)
    → r.schema_version ≡ 2
    → decode_visible_entry {E = E} serde r grant ≡ ok (some e)
    → Told serde grant r e
unfolding decode_visible_entry
decode_v2-Told serde r grant e v h = elim (Result-cases (serde.decode_v2 r.envelope_json)) [
  | inl (env, d) ↦ (
    held_v2 env,
    of_v2 env v d refl,
    Shown-Permitted grant _ e (visible_v2-Shown env grant e (ground arith)),
  )
  | inr (m, d) ↦ absurd (ground arith)
]

decode_version :
    {E : Type 0} (serde : Serde) (r : RawTimelineRecord) (grant : RetrievalGrant)
    (e : TimelineEntry)
    → decode_visible_entry {E = E} serde r grant ≡ ok (some e)
    → (r.schema_version ≡ 1) ⊎ (r.schema_version ≡ 2)
unfolding decode_visible_entry
decode_version serde r grant e h = ground arith

pub decode_visible_entry-Vouched :
    {E : Type 0} (serde : Serde) (r : RawTimelineRecord) (grant : RetrievalGrant)
    (From : RawTimelineRecord → Type 0) (e : TimelineEntry)
    → From r
    → decode_visible_entry {E = E} serde r grant ≡ ok (some e)
    → Vouched serde grant From e
decode_visible_entry-Vouched serde r grant From e origin h =
    elim (decode_version serde r grant e h) [
      | inl v ↦ (r, origin, decode_v1-Told serde r grant e v h)
      | inr v ↦ (r, origin, decode_v2-Told serde r grant e v h)
    ]
