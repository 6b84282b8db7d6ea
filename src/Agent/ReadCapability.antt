-- ===== src/Agent/ReadCapability.antt =====
-- apps/context-agent/src/read_capability.rs: a guarded read of the timeline, and how much one answer
-- holds. The rendering of an error as text is a parameter.
pub mod Tokens
pub mod Kept
pub mod Wire
use context_layer.Base.{
  ℕ, zero, suc, ◌+◌, ◌*◌, ◌-◌, ◌/◌, ◌%◌, ◌^◌, min, Bool, true, false, ◌&&◌, ◌||◌, ◌==◌, leb, ltb,
  not, if◌then◌else◌, Text, text, text_eq, trim, byte_len, to_bytes, is_empty, List, [], ◌∷◌, ◌++◌,
  length, take, any, Option, none, some, Result, ok, err, ◌>>=◌, map_err, ensure, ◌>>◌,
}
use mathlib.Core.Option
use context_layer.Contracts.{
  ReadCapabilityToken, ScopeId, SensitivityClass, RetrievalClass, Value, LocalTimelineCursor,
  LocalTimelineQuery, LocalTimelineEntry, LocalTimelinePage,
}
use context_layer.Core.Serde.{Serde}
use context_layer.Core.Grants.{RetrievalGrant, metadata_only}
use context_layer.Core.Timeline.{
  TimelineQuery, TimelineCursor, TimelineEntry, TimelinePage, TimelineRepository, RetrievalError,
}
use context_layer.Core.Retrieval.{query_timeline}
use context_layer.Agent.Policy.{
  is_some, unwrap_or, grant_of_profile, split_from, split, insert_scope, collect_scopes,
  policy_of_token, from_environment, xor_bits, or_bits, accumulate, constant_time_equal,
  grant_for_token, scope_allowed, text_content_allowed, authorize, ReadCapabilityPolicy,
  ConfigurationError, Environment,
}

abbrev pub max_local_page_entries : ℕ
max_local_page_entries = 20

abbrev pub max_wire_content_refs : ℕ
max_wire_content_refs = 32

abbrev pub max_wire_payload_bytes : ℕ
max_wire_payload_bytes = 32 * 1024

abbrev pub max_wire_page_bytes : ℕ
max_wire_page_bytes = 768 * 1024

pub data ReadRequestError : Type 0 where
  not_authorized : ReadRequestError
  invalid_query query_failed : Text → ReadRequestError
  configuration : ConfigurationError → ReadRequestError

unfoldable pub read_request_code : ReadRequestError → Text
read_request_code not_authorized = text "read_not_authorized"
read_request_code (invalid_query _) = text "invalid_timeline_query"
read_request_code (configuration _) = text "read_configuration_invalid"
read_request_code (query_failed _) = text "timeline_query_failed"

-- `serde_json::to_vec` at the types of an answer.
pub record WireJson : Type 0 where
  pub value_to_vec : Value → Result (List ℕ) Text
  pub page_to_vec : LocalTimelinePage → Result (List ℕ) Text

abbrev pub page_of : List LocalTimelineEntry → LocalTimelinePage
page_of entries = record { entries = entries; next_cursor = none }

abbrev pub absent_reason : RetrievalGrant → Option Value → Option Text
absent_reason grant none = some (if grant.include_payload then text "policy" else text "profile")
absent_reason grant (some _) = none

module _ (json : WireJson) where
  -- The payload of an entry on the wire, and why it is left out.
  unfoldable pub wire_payload :
      RetrievalGrant → ℕ → Option Value → Result (Option Value × Option Text) ReadRequestError
  wire_payload grant (suc omitted) payload = ok (none, some (text "content_ref_wire_limit"))
  wire_payload grant zero none = ok (none, absent_reason grant none)
  wire_payload grant zero (some value) = map_err query_failed (json.value_to_vec value) >>= λ bytes.
      if ltb max_wire_payload_bytes (length bytes)
      then ok (none, some (text "payload_wire_limit"))
      else ok (some value, none)

  unfoldable pub map_wire_entry :
      TimelineEntry → RetrievalGrant → Result LocalTimelineEntry ReadRequestError
  unfolding wire_payload
  map_wire_entry entry grant =
      let refs = take max_wire_content_refs entry.content_refs in
      let omitted = length entry.content_refs - length refs in
      wire_payload grant omitted entry.payload >>= λ shown. ok (record {
        event_id = entry.event_id;
        schema_version = entry.schema_version;
        event_type = entry.event_type;
        source = entry.source;
        source_sequence = entry.source_sequence;
        occurred_at = entry.occurred_at;
        observed_at = entry.observed_at;
        ingested_at = entry.ingested_at;
        device_id = entry.device_id;
        scope_id = entry.scope_id;
        correlation_id = entry.correlation_id;
        sensitivity = entry.sensitivity;
        content_refs = refs;
        content_refs_omitted = min omitted 4294967295;
        payload = shown.0;
        payload_omitted_reason = shown.1;
        evidence = entry.evidence;
      })

  -- What follows the encoding of a candidate page; `more` is the rest of the loop.
  unfoldable pub keep_or_stop :
      List LocalTimelineEntry
      → ℕ
      → Result (List LocalTimelineEntry × Bool) ReadRequestError
      → Result (List LocalTimelineEntry × Bool) ReadRequestError
  keep_or_stop wire size more =
      if ltb max_wire_page_bytes size
      then (if is_empty wire
          then err
              (query_failed (text "a timeline entry exceeds the bounded local API response budget"))
          else ok (wire, true))
      else more

  -- The loop over the entries: what is kept, and whether it was cut short.
  unfoldable pub wire_loop :
      RetrievalGrant
      → List LocalTimelineEntry
      → List TimelineEntry
      → Result (List LocalTimelineEntry × Bool) ReadRequestError
  unfolding map_wire_entry keep_or_stop
  wire_loop grant wire [] = ok (wire, false)
  wire_loop grant wire (e ∷ es) = map_wire_entry e grant >>= λ w.
      map_err query_failed (json.page_to_vec (page_of (wire ++ w ∷ []))) >>= λ bytes.
      keep_or_stop wire (length bytes) (wire_loop grant (wire ++ w ∷ []) es)

  abbrev pub last {ℓ} : {A : Type ℓ} → List A → Option A
  last [] = none
  last (a ∷ as') = elim (last as') [ none ↦ some a | some b ↦ some b ]

  unfoldable pub wire_cursor :
      List LocalTimelineEntry → Bool → Option TimelineCursor → Option LocalTimelineCursor
  wire_cursor wire true core =
      Option.map (λ e. record { observed_at = e.observed_at; event_id = e.event_id }) (last wire)
  wire_cursor wire false core =
      Option.map (λ c. record { observed_at = c.observed_at; event_id = c.event_id }) core

  unfoldable pub map_wire_page :
      List TimelineEntry
      → Option TimelineCursor
      → RetrievalGrant
      → Result LocalTimelinePage ReadRequestError
  unfolding wire_loop wire_cursor
  map_wire_page entries core grant = wire_loop grant [] entries >>= λ kept.
      ok (record { entries = kept.0; next_cursor = wire_cursor kept.0 kept.1 core })

module _ {E : Type 0} (json : WireJson) (serde : Serde) (repo : TimelineRepository E)
    (describe : RetrievalError E → Text) where
  unfoldable pub core_query : LocalTimelineQuery → TimelineQuery
  core_query query = record {
    scope_id = query.scope_id;
    start_at = query.start_at;
    end_at = query.end_at;
    before =
        Option.map (λ c. record { observed_at = c.observed_at; event_id = c.event_id })
          query.before;
    limit = query.limit;
  }

  -- The core's query as the policy's grant, if there is one; `none` is a loop that did not end.
  unfoldable pub query_granted :
      Option RetrievalGrant
      → LocalTimelineQuery
      → Option (Result LocalTimelinePage ReadRequestError)
  unfolding core_query map_wire_page
  query_granted none query = some (err not_authorized)
  query_granted (some grant) query =
      Option.map
        (λ answer. map_err (λ e. query_failed (describe e)) answer >>= λ page.
          map_wire_page json page.entries page.next_cursor grant)
        (query_timeline serde repo (core_query query) grant)

  unfoldable pub query_timeline_with_policy :
      ReadCapabilityPolicy
      → ReadCapabilityToken
      → LocalTimelineQuery
      → Option (Result LocalTimelinePage ReadRequestError)
  unfolding query_granted authorize
  query_timeline_with_policy policy authorization query =
      if not (leb 1 query.limit && leb query.limit max_local_page_entries)
      then some (err (invalid_query (text "timeline limit must be between 1 and 20")))
      else query_granted (authorize policy authorization query.scope_id) query

  unfoldable pub query_timeline_from_environment :
      Result (Option ReadCapabilityPolicy) ConfigurationError
      → ReadCapabilityToken
      → LocalTimelineQuery
      → Option (Result LocalTimelinePage ReadRequestError)
  unfolding query_timeline_with_policy
  query_timeline_from_environment (ok (some policy)) authorization query =
      query_timeline_with_policy policy authorization query
  query_timeline_from_environment (ok none) authorization query = some (err not_authorized)
  query_timeline_from_environment (err e) authorization query = some (err (configuration e))
