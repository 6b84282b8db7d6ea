-- ===== src/Agent/ReadCapability/Kept.antt =====
-- What the loop over the entries of a page keeps, and why it stops.
use context_layer.Base.{
  ℕ, zero, suc, ◌-◌, ◌<◌, ◌≤◌, ◌≡◌, refl, ap, sym, ◌∙◌, subst, Bool, true, false, ltb, ltb→lt,
  if◌then◌else◌, Bool-cases, inl, inr, ◌⊎◌, Text, text, is_empty, List, [], ◌∷◌, ◌++◌, append_assoc,
  append-nil, length, take, Option, none, some, Result, ok, err, map_err, map_err-ok, bind-ok,
  ok_inj, arith,
}
use context_layer.Contracts.{Value, LocalTimelineEntry}
use context_layer.Core.Grants.{RetrievalGrant}
use context_layer.Core.Timeline.{TimelineEntry}
use context_layer.Agent.ReadCapability.{
  WireJson, ReadRequestError, query_failed, page_of, max_wire_page_bytes, max_wire_content_refs,
  max_wire_payload_bytes, wire_payload, map_wire_entry, keep_or_stop, wire_loop,
}

-- An entry of the wire stands for one of the core.
pub record Carries (entry : TimelineEntry) (w : LocalTimelineEntry) : Type 0 where
  pub event_id : w.event_id ≡ entry.event_id
  pub scope_id : w.scope_id ≡ entry.scope_id
  pub observed_at : w.observed_at ≡ entry.observed_at
  pub sensitivity : w.sensitivity ≡ entry.sensitivity
  pub content_refs : w.content_refs ≡ take max_wire_content_refs entry.content_refs
  pub payload : (w.payload ≡ none) ⊎ (w.payload ≡ entry.payload)

-- The entries of the wire stand for the first entries of the core, `left` being the others.
pub data CarryAll : List TimelineEntry → List LocalTimelineEntry → List TimelineEntry → Type 0 where
  carried_none : (left : List TimelineEntry) → CarryAll left [] left
  carried :
      (e : TimelineEntry) (es left : List TimelineEntry) (w : LocalTimelineEntry)
      (ws : List LocalTimelineEntry)
      → Carries e w
      → CarryAll es ws left
      → CarryAll (e ∷ es) (w ∷ ws) left

wire_payload-shown :
    (json : WireJson) (grant : RetrievalGrant) (omitted : ℕ) (payload : Option Value)
    (shown : Option Value × Option Text)
    → wire_payload json grant omitted payload ≡ ok shown
    → (shown.0 ≡ none) ⊎ (shown.0 ≡ payload)
unfolding wire_payload
wire_payload-shown json grant (suc omitted) payload shown h = inl (sym (ap (λ p. p.0) (ok_inj h)))
wire_payload-shown json grant zero none shown h = inl (sym (ap (λ p. p.0) (ok_inj h)))
wire_payload-shown json grant zero (some value) shown h =
    let (bytes, encoded, rest) =
      bind-ok (map_err query_failed (json.value_to_vec value)) _ shown h in
    elim (Bool-cases (ltb max_wire_payload_bytes (length bytes))) [
      | inl t ↦ inl (sym (ap (λ p. p.0) (ok_inj (rw t at rest))))
      | inr t ↦ inr (sym (ap (λ p. p.0) (ok_inj (rw t at rest))))
    ]

map_wire_entry-Carries :
    (json : WireJson) (entry : TimelineEntry) (grant : RetrievalGrant) (w : LocalTimelineEntry)
    → map_wire_entry json entry grant ≡ ok w
    → Carries entry w
unfolding map_wire_entry
map_wire_entry-Carries json entry grant w h =
    let (shown, hs, done) =
      bind-ok
        (wire_payload json grant
          (length entry.content_refs - length (take max_wire_content_refs entry.content_refs))
          entry.payload)
        _ w h in
    subst (Carries entry) (ok_inj done) (record {
      event_id = refl;
      scope_id = refl;
      observed_at = refl;
      sensitivity = refl;
      content_refs = refl;
      payload = wire_payload-shown json grant _ entry.payload shown hs;
    })

-- The encoding of a page without its cursor fits the response.
abbrev pub Fits : WireJson → List LocalTimelineEntry → Type 0
Fits json wire =
    (bytes : List ℕ) × (json.page_to_vec (page_of wire) ≡ ok bytes)
    × (length bytes ≤ max_wire_page_bytes)

-- With the next entry that it leaves out, the page would not fit.
pub record Overflows (json : WireJson) (kept : List LocalTimelineEntry) (left : List TimelineEntry)
    : Type 0 where
  pub next : TimelineEntry
  pub after : List TimelineEntry
  pub is_next : left ≡ next ∷ after
  pub w : LocalTimelineEntry
  pub stands : Carries next w
  pub bytes : List ℕ
  pub encoded : json.page_to_vec (page_of (kept ++ w ∷ [])) ≡ ok bytes
  pub over : max_wire_page_bytes < length bytes

-- How the loop over the entries went, from what it had already.
pub record Kept (json : WireJson) (wire : List LocalTimelineEntry) (entries : List TimelineEntry)
    (kept : List LocalTimelineEntry) (cut : Bool) : Type 0 where
  pub added : List LocalTimelineEntry
  pub all_kept : kept ≡ wire ++ added
  pub left : List TimelineEntry
  pub carry : CarryAll entries added left
  pub uncut : cut ≡ false → left ≡ []
  pub cut_short : cut ≡ true → (is_empty kept ≡ false) × (is_empty left ≡ false)
  pub fits : (kept ≡ wire) ⊎ Fits json kept
  pub full : (left ≡ []) ⊎ Overflows json kept left

abbrev RunOf :
    WireJson
    → List LocalTimelineEntry
    → List TimelineEntry
    → List LocalTimelineEntry × Bool
    → Type 0
RunOf json wire entries r = Kept json wire entries r.0 r.1

step-Kept :
    (json : WireJson) (wire : List LocalTimelineEntry) (e : TimelineEntry) (es : List TimelineEntry)
    (w : LocalTimelineEntry) (bytes : List ℕ)
    (more : Result (List LocalTimelineEntry × Bool) ReadRequestError)
    (r : List LocalTimelineEntry × Bool)
    → Carries e w
    → json.page_to_vec (page_of (wire ++ w ∷ [])) ≡ ok bytes
    → (more ≡ ok r → RunOf json (wire ++ w ∷ []) es r)
    → keep_or_stop json wire (length bytes) more ≡ ok r
    → RunOf json wire (e ∷ es) r
unfolding keep_or_stop
step-Kept json wire e es w bytes more r c encoded later h =
    elim (Bool-cases (ltb max_wire_page_bytes (length bytes))) [
      | inl t ↦
          stopped wire
            (record {
              next = e;
              after = es;
              is_next = refl;
              w = w;
              stands = c;
              bytes = bytes;
              encoded = encoded;
              over = ltb→lt _ _ t;
            })
            (rw t at h)
      | inr t ↦ continued (later (rw t at h)) (ground (arith, t))
    ]
  where
    stopped :
        (wire : List LocalTimelineEntry)
        → Overflows json wire (e ∷ es)
        → (if is_empty wire
            then err (
                query_failed
                  (text "a timeline entry exceeds the bounded local API response budget"))
            else ok (wire, true))
          ≡ ok r
        → RunOf json wire (e ∷ es) r
    stopped [] full h' = absurd (ground arith)
    stopped (v ∷ vs) full h' = subst (RunOf json (v ∷ vs) (e ∷ es)) (ok_inj h') (record {
      added = [];
      all_kept = sym (append-nil (v ∷ vs));
      left = e ∷ es;
      carry = carried_none (e ∷ es);
      uncut = λ f. absurd (ground arith);
      cut_short = λ _. (refl, refl);
      fits = inl refl;
      full = inr full;
    })

    continued :
        RunOf json (wire ++ w ∷ []) es r
        → length bytes ≤ max_wire_page_bytes
        → RunOf json wire (e ∷ es) r
    continued k small = record {
      added = w ∷ k.added;
      all_kept = k.all_kept ∙ append_assoc wire (w ∷ []) k.added;
      left = k.left;
      carry = carried e es k.left w k.added c k.carry;
      uncut = k.uncut;
      cut_short = k.cut_short;
      fits = elim (k.fits) [ inl same ↦ inr (bytes, rw same encoded, small) | inr f ↦ inr f ];
      full = k.full;
    }

pub wire_loop-Kept :
    (json : WireJson) (grant : RetrievalGrant) (wire : List LocalTimelineEntry)
    (entries : List TimelineEntry) (r : List LocalTimelineEntry × Bool)
    → wire_loop json grant wire entries ≡ ok r
    → RunOf json wire entries r
unfolding wire_loop
wire_loop-Kept json grant wire [] r h = subst (RunOf json wire []) (ok_inj h) (record {
  added = [];
  all_kept = sym (append-nil wire);
  left = [];
  carry = carried_none [];
  uncut = λ _. refl;
  cut_short = λ f. absurd (ground arith);
  fits = inl refl;
  full = inl refl;
})
wire_loop-Kept json grant wire (e ∷ es) r h =
    let (w, mapped, h1) = bind-ok (map_wire_entry json e grant) _ r h in
    let (bytes, encoded, h2) =
      bind-ok (map_err query_failed (json.page_to_vec (page_of (wire ++ w ∷ [])))) _ r h1 in
    step-Kept json wire e es w bytes (wire_loop json grant (wire ++ w ∷ []) es) r
      (map_wire_entry-Carries json e grant w mapped)
      (map_err-ok query_failed (json.page_to_vec (page_of (wire ++ w ∷ []))) bytes encoded)
      (wire_loop-Kept json grant (wire ++ w ∷ []) es r) h2
