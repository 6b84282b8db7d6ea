-- ===== src/Agent/ReadCapability/Wire.antt =====
-- What a page on the wire may hold, and where the next one starts.
use context_layer.Base.{
  ◌≡◌, refl, ap, subst, Bool, true, false, ◌⊎◌, is_empty, List, [], ◌∷◌, ◌++◌, Option, none, some,
  ok, bind-ok, ok_inj, arith,
}
use context_layer.Contracts.{LocalTimelineCursor, LocalTimelineEntry, LocalTimelinePage}
use context_layer.Core.Grants.{RetrievalGrant}
use context_layer.Core.Timeline.{TimelineEntry, TimelineCursor}
use context_layer.Agent.ReadCapability.{WireJson, wire_loop, wire_cursor, last, map_wire_page}
use context_layer.Agent.ReadCapability.Kept.{CarryAll, Fits, Overflows, Kept, wire_loop-Kept}

-- The cursor of the core, as it is on the wire.
abbrev pub CursorOf : Option TimelineCursor → Option LocalTimelineCursor → Type 0
CursorOf none c = c ≡ none
CursorOf (some core) c =
    (on_wire : LocalTimelineCursor) × (c ≡ some on_wire)
    × (on_wire.observed_at ≡ core.observed_at)
    × (on_wire.event_id ≡ core.event_id)

-- Where the next page starts, `left` being the entries that this one leaves out.
pub data NextStart (core : Option TimelineCursor) (entries : List LocalTimelineEntry)
    : List TimelineEntry → Option LocalTimelineCursor → Type 0 where
  nothing_left : (c : Option LocalTimelineCursor) → CursorOf core c → NextStart core entries [] c
  after_last :
      (e : TimelineEntry) (left : List TimelineEntry) (before : List LocalTimelineEntry)
      (w : LocalTimelineEntry) (c : LocalTimelineCursor)
      → entries ≡ before ++ w ∷ []
      → c.observed_at ≡ w.observed_at
      → c.event_id ≡ w.event_id
      → NextStart core entries (e ∷ left) (some c)

-- A page that `map_wire_page` made of some entries.
pub record WirePage (json : WireJson) (entries : List TimelineEntry) (core : Option TimelineCursor)
    (page : LocalTimelinePage) : Type 0 where
  pub left : List TimelineEntry
  pub carry : CarryAll entries page.entries left
  pub fits : (page.entries ≡ []) ⊎ Fits json page.entries
  pub full : (left ≡ []) ⊎ Overflows json page.entries left
  pub next_start : NextStart core page.entries left page.next_cursor

core-CursorOf :
    (json : WireJson) (wire : List LocalTimelineEntry) (core : Option TimelineCursor)
    → CursorOf core (wire_cursor json wire false core)
unfolding wire_cursor
core-CursorOf json wire none = refl
core-CursorOf json wire (some c) =
    (record { observed_at = c.observed_at; event_id = c.event_id }, refl, refl, refl)

-- A list that is not empty has a last element.
split_last :
    (json : WireJson) (wire : List LocalTimelineEntry)
    → is_empty wire ≡ false
    → (before : List LocalTimelineEntry) × ((w : LocalTimelineEntry) × (wire ≡ before ++ w ∷ [])
        × (last json wire ≡ some w))
split_last json [] h = absurd (ground (arith, h))
split_last json (v ∷ []) h = ([], (v, refl, refl))
split_last json (v ∷ w ∷ ws) h =
    let (before, (l, e, at)) = split_last json (w ∷ ws) refl in
    (v ∷ before, (l, ap (λ rest. v ∷ rest) e, rw (at, last) refl))

kept-NextStart :
    (json : WireJson) (core : Option TimelineCursor) (kept : List LocalTimelineEntry) (cut : Bool)
    (left : List TimelineEntry)
    → (cut ≡ false → left ≡ [])
    → (cut ≡ true → (is_empty kept ≡ false) × (is_empty left ≡ false))
    → NextStart core kept left (wire_cursor json kept cut core)
unfolding wire_cursor
kept-NextStart json core kept false left uncut short =
    rw (uncut refl) (nothing_left (wire_cursor json kept false core) (core-CursorOf json kept core))
kept-NextStart json core kept true [] uncut short = absurd (ground (arith, (short refl).1))
kept-NextStart json core kept true (e ∷ left) uncut short =
    let (before, (w, split, at)) = split_last json kept (short refl).0 in
    rw (at, wire_cursor)
      (after_last e left before w (record { observed_at = w.observed_at; event_id = w.event_id })
        split refl refl)

-- A page on the wire stands for a prefix of the core's entries, in order, each with its identifier,
-- scope, time and sensitivity, at most the first 32 references, and its own payload or none; unless it
-- is empty, its encoding without a cursor fits the response budget. If no entry is left out its cursor
-- is the core's; if one is, the page is not empty, its cursor is that of its last entry, and with the
-- first entry left out the encoding would be over the budget.
pub map_wire_page-WirePage :
    (json : WireJson) (entries : List TimelineEntry) (core : Option TimelineCursor)
    (grant : RetrievalGrant) (page : LocalTimelinePage)
    → map_wire_page json entries core grant ≡ ok page
    → WirePage json entries core page
unfolding map_wire_page
map_wire_page-WirePage json entries core grant page h =
    let (kept, looped, done) = bind-ok (wire_loop json grant [] entries) _ page h in
    let run : Kept json [] entries kept.0 kept.1 =
      wire_loop-Kept json grant [] entries kept looped in
    subst (WirePage json entries core) (ok_inj done) (record {
      left = run.left;
      carry = rw (run.all_kept) (run.carry);
      fits = run.fits;
      full = run.full;
      next_start = kept-NextStart json core kept.0 kept.1 run.left run.uncut run.cut_short;
    })
