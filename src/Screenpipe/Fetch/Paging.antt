-- ===== src/Screenpipe/Fetch/Paging.antt =====
-- The paged search ends.
use context_layer.Base.{
  ℕ, zero, suc, ◌+◌, ◌*◌, ◌-◌, ◌≤◌, ◌<◌, ◌≡◌, refl, true, false, Bool-cases, inl, inr, ltb, ltb→lt,
  leb, Text, List, [], length, Option, none, some, Result, ok, err, Result-cases, arith,
}
use context_layer.Contracts.{OffsetDateTime}
use context_layer.Screenpipe.{
  Service, SearchResponse, ScreenTextSource, ScreenpipeFrame, ScreenpipeError,
  max_results_per_source, search_page_size,
}
use context_layer.Screenpipe.Fetch.{
  Search, keep_frames, search_page, is_last, saturating_add, after_page, after_frames, search_loop,
  formatted, search_text_source,
}

-- The service has no full page from some offset on.
abbrev pub EndsBefore : Service → ScreenTextSource → Text → Text → ℕ → Type 0
EndsBefore svc source start end_at bound =
    (offset : ℕ) (page : SearchResponse)
    → bound ≤ offset
    → search_page svc source start end_at offset ≡ ok page
    → length page.data_items < search_page_size

-- The search has ended.
abbrev pub Ended : {A : Type 0} → Option A → Type 0
Ended none = ⊥
Ended (some _) = Unit

module _ (svc : Service) (source : ScreenTextSource) (start end_at : Text) (bound : ℕ)
    (ends : EndsBefore svc source start end_at bound)
    (small : bound < 18446744073709551615 - 20) where
  last_page :
      (page : SearchResponse) (next : ℕ)
      → length page.data_items < search_page_size
      → is_last svc page next ≡ true
  unfolding is_last
  last_page page next h = ground (arith, h)

  not_last :
      (page : SearchResponse) (next : ℕ)
      → is_last svc page next ≡ false
      → search_page_size ≤ length page.data_items
  unfolding is_last
  not_last page next h = ground (arith, h)

  unfinished :
      (offset : ℕ) (page : SearchResponse)
      → search_page svc source start end_at offset ≡ ok page
      → search_page_size ≤ length page.data_items
      → offset < bound
  unfinished offset page at full = elim (Bool-cases (ltb offset bound)) [
    | inl t ↦ ltb→lt _ _ t
    | inr t ↦ absurd (omega (arith, full, ends offset page (ground (arith, t)) at))
  ]

  further :
      (offset size : ℕ)
      → offset < bound
      → search_page_size ≤ size
      → offset + 20 ≤ saturating_add svc offset size
  further offset size room full = omega (arith, small, room, full)

  after_page-Ended :
      (offset : ℕ) (collected : List ScreenpipeFrame) (loop : ℕ → List ScreenpipeFrame → Search svc)
      (r : Result SearchResponse ScreenpipeError)
      → search_page svc source start end_at offset ≡ r
      → ((next : ℕ) (more : List ScreenpipeFrame)
          → offset < bound
          → offset + 20 ≤ next
          → Ended (loop next more))
      → Ended (after_page svc source offset collected loop r)
  unfolding after_page after_frames
  after_page-Ended offset collected loop (err e) at next = tt
  after_page-Ended offset collected loop (ok page) at next =
      elim (Result-cases (keep_frames svc source page.data_items)) [
        | inr (e, t) ↦ rw t tt
        | inl (frames, t) ↦
            elim (Bool-cases
              (is_last svc page (saturating_add svc offset (length page.data_items)))) [
                | inl u ↦ rw (t, u) tt
                | inr u ↦
                    let full =
                      not_last page (saturating_add svc offset (length page.data_items)) u in
                    let room = unfinished offset page at full in
                    rw (t, u) (next _ _ room (further offset (length page.data_items) room full))
              ]
      ]

  search_loop-Ended :
      (fuel offset : ℕ) (collected : List ScreenpipeFrame)
      → bound + 20 ≤ offset + 20 * fuel
      → 0 < fuel
      → Ended (search_loop svc source start end_at fuel offset collected)
  unfolding search_loop
  search_loop-Ended zero offset collected h some_left = absurd (omega arith)
  search_loop-Ended (suc fuel) offset collected h some_left =
      elim (Bool-cases (leb max_results_per_source (length collected))) [
        | inl t ↦ rw t tt
        | inr t ↦ rw t (
            after_page-Ended offset collected (search_loop svc source start end_at fuel) _ refl
              (λ next more room on.
                search_loop-Ended fuel next more (omega (arith, h, room, on))
                  (omega (arith, h, room))))
      ]

-- The paged search ends, if the service has no full page from some offset on, which is at least 21 below
-- the largest `usize`. Every round that goes on passes twenty items, so that one round
-- for every twenty items up to that offset, and one more, are enough, although the limit on the results counts only the
-- frames that are kept.
pub search_text_source-Ended :
    (svc : Service) (source : ScreenTextSource) (start_time end_time : OffsetDateTime)
    (bound fuel : ℕ)
    → ((start end_at : Text) → EndsBefore svc source start end_at bound)
    → bound < 18446744073709551615 - 20
    → bound + search_page_size ≤ search_page_size * fuel
    → Ended (search_text_source svc fuel source start_time end_time)
unfolding search_text_source
search_text_source-Ended svc source start_time end_time bound fuel ends small enough =
    elim (Result-cases (formatted svc start_time)) [
      | inr (e, t) ↦ rw t tt
      | inl (start, t) ↦ elim (Result-cases (formatted svc end_time)) [
        | inr (e, u) ↦ rw (t, u) tt
        | inl (end_at, u) ↦
            rw (t, u)
              (search_loop-Ended svc source start end_at bound (ends start end_at) small fuel 0 []
                (omega (arith, enough)) (omega (arith, enough)))
      ]
    ]
