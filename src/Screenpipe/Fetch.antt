-- ===== src/Screenpipe/Fetch.antt =====
-- crates/screenpipe-adapter/src/lib.rs: the paged search, and the frames since a cursor.
pub mod Ordered
pub mod Paging
use context_layer.Base.{
  ℕ, zero, suc, ◌+◌, min, Bool, true, false, ◌&&◌, ◌||◌, ◌==◌, ltb, leb, not, if◌then◌else◌, Text,
  text, List, [], ◌∷◌, ◌++◌, length, any, Option, none, some, Result, ok, err, ◌>>=◌, map_err,
  ensure, ◌>>◌,
}
use mathlib.Core.Option
use context_layer.Contracts.{OffsetDateTime, before}
use context_layer.Screenpipe.{
  Service, Response, SearchContent, SearchResponse, ScreenTextSource, accessibility, ocr,
  ScreenpipeFrame, ScreenpipeCursor, ScreenpipeError, authentication, too_many_results,
  source_cursor_reset, http, json, timestamp_format, search_page_size, max_results_per_source,
  initial_backfill, cursor_overlap, max_search_response_bytes, max_screenshot_bytes, as_str,
  into_frame, require_success, read_bounded, merge_candidate,
}

module _ (svc : Service) where
  unfoldable pub keep_frames :
      ScreenTextSource → List SearchContent → Result (List ScreenpipeFrame) ScreenpipeError
  unfolding into_frame
  keep_frames source [] = ok []
  keep_frames source (c ∷ cs) = into_frame svc source c >>= λ frame.
      keep_frames source cs >>= λ frames. ok (elim frame [ none ↦ frames | some f ↦ f ∷ frames ])

  unfoldable pub search_page :
      ScreenTextSource → Text → Text → ℕ → Result SearchResponse ScreenpipeError
  unfolding require_success read_bounded
  search_page source start end_at offset = do
    response ← map_err http (svc.search source start end_at offset)
    ensure (not ((response.status == 403) || (response.status == 401))) authentication
    checked ← require_success (text "search") response
    body ← read_bounded (text "search") max_search_response_bytes checked
    map_err json (svc.decode_search body)

  abbrev total_reached : ℕ → Option ℕ → Bool
  total_reached offset none = false
  total_reached offset (some total) = leb total offset

  -- `offset.saturating_add(page_len)`
  abbrev pub saturating_add : ℕ → ℕ → ℕ
  saturating_add a b = min (a + b) 18446744073709551615

  -- A page was the last one.
  unfoldable pub is_last : SearchResponse → ℕ → Bool
  is_last page offset =
      ltb (length page.data_items) search_page_size || total_reached offset page.total

  abbrev pub Search : Type 0
  Search = Option (Result (List ScreenpipeFrame) ScreenpipeError)

  after_frames :
      SearchResponse
      → ℕ
      → List ScreenpipeFrame
      → (ℕ → List ScreenpipeFrame → Search)
      → Result (List ScreenpipeFrame) ScreenpipeError
      → Search
  unfolding is_last
  after_frames page next collected loop (err e) = some (err e)
  after_frames page next collected loop (ok frames) =
      if is_last page next then some (ok (collected ++ frames)) else loop next (collected ++ frames)

  after_page :
      ScreenTextSource
      → ℕ
      → List ScreenpipeFrame
      → (ℕ → List ScreenpipeFrame → Search)
      → Result SearchResponse ScreenpipeError
      → Search
  unfolding keep_frames after_frames
  after_page source offset collected loop (err e) = some (err e)
  after_page source offset collected loop (ok page) =
      after_frames page (saturating_add offset (length page.data_items)) collected loop
        (keep_frames source page.data_items)

  -- `none` is the fuel used up.
  unfoldable pub search_loop :
      ScreenTextSource → Text → Text → ℕ → ℕ → List ScreenpipeFrame → Search
  unfolding after_page search_page
  search_loop source start end_at zero offset collected = none
  search_loop source start end_at (suc fuel) offset collected =
      if leb max_results_per_source (length collected)
      then some (err (too_many_results (as_str source) max_results_per_source))
      else after_page source offset collected (search_loop source start end_at fuel)
          (search_page source start end_at offset)

  abbrev formatted : OffsetDateTime → Result Text ScreenpipeError
  formatted t = map_err timestamp_format (svc.format_rfc3339 t)

  abbrev search_between : ℕ → ScreenTextSource → Result (Text × Text) ScreenpipeError → Search
  search_between fuel source (err e) = some (err e)
  search_between fuel source (ok (start, end_at)) = search_loop source start end_at fuel 0 []

  unfoldable pub search_text_source :
      ℕ → ScreenTextSource → OffsetDateTime → OffsetDateTime → Search
  unfolding search_loop
  search_text_source fuel source start_time end_time =
      search_between fuel source
        (formatted start_time >>= λ start. formatted end_time >>= λ end_at. ok (start, end_at))

  abbrev or_epoch : Option OffsetDateTime → OffsetDateTime
  or_epoch none = svc.unix_epoch
  or_epoch (some t) = t

  unfoldable pub start_of : Option ScreenpipeCursor → OffsetDateTime → OffsetDateTime
  start_of (some cursor) end_time = or_epoch (svc.checked_sub cursor.captured_at cursor_overlap)
  start_of none end_time = or_epoch (svc.checked_sub end_time initial_backfill)

  -- Newer times under identifiers that are not newer: the service started its identifiers afresh.
  unfoldable pub is_reset : ScreenpipeCursor → List ScreenpipeFrame → Bool
  is_reset cursor candidates =
      any (λ c. before cursor.captured_at c.captured_at && leb c.frame_id cursor.frame_id)
        candidates
      && not (any (λ c. ltb cursor.frame_id c.frame_id) candidates)

  -- `by_frame.entry(…)` of a map ordered by identifier.
  unfoldable pub insert_frame : ScreenpipeFrame → List ScreenpipeFrame → List ScreenpipeFrame
  unfolding merge_candidate
  insert_frame c [] = c ∷ []
  insert_frame c (f ∷ fs) =
      let rest = insert_frame c fs in
      if ltb c.frame_id f.frame_id
      then c ∷ f ∷ fs
      else if c.frame_id == f.frame_id
      then merge_candidate f c ∷ fs
      else f ∷ rest

  abbrev pub is_old : Option ScreenpipeCursor → ScreenpipeFrame → Bool
  is_old none c = false
  is_old (some cursor) c = leb c.frame_id cursor.frame_id

  unfoldable pub collect_frames :
      Option ScreenpipeCursor → List ScreenpipeFrame → List ScreenpipeFrame → List ScreenpipeFrame
  unfolding insert_frame
  collect_frames cursor by_frame [] = by_frame
  collect_frames cursor by_frame (c ∷ cs) =
      collect_frames cursor (if is_old cursor c then by_frame else insert_frame c by_frame) cs

  abbrev reset_check :
      Option ScreenpipeCursor → List ScreenpipeFrame → Result (Unit {0}) ScreenpipeError
  reset_check none candidates = ok tt
  reset_check (some cursor) candidates =
      ensure (not (is_reset cursor candidates)) (source_cursor_reset cursor.frame_id)

  unfoldable pub select_frames :
      Option ScreenpipeCursor → List ScreenpipeFrame → Result (List ScreenpipeFrame) ScreenpipeError
  unfolding is_reset collect_frames
  select_frames cursor candidates =
      reset_check cursor candidates >> ok (collect_frames cursor [] candidates)

  -- One search after the other; the second is not made if the first fails.
  abbrev searched_both : Option ScreenpipeCursor → Search → Search → Search
  searched_both cursor none second = none
  searched_both cursor (some (err e)) second = some (err e)
  searched_both cursor (some (ok first)) none = none
  searched_both cursor (some (ok first)) (some (err e)) = some (err e)
  searched_both cursor (some (ok first)) (some (ok second)) =
      some (select_frames cursor (first ++ second))

  unfoldable pub fetch_frames_since : ℕ → Option ScreenpipeCursor → OffsetDateTime → Search
  unfolding select_frames search_text_source start_of
  fetch_frames_since fuel cursor end_time =
      let start_time = start_of cursor end_time in
      searched_both cursor (search_text_source fuel accessibility start_time end_time)
        (search_text_source fuel ocr start_time end_time)

  unfoldable pub fetch_frame_png : ℕ → Result (Option (List ℕ)) ScreenpipeError
  unfolding require_success read_bounded
  fetch_frame_png frame_id = map_err http (svc.frame frame_id) >>= λ response.
      if response.status == 404
      then ok none
      else (require_success (text "frames") response >>= λ checked.
          read_bounded (text "frames") max_screenshot_bytes checked >>= λ bytes. ok (some bytes))
