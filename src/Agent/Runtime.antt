-- ===== src/Agent/Runtime.antt =====
-- apps/context-agent/src/runtime.rs, `event_loop`: one thread owns the collector, the engine and the
-- vault, and takes the events of the other threads from one channel. A channel back is what is sent.
pub mod Replies
pub mod Producers
use context_layer.Base.{
  ℕ, suc, ◌*◌, Bool, true, false, leb, if◌then◌else◌, Text, text, List, [], ◌∷◌, ◌++◌, Option, none,
  some, Result, ok, err,
}
use mathlib.Core.Option
use context_layer.Contracts.{
  Uuid, OffsetDateTime, Stamp, EventEnvelopeV2, LocalApiRequest, LocalApiResponse,
}
use context_layer.Core.Engine.{IngestReport, IngestError, ingest_v2}
use context_layer.Storage.Tables.{Database, StorageError}
use context_layer.Storage.Match.{sqlite_repository}
use context_layer.Vault.{File}
use context_layer.Platform.{DirectoryBatch, WatchOutcome, cancelled}
use context_layer.Platform.Clipboard.{ClipboardSnapshot}
use context_layer.Screenpipe.{ScreenpipeFrame}
use context_layer.Agent.Requests.{Setting, VaultView, handle_request}
use context_layer.Agent.Collector.{Outside, CollectorState, CollectorError}
use context_layer.Agent.Collector.Reconcile.{run_batch, limit_reached}
use context_layer.Agent.Captures.{
  PutBytes, CaptureError, ScreenpipeScreenshot, event_from_snapshot, event_from_frame,
}

abbrev pub max_clipboard_raw_utf16_bytes : ℕ
max_clipboard_raw_utf16_bytes = 8 * 1024 * 1024

pub record ClipboardObservation : Type 0 where
  pub observed_at : OffsetDateTime
  pub snapshot : ClipboardSnapshot

pub record ScreenpipeObservation : Type 0 where
  pub frame : ScreenpipeFrame
  pub screenshot : ScreenpipeScreenshot
  pub observed_at : OffsetDateTime

pub data RuntimeEvent : Type 0 where
  watch : Result WatchOutcome Text → RuntimeEvent
  personal : EventEnvelopeV2 → RuntimeEvent
  clipboard : ClipboardObservation → RuntimeEvent
  screenpipe : ScreenpipeObservation → RuntimeEvent
  api : LocalApiRequest → RuntimeEvent
  fatal : Text → RuntimeEvent

-- What a turn of the loop sees: the cancellation, or what `recv_timeout` gives. The stamps are those of
-- an event that the turn makes and of the engine.
pub data Turn : Type 0 where
  is_cancelled timeout disconnected : Turn
  check_failed : Text → Turn
  received : (event_stamp engine_stamp : Stamp) → RuntimeEvent → Turn

pub data RuntimeError : Type 0 where
  watcher_failed cancellation_failed fatal_error : Text → RuntimeError
  producers_stopped : RuntimeError
  collector_failed : CollectorError → RuntimeError
  capture_failed : CaptureError → RuntimeError
  ingest_failed : IngestError StorageError → RuntimeError

-- What goes back through the channels of the events.
pub data Sent : Type 0 where
  committed : Result (Unit {0}) Text → Sent
  reply : Option LocalApiResponse → Sent

pub record RuntimeState : Type 0 where
  pub collector : CollectorState
  pub files : List File
  pub completed_batches : ℕ

pub data Flow : Type 0 where
  go_on stop : Flow
  fail : RuntimeError → Flow

pub record Runtime : Type 0 where
  pub outside : Outside
  pub setting : Setting
  pub put : PutBytes
  pub computer : Option Text
  pub max_batches : Option ℕ
  pub cancel : Result (Unit {0}) Text
  pub describe_capture : CaptureError → Text

pub record Done : Type 0 where
  pub flow : Flow
  pub sent : List Sent
  pub state : RuntimeState

abbrev done : Flow → List Sent → RuntimeState → Done
done flow sent state = record { flow = flow; sent = sent; state = state }

abbrev with_engine : RuntimeState → Database → RuntimeState
with_engine s db = record s { collector = record (s.collector) { engine = db } }

abbrev with_collector : RuntimeState → CollectorState → RuntimeState
with_collector s c = record s { collector = c }

abbrev with_files : RuntimeState → List File → RuntimeState
with_files s files = record s { files = files }

module _ (r : Runtime) where
  -- `cancellation.cancel()?` and the end.
  abbrev cancelled_now : Result (Unit {0}) Text → Flow
  cancelled_now (ok _) = stop
  cancelled_now (err e) = fail (cancellation_failed e)

  abbrev batch_done : Result (Unit {0}) CollectorError × CollectorState → RuntimeState → Done
  batch_done (err e, c) s = done (fail (collector_failed e)) [] (with_collector s c)
  batch_done (ok _, c) s =
      done
        (if limit_reached r.outside r.max_batches (suc s.completed_batches)
          then cancelled_now r.cancel
          else go_on)
        [] (record s { collector = c; completed_batches = suc s.completed_batches })

  unfoldable pub on_watch : Result WatchOutcome Text → RuntimeState → Done
  unfolding run_batch limit_reached
  on_watch (err e) s = done (fail (watcher_failed e)) [] s
  on_watch (ok cancelled) s = done stop [] s
  on_watch (ok (WatchOutcome.batch batch)) s = batch_done (run_batch r.outside batch s.collector) s

  abbrev pub Ingested : Type 0
  Ingested = Result IngestReport (IngestError StorageError) × Database

  unfoldable pub ingest_now : Stamp → EventEnvelopeV2 → RuntimeState → Ingested
  unfolding sqlite_repository
  ingest_now stamp event s =
      ingest_v2 (sqlite_repository r.outside.crates) stamp event s.collector.engine

  -- `ingest_v2(&event)?`
  abbrev ingest_or_fail : Ingested → RuntimeState → Done
  ingest_or_fail (ok _, db) s = done go_on [] (with_engine s db)
  ingest_or_fail (err e, db) s = done (fail (ingest_failed e)) [] (with_engine s db)

  abbrev on_snapshot :
      Stamp → Result (Option EventEnvelopeV2) CaptureError × List File → RuntimeState → Done
  on_snapshot stamp (err e, files) s = done (fail (capture_failed e)) [] (with_files s files)
  on_snapshot stamp (ok none, files) s = done go_on [] (with_files s files)
  on_snapshot stamp (ok (some event), files) s =
      ingest_or_fail (ingest_now stamp event s) (with_files s files)

  abbrev report_commit : Ingested → RuntimeState → Done
  report_commit (ok _, db) s = done go_on (committed (ok tt) ∷ []) (with_engine s db)
  report_commit (err e, db) s =
      done go_on (committed (err (r.setting.describe_ingest e)) ∷ []) (with_engine s db)

  -- An error goes back to the adapter and does not end the loop.
  abbrev on_frame : Stamp → Result EventEnvelopeV2 CaptureError × List File → RuntimeState → Done
  on_frame stamp (err e, files) s =
      done go_on (committed (err (r.describe_capture e)) ∷ []) (with_files s files)
  on_frame stamp (ok event, files) s = report_commit (ingest_now stamp event s) (with_files s files)

  -- The setting of a request: the vault as it is now.
  abbrev view_now : List File → VaultView → VaultView
  view_now files v = record v { files = files; later = files }

  abbrev pub current_setting : RuntimeState → Setting
  current_setting s = record (r.setting) {
    content_vault = Option.map (view_now s.files) r.setting.content_vault;
  }

  abbrev replied : Option LocalApiResponse × Database → RuntimeState → Done
  replied (response, db) s = done go_on (reply response ∷ []) (with_engine s db)

  unfoldable pub handle_event : Stamp → Stamp → RuntimeEvent → RuntimeState → Done
  unfolding on_watch ingest_now event_from_snapshot event_from_frame handle_request
  handle_event fresh stamp (watch outcome) s = on_watch outcome s
  handle_event fresh stamp (personal event) s = ingest_or_fail (ingest_now stamp event s) s
  handle_event fresh stamp (clipboard o) s =
      on_snapshot stamp
        (event_from_snapshot r.put fresh r.computer max_clipboard_raw_utf16_bytes o.snapshot
          o.observed_at s.files)
        s
  handle_event fresh stamp (screenpipe o) s =
      on_frame stamp
        (event_from_frame r.put fresh r.computer o.frame o.screenshot o.observed_at s.files) s
  handle_event fresh stamp (api request) s =
      replied (handle_request (current_setting s) stamp request s.collector.engine) s
  handle_event fresh stamp (fatal e) s = done (fail (fatal_error e)) [] s

  unfoldable pub turn : Turn → RuntimeState → Done
  unfolding handle_event
  turn is_cancelled s = done stop [] s
  turn (check_failed e) s = done (fail (cancellation_failed e)) [] s
  turn timeout s = done go_on [] s
  turn disconnected s = done (fail producers_stopped) [] s
  turn (received fresh stamp event) s = handle_event fresh stamp event s

  -- How far the loop came: what it sent, and the turns that it did not take.
  pub record Loop : Type 0 where
    pub ended : Flow
    pub all_sent : List Sent
    pub left : List Turn
    pub last : RuntimeState

  abbrev before_loop : List Sent → Loop → Loop
  before_loop sent l = record l { all_sent = sent ++ l.all_sent }

  abbrev after_flow : Flow → Done → List Turn → (RuntimeState → Loop) → Loop
  after_flow go_on d turns rest = before_loop d.sent (rest d.state)
  after_flow stop d turns rest = record {
    ended = stop;
    all_sent = d.sent;
    left = turns;
    last = d.state;
  }
  after_flow (fail e) d turns rest = record {
    ended = fail e;
    all_sent = d.sent;
    left = turns;
    last = d.state;
  }

  abbrev pub after_turn : Done → List Turn → (RuntimeState → Loop) → Loop
  after_turn d = after_flow d.flow d

  -- The loop over the turns to come; `go_on` at its end waits for more.
  unfoldable pub event_loop : List Turn → RuntimeState → Loop
  unfolding turn
  event_loop [] s = record { ended = go_on; all_sent = []; left = []; last = s }
  event_loop (t ∷ turns) s = after_turn (turn t s) turns (event_loop turns)
