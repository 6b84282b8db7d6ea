-- ===== src/Agent/Runtime/Replies.antt =====
-- Requests are answered in the order in which they came, one reply each.
use context_layer.Base.{
  ◌≡◌, refl, sym, ap, ◌∙◌, Text, List, [], ◌∷◌, ◌++◌, append_assoc, Option, none, some, Result, ok,
  err,
}
use context_layer.Contracts.{Uuid, Stamp, EventEnvelopeV2, LocalApiResponse}
use context_layer.Storage.Tables.{Database}
use context_layer.Vault.{File}
use context_layer.Platform.{WatchOutcome, cancelled}
use context_layer.Agent.Requests.{handle_request}
use context_layer.Agent.Requests.Answered.{handle_request-Suits}
use context_layer.Agent.Collector.{CollectorState, CollectorError}
use context_layer.Agent.Collector.Reconcile.{run_batch}
use context_layer.Agent.Captures.{CaptureError}
use context_layer.Agent.Runtime.{
  watch, personal, clipboard, screenpipe, api, fatal, Turn, is_cancelled, timeout, disconnected,
  check_failed, received, RuntimeState, Sent, committed, reply, Flow, go_on, stop, fail, Runtime,
  Done, Loop, turn, handle_event, event_loop, after_flow, current_setting, on_watch, batch_done,
  Ingested, ingest_now, ingest_or_fail, on_snapshot, report_commit, on_frame, replied,
}

-- The identifiers of the requests among some turns.
abbrev pub asked : List Turn → List Uuid
asked [] = []
asked (received _ _ (api request) ∷ turns) = request.request_id ∷ asked turns
asked (_ ∷ turns) = asked turns

-- The identifiers of the replies among what was sent.
abbrev pub answered : List Sent → List Uuid
answered [] = []
answered (reply (some response) ∷ sent) = response.request_id ∷ answered sent
answered (_ ∷ sent) = answered sent

answered-append : (a b : List Sent) → answered (a ++ b) ≡ answered a ++ answered b
answered-append [] b = refl
answered-append (reply (some r) ∷ a) b = ap (◌∷◌ r.request_id) (answered-append a b)
answered-append (reply none ∷ a) b = answered-append a b
answered-append (committed c ∷ a) b = answered-append a b

asked-cons : (t : Turn) (turns : List Turn) → asked (t ∷ turns) ≡ asked (t ∷ []) ++ asked turns
asked-cons is_cancelled turns = refl
asked-cons timeout turns = refl
asked-cons disconnected turns = refl
asked-cons (check_failed e) turns = refl
asked-cons (received f g (watch w)) turns = refl
asked-cons (received f g (personal e)) turns = refl
asked-cons (received f g (clipboard o)) turns = refl
asked-cons (received f g (screenpipe o)) turns = refl
asked-cons (received f g (api request)) turns = refl
asked-cons (received f g (fatal e)) turns = refl

module _ (r : Runtime) where
  batch_done-quiet :
      (x : Result (Unit {0}) CollectorError × CollectorState) (s : RuntimeState)
      → answered (batch_done r x s).sent ≡ []
  batch_done-quiet (ok u, c) s = refl
  batch_done-quiet (err e, c) s = refl

  on_watch-quiet :
      (w : Result WatchOutcome Text) (s : RuntimeState) → answered (on_watch r w s).sent ≡ []
  unfolding on_watch
  on_watch-quiet (err e) s = refl
  on_watch-quiet (ok cancelled) s = refl
  on_watch-quiet (ok (WatchOutcome.batch b)) s =
      batch_done-quiet (run_batch r.outside b s.collector) s

  ingest_or_fail-quiet :
      (x : Ingested r) (s : RuntimeState) → answered (ingest_or_fail r x s).sent ≡ []
  ingest_or_fail-quiet (ok u, db) s = refl
  ingest_or_fail-quiet (err e, db) s = refl

  on_snapshot-quiet :
      (stamp : Stamp) (x : Result (Option EventEnvelopeV2) CaptureError × List File)
      (s : RuntimeState)
      → answered (on_snapshot r stamp x s).sent ≡ []
  on_snapshot-quiet stamp (err e, files) s = refl
  on_snapshot-quiet stamp (ok none, files) s = refl
  on_snapshot-quiet stamp (ok (some event), files) s =
      ingest_or_fail-quiet (ingest_now r stamp event s) _

  report_commit-quiet :
      (x : Ingested r) (s : RuntimeState) → answered (report_commit r x s).sent ≡ []
  report_commit-quiet (ok u, db) s = refl
  report_commit-quiet (err e, db) s = refl

  on_frame-quiet :
      (stamp : Stamp) (x : Result EventEnvelopeV2 CaptureError × List File) (s : RuntimeState)
      → answered (on_frame r stamp x s).sent ≡ []
  on_frame-quiet stamp (err e, files) s = refl
  on_frame-quiet stamp (ok event, files) s = report_commit-quiet (ingest_now r stamp event s) _

  replied-one :
      (x : Option LocalApiResponse × Database) (s : RuntimeState) (response : LocalApiResponse)
      → x.0 ≡ some response
      → answered (replied r x s).sent ≡ response.request_id ∷ []
  replied-one (o, db) s response e = rw e refl

  turn-answered : (t : Turn) (s : RuntimeState) → answered (turn r t s).sent ≡ asked (t ∷ [])
  unfolding turn handle_event
  turn-answered is_cancelled s = refl
  turn-answered timeout s = refl
  turn-answered disconnected s = refl
  turn-answered (check_failed e) s = refl
  turn-answered (received f g (watch w)) s = on_watch-quiet w s
  turn-answered (received f g (personal e)) s = ingest_or_fail-quiet (ingest_now r g e s) s
  turn-answered (received f g (clipboard o)) s = on_snapshot-quiet g _ s
  turn-answered (received f g (screenpipe o)) s = on_frame-quiet g _ s
  turn-answered (received f g (fatal e)) s = refl
  turn-answered (received f g (api request)) s =
      let (response, e, (same, rest)) =
        handle_request-Suits (current_setting r s) g request s.collector.engine in
      replied-one (handle_request (current_setting r s) g request s.collector.engine) s response e
      ∙ ap (λ id. id ∷ []) same

  after_flow-answered :
      (f : Flow) (t : Turn) (turns : List Turn) (d : Done) (rest : RuntimeState → Loop r)
      → answered d.sent ≡ asked (t ∷ [])
      → ((s : RuntimeState) → asked turns ≡ answered (rest s).all_sent ++ asked (rest s).left)
      → asked (t ∷ turns)
        ≡ answered (after_flow r f d turns rest).all_sent
          ++ asked (after_flow r f d turns rest).left
  after_flow-answered go_on t turns d rest now later =
      asked-cons t turns
      ∙ ap (λ ids. ids ++ asked turns) (sym now)
      ∙ ap (λ ids. answered d.sent ++ ids) (later d.state)
      ∙ sym (
          append_assoc (answered d.sent) (answered (rest d.state).all_sent)
            (asked (rest d.state).left))
      ∙ ap (λ ids. ids ++ asked (rest d.state).left)
          (sym (answered-append d.sent (rest d.state).all_sent))
  after_flow-answered stop t turns d rest now later =
      asked-cons t turns ∙ ap (λ ids. ids ++ asked turns) (sym now)
  after_flow-answered (fail e) t turns d rest now later =
      asked-cons t turns ∙ ap (λ ids. ids ++ asked turns) (sym now)

-- Every request that the loop takes from its channel gets one reply, with its identifier, in the order
-- in which the requests came: the identifiers asked for are those replied to, followed by those of
-- the turns that the loop did not take because it stopped or failed.
pub event_loop-answered :
    (r : Runtime) (turns : List Turn) (s : RuntimeState)
    → asked turns ≡ answered (event_loop r turns s).all_sent ++ asked (event_loop r turns s).left
unfolding event_loop
event_loop-answered r [] s = refl
event_loop-answered r (t ∷ turns) s =
    after_flow-answered r (turn r t s).flow t turns (turn r t s) (event_loop r turns)
      (turn-answered r t s) (event_loop-answered r turns)
