-- ===== src/Agent/Runtime/Producers/Cursor.antt =====
-- No frame is lost: the cursor stands before every frame that was not committed.
use context_layer.Base.{
  ◌<◌, ◌≡◌, refl, ap, false, Bool-cases, inl, inr, leb, Text, List, [], ◌∷◌, ◌++◌, All, All-map,
  Option, none, some, Result, ok, err, arith,
}
use context_layer.Screenpipe.{
  Service, ScreenpipeFrame, ScreenpipeCursor, ScreenpipeError, from_frame,
}
use context_layer.Screenpipe.Fetch.{is_old}
use context_layer.Screenpipe.Fetch.Ordered.{Ascending}
use context_layer.Agent.Captures.{ScreenpipeScreenshot}
use context_layer.Agent.Runtime.Producers.{
  BatchEnd, completed, ScreenRun, FrameFate, after_commit, after_screenshot, screenshot_of,
  screen_batch,
}

abbrev pub StillNew : Service → Option ScreenpipeCursor → List ScreenpipeFrame → Type 0
StillNew svc cursor frames = All (λ f. is_old svc cursor f ≡ false) frames

-- Only a batch that did not complete leaves frames.
abbrev pub Leaves : BatchEnd → List ScreenpipeFrame → Type 0
Leaves completed rest = rest ≡ []
Leaves _ rest = Unit

-- A run over some frames: a first part was committed, and the next fetch may find the rest again.
pub record Resumable (svc : Service) (frames : List ScreenpipeFrame) (run : ScreenRun)
    : Type 0 where
  pub rest : List ScreenpipeFrame
  pub split : frames ≡ run.committed ++ rest
  pub ahead : StillNew svc run.cursor rest
  pub complete : Leaves run.ended rest

newer :
    (svc : Service) (f : ScreenpipeFrame) (gs : List ScreenpipeFrame)
    → All (λ g. f.frame_id < g.frame_id) gs
    → StillNew svc (some (from_frame f)) gs
newer svc f gs h =
    All-map {Q = λ g. leb g.frame_id f.frame_id ≡ false} (λ g k. ground (arith, k)) gs h

module _ (svc : Service) (describe : ScreenpipeError → Text)
    (fate : ScreenpipeFrame → FrameFate) where
  after_commit-Resumable :
      (f : ScreenpipeFrame) (fs : List ScreenpipeFrame) (cursor : Option ScreenpipeCursor)
      (last_error : Option Text) (o : Option (Result (Unit {0}) Text)) (rest : ScreenRun)
      → StillNew svc cursor (f ∷ fs)
      → Resumable svc fs rest
      → Resumable svc (f ∷ fs) (after_commit describe fate f cursor last_error o rest)
  after_commit-Resumable f fs cursor last_error none rest h k = record {
    rest = f ∷ fs;
    split = refl;
    ahead = h;
    complete = tt;
  }
  after_commit-Resumable f fs cursor last_error (some (err m)) rest h k = record {
    rest = f ∷ fs;
    split = refl;
    ahead = h;
    complete = tt;
  }
  after_commit-Resumable f fs cursor last_error (some (ok u)) rest h k = record {
    rest = k.rest;
    split = ap (◌∷◌ f) k.split;
    ahead = k.ahead;
    complete = k.complete;
  }

  after_screenshot-Resumable :
      (f : ScreenpipeFrame) (fs : List ScreenpipeFrame) (cursor : Option ScreenpipeCursor)
      (last_error : Option Text) (r : Result ScreenpipeScreenshot ScreenpipeError)
      (rest : ScreenRun)
      → StillNew svc cursor (f ∷ fs)
      → Resumable svc fs rest
      → Resumable svc (f ∷ fs) (after_screenshot describe fate f cursor last_error r rest)
  after_screenshot-Resumable f fs cursor last_error (err e) rest h k = record {
    rest = f ∷ fs;
    split = refl;
    ahead = h;
    complete = tt;
  }
  after_screenshot-Resumable f fs cursor last_error (ok shot) rest h k =
      after_commit-Resumable f fs cursor last_error _ rest h k

  batch-Resumable :
      (cursor : Option ScreenpipeCursor) (last_error : Option Text) (frames : List ScreenpipeFrame)
      → Ascending frames
      → StillNew svc cursor frames
      → Resumable svc frames (screen_batch describe fate cursor last_error frames)
  unfolding screen_batch
  batch-Resumable cursor last_error [] a h = record {
    rest = [];
    split = refl;
    ahead = tt;
    complete = refl;
  }
  batch-Resumable cursor last_error (f ∷ fs) a h = elim (Bool-cases ((fate f).cancelled)) [
    | inl t ↦ rw t (record { rest = f ∷ fs; split = refl; ahead = h; complete = tt })
    | inr t ↦ rw t (
        after_screenshot-Resumable f fs cursor last_error (screenshot_of ((fate f).png)) _ h
          (batch-Resumable (some (from_frame f)) none fs a.1 (newer svc f fs a.0)))
  ]

-- No frame is skipped. Whatever happens to the frames of a fetch, which are ascending and above the
-- cursor, the committed ones are a first part of them and all others are above the cursor that the
-- run ends with, so that the next fetch does not drop them as old; a batch that completes leaves none.
pub screen_batch-Resumable :
    (svc : Service) (describe : ScreenpipeError → Text) (fate : ScreenpipeFrame → FrameFate)
    (cursor : Option ScreenpipeCursor) (last_error : Option Text) (frames : List ScreenpipeFrame)
    → Ascending frames
    → StillNew svc cursor frames
    → Resumable svc frames (screen_batch describe fate cursor last_error frames)
screen_batch-Resumable svc describe fate cursor last_error frames a h =
    batch-Resumable svc describe fate cursor last_error frames a h
