-- ===== src/Screenpipe/Fetch/Ordered.antt =====
-- The frames that are fetched: new ones only, each identifier once, in ascending order.
use context_layer.Base.{ℕ, ◌<◌, ◌≡◌, Bool, ◌&&◌, ◌==◌, not, List, [], ◌∷◌, any, All, Option}
use context_layer.Screenpipe.{Service, ScreenpipeFrame, ScreenpipeCursor}
use context_layer.Screenpipe.Fetch.{is_old}

abbrev pub has_id : ℕ → List ScreenpipeFrame → Bool
has_id id fs = any (λ f. f.frame_id == id) fs

-- The candidates that are not at or before the cursor.
abbrev pub has_new_id : Service → Option ScreenpipeCursor → ℕ → List ScreenpipeFrame → Bool
has_new_id svc cursor id cs = any (λ c. not (is_old svc cursor c) && (c.frame_id == id)) cs

abbrev pub Ascending : List ScreenpipeFrame → Type 0
Ascending [] = Unit
Ascending (f ∷ fs) = All (λ g. f.frame_id < g.frame_id) fs × Ascending fs

-- Fetched frames, against the candidates of the two searches.
pub record Fetched (svc : Service) (cursor : Option ScreenpipeCursor)
    (candidates frames : List ScreenpipeFrame) : Type 0 where
  pub ascending : Ascending frames
  pub ids : (id : ℕ) → has_id id frames ≡ has_new_id svc cursor id candidates
