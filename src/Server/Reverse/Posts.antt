-- ===== src/Server/Reverse/Posts.antt =====
-- crates/ferroq-gateway/src/server/onebot_v11.rs: which events `http_post_task` reports.
use ferroq.Prelude.{String, Option, List, [], ◌∷◌, map, ◌≡◌, refl, ap}
use ferroq.Core.External.{External}
use ferroq.Core.Event.{Event}
use ferroq.Server.Reverse.{Received, event, lagged, closed, post_event, http_post_task}

-- The events read before the bus is closed.
abbrev pub events_read : {F : External} → List (Received F) → List (Event F)
events_read [] = []
events_read (event e ∷ rest) = e ∷ events_read rest
events_read (lagged n ∷ rest) = events_read rest
events_read (closed ∷ rest) = []

module _ {F : External} (body_of : Event F → String) (hmac : String → String → Option String)
    (url secret : String) where
  -- Each event read before the bus is closed is posted once, in order, whatever was skipped.
  pub http_post_task-events_read :
      (rs : List (Received F))
      → http_post_task body_of hmac url secret rs
        ≡ map (post_event body_of hmac url secret) (events_read rs)
  unfolding http_post_task
  http_post_task-events_read [] = refl
  http_post_task-events_read (event e ∷ rest) =
      ap (◌∷◌ (post_event body_of hmac url secret e)) (http_post_task-events_read rest)
  http_post_task-events_read (lagged n ∷ rest) = http_post_task-events_read rest
  http_post_task-events_read (closed ∷ rest) = refl
