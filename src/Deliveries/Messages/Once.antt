-- ===== src/Deliveries/Messages/Once.antt =====
-- The callbacks of `on_delivered`, one after the other.
use javi.Prelude.{ℕ, ◌≤◌, List, [], ◌∷◌, refl}
use javi.Model.{Delivery}
use javi.Env.{Env}
use javi.World.{World}
use javi.Deliveries.Messages.{send_rating_request}
use javi.Deliveries.Messages.Rating.{ratings, send_rating_request-ratings}
use javi.Deliveries.Messages.Paired.{IsPaired, IsPaired-preorder, send_rating_request-Keeps}

module _ (env : Env) where
  -- Whether or not one raises.
  abbrev pub rating_callbacks : List Delivery → World → World
  rating_callbacks [] w = w
  rating_callbacks (d ∷ ds) w = rating_callbacks ds (send_rating_request env d w).1

  callbacks-ratings :
      (ds : List Delivery) (w : World) (id : ℕ)
      → ratings id w ≤ 1
      → ratings id (rating_callbacks ds w) ≤ 1
  callbacks-ratings [] w id h = h
  callbacks-ratings (d ∷ ds) w id h =
      callbacks-ratings ds (send_rating_request env d w).1 id
        (send_rating_request-ratings env d w id h)

  callbacks-IsPaired : (ds : List Delivery) (w : World) → IsPaired w (rating_callbacks ds w)
  callbacks-IsPaired [] w = refl
  callbacks-IsPaired (d ∷ ds) w =
      let w1 = (send_rating_request env d w).1 in
      IsPaired-preorder.then_on w w1 (rating_callbacks ds w1)
        ((send_rating_request-Keeps env d).at w) (callbacks-IsPaired ds w1)

  -- However often the callback runs, one run after the other, for whatever deliveries, and whether or
  -- not it raises: no delivery gets a second rating request, and as many messages go out as rating
  -- requests are recorded.
  pub rating_callbacks-once :
      (ds : List Delivery) (w : World)
      → ((id : ℕ) → ratings id w ≤ 1)
      → ((id : ℕ) → ratings id (rating_callbacks ds w) ≤ 1) × IsPaired w (rating_callbacks ds w)
  rating_callbacks-once ds w h = (λ id. callbacks-ratings ds w id (h id), callbacks-IsPaired ds w)
