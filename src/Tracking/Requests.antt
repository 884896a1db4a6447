-- ===== src/Tracking/Requests.antt =====
-- Requests to the public pages that change nothing.
use javi.Prelude.{
  ℕ, ℤ, String, ◌≡◌, refl, ◌∙◌, true, false, not, ◌&&◌, Option, none, some, ltb, inl, inr,
  Bool-cases,
}
use javi.Model.{Shop, Delivery, TrackingToken}
use javi.Env.{Env}
use javi.World.{World}
use javi.Exec.Frame.{SameState, SameEffects-refl, SameEffects-trans}
use javi.Exec.Keeps.{IsPreorder, Keeps, keeps_rules}
use javi.Runtime.{timezone_now, tick}
use javi.Webhooks.{shop_of}
use javi.Deliveries.{delivery_row}
use javi.Tracking.{
  Route, status, mark_received, unsubscribe, rate, Request, Found, no_token, expired_token,
  good_token, token_row, with_shop, with_delivery, needs_post, is_past, found_by, active_token,
  status_view, unsubscribe_view, page_of, page_for, view,
}

pub SameState-preorder : IsPreorder SameState
SameState-preorder = record {
  here = λ w. record { db = refl; effects = SameEffects-refl w };
  then_on = λ a b c p q. record {
    db = q.db ∙ p.db;
    effects = SameEffects-trans a b c p.effects q.effects;
  };
}

module _ (env : Env) where
  timezone_now-SameState : Keeps SameState (timezone_now env)
  timezone_now-SameState = record {
    at = λ w. record { db = refl; effects = record { outbox = refl; tasks = refl } };
  }

  is_past-SameState : (expires_at : Option ℕ) → Keeps SameState (is_past env expires_at)
  unfolding is_past
  is_past-SameState none = search (keeps_rules, SameState-preorder)
  is_past-SameState (some t) =
      search (keeps_rules, SameState-preorder, timezone_now-SameState) depth 8

  found_by-SameState : (t : Option TrackingToken) → Keeps SameState (found_by env t)
  unfolding found_by
  found_by-SameState none = search (keeps_rules, SameState-preorder)
  found_by-SameState (some t) = search (keeps_rules, SameState-preorder, is_past-SameState) depth 8

  pub active_token-SameState : (token : String) → Keeps SameState (active_token env token)
  unfolding active_token
  active_token-SameState token =
      search (keeps_rules, SameState-preorder, found_by-SameState) depth 8

  pub status_view-SameState :
      (token : String) (d : Delivery) (shop : Shop) → Keeps SameState (status_view env token d shop)
  unfolding status_view
  status_view-SameState token d shop =
      search (keeps_rules, SameState-preorder, timezone_now-SameState) depth 10

  module _ (int : String → Option ℤ) where
    get_page :
        (route : Route) (request : Request) (token : String) (d : Delivery) (shop : Shop)
        → request.is_post ≡ false
        → needs_post route ≡ false
        → Keeps SameState (page_of env int route request token d shop)
    unfolding page_of needs_post unsubscribe_view
    get_page status request token d shop get allowed = status_view-SameState token d shop
    get_page mark_received request token d shop get allowed = cc
    get_page unsubscribe request token d shop get allowed =
        rw get (search (keeps_rules, SameState-preorder))
    get_page rate request token d shop get allowed = cc

    get_found :
        (route : Route) (request : Request) (token : String) (found : Found)
        → request.is_post ≡ false
        → needs_post route ≡ false
        → Keeps SameState (page_for env int route request token found)
    unfolding page_for
    get_found route request token no_token get allowed = search (keeps_rules, SameState-preorder)
    get_found route request token (expired_token d shop) get allowed =
        search (keeps_rules, SameState-preorder)
    get_found route request token (good_token d shop) get allowed =
        get_page route request token d shop get allowed

    get_view :
        (route : Route) (request : Request) (token : String)
        → request.is_post ≡ false
        → Keeps SameState (view env int route request token)
    unfolding view
    get_view route request token get = elim (Bool-cases (needs_post route)) [
      | inl post_only ↦ rw (post_only, get) (search (keeps_rules, SameState-preorder))
      | inr allowed ↦
          let page : (found : Found)
              → Keeps SameState (page_for env int route request token found) =
            λ found. get_found route request token found get allowed in
          rw allowed
            (search (keeps_rules, SameState-preorder, active_token-SameState, page) depth 8)
    ]

    -- A request to a public page that is no POST, such as that of a link preview, changes nothing and
    -- sends nothing, whichever page and token it names.
    view-get :
        (route : Route) (request : Request) (token : String) (w : World)
        → request.is_post ≡ false
        → SameState w (view env int route request token w).1
    view-get route request token w get = (get_view route request token get).at w

    stale_shop :
        (route : Route) (request : Request) (token : String) (d : Delivery) (shop : Option Shop)
        → Keeps SameState (page_for env int route request token (with_shop true d shop))
    unfolding page_for with_shop
    stale_shop route request token d none = search (keeps_rules, SameState-preorder)
    stale_shop route request token d (some shop) = search (keeps_rules, SameState-preorder)

    get_none :
        (route : Route) (request : Request) (token : String)
        → Keeps SameState (page_for env int route request token no_token)
    unfolding page_for
    get_none route request token = search (keeps_rules, SameState-preorder)

    stale_found :
        (route : Route) (request : Request) (token : String) (d : Option Delivery) (w : World)
        → Keeps SameState (page_for env int route request token (with_delivery true d w.db))
    unfolding with_delivery
    stale_found route request token none w = get_none route request token
    stale_found route request token (some d) w = stale_shop route request token d (shop_of w.db d)

    -- A request with a token that has expired changes nothing and sends nothing, whichever page it
    -- names.
    view-expired :
        (route : Route) (request : Request) (token : String) (w : World) (t : TrackingToken)
        (expires_at : ℕ)
        → token_row token w.db ≡ some t
        → t.expires_at ≡ some expires_at
        → ltb expires_at (env.clock w.calls) ≡ true
        → SameState w (view env int route request token w).1
    unfolding view active_token found_by is_past
    view-expired route request token w t expires_at row expiry past =
        elim (Bool-cases (needs_post route && not request.is_post)) [
          | inl wrong ↦ rw wrong (SameState-preorder.here w)
          | inr right ↦
              let stale = stale_found route request token (delivery_row t.delivery_id w.db) w in
              rw right (
                rw row (
                  rw expiry (
                    rw past (
                      SameState-preorder.then_on w (tick w) _ (timezone_now-SameState.at w)
                        (stale.at (tick w))))))
        ]
