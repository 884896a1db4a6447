-- ===== src/Tracking.antt =====
-- tracking/views.py: the public pages under /t/, reached by the token of a delivery.
pub mod Requests
pub mod Rows
pub mod Ratings
use javi.Prelude.{
  ℕ, suc, ℤ, pos, negsuc, String, Bool, true, false, not, ◌&&◌, Option, none, some, List, [], ◌∷◌,
  ◌==◌, str_eq, ltb, leb, first, any, update_where, map, if◌then◌else◌, is_some, is_none, get_or,
}
use javi.Model.{Shop, Delivery, Status, Rating, TrackingToken, is_delivered, is_on_the_way}
use javi.Env.{Env}
use javi.World.{World, Db, Event, of_rating}
use javi.Exec.{Exec, Result, pure, gets, modify, ◌>>=◌, ◌>>◌}
use javi.Runtime.{timezone_now}
use javi.ClientIp.{Addresses, Headers, client_ip}
use javi.Ratelimit.{Counter, hit}
use javi.Timewindow.{EtaLabel, format_eta_label}
use javi.Webhooks.{shop_of, emit_delivery_event}
use javi.Receipts.{opt_out}
use javi.Deliveries.{delivery_row, mark_delivered}

pub data StepState : Type 0 where
  done active future : StepState

pub record Step : Type 0 where
  pub state : StepState
  pub current : Bool

-- `order.index(status)`, or 0
unfoldable pub step_index : Status → ℕ
step_index Status.new = 0
step_index Status.created = 0
step_index Status.on_the_way = 1
step_index Status.delivered = 2

-- The body of the loop of `_stepper`.
unfoldable pub step_of : ℕ → Bool → ℕ → Step
step_of current is_terminal index = record {
  state =
      if ltb index current
      then done
      else if index == current
      then (if is_terminal then done else active)
      else future;
  current = index == current;
}

unfoldable pub stepper : Status → List Step
stepper status = map (step_of (step_index status) (is_delivered status)) (0 ∷ 1 ∷ 2 ∷ [])

pub record StatusPage : Type 0 where
  pub shop_name : String
  pub shop_phone : String
  pub status : Status
  pub steps : List Step
  pub dest_city : String
  pub eta : Option EtaLabel
  pub late : Bool
  pub token : String
  pub rating : Option ℕ
  pub can_rate : Bool

pub data Page : Type 0 where
  too_many_requests not_found method_not_allowed : Page
  expired : (shop_name shop_phone : String) → Page
  status_page : StatusPage → Page
  redirect_to_status unsubscribe_confirm unsubscribed : Page

pub data Route : Type 0 where
  status mark_received unsubscribe rate : Route

pub record Request : Type 0 where
  pub headers : Headers
  pub is_post : Bool
  pub value : String

abbrev pub is_rating_for : ℕ → Rating → Bool
is_rating_for id r = r.delivery_id == id

unfoldable pub rating_of_delivery : Db → ℕ → Option Rating
rating_of_delivery db id = first (is_rating_for id) db.ratings

rating_value : Option Rating → Option ℕ
rating_value none = none
rating_value (some r) = some r.value

-- `update_or_create(delivery=...)`
unfoldable pub saved_rating : ℕ → ℕ → List Rating → List Rating
saved_rating id value rows =
    if any (is_rating_for id) rows
    then update_where (is_rating_for id) (λ (r : Rating). record r { value = value }) rows
    else record { delivery_id = id; value = value } ∷ rows

unfoldable pub save_rating : Delivery → ℕ → Exec (Unit {0})
save_rating d value =
    modify (λ w. record w { db = record w.db { ratings = saved_rating d.id value w.ratings } })

unfoldable pub in_range : ℤ → Bool
in_range (pos n) = leb 1 n && leb n 5
in_range (negsuc n) = false

abbrev pub magnitude : ℤ → ℕ
magnitude (pos n) = n
magnitude (negsuc n) = suc n

-- What `_active_token` finds: no token, one that has expired, or one that is good.
pub data Found : Type 0 where
  no_token : Found
  expired_token good_token : Delivery → Shop → Found

unfoldable pub token_row : String → Db → Option TrackingToken
token_row token db = first (λ (t : TrackingToken). str_eq t.token token) db.tokens

unfoldable pub with_shop : Bool → Delivery → Option Shop → Found
with_shop is_expired d none = no_token
with_shop is_expired d (some shop) = if is_expired then expired_token d shop else good_token d shop

unfoldable pub with_delivery : Bool → Option Delivery → Db → Found
unfolding with_shop
with_delivery is_expired none db = no_token
with_delivery is_expired (some d) db = with_shop is_expired d (shop_of db d)

-- `@require_POST`
unfoldable pub needs_post : Route → Bool
needs_post mark_received = true
needs_post rate = true
needs_post _ = false

module _ (env : Env) where
  unfoldable pub is_past : Option ℕ → Exec Bool
  is_past none = pure false
  is_past (some expires_at) = do now ← timezone_now env; pure (ltb expires_at now)

  unfoldable pub found_by : Option TrackingToken → Exec Found
  unfolding with_delivery is_past
  found_by none = pure no_token
  found_by (some t) = do
    past ← is_past t.expires_at
    gets (λ w. with_delivery past (delivery_row t.delivery_id w.db) w.db)

  -- `_active_token`, with the delivery and the shop of the token
  unfoldable pub active_token : String → Exec Found
  unfolding token_row found_by
  active_token token = do row ← gets (λ w. token_row token w.db); found_by row

  label_of : Option ℕ → ℕ → Option EtaLabel
  label_of none now = none
  label_of (some eta_at) now = some (format_eta_label env eta_at now)

  is_late : Option ℕ → ℕ → Bool
  is_late none now = false
  is_late (some eta_at) now = ltb eta_at now

  -- The clock is read twice, whether the page shows what it is read for or not.
  unfoldable pub status_view : String → Delivery → Shop → Exec Page
  unfolding label_of is_late rating_value
  status_view token d shop = do
    shown_at ← timezone_now env
    now ← timezone_now env
    rating ← gets (λ w. rating_of_delivery w.db d.id)
    pure (
        status_page (record {
          shop_name = shop.name;
          shop_phone = shop.contact_phone;
          status = d.status;
          steps = stepper d.status;
          dest_city = d.dest_city;
          eta = label_of d.eta_at shown_at;
          late = is_on_the_way d.status && is_late d.eta_at now;
          token = token;
          rating = rating_value rating;
          can_rate = is_delivered d.status && is_none rating;
        }))

  unfoldable pub mark_received_view : Delivery → Exec Page
  mark_received_view d = do marked ← mark_delivered env d; pure redirect_to_status

  unfoldable pub unsubscribe_view : Bool → Delivery → Exec Page
  unsubscribe_view is_post d =
      if not is_post
      then pure unsubscribe_confirm
      else do opt_out env d.recipient_phone; pure unsubscribed

  unfoldable pub emit_created : Bool → Delivery → ℕ → Exec (Unit {0})
  emit_created known d value =
      if known then pure tt else emit_delivery_event env d Event.rating_created (of_rating value)

  unfoldable pub store_rating : Delivery → ℕ → Exec Page
  unfolding emit_created
  store_rating d value = do
    known ← gets (λ w. any (is_rating_for d.id) w.ratings)
    save_rating d value
    emit_created known d value
    pure redirect_to_status

  unfoldable pub rate_view : ℤ → Delivery → Exec Page
  rate_view value d =
      if in_range value && is_delivered d.status
      then store_rating d (magnitude value)
      else pure redirect_to_status

  module _ (int : String → Option ℤ) where
    unfoldable pub page_of : Route → Request → String → Delivery → Shop → Exec Page
    page_of status request token d shop = status_view token d shop
    page_of mark_received request token d shop = mark_received_view d
    page_of unsubscribe request token d shop = unsubscribe_view request.is_post d
    page_of rate request token d shop = rate_view (get_or (int request.value) (pos 0)) d

    unfoldable pub page_for : Route → Request → String → Found → Exec Page
    page_for route request token no_token = pure not_found
    page_for route request token (expired_token d shop) =
        pure (expired shop.name shop.contact_phone)
    page_for route request token (good_token d shop) = page_of route request token d shop

    unfoldable pub view : Route → Request → String → Exec Page
    unfolding page_for
    view route request token =
        if needs_post route && not request.is_post
        then pure method_not_allowed
        else do found ← active_token token; page_for route request token found

    -- `rate_limited`, with the counters beside the state
    unfoldable pub rate_limited :
        Addresses
        → ℕ
        → Route
        → Request
        → String
        → World
        → List Counter
        → (Result Page × World) × List Counter
    rate_limited net limit route request token w rows =
        let counted =
          hit "tracking" (client_ip net request.headers) limit 60 (env.clock w.calls) rows in
        let w1 = record w { calls = suc w.calls } in
        if get_or counted.0 false
        then (view route request token w1, counted.1)
        else (pure too_many_requests w1, counted.1)
