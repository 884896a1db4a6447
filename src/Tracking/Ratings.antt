-- ===== src/Tracking/Ratings.antt =====
-- The ratings that the public page stores.
use javi.Tracking.Rows.{IsRated, saved-IsRated}
use javi.Prelude.{
  ℕ, ℤ, pos, negsuc, ◌≤◌, String, ◌≡◌, sym, Bool, true, ◌&&◌, Option, arith, subst, Bool-cases, inl,
  inr,
}
use javi.Model.{Delivery, Shop, is_delivered}
use javi.Env.{Env}
use javi.World.{World, Db, Event, Extra}
use javi.Exec.{Exec, modify, ◌>>◌, pure}
use javi.Exec.Keeps.{Keeps, IsPreorder, keeps_rules, Keeps-bind, SameDb}
use javi.Runtime.{timezone_now}
use javi.Webhooks.{emit_delivery_event}
use javi.Webhooks.Quiet.{emit-SameDb}
use javi.Receipts.{opt_out}
use javi.Deliveries.{write_delivery, mark_delivered}
use javi.Tracking.{
  redirect_to_status, Route, status, mark_received, unsubscribe, rate, Request, Found, no_token,
  expired_token, good_token, save_rating, in_range, magnitude, emit_created, store_rating,
  rate_view, mark_received_view, unsubscribe_view, status_view, active_token, page_of, page_for,
  view,
}
use javi.Tracking.Requests.{active_token-SameState, status_view-SameState}

abbrev KeepsRated : World → World → Type 0
KeepsRated w w' = IsRated w.ratings → IsRated w'.ratings

KeepsRated-preorder : IsPreorder KeepsRated
KeepsRated-preorder = record { here = λ w h. h; then_on = λ a b c p q h. q (p h) }

same_ratings : (w w' : World) → w'.db ≡ w.db → KeepsRated w w'
same_ratings w w' e h = subst (λ (db : Db). IsRated db.ratings) (sym e) h

of_SameDb : {A : Type 0} (m : Exec A) → Keeps SameDb m → Keeps KeepsRated m
of_SameDb m k = record { at = λ w. same_ratings w (m w).1 (k.at w) }

write-Rated : (id : ℕ) (f : Delivery → Delivery) → Keeps KeepsRated (modify (write_delivery id f))
unfolding write_delivery
write-Rated id f = record { at = λ w h. h }

range_lem : (v : ℤ) → in_range v ≡ true → (1 ≤ magnitude v) × (magnitude v ≤ 5)
unfolding in_range
range_lem (pos n) h = (ground arith, ground arith)
range_lem (negsuc n) h = cc

save_rating-Rated :
    (d : Delivery) (value : ℕ) → (1 ≤ value) × (value ≤ 5) → Keeps KeepsRated (save_rating d value)
unfolding save_rating
save_rating-Rated d value h = record { at = λ w rated. saved-IsRated d.id value w.ratings h rated }

module _ (env : Env) where
  emit-Rated :
      (d : Delivery) (e : Event) (x : Extra) → Keeps KeepsRated (emit_delivery_event env d e x)
  emit-Rated d e x = of_SameDb (emit_delivery_event env d e x) (emit-SameDb env d e x)

  timezone_now-Rated : Keeps KeepsRated (timezone_now env)
  timezone_now-Rated = record { at = λ w h. h }

  mark_delivered-Rated : (d : Delivery) → Keeps KeepsRated (mark_delivered env d)
  unfolding mark_delivered
  mark_delivered-Rated d =
      search (keeps_rules, KeepsRated-preorder, timezone_now-Rated, write-Rated, emit-Rated) depth
        12

  mark_received-Rated : (d : Delivery) → Keeps KeepsRated (mark_received_view env d)
  unfolding mark_received_view
  mark_received-Rated d = search (keeps_rules, KeepsRated-preorder, mark_delivered-Rated) depth 8

  unsubscribe-Rated : (post : Bool) (d : Delivery) → Keeps KeepsRated (unsubscribe_view env post d)
  unfolding unsubscribe_view opt_out
  unsubscribe-Rated post d = record { at = λ w h. ground arith }

  emit_created-Rated :
      (known : Bool) (d : Delivery) (value : ℕ) → Keeps KeepsRated (emit_created env known d value)
  unfolding emit_created
  emit_created-Rated known d value = search (keeps_rules, KeepsRated-preorder, emit-Rated) depth 8

  store_rating-Rated :
      (d : Delivery) (value : ℕ)
      → (1 ≤ value) × (value ≤ 5)
      → Keeps KeepsRated (store_rating env d value)
  unfolding store_rating
  store_rating-Rated d value h =
      let rest : (known : Bool)
          → Keeps KeepsRated (do emit_created env known d value; pure redirect_to_status) =
        λ known. search (keeps_rules, KeepsRated-preorder, emit_created-Rated) depth 8 in
      let saved : (known : Bool)
          → Keeps KeepsRated
              (do save_rating d value; emit_created env known d value; pure redirect_to_status) =
        λ known.
          Keeps-bind KeepsRated-preorder (save_rating d value)
            (λ (u : Unit {0}). do emit_created env known d value; pure redirect_to_status)
            (save_rating-Rated d value h) (λ u. rest known) in
      search (keeps_rules, KeepsRated-preorder, saved) depth 6

  rate-Rated : (v : ℤ) (d : Delivery) → Keeps KeepsRated (rate_view env v d)
  unfolding rate_view
  rate-Rated v d = elim (Bool-cases (in_range v && is_delivered d.status)) [
    | inl good ↦ rw good (store_rating-Rated d (magnitude v) (range_lem v (ground arith)))
    | inr bad ↦ rw bad (search (keeps_rules, KeepsRated-preorder))
  ]

  active_token-Rated : (token : String) → Keeps KeepsRated (active_token env token)
  active_token-Rated token = record {
    at = λ w.
        same_ratings w (active_token env token w).1 ((active_token-SameState env token).at w).db;
  }

  status-Rated :
      (token : String) (d : Delivery) (shop : Shop)
      → Keeps KeepsRated (status_view env token d shop)
  status-Rated token d shop = record {
    at = λ w.
        same_ratings w (status_view env token d shop w).1
          ((status_view-SameState env token d shop).at w).db;
  }

  module _ (int : String → Option ℤ) where
    page_of-Rated :
        (route : Route) (request : Request) (token : String) (d : Delivery) (shop : Shop)
        → Keeps KeepsRated (page_of env int route request token d shop)
    unfolding page_of
    page_of-Rated status request token d shop = status-Rated token d shop
    page_of-Rated mark_received request token d shop = mark_received-Rated d
    page_of-Rated unsubscribe request token d shop = unsubscribe-Rated request.is_post d
    page_of-Rated rate request token d shop = rate-Rated _ d

    page_for-Rated :
        (route : Route) (request : Request) (token : String) (found : Found)
        → Keeps KeepsRated (page_for env int route request token found)
    unfolding page_for
    page_for-Rated route request token no_token = search (keeps_rules, KeepsRated-preorder)
    page_for-Rated route request token (expired_token d shop) =
        search (keeps_rules, KeepsRated-preorder)
    page_for-Rated route request token (good_token d shop) =
        page_of-Rated route request token d shop

    -- Whatever a request to a public page asks for, each delivery has one rating at most and all
    -- ratings are 1 to 5, if it was so before.
    pub view-IsRated :
        (route : Route) (request : Request) (token : String) (w : World)
        → IsRated w.ratings
        → IsRated (view env int route request token w).1.ratings
    unfolding view
    view-IsRated route request token w h =
        let keeps : Keeps KeepsRated (view env int route request token) =
          search (keeps_rules, KeepsRated-preorder, active_token-Rated, page_for-Rated) depth 10 in
        keeps.at w h
