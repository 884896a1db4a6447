-- ===== src/Billing/Checkout/Row.antt =====
-- What the start of a checkout changes.
use javi.Prelude.{
  ℕ, ◌≡◌, refl, ◌∙◌, ap, String, Bool, true, ◌&&◌, ◌||◌, Option, none, some, str_eq, truthy,
  if◌then◌else◌, Bool-cases, inl, inr,
}
use javi.Model.{Shop}
use javi.Env.{Env}
use javi.World.{World, Db}
use javi.Exec.{ok, gets, ◌>>=◌}
use javi.Runtime.{now_or, tick}
use javi.Billing.{subscription_of, shop_status, trial_days_left}
use javi.Billing.Memberships.{Whop, is_whop_url}
use javi.Billing.Api.{WhopApi, CheckoutBody, api_request, body_of}
use javi.Billing.Payments.Recorded.{stored-status}
use javi.Billing.Checkout.{
  Checkout, purchase_url, billing_error, with_checkout_id, save_checkout, keep_checkout,
}

-- A URL of Whop: `https` on whop.com or below it.
unfoldable pub is_on_whop : Whop → String → Bool
is_on_whop whop url =
    str_eq (whop.scheme url) "https"
    && (str_eq (whop.host_lower url) "whop.com" || whop.ends_with (whop.host_lower url) ".whop.com")

kept_url :
    (whop : Whop) (url : String)
    → truthy (if is_on_whop whop url then url else "") ≡ true
    → is_on_whop whop (if is_on_whop whop url then url else "") ≡ true
kept_url whop url h = elim (Bool-cases (is_on_whop whop url)) [
  | inl good ↦ rw good good
  | inr bad ↦ let refused = rw bad at h in cc
]

-- Whatever the value is, a URL that is taken from it is one of Whop.
pub is_whop_url-is_on_whop :
    (whop : Whop) (value : String)
    → truthy (is_whop_url whop value) ≡ true
    → is_on_whop whop (is_whop_url whop value) ≡ true
unfolding is_whop_url is_on_whop
is_whop_url-is_on_whop whop value h = kept_url whop _ h

module _ (whop : Whop) (api : WhopApi) (env : Env) where
  -- The outcome of a checkout: a URL of Whop, with no shop's status changed, or an error, with the
  -- database as it was.
  abbrev pub ComesTo : Checkout → World → World → Type 0
  ComesTo (purchase_url url) w w' =
      (is_on_whop whop url ≡ true)
      × ((other : Shop)
          → shop_status (subscription_of w'.db other) ≡ shop_status (subscription_of w.db other))
  ComesTo billing_error w w' = w'.db ≡ w.db

  save_checkout-status :
      (shop other : Shop) (body : CheckoutBody) (w : World)
      → shop_status (subscription_of (save_checkout env whop api shop body w).1.db other)
        ≡ shop_status (subscription_of w.db other)
  unfolding save_checkout subscription_of with_checkout_id
  save_checkout-status shop other body w =
      stored-status (with_checkout_id (whop.cut 64 body.id)) (λ s. refl) (λ s. refl) shop.id
        other.id w.subscriptions

  keep_checkout_lem :
      (shop : Shop) (body : Option CheckoutBody) (w : World)
      → let run = keep_checkout env whop api shop body w in
        (outcome : Checkout) × (run.0 ≡ ok outcome) × ComesTo outcome w run.1
  unfolding keep_checkout save_checkout
  keep_checkout_lem shop none w = (billing_error, refl, refl)
  keep_checkout_lem shop (some body) w =
      let url = is_whop_url whop body.purchase_url in
      elim (Bool-cases (truthy url)) [
        | inl good ↦ rw good (
          purchase_url url,
          refl,
          (
            is_whop_url-is_on_whop whop body.purchase_url good,
            λ other. save_checkout-status shop other body w,
          ),
        )
        | inr bad ↦ rw bad (billing_error, refl, refl)
      ]

  outcome_after :
      (outcome : Checkout) (w w1 w2 : World)
      → w1.db ≡ w.db
      → ComesTo outcome w1 w2
      → ComesTo outcome w w2
  outcome_after (purchase_url url) w w1 w2 same (on_whop, statuses) = (
    on_whop,
    λ other. statuses other ∙ ap (λ (db : Db). shop_status (subscription_of db other)) same,
  )
  outcome_after billing_error w w1 w2 same h = h ∙ same

  request_checkout_lem :
      (shop : Shop) (left : ℕ) (w : World)
      → let run =
          (api_request api (λ n. api.checkouts n shop.id left) >>= keep_checkout env whop api shop)
            w in
        (outcome : Checkout) × (run.0 ≡ ok outcome) × ComesTo outcome w run.1
  unfolding api_request
  request_checkout_lem shop left w = elim (Bool-cases (truthy api.api_key)) [
    | inl key ↦
        let body = body_of (api.checkouts w.calls shop.id left) in
        let (outcome, e, h) = keep_checkout_lem shop body (tick w) in
        let w2 = (keep_checkout env whop api shop body (tick w)).1 in
        rw key (outcome, e, outcome_after outcome w (tick w) w2 refl h)
    | inr no_key ↦ rw no_key (keep_checkout_lem shop none w)
  ]

  at_moment :
      (shop : Shop) (now : Option ℕ) (w : World)
      → let run =
          (now_or env now >>= λ t.
          gets (λ w. trial_days_left env (subscription_of w.db shop) shop t) >>= λ left.
          api_request api (λ n. api.checkouts n shop.id left) >>= keep_checkout env whop api shop)
            w in
        (outcome : Checkout) × (run.0 ≡ ok outcome) × ComesTo outcome w run.1
  at_moment shop none w =
      let left = trial_days_left env (subscription_of w.db shop) shop (env.clock w.calls) in
      let (outcome, e, h) = request_checkout_lem shop left (tick w) in
      let w2 =
        ((api_request api (λ n. api.checkouts n shop.id left) >>= keep_checkout env whop api shop)
          (tick w)).1 in
      (outcome, e, outcome_after outcome w (tick w) w2 refl h)
  at_moment shop (some t) w = request_checkout_lem shop _ w
