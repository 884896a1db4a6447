-- ===== src/Billing/Checkout.antt =====
-- billing/services.py: the billing block of a shop's profile and the start of a checkout;
-- billing/views.py: where a shop that subscribes is sent.
pub mod Row
use javi.Prelude.{
  ℕ, String, Bool, true, false, not, ◌&&◌, ◌||◌, Option, none, some, List, [], ◌∷◌, ltb,
  if◌then◌else◌, truthy, get_or,
}
use javi.Model.{Shop, ShopSubscription, BillingStatus, trial, active, past_due, canceled}
use javi.Env.{Env}
use javi.World.{World, Db}
use javi.Exec.{Exec, pure, gets, modify, ◌>>=◌, ◌>>◌}
use javi.Runtime.{now_or}
use javi.Billing.{subscription_of, shop_status, trial_ends_at, trial_days_left, has_access}
use javi.Billing.Memberships.{Whop, is_whop_url, stored}
use javi.Billing.Api.{WhopApi, CheckoutBody, api_request}
use javi.Billing.Sync.{is_configured}

pub record Summary : Type 0 where
  pub status : BillingStatus
  pub has_access : Bool
  pub trial_ends_at : ℕ
  pub trial_days_left : ℕ
  pub current_period_end : Option ℕ
  pub cancel_at_period_end : Bool
  pub manage_url : String
  pub can_subscribe : Bool

can_subscribe_as : BillingStatus → Bool
can_subscribe_as trial = true
can_subscribe_as canceled = true
can_subscribe_as _ = false

period_end_of : Option ShopSubscription → Option ℕ
period_end_of none = none
period_end_of (some sub) = sub.current_period_end

cancels : Option ShopSubscription → Bool
cancels none = false
cancels (some sub) = sub.cancel_at_period_end

manage_url_of : Option ShopSubscription → String
manage_url_of none = ""
manage_url_of (some sub) = sub.manage_url

-- A URL, or a `BillingError`.
pub data Checkout : Type 0 where
  purchase_url : String → Checkout
  billing_error : Checkout

pub data Redirect : Type 0 where
  to_url : String → Redirect
  to_profile : Redirect

with_checkout_id : String → ShopSubscription → ShopSubscription
with_checkout_id id sub = record sub { whop_checkout_id = id }

module _ (env : Env) where
  summary_at : Shop → ℕ → Bool → Db → Summary
  unfolding can_subscribe_as period_end_of cancels manage_url_of
  summary_at shop now access db =
      let sub = subscription_of db shop in
      record {
        status = shop_status sub;
        has_access = access;
        trial_ends_at = trial_ends_at env sub shop;
        trial_days_left = trial_days_left env sub shop now;
        current_period_end = period_end_of sub;
        cancel_at_period_end = cancels sub;
        manage_url = manage_url_of sub;
        can_subscribe = can_subscribe_as (shop_status sub);
      }

  summary_of : Shop → ℕ → Exec (Option Summary)
  unfolding summary_at
  summary_of shop now = do
    access ← has_access env shop (some now)
    db ← gets (λ w. w.db)
    pure (some (summary_at shop now access db))

  unfoldable pub summary : Shop → Option ℕ → Exec (Option Summary)
  unfolding summary_of
  summary shop now =
      if not env.settings.billing_enabled
      then pure none
      else do t ← now_or env now; summary_of shop t

  module _ (whop : Whop) (api : WhopApi) where
    unfoldable pub save_checkout : Shop → CheckoutBody → Exec (Unit {0})
    unfolding with_checkout_id
    save_checkout shop body = modify (λ w. record w {
      db = record w.db {
        subscriptions =
            stored shop.id (with_checkout_id (whop.cut 64 body.id)) (subscription_of w.db shop)
              w.subscriptions;
      };
    })

    unfoldable pub keep_checkout : Shop → Option CheckoutBody → Exec Checkout
    keep_checkout shop none = pure billing_error
    keep_checkout shop (some body) =
        let url = is_whop_url whop body.purchase_url in
        if not (truthy url)
        then pure billing_error
        else do save_checkout shop body; pure (purchase_url url)

    unfoldable pub start_checkout : Shop → Option ℕ → Exec Checkout
    start_checkout shop now =
        if not env.settings.billing_enabled || not (is_configured whop api)
        then pure billing_error
        else do
          t ← now_or env now
          left ← gets (λ w. trial_days_left env (subscription_of w.db shop) shop t)
          body ← api_request api (λ n. api.checkouts n shop.id left)
          keep_checkout shop body

    redirect_of : Checkout → Redirect
    redirect_of billing_error = to_profile
    redirect_of (purchase_url url) = to_url url

    checkout_redirect : Shop → Exec Redirect
    unfolding redirect_of
    checkout_redirect shop = do checkout ← start_checkout shop none; pure (redirect_of checkout)

    subscribe_to : Shop → Option Summary → Exec Redirect
    unfolding checkout_redirect
    subscribe_to shop none = checkout_redirect shop
    subscribe_to shop (some info) =
        if info.can_subscribe
        then checkout_redirect shop
        else if truthy info.manage_url
        then pure (to_url info.manage_url)
        else pure to_profile

    -- `SubscribeView.post`; `none` is a 404.
    unfoldable pub subscribe : Option Shop → Exec (Option Redirect)
    unfolding subscribe_to
    subscribe none = pure none
    subscribe (some shop) =
        if not env.settings.billing_enabled
        then pure none
        else do info ← summary shop none; target ← subscribe_to shop info; pure (some target)
