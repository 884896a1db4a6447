-- ===== src/Billing.antt =====
-- billing/services.py: trial, status and access of a shop.
pub mod Access
pub mod Memberships
pub mod Api
pub mod Payments
pub mod Sync
pub mod Signature
pub mod Webhook
pub mod Sound
pub mod Report
pub mod Checkout
use javi.Prelude.{
  ℕ, ◌+◌, ◌-◌, ◌*◌, ◌/◌, String, Bool, true, false, ◌&&◌, Option, none, some, ltb, ◌==◌, first,
  if◌then◌else◌, is_some, get_or,
}
use javi.Model.{Shop, ShopSubscription, BillingStatus, trial, active, past_due, canceled}
use javi.Env.{Env, day, second}
use javi.World.{Db}
use javi.Exec.{Exec, pure, gets, ◌>>=◌}
use javi.Runtime.{now_or}

-- `shop.subscription`, or `None`
unfoldable pub subscription_of : Db → Shop → Option ShopSubscription
unfolding first
subscription_of db shop = first (λ (s : ShopSubscription). s.shop_id == shop.id) db.subscriptions

unfoldable pub shop_status : Option ShopSubscription → BillingStatus
shop_status none = trial
shop_status (some sub) = sub.status

module _ (env : Env) where
  unfoldable pub enforced : Bool
  enforced = env.settings.billing_enabled && is_some env.settings.billing_start_datetime

  -- Registration, or the start of billing if that is later, and the trial days.
  computed_trial_end : Shop → ℕ
  computed_trial_end shop =
      let go_live = get_or env.settings.billing_start_datetime 0 in
      let start = if ltb shop.created_at go_live then go_live else shop.created_at in
      start + env.settings.billing_trial_days * day

  trial_override : Option ShopSubscription → Option ℕ
  trial_override none = none
  trial_override (some sub) = sub.trial_ends_override

  unfoldable pub trial_ends_at : Option ShopSubscription → Shop → ℕ
  unfolding computed_trial_end trial_override
  trial_ends_at sub shop = get_or (trial_override sub) (computed_trial_end shop)

  past_due_since : Option ShopSubscription → Option ℕ
  past_due_since none = none
  past_due_since (some sub) = sub.past_due_since

  abbrev past_due_grace : ℕ
  past_due_grace = env.settings.billing_past_due_grace_days * day

  access_by_status : BillingStatus → Option ShopSubscription → Shop → ℕ → Bool
  unfolding past_due_since
  access_by_status active sub shop now = true
  access_by_status past_due sub shop now =
      ltb now (get_or (past_due_since sub) now + past_due_grace)
  access_by_status trial sub shop now = ltb now (trial_ends_at sub shop)
  access_by_status canceled sub shop now = ltb now (trial_ends_at sub shop)

  -- The body of `has_access` once the moment is known.
  unfoldable pub access_at : Option ShopSubscription → Shop → ℕ → Bool
  unfolding access_by_status shop_status
  access_at sub shop now = access_by_status (shop_status sub) sub shop now

  -- The clock is read only where no moment is given and billing is enforced.
  unfoldable pub has_access : Shop → Option ℕ → Exec Bool
  has_access shop now =
      if enforced
      then (do t ← now_or env now; gets (λ w. access_at (subscription_of w.db shop) shop t))
      else pure true

  -- `math.ceil(seconds / 86400)`, not below 0
  unfoldable pub trial_days_left : Option ShopSubscription → Shop → ℕ → ℕ
  trial_days_left sub shop now = (trial_ends_at sub shop - now + (day - 1)) / day
