-- ===== src/Model/Subscriptions.antt =====
-- billing/models.py: the Whop subscription of a shop and its payments.
use javi.Prelude.{ℕ, String, Bool, true, false, Option}

-- ShopSubscription.Status
pub data BillingStatus : Type 0 where
  trial active past_due canceled : BillingStatus

abbrev pub is_active_status : BillingStatus → Bool
is_active_status active = true
is_active_status _ = false

pub record ShopSubscription : Type 0 where
  pub shop_id : ℕ
  pub status : BillingStatus
  pub whop_membership_id : String
  pub whop_checkout_id : String
  pub whop_status : String
  pub manage_url : String
  pub current_period_end : Option ℕ
  pub cancel_at_period_end : Bool
  pub past_due_since : Option ℕ
  pub activated_at : Option ℕ
  pub canceled_at : Option ℕ
  pub trial_ends_override : Option ℕ

-- Money is a number of cents.
pub record BillingPayment : Type 0 where
  pub shop_id : ℕ
  pub whop_payment_id : String
  pub whop_membership_id : String
  pub amount : ℕ
  pub currency : String
  pub refunded_amount : ℕ
  pub billing_reason : String
  pub paid_at : ℕ
