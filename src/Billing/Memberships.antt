-- ===== src/Billing/Memberships.antt =====
-- billing/services.py and billing/whop.py: a Whop membership is stored on the subscription of its
-- shop. A field of the payload is the text that `str(x or "")` makes of it, and a time is what `when`
-- makes of it.
pub mod Stamps
pub mod Store
use javi.Prelude.{
  ℕ, String, Bool, true, false, not, ◌&&◌, ◌||◌, Option, none, some, List, [], ◌∷◌, ◌==◌, str_eq,
  first, update_where, if◌then◌else◌, truthy, text_or, get_or, or_else,
}
use text.Mathlib.Text.{starts_with}
use javi.Model.{
  Shop, ShopSubscription, BillingStatus, trial, active, past_due, canceled, is_active_status,
}
use javi.Env.{Env}
use javi.World.{World, Db}
use javi.Exec.{Exec, value_error, pure, raise, gets, modify, atomic, ◌>>=◌, ◌>>◌}
use javi.Runtime.{timezone_now, now_or}
use javi.Billing.{subscription_of}

-- The settings of Whop, and what Python gives: HMAC, text operations and `urlsplit`.
pub record Whop : Type 0 where
  pub company_id : String
  pub product_id : String
  pub shop_token : String → String
  pub digits : String → Option ℕ
  pub cut : ℕ → String → String
  pub strip : String → String
  pub is_path : String → Bool
  pub with_web_base : String → String
  pub scheme : String → String
  pub host_lower : String → String
  pub ends_with : String → String → Bool

-- What `when` makes of a time of Whop: `None`, a moment, or an exception, for a number or a text that
-- is out of range.
pub data Time : Type 0 where
  no_time : Time
  moment : ℕ → Time
  unreadable : Time

abbrev pub read : Time → Option ℕ
read no_time = none
read (moment t) = some t
read unreadable = none

unfoldable pub is_unreadable : Time → Bool
is_unreadable no_time = false
is_unreadable (moment t) = false
is_unreadable unreadable = true

-- `when(value) or timezone.now()`
abbrev pub when_or_now : Env → Time → Exec ℕ
when_or_now env no_time = timezone_now env
when_or_now env (moment t) = pure t
when_or_now env unreadable = raise value_error

pub record MembershipData : Type 0 where
  pub id : String
  pub account_id : String
  pub company_id : String
  pub company : Option String
  pub product_id : String
  pub product : Option String
  pub shop_id : String
  pub shop_token : Option String
  pub checkout_configuration_id : String
  pub status : String
  pub manage_url : String
  pub renewal_period_end : Time
  pub cancel_at_period_end : Bool
  pub canceled_at : Time

unfoldable pub account_of : MembershipData → String
account_of payload =
    text_or payload.account_id (text_or payload.company_id (get_or payload.company ""))

unfoldable pub product_of : MembershipData → String
product_of payload = text_or payload.product_id (get_or payload.product "")

-- `WHOP_STATUS_MAP`
unfoldable pub status_of : String → Option BillingStatus
status_of s =
    if str_eq s "trialing" || str_eq s "active" || str_eq s "canceling"
    then some active
    else if str_eq s "past_due" || str_eq s "unresolved"
    then some past_due
    else if str_eq s "canceled" || str_eq s "expired" || str_eq s "completed"
    then some canceled
    else none

-- A new row of a shop.
abbrev pub new_subscription : ℕ → ShopSubscription
new_subscription shop = record {
  shop_id = shop;
  status = trial;
  whop_membership_id = "";
  whop_checkout_id = "";
  whop_status = "";
  manage_url = "";
  current_period_end = none;
  cancel_at_period_end = false;
  past_due_since = none;
  activated_at = none;
  canceled_at = none;
  trial_ends_override = none;
}

-- The moments that go with the status.
unfoldable pub stamped : BillingStatus → Option ℕ → ℕ → ShopSubscription → ShopSubscription
stamped trial canceled_at now sub = sub
stamped active canceled_at now sub = record sub {
  activated_at = or_else sub.activated_at (some now);
  past_due_since = none;
}
stamped past_due canceled_at now sub = record sub {
  past_due_since = or_else sub.past_due_since (some now);
}
stamped canceled canceled_at now sub = record sub {
  canceled_at = or_else canceled_at (or_else sub.canceled_at (some now));
  past_due_since = none;
}

-- The row of a shop, made if there is none, as the table has it afterwards.
unfoldable pub stored :
    ℕ
    → (ShopSubscription → ShopSubscription)
    → Option ShopSubscription
    → List ShopSubscription
    → List ShopSubscription
stored shop f none rows = f (new_subscription shop) ∷ rows
stored shop f (some sub) rows = update_where (λ (s : ShopSubscription). s.shop_id == shop) f rows

is_canceled : BillingStatus → Bool
is_canceled canceled = true
is_canceled _ = false

unfoldable pub write_subscription :
    ℕ → (ShopSubscription → ShopSubscription) → Option ShopSubscription → Exec (Unit {0})
write_subscription shop f row =
    modify
      (λ w. record w { db = record w.db { subscriptions = stored shop f row w.subscriptions } })

is_active_now : Option BillingStatus → Bool
is_active_now none = false
is_active_now (some status) = is_active_status status

module _ (whop : Whop) where
  unfoldable pub is_ours : MembershipData → Bool
  is_ours payload =
      not (truthy (account_of payload) && not (str_eq (account_of payload) whop.company_id))
      && not (truthy (product_of payload) && not (str_eq (product_of payload) whop.product_id))

  unfoldable pub is_whop_url : String → String
  is_whop_url value =
      let given = whop.strip value in
      let url = if whop.is_path given then whop.with_web_base given else given in
      let host = whop.host_lower url in
      if str_eq (whop.scheme url) "https"
        && (str_eq host "whop.com" || whop.ends_with host ".whop.com")
      then url
      else ""

  unfoldable pub token_is_valid : String → Option String → Bool
  token_is_valid shop_id none = false
  token_is_valid shop_id (some token) = truthy token && str_eq (whop.shop_token shop_id) token

  shop_by_id : Db → Option ℕ → Option Shop
  shop_by_id db none = none
  shop_by_id db (some id) = first (λ (s : Shop). s.id == id) db.shops

  -- `_shop_from_metadata`
  unfoldable pub shop_from_metadata : Db → MembershipData → Option Shop
  unfolding shop_by_id
  shop_from_metadata db payload =
      if token_is_valid payload.shop_id payload.shop_token
      then shop_by_id db (whop.digits payload.shop_id)
      else none

  shop_of_row : Db → Option ShopSubscription → Option Shop
  unfolding shop_by_id
  shop_of_row db none = none
  shop_of_row db (some sub) = shop_by_id db (some sub.shop_id)

  unfoldable pub find_shop : Db → MembershipData → String → Option Shop
  unfolding shop_of_row
  find_shop db payload membership =
      let by_membership =
        if truthy membership
        then shop_of_row db (
            first (λ (s : ShopSubscription). str_eq s.whop_membership_id membership)
              db.subscriptions)
        else none in
      let checkout = payload.checkout_configuration_id in
      let by_checkout =
        if truthy checkout
        then shop_of_row db
            (first (λ (s : ShopSubscription). str_eq s.whop_checkout_id checkout) db.subscriptions)
        else none in
      or_else (shop_from_metadata db payload) (or_else by_membership by_checkout)

  -- An event of another membership than the one of the row, which is not live while the row is.
  unfoldable pub is_ignored : MembershipData → ShopSubscription → Bool
  unfolding is_active_now
  is_ignored payload sub =
      truthy sub.whop_membership_id
      && not (str_eq sub.whop_membership_id payload.id)
      && not (is_active_now (status_of payload.status))
      && is_active_status sub.status

  -- The fields that are copied.
  unfoldable pub copied : MembershipData → ShopSubscription → ShopSubscription
  copied payload sub = record sub {
    whop_membership_id = payload.id;
    whop_status = whop.cut 20 payload.status;
    manage_url = whop.cut 500 (is_whop_url payload.manage_url);
    current_period_end = read payload.renewal_period_end;
    cancel_at_period_end = payload.cancel_at_period_end;
    whop_checkout_id =
        if truthy payload.checkout_configuration_id
        then whop.cut 64 payload.checkout_configuration_id
        else sub.whop_checkout_id;
    status = get_or (status_of payload.status) sub.status;
  }

  unfoldable pub applied : MembershipData → ℕ → ShopSubscription → ShopSubscription
  applied payload now sub =
      let next = copied payload sub in
      if is_ignored payload sub
      then sub
      else stamped next.status (read payload.canceled_at) now next

  -- Whether a time that the event has to read raises.
  unfoldable pub time_fails : MembershipData → ShopSubscription → Bool
  unfolding is_canceled
  time_fails payload sub =
      not (is_ignored payload sub)
      && (is_unreadable payload.renewal_period_end
          || (is_canceled (copied payload sub).status && is_unreadable payload.canceled_at))

  module _ (env : Env) where
    unfoldable pub apply_to_row :
        MembershipData → ℕ → Shop → Option ShopSubscription → Exec (Option ShopSubscription)
    apply_to_row payload now shop row =
        let sub = get_or row (new_subscription shop.id) in
        if time_fails payload sub
        then (do write_subscription shop.id (λ s. s) row; raise value_error)
        else do
          write_subscription shop.id (applied payload now) row
          pure (some (applied payload now sub))

    -- The transaction. The row is made before a time is read.
    unfoldable pub apply_to_shop : MembershipData → ℕ → Shop → Exec (Option ShopSubscription)
    apply_to_shop payload now shop = do
      row ← gets (λ w. subscription_of w.db shop)
      apply_to_row payload now shop row

    unfoldable pub apply_found_shop :
        MembershipData → Option ℕ → Option Shop → Exec (Option ShopSubscription)
    apply_found_shop payload now none = pure none
    apply_found_shop payload now (some shop) = do
      now ← now_or env now
      atomic (apply_to_shop payload now shop)

    unfoldable pub apply_membership : MembershipData → Option ℕ → Exec (Option ShopSubscription)
    apply_membership payload now =
        if not (starts_with payload.id "mem_" && is_ours payload) then pure none else do
          shop ← gets (λ w. find_shop w.db payload payload.id)
          apply_found_shop payload now shop
