-- ===== src/Billing/Sound/Events.antt =====
-- Every operation on what Whop sends keeps the tables sound.
use javi.Prelude.{
  ℕ, ◌≤◌, count-update, String, refl, Option, none, some, update_where, ◌∙◌, if-split, truthy, sym,
  subst, get_or, Bool-cases, inl, inr,
}
use javi.Model.{Shop, ShopSubscription, BillingPayment}
use javi.Env.{Env}
use javi.World.{World}
use javi.Exec.{Exec, rolled_back, ok, err, Result, atomic, modify}
use javi.Exec.Keeps.{Keeps, keeps_rules}
use javi.Runtime.{timezone_now, now_or}
use javi.Billing.{subscription_of}
use javi.Billing.Memberships.{
  Whop, MembershipData, new_subscription, applied, Time, no_time, moment, unreadable, when_or_now,
  write_subscription, time_fails, apply_to_row, apply_to_shop, apply_found_shop, apply_membership,
}
use javi.Billing.Memberships.Stamps.{applied-is_stamped, renamed-is_stamped}
use javi.Billing.Memberships.Store.{applied-shop_id, row_of_shop}
use javi.Billing.Api.{WhopApi, Response, PaymentData, api_request, get_membership, get_payment}
use javi.Billing.Payments.{
  is_payment, saved_payment, named, name_membership, name_row, store_payment, record_charged,
  record_found, record_payment, refunded_row, refunded_to, refunded_by, refund_of, record_refund,
}
use javi.Billing.Payments.Rows.{saved-IsUnique}
use javi.Billing.Payments.Recorded.{named-shop_id}
use javi.Billing.Sound.{IsSound, IsStamped, KeepsSound, KeepsSound-preorder, stored-IsSound}

module _ {A : Type 0} where
  rolled_back-KeepsSound :
      (w : World) (s : Result A × World) → KeepsSound w s.1 → KeepsSound w (rolled_back w s).1
  rolled_back-KeepsSound w (ok a, w') h = h
  rolled_back-KeepsSound w (err e, w') h = λ sound. sound

  atomic-Keeps : (m : Exec A) → Keeps KeepsSound m → Keeps KeepsSound (atomic m)
  atomic-Keeps m k = record { at = λ w. rolled_back-KeepsSound w (m w) (k.at w) }

pub timezone_now-Keeps : (env : Env) → Keeps KeepsSound (timezone_now env)
timezone_now-Keeps env = record { at = λ w h. h }

now_or-Keeps : (env : Env) (at : Option ℕ) → Keeps KeepsSound (now_or env at)
now_or-Keeps env none = record { at = λ w h. h }
now_or-Keeps env (some t) = record { at = λ w h. h }

when_or_now-Keeps : (env : Env) (at : Time) → Keeps KeepsSound (when_or_now env at)
when_or_now-Keeps env no_time = record { at = λ w h. h }
when_or_now-Keeps env (moment t) = record { at = λ w h. h }
when_or_now-Keeps env unreadable = record { at = λ w h. h }

named_stamped :
    (whop : Whop) (membership : String) (sub : ShopSubscription)
    → IsStamped sub
    → IsStamped (named whop membership sub)
unfolding named
named_stamped whop membership sub h =
    if-split IsStamped (truthy sub.whop_membership_id) sub
      (record sub { whop_membership_id = whop.cut 64 membership }) (λ has. h)
      (λ missing. renamed-is_stamped sub (whop.cut 64 membership) ∙ h)

name_row-Keeps :
    (whop : Whop) (membership : String) (shop : Shop)
    → Keeps KeepsSound (name_row whop membership shop)
unfolding subscription_of
name_row-Keeps whop membership shop = record {
  at = λ w h.
      stored-IsSound (named whop membership) shop.id (named-shop_id whop membership) w.db
        (named_stamped whop membership) h;
}

name_membership-Keeps :
    (whop : Whop) (membership : String) (shop : Shop)
    → Keeps KeepsSound (name_membership whop membership shop)
unfolding name_membership
name_membership-Keeps whop membership shop =
    search (keeps_rules, KeepsSound-preorder, name_row-Keeps)

module _ (whop : Whop) (env : Env) where
  apply_to_row-Keeps :
      (event : MembershipData) (now : ℕ) (shop : Shop) (w : World)
      → KeepsSound w (apply_to_row whop env event now shop (subscription_of w.db shop) w).1
  unfolding apply_to_row write_subscription subscription_of
  apply_to_row-Keeps event now shop w h =
      elim (Bool-cases (
        time_fails whop event
          (get_or (row_of_shop shop.id w.subscriptions) (new_subscription shop.id)))) [
            | inl fails ↦
                rw fails (stored-IsSound (λ s. s) shop.id (λ s. refl) w.db (λ s stamped. stamped) h)
            | inr reads ↦ rw reads (
                stored-IsSound (applied whop event now) shop.id (applied-shop_id whop env event now)
                  w.db (applied-is_stamped whop event now) h)
          ]

  apply_to_shop-Keeps :
      (event : MembershipData) (now : ℕ) (shop : Shop)
      → Keeps KeepsSound (apply_to_shop whop env event now shop)
  unfolding apply_to_shop
  apply_to_shop-Keeps event now shop = record { at = apply_to_row-Keeps event now shop }

  apply_found_shop-Keeps :
      (event : MembershipData) (now : Option ℕ) (shop : Option Shop)
      → Keeps KeepsSound (apply_found_shop whop env event now shop)
  unfolding apply_found_shop
  apply_found_shop-Keeps event now none = record { at = λ w h. h }
  apply_found_shop-Keeps event now (some shop) =
      search (keeps_rules, KeepsSound-preorder, now_or-Keeps, atomic-Keeps, apply_to_shop-Keeps)
        depth 8

  pub apply_membership-Keeps :
      (event : MembershipData) (now : Option ℕ)
      → Keeps KeepsSound (apply_membership whop env event now)
  unfolding apply_membership
  apply_membership-Keeps event now =
      search (keeps_rules, KeepsSound-preorder, apply_found_shop-Keeps) depth 8

saved-Keeps :
    (row : BillingPayment)
    → Keeps KeepsSound
        (modify (λ w. record w { db = record w.db { payments = saved_payment row w.payments } }))
saved-Keeps row = record {
  at = λ w h. record {
    one_row = h.one_row;
    stamped = h.stamped;
    payments = saved-IsUnique row w.payments h.payments;
  };
}

module _ (whop : Whop) (api : WhopApi) (env : Env) where
  store_payment-Keeps :
      (payment : PaymentData) (membership : String) (shop : Shop) (amount : ℕ) (currency : String)
      → Keeps KeepsSound (store_payment whop api env payment membership shop amount currency)
  unfolding store_payment
  store_payment-Keeps payment membership shop amount currency =
      search
        (keeps_rules, KeepsSound-preorder, when_or_now-Keeps, saved-Keeps, name_membership-Keeps)
        depth 10

  record_charged-Keeps :
      (payment : PaymentData) (membership : String) (shop : Shop) (charge : Option ℕ × String)
      → Keeps KeepsSound (record_charged whop api env payment membership shop charge)
  unfolding record_charged
  record_charged-Keeps payment membership shop (none, currency) = record { at = λ w h. h }
  record_charged-Keeps payment membership shop (some amount, currency) =
      search (keeps_rules, KeepsSound-preorder, store_payment-Keeps) depth 6

  record_found-Keeps :
      (payment : PaymentData) (membership : String) (shop : Option Shop)
      → Keeps KeepsSound (record_found whop api env payment membership shop)
  unfolding record_found
  record_found-Keeps payment membership none = record { at = λ w h. h }
  record_found-Keeps payment membership (some shop) = record_charged-Keeps payment membership shop _

  pub record_payment-Keeps :
      (payment : PaymentData) → Keeps KeepsSound (record_payment whop api env payment)
  unfolding record_payment
  record_payment-Keeps payment =
      search (keeps_rules, KeepsSound-preorder, record_found-Keeps) depth 8

refunded-Keeps :
    (id : String) (amount : ℕ)
    → Keeps KeepsSound (
        modify (λ w. record w {
          db = record w.db {
            payments = update_where (is_payment id) (refunded_row amount) w.payments;
          };
        }))
unfolding refunded_row
refunded-Keeps id amount = record {
  at = λ w h. record {
    one_row = h.one_row;
    stamped = h.stamped;
    payments = λ other.
        subst (λ n. n ≤ 1)
          (sym (
            count-update (is_payment other) (is_payment id) (refunded_row amount) w.payments
              (λ p. refl)))
          (h.payments other);
  };
}

refunded_to-Keeps :
    (p : BillingPayment) (amount : Option ℕ) → Keeps KeepsSound (refunded_to p amount)
unfolding refunded_to
refunded_to-Keeps p none = record { at = λ w h. h }
refunded_to-Keeps p (some amount) =
    search (keeps_rules, KeepsSound-preorder, refunded-Keeps) depth 8

module _ (api : WhopApi) where
  api_request-Keeps :
      {B : Type 0} (request : ℕ → Response B) → Keeps KeepsSound (api_request api request)
  unfolding api_request
  api_request-Keeps request = record {
    at = λ w h.
        if-split (λ (s : Result _ × World). IsSound s.1.db) (truthy api.api_key) _ _ (λ key. h)
          (λ no_key. h);
  }

  pub get_membership-Keeps : (id : String) → Keeps KeepsSound (get_membership api id)
  unfolding get_membership
  get_membership-Keeps id = api_request-Keeps (λ n. api.memberships n id)

  get_payment-Keeps : (id : String) → Keeps KeepsSound (get_payment api id)
  unfolding get_payment
  get_payment-Keeps id = api_request-Keeps (λ n. api.payments n id)

  refunded_by-Keeps :
      (p : BillingPayment) (body : Option PaymentData) → Keeps KeepsSound (refunded_by api p body)
  unfolding refunded_by
  refunded_by-Keeps p none = record { at = λ w h. h }
  refunded_by-Keeps p (some body) = refunded_to-Keeps p _

  refund_of-Keeps :
      (id : String) (p : Option BillingPayment) → Keeps KeepsSound (refund_of api id p)
  unfolding refund_of
  refund_of-Keeps id none = record { at = λ w h. h }
  refund_of-Keeps id (some p) =
      search (keeps_rules, KeepsSound-preorder, get_payment-Keeps, refunded_by-Keeps) depth 8

  pub record_refund-Keeps : (id : String) → Keeps KeepsSound (record_refund api id)
  unfolding record_refund
  record_refund-Keeps id = search (keeps_rules, KeepsSound-preorder, refund_of-Keeps) depth 8
