-- ===== src/Billing/Payments.antt =====
-- billing/services.py: the payments of a shop, from a paid event of Whop and from a refund.
pub mod Rows
pub mod Recorded
use javi.Prelude.{
  ℕ, ◌+◌, String, Bool, true, false, not, ◌&&◌, ◌||◌, Option, none, some, List, [], ◌∷◌, ◌==◌,
  str_eq, length, first, any, update_where, if◌then◌else◌, is_some, truthy, get_or,
}
use text.Mathlib.Text.{starts_with}
use javi.Model.{Shop, ShopSubscription, BillingPayment}
use javi.Env.{Env}
use javi.World.{World}
use javi.Exec.{Exec, pure, gets, modify, ◌>>=◌, ◌>>◌}
use javi.Billing.{subscription_of}
use javi.Billing.Memberships.{Whop, when_or_now, is_ours, find_shop, stored}
use javi.Billing.Api.{
  WhopApi, Money, Value, scalar, object, PaymentData, money, membership_of, get_payment,
}

-- The subtotals of the items that have one.
unfoldable pub subtotals_of : List (Option Money) → List Money
subtotals_of [] = []
subtotals_of (none ∷ items) = subtotals_of items
subtotals_of (some m ∷ items) = m ∷ subtotals_of items

plus_amount : Option ℕ → Option ℕ → Option ℕ
plus_amount none rest = none
plus_amount (some a) none = none
plus_amount (some a) (some b) = some (a + b)

-- `sum(amounts)`, where every amount is readable
unfoldable pub total : List (Option ℕ) → Option ℕ
unfolding plus_amount
total [] = some 0
total (a ∷ amounts) = plus_amount a (total amounts)

-- `currencies.pop()`, where the set has one element
unfoldable pub one_currency : List String → Option String
one_currency [] = none
one_currency (c ∷ rest) = if any (λ other. not (str_eq other c)) rest then none else some c

pair_of : Option ℕ → Option String → Option (ℕ × String)
pair_of none currency = none
pair_of (some amount) none = none
pair_of (some amount) (some currency) = some (amount, currency)

abbrev pub is_payment : String → BillingPayment → Bool
is_payment id p = str_eq p.whop_payment_id id

-- `update_or_create(whop_payment_id=...)`
unfoldable pub saved_payment : BillingPayment → List BillingPayment → List BillingPayment
saved_payment row rows =
    if any (is_payment row.whop_payment_id) rows
    then update_where (is_payment row.whop_payment_id) (λ old. row) rows
    else row ∷ rows

module _ (api : WhopApi) where
  amounts_of : List Money → List (Option ℕ)
  amounts_of [] = []
  amounts_of (m ∷ ms) = money api (object m) ∷ amounts_of ms

  currencies_of : List Money → List String
  currencies_of [] = []
  currencies_of (m ∷ ms) = api.upper m.currency ∷ currencies_of ms

  -- The first shape: every item has a subtotal, in one currency.
  unfoldable pub charged_items : List (Option Money) → Option (ℕ × String)
  unfolding pair_of amounts_of currencies_of
  charged_items items =
      let subtotals = subtotals_of items in
      if length subtotals == length items
      then pair_of (total (amounts_of subtotals)) (one_currency (currencies_of subtotals))
      else none

  charged_money : Money → Option ℕ × String
  charged_money m = (money api (object m), api.upper m.currency)

  charged_subtotal : Value → String → Option ℕ × String
  unfolding charged_money
  charged_subtotal (scalar s) currency = (money api (scalar s), api.upper currency)
  charged_subtotal (object m) currency =
      if truthy m.currency then charged_money m else (money api (object m), api.upper currency)

  charged_presented : Option Money → PaymentData → Option ℕ × String
  unfolding charged_money charged_subtotal
  charged_presented none payment = charged_subtotal payment.subtotal payment.currency
  charged_presented (some m) payment =
      if truthy m.currency
      then charged_money m
      else charged_subtotal payment.subtotal payment.currency

  charged_after : Option (ℕ × String) → PaymentData → Option ℕ × String
  unfolding charged_presented
  charged_after (some (amount, currency)) payment = (some amount, currency)
  charged_after none payment = charged_presented payment.presentment_total payment

  unfoldable pub charged : PaymentData → Option ℕ × String
  unfolding charged_after
  charged payment = charged_after (charged_items payment.line_items) payment

module _ (whop : Whop) where
  -- A subscription without a membership gets the one of the payment.
  unfoldable pub named : String → ShopSubscription → ShopSubscription
  named membership sub =
      if truthy sub.whop_membership_id
      then sub
      else record sub { whop_membership_id = whop.cut 64 membership }

  abbrev pub name_row : String → Shop → Exec (Unit {0})
  name_row membership shop = modify (λ w. record w {
    db = record w.db {
      subscriptions = stored shop.id (named membership) (subscription_of w.db shop) w.subscriptions;
    };
  })

  unfoldable pub name_membership : String → Shop → Exec (Unit {0})
  name_membership membership shop = if truthy membership then name_row membership shop else pure tt

module _ (whop : Whop) (api : WhopApi) where
  -- The defaults of `update_or_create`.
  unfoldable pub payment_row : PaymentData → Shop → String → ℕ → String → ℕ → BillingPayment
  payment_row payment shop membership amount currency paid_at = record {
    shop_id = shop.id;
    whop_payment_id = payment.payload.id;
    whop_membership_id = whop.cut 64 membership;
    amount = amount;
    currency = whop.cut 3 currency;
    refunded_amount = get_or (money api payment.refunded_amount) 0;
    billing_reason = whop.cut 40 payment.billing_reason;
    paid_at = paid_at;
  }

  module _ (env : Env) where
    unfoldable pub store_payment :
        PaymentData → String → Shop → ℕ → String → Exec (Option BillingPayment)
    store_payment payment membership shop amount currency = do
      paid_at ← when_or_now env payment.paid_at
      let row = payment_row payment shop membership amount currency paid_at
      modify (λ w. record w { db = record w.db { payments = saved_payment row w.payments } })
      name_membership whop membership shop
      pure (some row)

    unfoldable pub record_charged :
        PaymentData → String → Shop → Option ℕ × String → Exec (Option BillingPayment)
    record_charged payment membership shop (none, currency) = pure none
    record_charged payment membership shop (some amount, currency) =
        if truthy currency then store_payment payment membership shop amount currency else pure none

    unfoldable pub record_found : PaymentData → String → Option Shop → Exec (Option BillingPayment)
    record_found payment membership none = pure none
    record_found payment membership (some shop) =
        record_charged payment membership shop (charged api payment)

    unfoldable pub record_payment : PaymentData → Exec (Option BillingPayment)
    record_payment payment =
        let taken =
          starts_with payment.payload.id "pay_"
          && is_ours whop payment.payload
          && str_eq payment.payload.status "paid" in
        if not taken then pure none else do
          shop ← gets (λ w. find_shop whop w.db payment.payload (membership_of payment))
          record_found payment (membership_of payment) shop

unfoldable pub refunded_row : ℕ → BillingPayment → BillingPayment
refunded_row refunded p = record p { refunded_amount = refunded }

unfoldable pub refunded_to : BillingPayment → Option ℕ → Exec (Option BillingPayment)
unfolding refunded_row
refunded_to p none = pure (some p)
refunded_to p (some refunded) = if refunded == p.refunded_amount then pure (some p) else do
  modify (λ w. record w {
    db = record w.db {
      payments = update_where (is_payment p.whop_payment_id) (refunded_row refunded) w.payments;
    };
  })
  pure (some (refunded_row refunded p))

module _ (api : WhopApi) where
  unfoldable pub refunded_by : BillingPayment → Option PaymentData → Exec (Option BillingPayment)
  unfolding refunded_to
  refunded_by p none = pure none
  refunded_by p (some body) = refunded_to p (money api body.refunded_amount)

  unfoldable pub refund_of : String → Option BillingPayment → Exec (Option BillingPayment)
  unfolding refunded_by
  refund_of id none = pure none
  refund_of id (some p) = do body ← get_payment api id; refunded_by p body

  unfoldable pub record_refund : String → Exec (Option BillingPayment)
  unfolding refund_of
  record_refund id = do payment ← gets (λ w. first (is_payment id) w.payments); refund_of id payment
