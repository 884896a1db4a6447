-- ===== src/Billing/Payments/Recorded.antt =====
-- What a paid event makes of the tables.
use javi.Billing.Payments.Rows.{saved-own, saved-other, IsUnique, saved-IsUnique}
use javi.Prelude.{
  ℕ, String, ◌≡◌, refl, ◌∙◌, sym, ap, true, false, ◌&&◌, Option, none, some, List, ◌==◌, ==_iff,
  str_eq, first, arith, truthy, get_or, Bool-cases, inl, inr, subst,
}
use text.Mathlib.Text.{starts_with}
use javi.Model.{Shop, ShopSubscription, BillingPayment}
use javi.Env.{Env}
use javi.World.{World, Db}
use javi.Exec.{ok}
use javi.Exec.Frame.{bind-eq-ok}
use javi.Billing.{subscription_of, shop_status}
use javi.Billing.Memberships.{
  Whop, Time, no_time, moment, unreadable, when_or_now, is_ours, find_shop, stored,
  new_subscription,
}
use javi.Billing.Memberships.Store.{row_of_shop, stored-own, stored-other}
use javi.Billing.Api.{WhopApi, PaymentData, membership_of}
use javi.Billing.Payments.{
  charged, is_payment, payment_row, saved_payment, named, name_membership, store_payment,
  record_charged, record_found, record_payment,
}

named-status :
    (whop : Whop) (membership : String) (sub : ShopSubscription)
    → (named whop membership sub).status ≡ sub.status
unfolding named
named-status whop membership sub = ground arith

pub named-shop_id :
    (whop : Whop) (membership : String) (sub : ShopSubscription)
    → (named whop membership sub).shop_id ≡ sub.shop_id
unfolding named
named-shop_id whop membership sub = ground arith

status_of_new :
    (f : ShopSubscription → ShopSubscription)
    → ((s : ShopSubscription) → (f s).status ≡ s.status)
    → (shop : ℕ) (o : Option ShopSubscription)
    → shop_status (some (f (get_or o (new_subscription shop)))) ≡ shop_status o
unfolding shop_status
status_of_new f same shop none = same (new_subscription shop)
status_of_new f same shop (some sub) = same sub

pub stored-status :
    (f : ShopSubscription → ShopSubscription)
    → ((s : ShopSubscription) → (f s).shop_id ≡ s.shop_id)
    → ((s : ShopSubscription) → (f s).status ≡ s.status)
    → (shop other : ℕ) (rows : List ShopSubscription)
    → shop_status (row_of_shop other (stored shop f (row_of_shop shop rows) rows))
      ≡ shop_status (row_of_shop other rows)
unfolding shop_status
stored-status f keeps same shop other rows = elim (Bool-cases (other == shop)) [
  | inl own ↦
      let e : other ≡ shop = (==_iff other shop).0 own in
      subst
        (λ i.
          shop_status (row_of_shop i (stored shop f (row_of_shop shop rows) rows))
          ≡ shop_status (row_of_shop i rows))
        (sym e)
        (ap shop_status (stored-own f keeps shop rows _ refl)
          ∙ status_of_new f same shop (row_of_shop shop rows))
  | inr different ↦ ap shop_status (stored-other f keeps shop other rows _ different)
]

module _ (whop : Whop) (api : WhopApi) (env : Env) where
  -- A payment that was recorded: it is paid, ours and has a shop; its row has the amount that was
  -- charged and is the one that is found under its id afterwards. The rows of the other payments are
  -- as they were, each id still stands once, and no shop has another status.
  pub record IsRecorded (payment : PaymentData) (w : World) (row : BillingPayment) (w' : World)
      : Type 0 where
    pub ours : is_ours whop payment.payload ≡ true
    pub paid : str_eq payment.payload.status "paid" ≡ true
    pub shop : Shop
    pub found : find_shop whop w.db payment.payload (membership_of payment) ≡ some shop
    pub of_shop : row.shop_id ≡ shop.id
    pub amount : (charged api payment).0 ≡ some row.amount
    pub own : first (is_payment payment.payload.id) w'.payments ≡ some row
    pub others :
        (other : String)
        → is_payment other row ≡ false
        → first (is_payment other) w'.payments ≡ first (is_payment other) w.payments
    pub unique : IsUnique w.payments → IsUnique w'.payments
    pub statuses :
        (any_shop : Shop)
        → shop_status (subscription_of w'.db any_shop) ≡ shop_status (subscription_of w.db any_shop)

  name_membership-status :
      (membership : String) (shop any_shop : Shop) (w : World)
      → shop_status (subscription_of (name_membership whop membership shop w).1.db any_shop)
        ≡ shop_status (subscription_of w.db any_shop)
  unfolding name_membership subscription_of
  name_membership-status membership shop any_shop w = ground (
    arith,
    stored-status (named whop membership) (named-shop_id whop membership)
        (named-status whop membership) shop.id any_shop.id w.subscriptions,
  )

  name_membership-payments :
      (membership : String) (shop : Shop) (w : World)
      → (name_membership whop membership shop w).1.payments ≡ w.payments
  unfolding name_membership
  name_membership-payments membership shop w = ground arith

  -- `w` is the state when the event was looked up, `w1` the one at the transaction.
  at_moment :
      (payment : PaymentData) (shop : Shop) (amount : ℕ) (currency : String) (paid_at : ℕ)
      (w w1 : World)
      → is_ours whop payment.payload ≡ true
      → str_eq payment.payload.status "paid" ≡ true
      → find_shop whop w.db payment.payload (membership_of payment) ≡ some shop
      → (charged api payment).0 ≡ some amount
      → w1.db ≡ w.db
      → let membership = membership_of payment in
        let row = payment_row whop api payment shop membership amount currency paid_at in
        let w2 = record w1 { db = record w1.db { payments = saved_payment row w1.payments } } in
        IsRecorded payment w row (name_membership whop membership shop w2).1
  unfolding payment_row subscription_of
  at_moment payment shop amount currency paid_at w w1 ours paid found charge same =
      let membership = membership_of payment in
      let row = payment_row whop api payment shop membership amount currency paid_at in
      let w2 : World = record w1 {
        db = record w1.db { payments = saved_payment row w1.payments };
      } in
      let table : (name_membership whop membership shop w2).1.payments
          ≡ saved_payment row w.payments =
        name_membership-payments membership shop w2
        ∙ ap (λ (db : Db). saved_payment row db.payments) same in
      record {
        ours = ours;
        paid = paid;
        shop = shop;
        found = found;
        of_shop = refl;
        amount = charge;
        own = ap (first (is_payment payment.payload.id)) table ∙ saved-own row w.payments;
        others =
            λ other h. ap (first (is_payment other)) table ∙ saved-other other row w.payments h;
        unique = λ h. subst IsUnique (sym table) (saved-IsUnique row w.payments h);
        statuses = λ any_shop.
            name_membership-status membership shop any_shop w2
            ∙ ap (λ (db : Db). shop_status (subscription_of db any_shop)) same;
      }

  when_or_now-db : (at : Time) (w : World) → (when_or_now env at w).1.db ≡ w.db
  when_or_now-db no_time w = refl
  when_or_now-db (moment t) w = refl
  when_or_now-db unreadable w = refl

  store_lem :
      (payment : PaymentData) (shop : Shop) (amount : ℕ) (currency : String) (w : World)
      (row : BillingPayment)
      → is_ours whop payment.payload ≡ true
      → str_eq payment.payload.status "paid" ≡ true
      → find_shop whop w.db payment.payload (membership_of payment) ≡ some shop
      → (charged api payment).0 ≡ some amount
      → let run =
          store_payment whop api env payment (membership_of payment) shop amount currency w in
        run.0 ≡ ok (some row) → IsRecorded payment w row run.1
  unfolding store_payment
  store_lem payment shop amount currency w row ours paid found charge h =
      let membership = membership_of payment in
      let w1 = (when_or_now env payment.paid_at w).1 in
      let (paid_at, is_then, rest, whole) =
        bind-eq-ok _ (when_or_now env payment.paid_at w) (some row) h in
      let made = payment_row whop api payment shop membership amount currency paid_at in
      let w2 : World = record w1 {
        db = record w1.db { payments = saved_payment made w1.payments };
      } in
      let (done, named_it, last, whole_rest) =
        bind-eq-ok _ (name_membership whop membership shop w2) (some row) rest in
      let same : made ≡ row = cc in
      subst (IsRecorded payment w row) (sym (ap (λ s. s.1) (whole ∙ whole_rest))) (
        subst (λ r. IsRecorded payment w r (name_membership whop membership shop w2).1) same
          (at_moment payment shop amount currency paid_at w w1 ours paid found charge
            (when_or_now-db payment.paid_at w)))

  charged_lem :
      (payment : PaymentData) (shop : Shop) (charge : Option ℕ × String) (w : World)
      (row : BillingPayment)
      → is_ours whop payment.payload ≡ true
      → str_eq payment.payload.status "paid" ≡ true
      → find_shop whop w.db payment.payload (membership_of payment) ≡ some shop
      → charged api payment ≡ charge
      → let run = record_charged whop api env payment (membership_of payment) shop charge w in
        run.0 ≡ ok (some row) → IsRecorded payment w row run.1
  unfolding record_charged
  charged_lem payment shop (none, currency) w row ours paid found charge h = cc
  charged_lem payment shop (some amount, currency) w row ours paid found charge h =
      elim (Bool-cases (truthy currency)) [
        | inl named_one ↦ rw named_one (
            store_lem payment shop amount currency w row ours paid found (ap (λ c. c.0) charge)
              (rw named_one at h))
        | inr unnamed ↦ let refused = rw unnamed at h in cc
      ]

  found_lem :
      (payment : PaymentData) (o : Option Shop) (w : World) (row : BillingPayment)
      → is_ours whop payment.payload ≡ true
      → str_eq payment.payload.status "paid" ≡ true
      → find_shop whop w.db payment.payload (membership_of payment) ≡ o
      → let run = record_found whop api env payment (membership_of payment) o w in
        run.0 ≡ ok (some row) → IsRecorded payment w row run.1
  unfolding record_found
  found_lem payment none w row ours paid found h = cc
  found_lem payment (some shop) w row ours paid found h =
      charged_lem payment shop (charged api payment) w row ours paid found refl h

  -- When a payment is recorded, it is as `IsRecorded` says.
  pub record_payment_lem :
      (payment : PaymentData) (w : World) (row : BillingPayment)
      → (record_payment whop api env payment w).0 ≡ ok (some row)
      → IsRecorded payment w row (record_payment whop api env payment w).1
  unfolding record_payment
  record_payment_lem payment w row h =
      let taken =
        starts_with payment.payload.id "pay_"
        && is_ours whop payment.payload
        && str_eq payment.payload.status "paid" in
      elim (Bool-cases taken) [
        | inl good ↦
            let ours : is_ours whop payment.payload ≡ true = ground arith in
            let paid : str_eq payment.payload.status "paid" ≡ true = ground arith in
            rw good (found_lem payment _ w row ours paid refl (rw good at h))
        | inr bad ↦ let refused = rw bad at h in cc
      ]
