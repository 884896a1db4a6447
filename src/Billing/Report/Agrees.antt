-- ===== src/Billing/Report/Agrees.antt =====
-- The report against the tables.
use javi.Billing.Report.Sums.{
  sum_where, sum-select, any-select, in_currency, totals_gross, totals_refunded,
}
use javi.Prelude.{
  ℕ, suc, ◌+◌, ◌≡◌, refl, ◌∙◌, String, Bool, true, false, Option, none, some, List, [], ◌∷◌, ◌==◌,
  ltb, ◌||◌, ◌≤◌, ==_iff, ==_refl, subst, any-count, if-split, length-select, leb, length, any,
  select, count, arith, Bool-cases, inl, inr, ◌&&◌,
}
use javi.Model.{Shop, BillingPayment, BillingStatus, trial, active, past_due, canceled}
use javi.Env.{Env}
use javi.World.{World, Db}
use javi.Exec.{ok}
use javi.Billing.{subscription_of, shop_status, trial_ends_at}
use javi.Billing.Report.Nets.{AreNets, nets-AreNets}
use javi.Billing.Report.{
  StatusCounts, MonthReport, Totals, amount_of, add_shop, add_payment, totals, add_status,
  is_paid_in, month_bounds, count_statuses, no_statuses, report_at, monthly_report,
}

-- How often a shop stands among the paying ones.
abbrev pub times : ℕ → List ℕ → ℕ
times shop paying = count (λ s. s == shop) paying

abbrev pub is_paying : ℕ → BillingPayment → Bool
is_paying shop p = p.shop_id == shop && ltb p.refunded_amount p.amount

any-add :
    (shop other : ℕ) (paying : List ℕ)
    → any (λ s. s == other) (add_shop shop paying) ≡ (shop == other || any (λ s. s == other) paying)
unfolding add_shop any
any-add shop other paying = elim (Bool-cases (shop == other)) [
  | inl e ↦
      let same : shop ≡ other = (==_iff shop other).0 e in
      subst
        (λ o. any (λ s. s == o) (add_shop shop paying) ≡ (shop == o || any (λ s. s == o) paying))
        same (ground (arith, ==_refl shop))
  | inr e ↦ ground arith
]

times-add :
    (shop other : ℕ) (paying : List ℕ)
    → times other paying ≤ 1
    → times other (add_shop shop paying) ≤ 1
unfolding add_shop count
times-add shop other paying h = elim (Bool-cases (any (λ s. s == shop) paying)) [
  | inl there ↦ rw there h
  | inr missing ↦
      let none_yet = any-count (λ s. s == shop) paying missing in
      rw missing (elim (Bool-cases (shop == other)) [
        | inl e ↦
            let same : shop ≡ other = (==_iff shop other).0 e in
            let zero_times : times other paying ≡ 0 =
              subst (λ o. times o paying ≡ 0) same none_yet in
            rw e (omega (arith, zero_times))
        | inr e ↦ rw e h
      ])
]

totals_paying :
    (shop : ℕ) (rows : List BillingPayment) (t : Totals)
    → any (λ s. s == shop) (totals rows t).paying
      ≡ (any (λ s. s == shop) t.paying || any (is_paying shop) rows)
unfolding totals add_payment any
totals_paying shop [] t = ground arith
totals_paying shop (p ∷ rows) t =
    ground (arith, any-add p.shop_id shop t.paying, totals_paying shop rows (add_payment p t))

times-totals :
    (shop : ℕ) (rows : List BillingPayment) (t : Totals)
    → times shop t.paying ≤ 1
    → times shop (totals rows t).paying ≤ 1
unfolding totals add_payment
times-totals shop [] t h = h
times-totals shop (p ∷ rows) t h = times-totals shop rows (add_payment p t) (
    if-split (λ l. times shop l ≤ 1) (ltb p.refunded_amount p.amount) _ _
      (λ more. times-add p.shop_id shop t.paying h) (λ less. h))

abbrev pub all_statuses : StatusCounts → ℕ
all_statuses c = c.trial + c.trial_ended + c.active + c.past_due + c.canceled

all_statuses-add :
    (status : BillingStatus) (ended : Bool) (c : StatusCounts)
    → all_statuses (add_status status ended c) ≡ suc (all_statuses c)
unfolding add_status
all_statuses-add trial false c = omega arith
all_statuses-add trial true c = omega arith
all_statuses-add active ended c = omega arith
all_statuses-add past_due ended c = omega arith
all_statuses-add canceled ended c = omega arith

module _ (env : Env) where
  statuses_lem :
      (db : Db) (now : ℕ) (shops : List Shop) (c : StatusCounts)
      → all_statuses (count_statuses env db now shops c) ≡ all_statuses c + length shops
  unfolding count_statuses
  statuses_lem db now [] c = omega arith
  statuses_lem db now (shop ∷ shops) c =
      let sub = subscription_of db shop in
      let ended = leb (trial_ends_at env sub shop) now in
      omega (
        arith,
        all_statuses-add (shop_status sub) ended c,
        statuses_lem db now shops (add_status (shop_status sub) ended c),
      )

  -- The report agrees with the tables: in each currency its gross and refunded amounts are the sums
  -- over the payments of the month, the paying shops are those with a payment of the month that is
  -- not refunded in full, each counted once, and the counts by status cover each shop once.
  pub record IsReport (year month : ℕ) (db : Db) (r : MonthReport) : Type 0 where
    pub payments :
        let bounds = month_bounds env year month in
        r.payments ≡ count (is_paid_in bounds.0 bounds.1) db.payments
    pub gross :
        let bounds = month_bounds env year month in
        (currency : String)
        → amount_of currency r.gross
          ≡ sum_where
              (λ p. is_paid_in bounds.0 bounds.1 p && in_currency currency p)
              (λ p. p.amount)
              db.payments
    pub refunded :
        let bounds = month_bounds env year month in
        (currency : String)
        → amount_of currency r.refunded
          ≡ sum_where
              (λ p. is_paid_in bounds.0 bounds.1 p && in_currency currency p)
              (λ p. p.refunded_amount)
              db.payments
    pub paying :
        let bounds = month_bounds env year month in
        (shops : List ℕ) × (r.paying_shops ≡ length shops)
        × ((shop : ℕ) → times shop shops ≤ 1)
        × ((shop : ℕ)
            → any (λ s. s == shop) shops
              ≡ any (λ p. is_paid_in bounds.0 bounds.1 p && is_paying shop p) db.payments)
    pub est_net : AreNets env.settings.billing_fee_rate r.refunded r.gross r.est_net
    pub statuses : all_statuses r.statuses ≡ length db.shops

  report_lem :
      (year month now : ℕ) (db : Db) → IsReport year month db (report_at env year month now db)
  unfolding report_at amount_of any count
  report_lem year month now db =
      let bounds = month_bounds env year month in
      let test = is_paid_in bounds.0 bounds.1 in
      let rows = select test db.payments in
      let start : Totals = record { gross = []; refunded = []; paying = [] } in
      record {
        payments = length-select test db.payments;
        gross = λ currency. omega (
          arith,
          totals_gross currency rows start,
          sum-select (in_currency currency) test (λ p. p.amount) db.payments,
        );
        refunded = λ currency. omega (
          arith,
          totals_refunded currency rows start,
          sum-select (in_currency currency) test (λ p. p.refunded_amount) db.payments,
        );
        paying = (
          (totals rows start).paying,
          refl,
          (λ shop. times-totals shop rows start (omega arith)),
          λ shop. totals_paying shop rows start ∙ any-select (is_paying shop) test db.payments,
        );
        est_net =
            nets-AreNets env.settings.billing_fee_rate (totals rows start).refunded
              (totals rows start).gross;
        statuses = omega (arith, statuses_lem db now db.shops no_statuses);
      }

  -- The report of a month agrees with the tables, at whatever moment it is made: the payments, and
  -- in each currency the gross and refunded amounts, are those of the rows of the month, the net
  -- amount is what is left of these after the fee, within half a cent, the paying shops are those
  -- with a payment of the month not refunded in full, each counted once, and the counts by status
  -- add up to the number of shops.
  pub monthly_report_lem :
      (year month : ℕ) (now : Option ℕ) (w : World)
      → (r : MonthReport) × ((monthly_report env year month now w).0 ≡ ok r)
        × IsReport year month w.db r
  unfolding monthly_report
  monthly_report_lem year month none w = (_, refl, report_lem year month (env.clock w.calls) w.db)
  monthly_report_lem year month (some t) w = (_, refl, report_lem year month t w.db)
