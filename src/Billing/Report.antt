-- ===== src/Billing/Report.antt =====
-- billing/services.py: the report of one month. A dict by currency is a list of pairs.
pub mod Sums
pub mod Nets
pub mod Agrees
use javi.Prelude.{
  ℕ, zero, suc, ◌+◌, ◌-◌, ◌*◌, ◌%◌, ℤ, pos, negsuc, round_div, map, String, Bool, true, false, not,
  ◌&&◌, Option, none, some, List, [], ◌∷◌, ◌==◌, str_eq, ltb, leb, length, any, select,
  if◌then◌else◌,
}
use javi.Model.{Shop, BillingPayment, BillingStatus, trial, active, past_due, canceled}
use javi.Env.{Env}
use javi.World.{World, Db}
use javi.Exec.{Exec, pure, gets, ◌>>=◌}
use javi.Runtime.{now_or}
use javi.Billing.{subscription_of, shop_status, trial_ends_at}

pub record StatusCounts : Type 0 where
  pub trial : ℕ
  pub trial_ended : ℕ
  pub active : ℕ
  pub past_due : ℕ
  pub canceled : ℕ

pub record MonthReport : Type 0 where
  pub year : ℕ
  pub month : ℕ
  pub paying_shops : ℕ
  pub payments : ℕ
  pub gross : List (String × ℕ)
  pub refunded : List (String × ℕ)
  pub est_net : List (String × ℤ)
  pub statuses : StatusCounts

-- `amounts.get(currency, 0)`
unfoldable pub amount_of : String → List (String × ℕ) → ℕ
amount_of currency [] = 0
amount_of currency ((c, n) ∷ amounts) = if str_eq c currency then n else amount_of currency amounts

-- `amounts[currency] = amounts.get(currency, 0) + n`
unfoldable pub add_amount : String → ℕ → List (String × ℕ) → List (String × ℕ)
add_amount currency n [] = (currency, n) ∷ []
add_amount currency n ((c, m) ∷ amounts) =
    if str_eq c currency then (c, m + n) ∷ amounts else (c, m) ∷ add_amount currency n amounts

-- `paying.add(shop_id)`
unfoldable pub add_shop : ℕ → List ℕ → List ℕ
add_shop shop paying = if any (λ s. s == shop) paying then paying else shop ∷ paying

pub record Totals : Type 0 where
  pub gross : List (String × ℕ)
  pub refunded : List (String × ℕ)
  pub paying : List ℕ

unfoldable pub add_payment : BillingPayment → Totals → Totals
add_payment p t = record {
  gross = add_amount p.currency p.amount t.gross;
  refunded = add_amount p.currency p.refunded_amount t.refunded;
  paying = if ltb p.refunded_amount p.amount then add_shop p.shop_id t.paying else t.paying;
}

unfoldable pub totals : List BillingPayment → Totals → Totals
totals [] t = t
totals (p ∷ payments) t = totals payments (add_payment p t)

unfoldable pub add_status : BillingStatus → Bool → StatusCounts → StatusCounts
add_status trial false counts = record counts { trial = suc counts.trial }
add_status trial true counts = record counts { trial_ended = suc counts.trial_ended }
add_status active ended counts = record counts { active = suc counts.active }
add_status past_due ended counts = record counts { past_due = suc counts.past_due }
add_status canceled ended counts = record counts { canceled = suc counts.canceled }

abbrev pub is_paid_in : ℕ → ℕ → BillingPayment → Bool
is_paid_in start end p = leb start p.paid_at && ltb p.paid_at end

-- A fee rate is a number of 1/10000.
abbrev pub fee_scale : ℕ
fee_scale = 10000

abbrev pub minus : ℕ → ℤ
minus zero = pos zero
minus (suc n) = negsuc n

-- `(amount * (1 - rate) - refunded).quantize(Decimal("0.01"))`, with amounts in cents
unfoldable pub net_of : ℕ → ℕ → ℕ → ℤ
net_of rate amount back =
    let plus = amount * fee_scale in
    let less = amount * rate + back * fee_scale in
    if leb less plus
    then pos (round_div (plus - less) fee_scale)
    else minus (round_div (less - plus) fee_scale)

unfoldable pub nets : ℕ → List (String × ℕ) → List (String × ℕ) → List (String × ℤ)
nets rate refunded [] = []
nets rate refunded ((c, n) ∷ gross) =
    (c, net_of rate n (amount_of c refunded)) ∷ nets rate refunded gross

abbrev no_statuses : StatusCounts
no_statuses = record { trial = 0; trial_ended = 0; active = 0; past_due = 0; canceled = 0 }

module _ (env : Env) where
  midnight : ℕ → ℕ → ℕ
  midnight year month = env.instant (record {
    year = year;
    month = month;
    day_of_month = 1;
    hour = 0;
    minutes = 0;
    seconds = 0;
    microsecond = 0;
  })

  unfoldable pub month_bounds : ℕ → ℕ → ℕ × ℕ
  unfolding midnight
  month_bounds year month =
      (midnight year month, midnight (if month == 12 then suc year else year) (month % 12 + 1))

  unfoldable pub count_statuses : Db → ℕ → List Shop → StatusCounts → StatusCounts
  count_statuses db now [] counts = counts
  count_statuses db now (shop ∷ shops) counts =
      let sub = subscription_of db shop in
      let ended = leb (trial_ends_at env sub shop) now in
      count_statuses db now shops (add_status (shop_status sub) ended counts)

  unfoldable pub report_at : ℕ → ℕ → ℕ → Db → MonthReport
  report_at year month now db =
      let bounds = month_bounds year month in
      let payments = select (is_paid_in bounds.0 bounds.1) db.payments in
      let t = totals payments (record { gross = []; refunded = []; paying = [] }) in
      record {
        year = year;
        month = month;
        paying_shops = length t.paying;
        payments = length payments;
        gross = t.gross;
        refunded = t.refunded;
        est_net = nets env.settings.billing_fee_rate t.refunded t.gross;
        statuses = count_statuses db now db.shops no_statuses;
      }

  unfoldable pub monthly_report : ℕ → ℕ → Option ℕ → Exec MonthReport
  monthly_report year month now = do t ← now_or env now; gets (λ w. report_at year month t w.db)
