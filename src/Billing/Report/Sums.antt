-- ===== src/Billing/Report/Sums.antt =====
-- The sums of the report against the rows of the tables.
use javi.Prelude.{
  ℕ, ◌+◌, ◌≡◌, refl, ◌∙◌, String, Bool, true, false, List, [], ◌∷◌, str_eq, eq_iff, sym, any,
  select, if◌then◌else◌, arith, Bool-cases, inl, inr, ◌&&◌,
}
use javi.Model.{BillingPayment}
use javi.Billing.Report.{Totals, amount_of, add_amount, add_payment, totals}

-- The sum over the rows that pass a test.
unfoldable pub sum_where : (BillingPayment → Bool) → (BillingPayment → ℕ) → List BillingPayment → ℕ
sum_where p f [] = 0
sum_where p f (x ∷ xs) = let rest = sum_where p f xs in if p x then f x + rest else rest

pub sum-select :
    (p q : BillingPayment → Bool) (f : BillingPayment → ℕ) (xs : List BillingPayment)
    → sum_where p f (select q xs) ≡ sum_where (λ x. q x && p x) f xs
unfolding sum_where select
sum-select p q f [] = refl
sum-select p q f (x ∷ xs) = ground (arith, sum-select p q f xs)

not_both : (a b c : String) → str_eq a b ≡ false → str_eq a c ≡ true → str_eq b c ≡ false
not_both a b c different same = elim (Bool-cases (str_eq b c)) [
  | inl e ↦
      let equal : a ≡ b = (eq_iff a c).0 same ∙ sym ((eq_iff b c).0 e) in
      let contradiction = (eq_iff a b).1 equal in cc
  | inr e ↦ e
]

amount_of-add :
    (currency other : String) (n : ℕ) (amounts : List (String × ℕ))
    → amount_of other (add_amount currency n amounts)
      ≡ (if str_eq currency other then amount_of other amounts + n else amount_of other amounts)
unfolding amount_of add_amount
amount_of-add currency other n [] = ground arith
amount_of-add currency other n ((c, m) ∷ amounts) = elim (Bool-cases (str_eq c currency)) [
  | inl same ↦ let e : c ≡ currency = (eq_iff c currency).0 same in rw same (rw e (ground arith))
  | inr different ↦ rw different (elim (Bool-cases (str_eq c other)) [
    | inl e ↦ rw (e, not_both c currency other different e) refl
    | inr e ↦ rw e (amount_of-add currency other n amounts)
  ])
]

abbrev pub in_currency : String → BillingPayment → Bool
in_currency currency p = str_eq p.currency currency

pub any-select :
    (p q : BillingPayment → Bool) (xs : List BillingPayment)
    → any p (select q xs) ≡ any (λ x. q x && p x) xs
unfolding any select
any-select p q [] = refl
any-select p q (x ∷ xs) = ground (arith, any-select p q xs)

pub totals_gross :
    (currency : String) (rows : List BillingPayment) (t : Totals)
    → amount_of currency (totals rows t).gross
      ≡ amount_of currency t.gross + sum_where (in_currency currency) (λ p. p.amount) rows
unfolding totals add_payment sum_where
totals_gross currency [] t = omega arith
totals_gross currency (p ∷ rows) t = ground (
  arith,
  amount_of-add p.currency currency p.amount t.gross,
  totals_gross currency rows (add_payment p t),
)

pub totals_refunded :
    (currency : String) (rows : List BillingPayment) (t : Totals)
    → amount_of currency (totals rows t).refunded
      ≡ amount_of currency t.refunded
        + sum_where (in_currency currency) (λ p. p.refunded_amount) rows
unfolding totals add_payment sum_where
totals_refunded currency [] t = omega arith
totals_refunded currency (p ∷ rows) t = ground (
  arith,
  amount_of-add p.currency currency p.refunded_amount t.refunded,
  totals_refunded currency rows (add_payment p t),
)
