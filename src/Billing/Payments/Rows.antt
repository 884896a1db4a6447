-- ===== src/Billing/Payments/Rows.antt =====
-- The rows of the payments and their ids.
use javi.Prelude.{
  ◌≤◌, String, ◌≡◌, refl, ◌∙◌, sym, ap, true, false, some, List, [], ◌∷◌, str_eq, eq_refl, eq_iff,
  first, any, count, any-count, if-split, update_where, arith, Bool-cases, inl, inr, subst,
}
use javi.Model.{BillingPayment}
use javi.Billing.Payments.{is_payment, saved_payment}

own_id : (row : BillingPayment) → is_payment row.whop_payment_id row ≡ true
own_id row = eq_refl row.whop_payment_id

update-own-payment :
    (row : BillingPayment) (rows : List BillingPayment)
    → any (is_payment row.whop_payment_id) rows ≡ true
    → first
        (is_payment row.whop_payment_id)
        (update_where (is_payment row.whop_payment_id) (λ old. row) rows)
      ≡ some row
unfolding first update_where any
update-own-payment row [] h = cc
update-own-payment row (r ∷ rows) h = ground (arith, own_id row, update-own-payment row rows)

pub saved-own :
    (row : BillingPayment) (rows : List BillingPayment)
    → first (is_payment row.whop_payment_id) (saved_payment row rows) ≡ some row
unfolding saved_payment first
saved-own row rows = ground (arith, own_id row, update-own-payment row rows)

other_id :
    (other : String) (row r : BillingPayment)
    → is_payment other row ≡ false
    → is_payment row.whop_payment_id r ≡ true
    → is_payment other r ≡ false
other_id other row r h own =
    let same = (eq_iff r.whop_payment_id row.whop_payment_id).0 own in
    ap (λ id. str_eq id other) same ∙ h

update-other-payment :
    (other : String) (row : BillingPayment) (rows : List BillingPayment)
    → is_payment other row ≡ false
    → first (is_payment other) (update_where (is_payment row.whop_payment_id) (λ old. row) rows)
      ≡ first (is_payment other) rows
unfolding first update_where
update-other-payment other row [] h = refl
update-other-payment other row (r ∷ rows) h =
    ground (arith, other_id other row r h, update-other-payment other row rows h)

pub saved-other :
    (other : String) (row : BillingPayment) (rows : List BillingPayment)
    → is_payment other row ≡ false
    → first (is_payment other) (saved_payment row rows) ≡ first (is_payment other) rows
unfolding saved_payment first
saved-other other row rows h = ground (arith, update-other-payment other row rows h)

-- A payment stands in the table once.
abbrev pub IsUnique : List BillingPayment → Type 0
IsUnique rows = (id : String) → count (is_payment id) rows ≤ 1

count-own :
    (row : BillingPayment) (rows : List BillingPayment)
    → count
        (is_payment row.whop_payment_id)
        (update_where (is_payment row.whop_payment_id) (λ old. row) rows)
      ≡ count (is_payment row.whop_payment_id) rows
unfolding count update_where
count-own row [] = refl
count-own row (r ∷ rows) = ground (arith, own_id row, count-own row rows)

count-other :
    (other : String) (row : BillingPayment) (rows : List BillingPayment)
    → is_payment other row ≡ false
    → count (is_payment other) (update_where (is_payment row.whop_payment_id) (λ old. row) rows)
      ≡ count (is_payment other) rows
unfolding count update_where
count-other other row [] h = refl
count-other other row (r ∷ rows) h =
    ground (arith, other_id other row r h, count-other other row rows h)

update-count :
    (row : BillingPayment) (rows : List BillingPayment) (id : String)
    → count (is_payment id) (update_where (is_payment row.whop_payment_id) (λ old. row) rows)
      ≡ count (is_payment id) rows
update-count row rows id = elim (Bool-cases (is_payment id row)) [
  | inl own ↦
      let same = (eq_iff row.whop_payment_id id).0 own in
      subst
        (λ i.
          count (is_payment i) (update_where (is_payment row.whop_payment_id) (λ old. row) rows)
          ≡ count (is_payment i) rows)
        same (count-own row rows)
  | inr other ↦ count-other id row rows other
]

new-count :
    (row : BillingPayment) (rows : List BillingPayment) (id : String)
    → any (is_payment row.whop_payment_id) rows ≡ false
    → count (is_payment id) rows ≤ 1
    → count (is_payment id) (row ∷ rows) ≤ 1
unfolding count
new-count row rows id missing unique = elim (Bool-cases (is_payment id row)) [
  | inl own ↦
      let same = (eq_iff row.whop_payment_id id).0 own in
      let none_yet : count (is_payment id) rows ≡ 0 =
        subst (λ i. count (is_payment i) rows ≡ 0) same (any-count _ rows missing) in
      ground (arith, none_yet)
  | inr other ↦ rw other unique
]

pub saved-IsUnique :
    (row : BillingPayment) (rows : List BillingPayment)
    → IsUnique rows
    → IsUnique (saved_payment row rows)
unfolding saved_payment
saved-IsUnique row rows unique id =
    if-split (λ l. count (is_payment id) l ≤ 1) (any (is_payment row.whop_payment_id) rows) _ _
      (λ known. subst (λ n. n ≤ 1) (sym (update-count row rows id)) (unique id))
      (λ missing. new-count row rows id missing (unique id))
