-- ===== src/Billing/Report/Nets.antt =====
-- The net amounts of the report, within half a cent.
use javi.Prelude.{
  ℕ, zero, suc, ◌+◌, ◌-◌, ◌*◌, ◌≤◌, ◌≡◌, refl, String, ℤ, pos, negsuc, true, false, List, [], ◌∷◌,
  leb, round_div, arith, Bool-cases, inl, inr,
}
use javi.Billing.Report.{amount_of, fee_scale, minus, net_of, nets}

-- The cents `z`, against the gross amount less the fee and the refunds, are off by half a cent at
-- most.
abbrev pub IsNet : ℕ → ℕ → ℕ → ℤ → Type 0
IsNet rate amount back (pos n) =
    let plus = amount * fee_scale in
    let less = amount * rate + back * fee_scale in
    (2 * plus ≤ 2 * (n * fee_scale + less) + fee_scale)
    × (2 * (n * fee_scale + less) ≤ 2 * plus + fee_scale)
IsNet rate amount back (negsuc n) =
    let plus = amount * fee_scale in
    let less = amount * rate + back * fee_scale in
    (2 * less ≤ 2 * (suc n * fee_scale + plus) + fee_scale)
    × (2 * (suc n * fee_scale + plus) ≤ 2 * less + fee_scale)

-- One net amount for each currency.
abbrev pub AreNets : ℕ → List (String × ℕ) → List (String × ℕ) → List (String × ℤ) → Type 0
AreNets rate refunded [] [] = Unit
AreNets rate refunded [] (n ∷ ns) = true ≡ false
AreNets rate refunded (g ∷ gross) [] = true ≡ false
AreNets rate refunded ((c, amount) ∷ gross) ((c', n) ∷ ns) =
    (c' ≡ c) × IsNet rate amount (amount_of c refunded) n × AreNets rate refunded gross ns

round-near :
    (a : ℕ)
    → (2 * a ≤ 2 * (round_div a fee_scale * fee_scale) + fee_scale)
      × (2 * (round_div a fee_scale * fee_scale) ≤ 2 * a + fee_scale)
unfolding round_div
round-near a = ground arith

minus-IsNet :
    (rate amount back n : ℕ)
    → (let plus = amount * fee_scale in
        let less = amount * rate + back * fee_scale in
        (2 * less ≤ 2 * (n * fee_scale + plus) + fee_scale)
        × (2 * (n * fee_scale + plus) ≤ 2 * less + fee_scale))
    → IsNet rate amount back (minus n)
minus-IsNet rate amount back zero (a, b) = (omega arith, omega arith)
minus-IsNet rate amount back (suc n) h = h

net_of-IsNet : (rate amount back : ℕ) → IsNet rate amount back (net_of rate amount back)
unfolding net_of
net_of-IsNet rate amount back =
    let plus = amount * fee_scale in
    let less = amount * rate + back * fee_scale in
    elim (Bool-cases (leb less plus)) [
      | inl e ↦
          let (low, high) = round-near (plus - less) in
          rw e (ground (arith, e, low, high), ground (arith, e, low, high))
      | inr e ↦
          let (low, high) = round-near (less - plus) in
          rw e (
            minus-IsNet rate amount back (round_div (less - plus) fee_scale)
              (ground (arith, e, low, high), ground (arith, e, low, high)))
    ]

pub nets-AreNets :
    (rate : ℕ) (refunded gross : List (String × ℕ))
    → AreNets rate refunded gross (nets rate refunded gross)
unfolding nets
nets-AreNets rate refunded [] = tt
nets-AreNets rate refunded ((c, amount) ∷ gross) =
    (refl, net_of-IsNet rate amount (amount_of c refunded), nets-AreNets rate refunded gross)
