-- ===== src/Investments/Average.antt =====
-- The average price of a holding: the rounding of `SavedInvestmentAllocationPurchaseView.post`.
use nbe_financial_advisor_ba.Prelude.{ℕ, ◌+◌, ◌*◌, ◌≤◌, ◌<◌, ◌≡◌, refl, arith}
use native.Mathlib.Nat.{mul-le-mul_left}
use nbe_financial_advisor_ba.Investments.Decimal.{
  pow10, rounded-exact, quotient_half_up, quotient_half_up-ge, quotient_half_up-le,
}
use nbe_financial_advisor_ba.Investments.Purchases.{weighted_price}

-- While the purchases together cost less than 10 ^ 16 pounds, nothing is rounded before the division.
weighted_price-exact :
    (quantity price quantity' price' : ℕ)
    → quantity * price + quantity' * price' < pow10 28
    → weighted_price quantity price quantity' price'
      ≡ quotient_half_up (quantity * price + quantity' * price') (quantity + quantity')
unfolding weighted_price
weighted_price-exact quantity price quantity' price' small =
    rw
      (
        rounded-exact (quantity * price) (omega (arith, small)),
        rounded-exact (quantity' * price') (omega (arith, small)),
        rounded-exact (quantity * price + quantity' * price') small,
      )
      refl

-- While two lots, not both empty, together cost less than 10 ^ 16 pounds, their average price, with
-- its four places rounded twice, stays within every range that both prices are in.
pub weighted_price_between :
    (quantity price quantity' price' lowest highest : ℕ)
    (small : quantity * price + quantity' * price' < pow10 28) (positive : 0 < quantity + quantity')
    (below : lowest ≤ price) (below' : lowest ≤ price') (above : price ≤ highest)
    (above' : price' ≤ highest)
    → (lowest ≤ weighted_price quantity price quantity' price')
      × (weighted_price quantity price quantity' price' ≤ highest)
weighted_price_between quantity price quantity' price' lowest highest small positive below below'
      above above' =
    let n = quantity * price + quantity' * price' in
    rw (weighted_price-exact quantity price quantity' price' small) (
      quotient_half_up-ge lowest n (quantity + quantity') positive
          (omega (arith, mul-le-mul_left quantity below, mul-le-mul_left quantity' below')),
      quotient_half_up-le highest n (quantity + quantity') positive
          (omega (arith, mul-le-mul_left quantity above, mul-le-mul_left quantity' above')),
    )
