-- ===== src/Investments/Plan.antt =====
-- Recalculating a saved plan: `InvestmentScenarioPayloadSerializer.validate` under the context of
-- `_recalculate_saved_payload`, that function, `update_saved_allocation` and
-- `remove_saved_allocation` of core/serializers/investment_scenarios.py.
use nbe_financial_advisor_ba.Prelude.{
  ℕ, ◌+◌, ◌-◌, ◌*◌, ◌%◌, Bool, true, false, Option, none, some, List, [], ◌∷◌, ◌&&◌, ◌||◌, leb,
  ◌==◌, length, if◌then◌else◌,
}
use nbe_financial_advisor_ba.Prelude.Text.{text_eq}
use nbe_financial_advisor_ba.Budgets.Model.{half_even}
use nbe_financial_advisor_ba.Investments.Decimal.{pow10, places, half_up}
use nbe_financial_advisor_ba.Investments.Model.{
  Instrument, Allocation, Payload, fits, is_near, cost, steps_of, unique_ids, no_priorities,
  unique_priorities, sum_of, percentage_of, target_of, actual_of, is_cost, in_range,
}

-- `refused` is a ValidationError, `aborted` another exception.
pub data Outcome {ℓ} (A : Type ℓ) : Type ℓ where
  refused aborted : Outcome A
  done : A → Outcome A

unfoldable pub then_do {ℓ κ} : {A : Type ℓ} {B : Type κ} → Outcome A → (A → Outcome B) → Outcome B
then_do refused f = refused
then_do aborted f = aborted
then_do (done a) f = f a

unfoldable pub check {ℓ} : {A : Type ℓ} → Bool → Outcome A → Outcome A
check true outcome = outcome
check false outcome = refused

-- `confirmed_amount * percentage / 100`, in hundredths
abbrev pub expected_target : (confirmed percentage : ℕ) → ℕ
expected_target confirmed percentage = half_even (confirmed * percentage) 10000

-- The quantity is the largest affordable one, or the edit of an owner who buys less.
abbrev pub is_quantity : Allocation → Bool
is_quantity a =
    let expected =
      steps_of a.target_amount a.unit_price a.minimum_increment * a.minimum_increment in
    (a.quantity == expected) || (leb a.quantity expected && (a.quantity % a.minimum_increment == 0))

-- One turn of the loop over the allocations. Five minutes are 300000000 microseconds.
unfoldable pub is_allocation : (now confirmed : ℕ) → Allocation → Bool
is_allocation now confirmed a =
    leb a.observed_at (now + 300000000)
    && is_near a.target_amount (expected_target confirmed a.percentage)
    && is_quantity a
    && is_cost a.actual_allocated_amount (cost a.quantity a.unit_price)
    && is_near a.target_amount (a.actual_allocated_amount + a.unallocated_remainder)

abbrev pub all_allocations : (test : Allocation → Bool) → List Allocation → Bool
all_allocations test [] = true
all_allocations test (a ∷ as') = test a && all_allocations test as'

unfoldable pub active_instrument : (id : ℕ) → List Instrument → Option Instrument
active_instrument id [] = none
active_instrument id (i ∷ is) =
    if (i.id == id) && i.is_active && i.product_is_active then some i else active_instrument id is

-- The fields that the catalogue determines.
abbrev pub agrees : Allocation → Option Instrument → Bool
agrees a none = false
agrees a (some i) =
    text_eq a.instrument_code i.code
    && text_eq a.asset_class i.asset_class
    && text_eq a.price_currency i.price_currency
    && text_eq a.unit i.unit
    && text_eq a.price_type i.price_type
    && (a.minimum_increment == i.minimum_increment)

unfoldable pub is_catalogued : List Instrument → Allocation → Bool
is_catalogued instruments a = agrees a (active_instrument a.instrument_id instruments)

-- The serializer with `allow_under_allocation_quantity`; the costs can be computed.
unfoldable pub is_consistent : (instruments : List Instrument) (now : ℕ) → Payload → Bool
is_consistent instruments now p =
    leb 1 p.confirmed_amount
    && fits 14 p.confirmed_amount
    && leb 1 (length p.allocations)
    && leb (length p.allocations) 3
    && all_allocations in_range p.allocations
    && fits 14 p.total_allocated
    && fits 14 p.total_remainder
    && p.saved
    && unique_ids p.allocations
    && (no_priorities p.allocations || unique_priorities p.allocations)
    && (sum_of percentage_of p.allocations == 10000)
    && all_allocations (is_allocation now p.confirmed_amount) p.allocations
    && is_near p.total_allocated (sum_of actual_of p.allocations)
    && is_near p.confirmed_amount (p.total_allocated + p.total_remainder)
    && all_allocations (is_catalogued instruments) p.allocations

-- `(target / confirmed_amount * Decimal("100")).quantize(..., rounding=ROUND_HALF_UP)`
unfoldable pub share_of : (target confirmed : ℕ) → ℕ
share_of target confirmed =
    let s = places 60 target confirmed in
    half_up (half_even (target * pow10 s) confirmed * 10000) (pow10 s)

-- The percentage of an allocation: the last one takes what is left, or none where that is negative; a
-- division by zero raises.
unfoldable pub percentage : (confirmed used target : ℕ) → List Allocation → Outcome (Option ℕ)
percentage confirmed used target [] = done (if leb used 10000 then some (10000 - used) else none)
percentage confirmed used target (b ∷ rest) =
    if confirmed == 0 then aborted else done (some (share_of target confirmed))

abbrev pub with_amounts : Allocation → (percentage allocated : ℕ) → Allocation
with_amounts a percentage allocated = record a {
  percentage = percentage;
  actual_allocated_amount = allocated;
  unallocated_remainder = a.target_amount - allocated;
}

-- A negative percentage is refused by the serializer in the end.
abbrev pub with_share : Allocation → (allocated : ℕ) → Option ℕ → Outcome Allocation
with_share a allocated none = refused
with_share a allocated (some percentage) = done (with_amounts a percentage allocated)

-- What the quantity costs must not exceed the target.
unfoldable pub spend : Allocation → Option ℕ → (cost : Option ℕ) → Outcome Allocation
spend a percentage none = aborted
spend a percentage (some allocated) =
    check (leb allocated a.target_amount) (with_share a allocated percentage)

-- A turn of the loop, from the guard on the increments on.
unfoldable pub priced : Allocation → (percentage : Option ℕ) → Outcome Allocation
priced a percentage =
    check (a.quantity % a.minimum_increment == 0)
      (spend a percentage (cost a.quantity a.unit_price))

-- The loop of `_recalculate_saved_payload`
unfoldable pub recalculate_items :
    (confirmed used : ℕ) → List Allocation → Outcome (List Allocation)
recalculate_items confirmed used [] = done []
recalculate_items confirmed used (a ∷ rest) =
    then_do (percentage confirmed used a.target_amount rest) λ p. then_do (priced a p) λ a'.
      then_do (recalculate_items confirmed (used + a'.percentage) rest) λ rest'. done (a' ∷ rest')

abbrev pub recalculated : Payload → (confirmed : ℕ) → List Allocation → Payload
recalculated p confirmed as' =
    let total = sum_of actual_of as' in
    record p {
      confirmed_amount = confirmed;
      allocations = as';
      total_allocated = total;
      total_remainder = confirmed - total;
      saved = true;
    }

-- `_recalculate_saved_payload`
unfoldable pub recalculate_saved_payload :
    (instruments : List Instrument) (now : ℕ) → Payload → Outcome Payload
recalculate_saved_payload instruments now p =
    let confirmed = sum_of target_of p.allocations in
    check (leb 1 (length p.allocations)) (
      then_do (recalculate_items confirmed 0 p.allocations) λ as'.
        let p' = recalculated p confirmed as' in check (is_consistent instruments now p') (done p'))
