-- ===== src/Investments/Model.antt =====
-- The rows of core/models/recommendation and the fields of `InvestmentScenarioPayloadSerializer` in
-- core/serializers/investment_scenarios.py. Amounts and percentages are counted in hundredths;
-- quantities, increments and the prices of a plan in units of 10 ^ -8, prices of a purchase in units of
-- 10 ^ -4; dates in days and times in microseconds. A payload is as `_json_value` stores it, numbers of at
-- most fifteen digits being read back from JSON as they were written. No operation changes the texts that are left out.
use nbe_financial_advisor_ba.Prelude.{
  ℕ, ◌+◌, ◌*◌, ◌/◌, Bool, true, false, not, Option, none, some, List, [], ◌∷◌, ◌&&◌, ◌||◌, ltb, leb,
  ◌==◌, is_some, if◌then◌else◌,
}
use nbe_financial_advisor_ba.Prelude.Text.{Text}
use nbe_financial_advisor_ba.Budgets.Model.{half_even}
use nbe_financial_advisor_ba.Investments.Decimal.{pow10, rounded, places}

pub record Instrument : Type 0 where
  pub id : ℕ
  pub code : Text
  pub asset_class : Text
  pub price_currency : Text
  pub unit : Text
  pub price_type : Text
  pub minimum_increment : ℕ
  pub is_active : Bool
  pub product_is_active : Bool

pub record Allocation : Type 0 where
  pub instrument_id : ℕ
  pub instrument_code : Text
  pub asset_class : Text
  pub percentage : ℕ
  pub target_amount : ℕ
  pub unit_price : ℕ
  pub price_currency : Text
  pub unit : Text
  pub price_type : Text
  pub minimum_increment : ℕ
  pub quantity : ℕ
  pub actual_allocated_amount : ℕ
  pub unallocated_remainder : ℕ
  pub observed_at : ℕ
  pub source : Text
  pub mode : Text
  pub priority : Option ℕ

pub record Payload : Type 0 where
  pub confirmed_amount : ℕ
  pub allocations : List Allocation
  pub total_allocated : ℕ
  pub total_remainder : ℕ
  pub disclaimer : Text
  pub saved : Bool

pub data Status : Type 0 where
  saved archived : Status

-- `SavedInvestmentScenario`
pub record Scenario : Type 0 where
  pub id : ℕ
  pub user : ℕ
  pub source_message : Option ℕ
  pub title : Text
  pub status : Status
  pub payload : Payload

-- `InvestmentHolding`
pub record Holding : Type 0 where
  pub id : ℕ
  pub user : ℕ
  pub instrument : ℕ
  pub quantity : ℕ
  pub average_purchase_price : ℕ
  pub fees : ℕ
  pub purchased_at : Option ℕ

-- `SavedInvestmentAllocationPurchase`
pub record Purchase : Type 0 where
  pub scenario : ℕ
  pub instrument : ℕ
  pub holding : Option ℕ
  pub quantity : ℕ
  pub unit_price : ℕ
  pub fees : ℕ
  pub purchased_at : ℕ

pub record Tables : Type 0 where
  pub instruments : List Instrument
  pub scenarios : List Scenario
  pub purchases : List Purchase
  pub holdings : List Holding

-- `max_digits`
abbrev pub fits : (digits n : ℕ) → Bool
fits digits n = ltb n (pow10 digits)

-- `abs(a - b) <= MONEY_TOLERANCE`
abbrev pub is_near : ℕ → ℕ → Bool
is_near a b = leb a (b + 2) && leb b (a + 2)

-- `(quantity * price).quantize(Decimal("0.01"))`, which raises InvalidOperation beyond 28 digits
unfoldable pub cost : (quantity price : ℕ) → Option ℕ
cost quantity price =
    let c = half_even (rounded (quantity * price)) (pow10 14) in if fits 28 c then some c else none

-- `(target / price / increment).to_integral_value(rounding=ROUND_DOWN)`, each quotient of 28 digits
unfoldable pub steps_of : (target price increment : ℕ) → ℕ
steps_of target price increment =
    let n = target * pow10 6 in
    let s = places 60 n price in
    let m = half_even (n * pow10 s) price * pow10 8 in
    let d = pow10 s * increment in let t = places 60 m d in half_even (m * pow10 t) d / pow10 t

unfoldable pub has_id : (id : ℕ) → List Allocation → Bool
has_id id [] = false
has_id id (a ∷ as') = (a.instrument_id == id) || has_id id as'

-- `len(ids) == len(set(ids))`
unfoldable pub unique_ids : List Allocation → Bool
unique_ids [] = true
unique_ids (a ∷ as') = not (has_id a.instrument_id as') && unique_ids as'

unfoldable pub no_priorities : List Allocation → Bool
no_priorities [] = true
no_priorities (a ∷ as') = not (is_some a.priority) && no_priorities as'

abbrev pub is_priority : ℕ → Option ℕ → Bool
is_priority p none = false
is_priority p (some q) = q == p

unfoldable pub has_priority : (p : ℕ) → List Allocation → Bool
has_priority p [] = false
has_priority p (a ∷ as') = is_priority p a.priority || has_priority p as'

unfoldable pub unique_priorities : List Allocation → Bool
unique_priorities [] = true
unique_priorities (a ∷ as') = is_unique a.priority && unique_priorities as'
  where
    is_unique : Option ℕ → Bool
    is_unique none = false
    is_unique (some p) = not (has_priority p as')

-- `sum(item[...] for item in allocations)`
unfoldable pub sum_of : (Allocation → ℕ) → List Allocation → ℕ
sum_of field [] = 0
sum_of field (a ∷ as') = field a + sum_of field as'

abbrev pub percentage_of : Allocation → ℕ
percentage_of a = a.percentage

abbrev pub target_of : Allocation → ℕ
target_of a = a.target_amount

abbrev pub actual_of : Allocation → ℕ
actual_of a = a.actual_allocated_amount

abbrev pub is_cost : ℕ → Option ℕ → Bool
is_cost amount none = false
is_cost amount (some c) = is_near amount c

-- The ranges of the fields of `InvestmentAllocationSnapshotSerializer`
abbrev pub in_range : Allocation → Bool
in_range a =
    leb a.percentage 10000
    && fits 14 a.target_amount
    && leb 1 a.unit_price
    && fits 20 a.unit_price
    && leb 1 a.minimum_increment
    && fits 20 a.minimum_increment
    && fits 24 a.quantity
    && fits 14 a.actual_allocated_amount
    && fits 14 a.unallocated_remainder
