-- ===== src/Investments/Tests.antt =====
-- Saved plans and purchases on concrete input.
use nbe_financial_advisor_ba.Prelude.{
  ℕ, ◌+◌, ◌*◌, ◌≤◌, ◌≡◌, ◌≢◌, refl, true, none, some, List, [], ◌∷◌, arith,
}
use nbe_financial_advisor_ba.Prelude.Text.{codes, text_eq}
use nbe_financial_advisor_ba.Budgets.Model.{half_even}
use nbe_financial_advisor_ba.Investments.Decimal.{
  pow10, excess, rounded, places, half_up, quotient_half_up,
}
use nbe_financial_advisor_ba.Investments.Model.{
  Instrument, Allocation, Payload, saved, Holding, Tables, cost, steps_of, has_id, unique_ids,
  no_priorities, sum_of,
}
use nbe_financial_advisor_ba.Investments.Plan.{
  then_do, check, is_allocation, active_instrument, is_catalogued, is_consistent, share_of,
  percentage, spend, priced, recalculate_items, recalculate_saved_payload,
}
use nbe_financial_advisor_ba.Investments.Edits.{
  no_content, find_scenario, find_purchase, without, delete_allocation,
}
use nbe_financial_advisor_ba.Investments.Purchases.{
  Bought, find_instrument, find_holding, weighted_price, hold, with_instrument, unless_recorded,
  on_body, on_scenario, purchase,
}
use nbe_financial_advisor_ba.Investments.Requests.{
  Request, patch, delete, delete_plan, save_plan, disown, run,
}
use nbe_financial_advisor_ba.Investments.Once.{purchase_once}
use nbe_financial_advisor_ba.Investments.Average.{weighted_price_between}
use nbe_financial_advisor_ba.Investments.Counts.{has_holding, distinct_holdings}
use nbe_financial_advisor_ba.Investments.Books.{
  units_held, units_bought, fees_held, fees_bought, purchase_books,
}
use nbe_financial_advisor_ba.Investments.Recalculated.{IsBalanced, recalculation_balances}
use nbe_financial_advisor_ba.Investments.Stuck.{rounding_blocks_removal}

abbrev instrument_of : (id : ℕ) → Instrument
instrument_of id = record {
  id = id;
  code = codes "gold";
  asset_class = codes "gold";
  price_currency = codes "EGP";
  unit = codes "gram";
  price_type = codes "spot";
  minimum_increment = 100000000;
  is_active = true;
  product_is_active = true;
}

-- Of the target, as many whole units at 10.00 as the quantity says.
abbrev allocation_of : (id percentage target units : ℕ) → Allocation
allocation_of id percentage target units = record {
  instrument_id = id;
  instrument_code = codes "gold";
  asset_class = codes "gold";
  percentage = percentage;
  target_amount = target;
  unit_price = 1000000000;
  price_currency = codes "EGP";
  unit = codes "gram";
  price_type = codes "spot";
  minimum_increment = 100000000;
  quantity = units * 100000000;
  actual_allocated_amount = units * 1000;
  unallocated_remainder = 0;
  observed_at = 0;
  source = codes "exchange";
  mode = codes "live";
  priority = none;
}

abbrev payload_of : List Allocation → Payload
payload_of as' = record {
  confirmed_amount = 10000000;
  allocations = as';
  total_allocated = 10000000;
  total_remainder = 0;
  disclaimer = codes "No advice.";
  saved = true;
}

-- 40000.00, 30000.00 and 30000.00
abbrev thirds : Payload
thirds = payload_of (
    allocation_of 1 4000 4000000 4000
    ∷ allocation_of 2 3000 3000000 3000
    ∷ allocation_of 3 3000 3000000 3000
    ∷ [])

abbrev holding : Holding
holding = record {
  id = 50;
  user = 7;
  instrument = 1;
  quantity = 200000000;
  average_purchase_price = 80000;
  fees = 100;
  purchased_at = some 20;
}

abbrev tables_of : Payload → Tables
tables_of p = record {
  instruments = instrument_of 1 ∷ instrument_of 2 ∷ instrument_of 3 ∷ [];
  scenarios =
      record {
        id = 4;
        user = 7;
        source_message = some 9;
        title = codes "Plan";
        status = saved;
        payload = p;
      }
      ∷ [];
  purchases = [];
  holdings = holding ∷ [];
}

abbrev lot : Bought
lot = record { quantity = 100000000; unit_price = 100000; fees = 250; purchased_at = 30 }

-- Two units at 8 and one at 10 cost 8.6667 on average.
average_test : weighted_price 200000000 80000 100000000 100000 ≡ 86667
unfolding weighted_price rounded excess pow10 half_even quotient_half_up places half_up
average_test = refl

-- The plan is deleted and its message saves it again.
abbrev in_between : List Request
in_between =
    patch 99 7 4 1 none
    ∷ delete 99 7 4 2
    ∷ disown 7 51
    ∷ delete_plan 7 4
    ∷ save_plan 5 7 9 (some thirds)
    ∷ []

purchase_once_example :
    (let later = run in_between (purchase 51 7 31 4 1 (some lot) (tables_of thirds)).1 in
      (purchase 52 7 32 4 1 (some lot) later).1 ≡ later)
unfolding purchase on_scenario on_body unless_recorded with_instrument hold find_scenario
    find_purchase find_instrument find_holding has_id weighted_price rounded excess pow10 half_even
    quotient_half_up places half_up
purchase_once_example =
    purchase_once 51 7 31 4 1 (some lot) (tables_of thirds) refl in_between
      (refl, (refl, (refl, (refl, (refl, tt))))) 52 7 32 (some lot)

purchase_books_example :
    (let after = (purchase 51 7 31 4 1 (some lot) (tables_of thirds)).1 in
      (units_held 50 after + units_bought 50 (tables_of thirds)
        ≡ units_held 50 (tables_of thirds) + units_bought 50 after)
      × (fees_held 50 after + fees_bought 50 (tables_of thirds)
          ≡ fees_held 50 (tables_of thirds) + fees_bought 50 after))
unfolding distinct_holdings has_holding
purchase_books_example = purchase_books 51 7 31 4 1 (some lot) (tables_of thirds) refl 50

weighted_price_between_example :
    (80000 ≤ weighted_price 200000000 80000 100000000 100000)
    × (weighted_price 200000000 80000 100000000 100000 ≤ 100000)
unfolding pow10
weighted_price_between_example =
    weighted_price_between 200000000 80000 100000000 100000 80000 100000 (omega arith) (omega arith)
      (omega arith) (omega arith) (omega arith) (omega arith)

abbrev halves : Payload
halves = payload_of (allocation_of 1 5000 300000 300 ∷ allocation_of 2 5000 300000 300 ∷ [])

abbrev halves' : Payload
halves' = record halves { confirmed_amount = 600000; total_allocated = 600000 }

recalculation_balances_example : IsBalanced halves halves'
unfolding recalculate_saved_payload recalculate_items then_do check percentage share_of priced spend
    cost rounded excess pow10 half_even places half_up is_consistent is_allocation steps_of
    is_catalogued active_instrument text_eq unique_ids has_id no_priorities sum_of
recalculation_balances_example =
    recalculation_balances (instrument_of 1 ∷ instrument_of 2 ∷ []) 0 halves halves' refl

-- Without the third, the first is 57.14 % of 70000.00, which is 39998.00.
rounding_blocks_removal_example :
    (let answer = delete_allocation 0 7 4 3 (tables_of thirds) in
      (answer.1 ≡ tables_of thirds) × (answer.0 ≢ no_content))
unfolding find_scenario has_id without sum_of share_of half_even places half_up pow10
rounding_blocks_removal_example =
    rounding_blocks_removal 0 7 4 3 (tables_of thirds)
      (record {
        id = 4;
        user = 7;
        source_message = some 9;
        title = codes "Plan";
        status = saved;
        payload = thirds;
      })
      refl refl (allocation_of 1 4000 4000000 4000) (allocation_of 2 3000 3000000 3000) [] refl refl
