-- ===== src/Investments/Edits.antt =====
-- Changing a saved plan: `update_saved_allocation` and `remove_saved_allocation` of
-- core/serializers/investment_scenarios.py, and `SavedInvestmentAllocationUpdateView` of
-- core/views/investment_scenarios.py. The locks on the rows make
-- the requests follow each other, and a request that raises is rolled back.
use nbe_financial_advisor_ba.Prelude.{
  ℕ, ◌*◌, Bool, true, false, not, Option, none, some, List, [], ◌∷◌, ◌&&◌, ◌||◌, leb, ◌==◌, is_some,
  length, if◌then◌else◌,
}
use nbe_financial_advisor_ba.Prelude.Text.{codes}
use nbe_financial_advisor_ba.Investments.Decimal.{pow10}
use nbe_financial_advisor_ba.Investments.Model.{
  Allocation, Payload, Status, saved, archived, Scenario, Purchase, Tables, fits, steps_of, has_id,
}
use nbe_financial_advisor_ba.Investments.Plan.{
  Outcome, refused, aborted, done, recalculate_saved_payload,
}

-- `SavedInvestmentAllocationUpdateSerializer`; the price is in units of 10 ^ -4.
pub record Changes : Type 0 where
  pub target_amount : Option ℕ
  pub quantity : Option ℕ
  pub unit_price : Option ℕ

abbrev pub at_most_digits : (digits : ℕ) → Option ℕ → Bool
at_most_digits digits none = true
at_most_digits digits (some n) = leb 1 n && fits digits n

abbrev pub is_valid_change : Changes → Bool
is_valid_change c =
    (is_some c.target_amount || is_some c.quantity || is_some c.unit_price)
    && at_most_digits 14 c.target_amount
    && at_most_digits 24 c.quantity
    && at_most_digits 20 c.unit_price

unfoldable pub with_target : Option ℕ → Allocation → Allocation
with_target none a = a
with_target (some target) a = record a { target_amount = target }

unfoldable pub with_price : (now : ℕ) → Option ℕ → Allocation → Allocation
with_price now none a = a
with_price now (some price) a = record a {
  unit_price = price * pow10 4;
  mode = codes "user_supplied";
  source = codes "User-edited plan price";
  observed_at = now;
}

unfoldable pub with_quantity : (recompute : Bool) → Option ℕ → Allocation → Allocation
with_quantity recompute (some quantity) a = record a { quantity = quantity }
with_quantity true none a = record a {
  quantity = steps_of a.target_amount a.unit_price a.minimum_increment * a.minimum_increment;
}
with_quantity false none a = a

unfoldable pub changed : (now : ℕ) → Changes → Allocation → Allocation
changed now c a =
    with_quantity (is_some c.target_amount || is_some c.unit_price) c.quantity
      (with_price now c.unit_price (with_target c.target_amount a))

-- The first allocation of the instrument, changed.
unfoldable pub change_first : (now id : ℕ) → Changes → List Allocation → List Allocation
change_first now id c [] = []
change_first now id c (a ∷ as') =
    let rest = change_first now id c as' in
    if a.instrument_id == id then changed now c a ∷ as' else a ∷ rest

unfoldable pub without : (id : ℕ) → List Allocation → List Allocation
without id [] = []
without id (a ∷ as') = let rest = without id as' in if a.instrument_id == id then rest else a ∷ rest

module _ (tables : Tables) (now : ℕ) where
  unfoldable pub update_saved_allocation : Payload → (id : ℕ) → Changes → Outcome Payload
  update_saved_allocation p id c =
      if has_id id p.allocations
      then recalculate_saved_payload tables.instruments now
          (record p { allocations = change_first now id c p.allocations })
      else refused

  abbrev pub kept : Outcome Payload → Outcome (Option Payload)
  kept refused = refused
  kept aborted = aborted
  kept (done p) = done (some p)

  -- `none` when the last item was removed
  unfoldable pub remove_saved_allocation : Payload → (id : ℕ) → Outcome (Option Payload)
  remove_saved_allocation p id =
      let remaining = without id p.allocations in
      if has_id id p.allocations
      then if length remaining == 0
        then done none
        else kept (
            recalculate_saved_payload tables.instruments now (record p { allocations = remaining }))
      else refused

-- `invalid` is a 422, `failed` an exception.
pub data Reply : Type 0 where
  ok created no_content not_found invalid failed : Reply

unfoldable pub find_scenario : (user id : ℕ) → List Scenario → Option Scenario
find_scenario user id [] = none
find_scenario user id (s ∷ rest) =
    if (s.id == id) && (s.user == user) then some s else find_scenario user id rest

unfoldable pub save_scenario : Scenario → List Scenario → List Scenario
save_scenario s [] = []
save_scenario s (t ∷ rest) =
    let saved_rest = save_scenario s rest in (if t.id == s.id then s else t) ∷ saved_rest

unfoldable pub drop_scenario : (id : ℕ) → List Scenario → List Scenario
drop_scenario id [] = []
drop_scenario id (s ∷ rest) =
    let kept_rest = drop_scenario id rest in if s.id == id then kept_rest else s ∷ kept_rest

unfoldable pub drop_purchases : (scenario : ℕ) → List Purchase → List Purchase
drop_purchases scenario [] = []
drop_purchases scenario (p ∷ rest) =
    let kept_rest = drop_purchases scenario rest in
    if p.scenario == scenario then kept_rest else p ∷ kept_rest

unfoldable pub find_purchase : (scenario instrument : ℕ) → List Purchase → Option Purchase
find_purchase scenario instrument [] = none
find_purchase scenario instrument (p ∷ rest) =
    if (p.scenario == scenario) && (p.instrument == instrument)
    then some p
    else find_purchase scenario instrument rest

-- `scenario.delete()`, with the purchases that cascade
unfoldable pub delete_scenario : Scenario → Tables → Tables
delete_scenario s tables = record tables {
  scenarios = drop_scenario s.id tables.scenarios;
  purchases = drop_purchases s.id tables.purchases;
}

abbrev pub is_saved : Status → Bool
is_saved saved = true
is_saved archived = false

-- `remaining_ids.issubset(purchased_ids)`
unfoldable pub all_purchased : (scenario : ℕ) → List Purchase → List Allocation → Bool
all_purchased scenario purchases [] = true
all_purchased scenario purchases (a ∷ as') =
    is_some (find_purchase scenario a.instrument_id purchases)
    && all_purchased scenario purchases as'

module _ (now : ℕ) where
  -- The guards that the two methods share.
  unfoldable pub on_pending :
      Option Scenario → (instrument : ℕ) → Tables → (Scenario → Reply × Tables) → Reply × Tables
  on_pending none instrument tables proceed = (not_found, tables)
  on_pending (some s) instrument tables proceed =
      if not (is_saved s.status) || is_some (find_purchase s.id instrument tables.purchases)
      then (invalid, tables)
      else proceed s

  unfoldable pub store_payload : Scenario → Tables → Outcome Payload → Reply × Tables
  store_payload s tables refused = (invalid, tables)
  store_payload s tables aborted = (failed, tables)
  store_payload s tables (done p) =
      (ok, record tables { scenarios = save_scenario (record s { payload = p }) tables.scenarios })

  unfoldable pub edit : (instrument : ℕ) → Option Changes → Tables → Scenario → Reply × Tables
  edit instrument none tables s = (invalid, tables)
  edit instrument (some c) tables s =
      if is_valid_change c
      then store_payload s tables (update_saved_allocation tables now s.payload instrument c)
      else (invalid, tables)

  -- `SavedInvestmentAllocationUpdateView.patch`; `none` is a body without the right types.
  unfoldable pub patch_allocation :
      (user scenario instrument : ℕ) → Option Changes → Tables → Reply × Tables
  patch_allocation user scenario instrument body tables =
      on_pending (find_scenario user scenario tables.scenarios) instrument tables
        (edit instrument body tables)

  unfoldable pub store_remaining : Scenario → Tables → Outcome (Option Payload) → Reply × Tables
  store_remaining s tables refused = (invalid, tables)
  store_remaining s tables aborted = (failed, tables)
  store_remaining s tables (done none) = (no_content, delete_scenario s tables)
  store_remaining s tables (done (some p)) =
      if all_purchased s.id tables.purchases p.allocations
      then (no_content, delete_scenario s tables)
      else (
        no_content,
        record tables { scenarios = save_scenario (record s { payload = p }) tables.scenarios },
      )

  unfoldable pub remove : (instrument : ℕ) → Tables → Scenario → Reply × Tables
  remove instrument tables s =
      store_remaining s tables (remove_saved_allocation tables now s.payload instrument)

  -- `SavedInvestmentAllocationUpdateView.delete`
  unfoldable pub delete_allocation : (user scenario instrument : ℕ) → Tables → Reply × Tables
  delete_allocation user scenario instrument tables =
      on_pending (find_scenario user scenario tables.scenarios) instrument tables
        (remove instrument tables)
