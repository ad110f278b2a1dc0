-- ===== src/Investments/Purchases.antt =====
-- `SavedInvestmentAllocationPurchaseView.post` of core/views/investment_scenarios.py. The locks on the
-- scenario and on the user make the requests of a user follow each other; the transaction of a request
-- that raises is rolled back.
use nbe_financial_advisor_ba.Prelude.{
  ℕ, ◌+◌, ◌*◌, ◌%◌, Bool, Option, none, some, List, [], ◌∷◌, ◌++◌, ◌&&◌, leb, ◌==◌, if◌then◌else◌,
}
use nbe_financial_advisor_ba.Investments.Decimal.{rounded, quotient_half_up}
use nbe_financial_advisor_ba.Investments.Model.{
  Instrument, Scenario, Holding, Purchase, Tables, fits, has_id,
}
use nbe_financial_advisor_ba.Investments.Edits.{
  Reply, ok, created, not_found, invalid, failed, find_scenario, find_purchase, is_saved,
}

-- `SavedInvestmentAllocationPurchaseSerializer`
pub record Bought : Type 0 where
  pub quantity : ℕ
  pub unit_price : ℕ
  pub fees : ℕ
  pub purchased_at : ℕ

abbrev pub is_valid_purchase : (today : ℕ) → Bought → Bool
is_valid_purchase today b =
    leb 1 b.quantity
    && fits 24 b.quantity
    && leb 1 b.unit_price
    && fits 20 b.unit_price
    && fits 20 b.fees
    && leb b.purchased_at today

-- Active or not.
unfoldable pub find_instrument : (id : ℕ) → List Instrument → Option Instrument
find_instrument id [] = none
find_instrument id (i ∷ rest) = if i.id == id then some i else find_instrument id rest

unfoldable pub find_holding : (user instrument : ℕ) → List Holding → Option Holding
find_holding user instrument [] = none
find_holding user instrument (h ∷ rest) =
    if (h.user == user) && (h.instrument == instrument)
    then some h
    else find_holding user instrument rest

unfoldable pub save_holding : Holding → List Holding → List Holding
save_holding h [] = []
save_holding h (k ∷ rest) =
    let saved_rest = save_holding h rest in (if k.id == h.id then h else k) ∷ saved_rest

-- The average price of two lots, in units of 10 ^ -4.
unfoldable pub weighted_price : (quantity price quantity' price' : ℕ) → ℕ
weighted_price quantity price quantity' price' =
    quotient_half_up (rounded (rounded (quantity * price) + rounded (quantity' * price')))
      (quantity + quantity')

abbrev pub earlier : Option ℕ → ℕ → ℕ
earlier none day = day
earlier (some first) day = if leb first day then first else day

-- The holding with the lot added.
abbrev pub enlarged : Holding → Bought → Holding
enlarged h b = record h {
  quantity = h.quantity + b.quantity;
  average_purchase_price =
      weighted_price h.quantity h.average_purchase_price b.quantity b.unit_price;
  fees = h.fees + b.fees;
  purchased_at = some (earlier h.purchased_at b.purchased_at);
}

abbrev pub opened : (fresh user instrument : ℕ) → Bought → Holding
opened fresh user instrument b = record {
  id = fresh;
  user = user;
  instrument = instrument;
  quantity = b.quantity;
  average_purchase_price = b.unit_price;
  fees = b.fees;
  purchased_at = some b.purchased_at;
}

abbrev pub recorded : (scenario instrument holding : ℕ) → Bought → Purchase
recorded scenario instrument holding b = record {
  scenario = scenario;
  instrument = instrument;
  holding = some holding;
  quantity = b.quantity;
  unit_price = b.unit_price;
  fees = b.fees;
  purchased_at = b.purchased_at;
}

-- The columns of the holding have 24 digits for the quantity and 20 for the others.
abbrev pub fits_columns : Holding → Bool
fits_columns h = fits 24 h.quantity && fits 20 h.average_purchase_price && fits 20 h.fees

module _ (fresh user today : ℕ) where
  -- The holding that the lot goes to.
  unfoldable pub hold :
      (scenario instrument : ℕ) → Bought → Tables → Option Holding → Reply × Tables
  hold scenario instrument b tables none = (
    created,
    record tables {
      holdings = tables.holdings ++ (opened fresh user instrument b ∷ []);
      purchases = tables.purchases ++ (recorded scenario instrument fresh b ∷ []);
    },
  )
  hold scenario instrument b tables (some h) =
      if fits_columns (enlarged h b)
      then (
        created,
        record tables {
          holdings = save_holding (enlarged h b) tables.holdings;
          purchases = tables.purchases ++ (recorded scenario instrument h.id b ∷ []);
        },
      )
      else (failed, tables)

  unfoldable pub with_instrument :
      (scenario : ℕ) → Bought → Tables → Option Instrument → Reply × Tables
  with_instrument scenario b tables none = (not_found, tables)
  with_instrument scenario b tables (some i) =
      if b.quantity % i.minimum_increment == 0
      then hold scenario i.id b tables (find_holding user i.id tables.holdings)
      else (invalid, tables)

  unfoldable pub unless_recorded :
      (scenario instrument : ℕ) → Bought → Tables → Option Purchase → Reply × Tables
  unless_recorded scenario instrument b tables (some p) = (ok, tables)
  unless_recorded scenario instrument b tables none =
      with_instrument scenario b tables (find_instrument instrument tables.instruments)

  unfoldable pub on_body : (scenario instrument : ℕ) → Option Bought → Tables → Reply × Tables
  on_body scenario instrument none tables = (invalid, tables)
  on_body scenario instrument (some b) tables =
      if is_valid_purchase today b
      then unless_recorded scenario instrument b tables
          (find_purchase scenario instrument tables.purchases)
      else (invalid, tables)

  unfoldable pub on_scenario :
      (instrument : ℕ) → Option Bought → Tables → Option Scenario → Reply × Tables
  on_scenario instrument body tables none = (not_found, tables)
  on_scenario instrument body tables (some s) =
      if is_saved s.status && has_id instrument s.payload.allocations
      then on_body s.id instrument body tables
      else (invalid, tables)

  -- `post`; `none` is a body without the right types.
  unfoldable pub purchase : (scenario instrument : ℕ) → Option Bought → Tables → Reply × Tables
  purchase scenario instrument body tables =
      on_scenario instrument body tables (find_scenario user scenario tables.scenarios)
