-- ===== src/Investments/Holdings.antt =====
-- The holdings that a user records by hand: `InvestmentHoldingListCreateView.create` and
-- `InvestmentHoldingDetailView` of core/views/investment_holdings.py, with
-- `InvestmentHoldingWriteSerializer` of core/serializers/investment_holdings.py.
use nbe_financial_advisor_ba.Prelude.{
  ℕ, ◌%◌, Bool, true, not, Option, none, some, List, [], ◌∷◌, ◌++◌, ◌&&◌, ◌||◌, leb, ◌==◌, is_some,
  if◌then◌else◌,
}
use nbe_financial_advisor_ba.Investments.Model.{Instrument, Holding, Purchase, Tables, fits}
use nbe_financial_advisor_ba.Investments.Edits.{
  Reply, ok, created, no_content, not_found, invalid, at_most_digits,
}
use nbe_financial_advisor_ba.Investments.Purchases.{find_instrument, find_holding, save_holding}

-- `InvestmentHoldingWriteSerializer`; a date may be given as null.
pub record Written : Type 0 where
  pub instrument_id : Option ℕ
  pub quantity : Option ℕ
  pub average_purchase_price : Option ℕ
  pub fees : Option ℕ
  pub purchased_at : Option (Option ℕ)

abbrev pub is_past : (today : ℕ) → Option (Option ℕ) → Bool
is_past today (some (some day)) = leb day today
is_past today _ = true

abbrev pub fee_fits : Option ℕ → Bool
fee_fits none = true
fee_fits (some fee) = fits 20 fee

-- The fields by themselves.
abbrev pub is_valid_holding : (today : ℕ) → Written → Bool
is_valid_holding today w =
    at_most_digits 24 w.quantity
    && at_most_digits 20 w.average_purchase_price
    && fee_fits w.fees
    && is_past today w.purchased_at

-- `PrimaryKeyRelatedField(queryset=InvestmentInstrument.objects.filter(is_active=True))`
unfoldable pub selectable : Option ℕ → List Instrument → Option Instrument
selectable none instruments = none
selectable (some id) instruments = active (find_instrument id instruments)
  where
    active : Option Instrument → Option Instrument
    active none = none
    active (some i) = if i.is_active then some i else none

abbrev pub or_else : {A : Type 0} → A → Option A → A
or_else x none = x
or_else x (some y) = y

module _ (fresh user today : ℕ) where
  unfoldable pub add_holding :
      Written → Tables → Option Instrument → (quantity price : Option ℕ) → Reply × Tables
  add_holding w tables (some i) (some quantity) (some price) =
      if is_some (find_holding user i.id tables.holdings)
        || not (quantity % i.minimum_increment == 0)
      then (invalid, tables)
      else (
        created,
        record tables {
          holdings =
              tables.holdings
              ++ (record {
                id = fresh;
                user = user;
                instrument = i.id;
                quantity = quantity;
                average_purchase_price = price;
                fees = or_else 0 w.fees;
                purchased_at = or_else none w.purchased_at;
              }
                  ∷ []);
        },
      )
  add_holding w tables _ _ _ = (invalid, tables)

  -- `create`; `none` is a body without the right types.
  unfoldable pub create_holding : Option Written → Tables → Reply × Tables
  create_holding none tables = (invalid, tables)
  create_holding (some w) tables =
      if is_valid_holding today w
      then add_holding w tables (selectable w.instrument_id tables.instruments) w.quantity
          w.average_purchase_price
      else (invalid, tables)

unfoldable pub get_holding : (user id : ℕ) → List Holding → Option Holding
get_holding user id [] = none
get_holding user id (h ∷ rest) =
    if (h.id == id) && (h.user == user) then some h else get_holding user id rest

-- An instrument that is named is the one that the holding has, and active.
abbrev pub keeps_instrument : Holding → Option ℕ → List Instrument → Bool
keeps_instrument h none instruments = true
keeps_instrument h (some id) instruments =
    is_some (selectable (some id) instruments) && (id == h.instrument)

abbrev pub in_increments : Option ℕ → Option Instrument → Bool
in_increments none i = true
in_increments (some quantity) none = true
in_increments (some quantity) (some i) = quantity % i.minimum_increment == 0

abbrev pub rewritten : Written → Holding → Holding
rewritten w h = record h {
  quantity = or_else h.quantity w.quantity;
  average_purchase_price = or_else h.average_purchase_price w.average_purchase_price;
  fees = or_else h.fees w.fees;
  purchased_at = or_else h.purchased_at w.purchased_at;
}

unfoldable pub rewrite_found :
    (today : ℕ) → Option Written → Tables → Option Holding → Reply × Tables
rewrite_found today body tables none = (not_found, tables)
rewrite_found today none tables (some h) = (invalid, tables)
rewrite_found today (some w) tables (some h) =
    if is_valid_holding today w
      && keeps_instrument h w.instrument_id tables.instruments
      && in_increments w.quantity (find_instrument h.instrument tables.instruments)
    then (ok, record tables { holdings = save_holding (rewritten w h) tables.holdings })
    else (invalid, tables)

-- `update`
unfoldable pub update_holding : (today user id : ℕ) → Option Written → Tables → Reply × Tables
update_holding today user id body tables =
    rewrite_found today body tables (get_holding user id tables.holdings)

unfoldable pub drop_holding : (id : ℕ) → List Holding → List Holding
drop_holding id [] = []
drop_holding id (h ∷ rest) =
    let kept_rest = drop_holding id rest in if h.id == id then kept_rest else h ∷ kept_rest

abbrev pub without_holding : (id : ℕ) → Option ℕ → Option ℕ
without_holding id none = none
without_holding id (some h) = if h == id then none else some h

-- `on_delete=models.SET_NULL` of the holding of a recorded purchase
unfoldable pub unlink_purchases : (id : ℕ) → List Purchase → List Purchase
unlink_purchases id [] = []
unlink_purchases id (p ∷ rest) =
    record p { holding = without_holding id p.holding } ∷ unlink_purchases id rest

unfoldable pub remove_found : Tables → Option Holding → Reply × Tables
remove_found tables none = (not_found, tables)
remove_found tables (some h) = (
  no_content,
  record tables {
    holdings = drop_holding h.id tables.holdings;
    purchases = unlink_purchases h.id tables.purchases;
  },
)

-- `destroy` of `InvestmentHoldingDetailView`
unfoldable pub destroy_holding : (user id : ℕ) → Tables → Reply × Tables
destroy_holding user id tables = remove_found tables (get_holding user id tables.holdings)
