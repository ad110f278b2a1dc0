-- ===== src/Investments/Books.antt =====
-- The holdings and the purchases that they are made of.
use nbe_financial_advisor_ba.Prelude.{
  ℕ, ◌+◌, ◌%◌, ◌≡◌, refl, sym, inl, inr, true, Option, none, some, ◌&&◌, ◌==◌, arith, Bool-cases,
}
use nbe_financial_advisor_ba.Investments.Model.{
  Scenario, Instrument, Holding, Purchase, Tables, has_id,
}
use nbe_financial_advisor_ba.Investments.Edits.{Reply, find_scenario, find_purchase, is_saved}
use nbe_financial_advisor_ba.Investments.Purchases.{
  Bought, is_valid_purchase, find_instrument, find_holding, enlarged, fits_columns, hold,
  with_instrument, unless_recorded, on_body, on_scenario, purchase, recorded, opened,
}
use nbe_financial_advisor_ba.Investments.Counts.{
  distinct_holdings, held, bought, bought-append, held-append, held-save_holding,
}

-- A quantity of holdings and of purchases to which a lot adds the same.
module _ (f : Holding → ℕ) (g : Purchase → ℕ) (v : Bought → ℕ)
    (opens : (fresh user instrument : ℕ) (b : Bought) → f (opened fresh user instrument b) ≡ v b)
    (enlarges : (h : Holding) (b : Bought) → f (enlarged h b) ≡ f h + v b)
    (records : (scenario instrument id : ℕ) (b : Bought)
      → g (recorded scenario instrument id b) ≡ v b)
    (id : ℕ) (tables : Tables) (distinct : distinct_holdings tables.holdings ≡ true)
    (fresh user today : ℕ) where
  abbrev IsBooked : Reply × Tables → Type 0
  IsBooked (reply, tables') =
      held f id tables'.holdings + bought g id tables.purchases
      ≡ held f id tables.holdings + bought g id tables'.purchases

  hold-IsBooked :
      (s i : ℕ) (b : Bought) (found : Option Holding)
      → found ≡ find_holding user i tables.holdings
      → IsBooked (hold fresh user today s i b tables found)
  unfolding hold
  hold-IsBooked s i b none same =
      rw
        (
          held-append f id tables.holdings (opened fresh user i b),
          bought-append g id tables.purchases (recorded s i fresh b),
          opens fresh user i b,
          records s i fresh b,
        )
        (omega arith)
  hold-IsBooked s i b (some h) same = elim (Bool-cases (fits_columns (enlarged h b))) [
    | inl fit ↦ rw (fit) (
        rw
          (
            held-save_holding f id (v b) user i tables.holdings h (enlarged h b) (sym same) distinct
                refl (enlarges h b),
            bought-append g id tables.purchases (recorded s i h.id b),
            records s i h.id b,
          )
          (omega arith))
    | inr over ↦ rw (over) refl
  ]

  with_instrument-IsBooked :
      (s : ℕ) (b : Bought) (found : Option Instrument)
      → IsBooked (with_instrument fresh user today s b tables found)
  unfolding with_instrument
  with_instrument-IsBooked s b none = refl
  with_instrument-IsBooked s b (some i) =
      elim (Bool-cases (b.quantity % i.minimum_increment == 0)) [
        | inl whole ↦
            rw (whole) (hold-IsBooked s i.id b (find_holding user i.id tables.holdings) refl)
        | inr broken ↦ rw (broken) refl
      ]

  unless_recorded-IsBooked :
      (s i : ℕ) (b : Bought) (found : Option Purchase)
      → IsBooked (unless_recorded fresh user today s i b tables found)
  unfolding unless_recorded
  unless_recorded-IsBooked s i b none =
      with_instrument-IsBooked s b (find_instrument i tables.instruments)
  unless_recorded-IsBooked s i b (some p) = refl

  on_body-IsBooked :
      (s i : ℕ) (body : Option Bought) → IsBooked (on_body fresh user today s i body tables)
  unfolding on_body
  on_body-IsBooked s i none = refl
  on_body-IsBooked s i (some b) = elim (Bool-cases (is_valid_purchase today b)) [
    | inl good ↦ rw (good) (unless_recorded-IsBooked s i b (find_purchase s i tables.purchases))
    | inr bad ↦ rw (bad) refl
  ]

  on_scenario-IsBooked :
      (i : ℕ) (body : Option Bought) (found : Option Scenario)
      → IsBooked (on_scenario fresh user today i body tables found)
  unfolding on_scenario
  on_scenario-IsBooked i body none = refl
  on_scenario-IsBooked i body (some s) =
      elim (Bool-cases (is_saved s.status && has_id i s.payload.allocations)) [
        | inl open' ↦ rw (open') (on_body-IsBooked s.id i body)
        | inr shut ↦ rw (shut) refl
      ]

abbrev pub units_held : (id : ℕ) → Tables → ℕ
units_held id tables = held (λ h. h.quantity) id tables.holdings

abbrev pub units_bought : (id : ℕ) → Tables → ℕ
units_bought id tables = bought (λ p. p.quantity) id tables.purchases

abbrev pub fees_held : (id : ℕ) → Tables → ℕ
fees_held id tables = held (λ h. h.fees) id tables.holdings

abbrev pub fees_bought : (id : ℕ) → Tables → ℕ
fees_bought id tables = bought (λ p. p.fees) id tables.purchases

-- With distinct holdings, a purchase request of any kind and outcome adds to every holding exactly the
-- quantity and the fees that it adds to the purchases recorded for that holding.
pub purchase_books :
    (fresh user today scenario instrument : ℕ) (body : Option Bought) (tables : Tables)
    (distinct : distinct_holdings tables.holdings ≡ true) (id : ℕ)
    → (let after = (purchase fresh user today scenario instrument body tables).1 in
        (units_held id after + units_bought id tables
          ≡ units_held id tables + units_bought id after)
        × (fees_held id after + fees_bought id tables ≡ fees_held id tables + fees_bought id after))
unfolding purchase
purchase_books fresh user today scenario instrument body tables distinct id =
    let found = find_scenario user scenario tables.scenarios in
    (
      on_scenario-IsBooked (λ h. h.quantity) (λ p. p.quantity) (λ b. b.quantity) (λ f u i b. refl)
          (λ h b. refl) (λ s i k b. refl) id tables distinct fresh user today instrument body found,
      on_scenario-IsBooked (λ h. h.fees) (λ p. p.fees) (λ b. b.fees) (λ f u i b. refl) (λ h b. refl)
          (λ s i k b. refl) id tables distinct fresh user today instrument body found,
    )
