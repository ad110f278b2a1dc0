-- ===== src/Investments/Once.antt =====
-- A purchase under the later requests of all users.
use nbe_financial_advisor_ba.Prelude.{
  ℕ, ◌≡◌, inl, inr, refl, true, Option, none, some, List, [], ◌∷◌, ◌&&◌, ◌%◌, ◌==◌, is_some, arith,
  Bool-cases, All,
}
use nbe_financial_advisor_ba.Investments.Model.{
  Scenario, Instrument, Holding, Purchase, Tables, has_id,
}
use nbe_financial_advisor_ba.Investments.Edits.{
  Reply, created, find_scenario, find_purchase, is_saved,
}
use nbe_financial_advisor_ba.Investments.Purchases.{
  Bought, is_valid_purchase, find_instrument, find_holding, enlarged, fits_columns, hold,
  with_instrument, unless_recorded, on_body, on_scenario, purchase, recorded,
}
use nbe_financial_advisor_ba.Investments.Requests.{Request, run, is_fresh, run-IsSettled}
use nbe_financial_advisor_ba.Investments.Settled.{
  IsSettled, find_scenario-gone, find_scenario-id, find_purchase-appended,
}

module _ (scenario instrument : ℕ) where
  -- A purchase that is answered with 201 settles its allocation.
  abbrev CreationSettles : Reply × Tables → Type 0
  CreationSettles (reply, tables) = reply ≡ created → IsSettled scenario instrument tables

  module _ (fresh user today : ℕ) (tables : Tables) where
    hold-CreationSettles :
        (b : Bought) (found : Option Holding)
        → CreationSettles (hold fresh user today scenario instrument b tables found)
    unfolding hold
    hold-CreationSettles b none = λ answer. inl (
        find_purchase-appended scenario instrument tables.purchases
          (recorded scenario instrument fresh b) refl refl)
    hold-CreationSettles b (some h) = elim (Bool-cases (fits_columns (enlarged h b))) [
      | inl fit ↦ rw (fit) λ answer. inl (
          find_purchase-appended scenario instrument tables.purchases
            (recorded scenario instrument h.id b) refl refl)
      | inr over ↦ rw (over) λ answer. absurd (ground (arith, answer))
    ]

    find_instrument-id :
        (id : ℕ) (is : List Instrument) (i : Instrument)
        → find_instrument id is ≡ some i
        → i.id ≡ id
    unfolding find_instrument
    find_instrument-id id [] i found = absurd (ground (arith, found))
    find_instrument-id id (j ∷ rest) i found = elim (Bool-cases (j.id == id)) [
      | inl here ↦ grind (arith, found, here)
      | inr later ↦ find_instrument-id id rest i (grind (arith, found, later))
    ]

    with_instrument-CreationSettles :
        (b : Bought) (found : Option Instrument)
        → ((i : Instrument) → found ≡ some i → i.id ≡ instrument)
        → CreationSettles (with_instrument fresh user today scenario b tables found)
    unfolding with_instrument
    with_instrument-CreationSettles b none same = λ answer. absurd (ground (arith, answer))
    with_instrument-CreationSettles b (some i) same =
        elim (Bool-cases (b.quantity % i.minimum_increment == 0)) [
          | inl whole ↦
              rw (whole, same i refl)
                (hold-CreationSettles b (find_holding user instrument tables.holdings))
          | inr broken ↦ rw (broken) λ answer. absurd (ground (arith, answer))
        ]

    unless_recorded-CreationSettles :
        (b : Bought) (found : Option Purchase)
        → CreationSettles (unless_recorded fresh user today scenario instrument b tables found)
    unfolding unless_recorded
    unless_recorded-CreationSettles b none =
        with_instrument-CreationSettles b (find_instrument instrument tables.instruments)
          (find_instrument-id instrument tables.instruments)
    unless_recorded-CreationSettles b (some p) = λ answer. absurd (ground (arith, answer))

    on_body-CreationSettles :
        (body : Option Bought)
        → CreationSettles (on_body fresh user today scenario instrument body tables)
    unfolding on_body
    on_body-CreationSettles none = λ answer. absurd (ground (arith, answer))
    on_body-CreationSettles (some b) = elim (Bool-cases (is_valid_purchase today b)) [
      | inl good ↦
          rw (good)
            (unless_recorded-CreationSettles b (find_purchase scenario instrument tables.purchases))
      | inr bad ↦ rw (bad) λ answer. absurd (ground (arith, answer))
    ]

    on_scenario-CreationSettles :
        (body : Option Bought) (found : Option Scenario)
        → ((s : Scenario) → found ≡ some s → s.id ≡ scenario)
        → CreationSettles (on_scenario fresh user today instrument body tables found)
    unfolding on_scenario
    on_scenario-CreationSettles body none same = λ answer. absurd (ground (arith, answer))
    on_scenario-CreationSettles body (some s) same =
        elim (Bool-cases (is_saved s.status && has_id instrument s.payload.allocations)) [
          | inl open' ↦ rw (open', same s refl) (on_body-CreationSettles body)
          | inr shut ↦ rw (shut) λ answer. absurd (ground (arith, answer))
        ]

  -- Once it is settled, a purchase of it changes nothing.
  module _ (fresh user today : ℕ) (tables : Tables) where
    abbrev Unchanged : Reply × Tables → Type 0
    Unchanged (reply, tables') = tables' ≡ tables

    unless_recorded-Unchanged :
        (b : Bought) (found : Option Purchase)
        → is_some found ≡ true
        → Unchanged (unless_recorded fresh user today scenario instrument b tables found)
    unfolding unless_recorded
    unless_recorded-Unchanged b none known = absurd (ground (arith, known))
    unless_recorded-Unchanged b (some p) known = refl

    on_body-Unchanged :
        (body : Option Bought)
        → is_some (find_purchase scenario instrument tables.purchases) ≡ true
        → Unchanged (on_body fresh user today scenario instrument body tables)
    unfolding on_body
    on_body-Unchanged none known = refl
    on_body-Unchanged (some b) known = elim (Bool-cases (is_valid_purchase today b)) [
      | inl good ↦
          rw (good)
            (unless_recorded-Unchanged b (find_purchase scenario instrument tables.purchases) known)
      | inr bad ↦ rw (bad) refl
    ]

    on_scenario-Unchanged :
        (body : Option Bought) (found : Option Scenario)
        → ((s : Scenario) → found ≡ some s → s.id ≡ scenario)
        → is_some (find_purchase scenario instrument tables.purchases) ≡ true
        → Unchanged (on_scenario fresh user today instrument body tables found)
    unfolding on_scenario
    on_scenario-Unchanged body none same known = refl
    on_scenario-Unchanged body (some s) same known =
        elim (Bool-cases (is_saved s.status && has_id instrument s.payload.allocations)) [
          | inl open' ↦ rw (open', same s refl) (on_body-Unchanged body known)
          | inr shut ↦ rw (shut) refl
        ]

    purchase-Unchanged :
        (body : Option Bought)
        → IsSettled scenario instrument tables
        → Unchanged (purchase fresh user today scenario instrument body tables)
    unfolding purchase on_scenario
    purchase-Unchanged body (inl known) =
        on_scenario-Unchanged body (find_scenario user scenario tables.scenarios)
          (find_scenario-id user scenario tables.scenarios) known
    purchase-Unchanged body (inr gone) =
        rw (find_scenario-gone user scenario tables.scenarios gone) refl

-- Once a purchase is answered with 201, a further purchase of the same allocation of the same plan, of
-- any body, changes nothing, neither a holding nor a record, whatever purchases, changes and removals of
-- allocations, changes of the title or status and deletions of plans, saves of a plan from its message
-- under ids other than the one of this plan, and additions, changes and deletions of holdings all users
-- request in between.
pub purchase_once :
    (fresh user today scenario instrument : ℕ) (body : Option Bought) (tables : Tables)
    (answer : (purchase fresh user today scenario instrument body tables).0 ≡ created)
    (rs : List Request) (apart : All (λ r. is_fresh scenario r ≡ true) rs) (fresh' user' today' : ℕ)
    (body' : Option Bought)
    → (let later = run rs (purchase fresh user today scenario instrument body tables).1 in
        (purchase fresh' user' today' scenario instrument body' later).1 ≡ later)
unfolding purchase
purchase_once fresh user today scenario instrument body tables answer rs apart fresh' user' today'
      body' =
    let first = purchase fresh user today scenario instrument body tables in
    let settled =
      on_scenario-CreationSettles scenario instrument fresh user today tables body
        (find_scenario user scenario tables.scenarios)
        (find_scenario-id user scenario tables.scenarios) answer in
    purchase-Unchanged scenario instrument fresh' user' today' (run rs first.1) body'
      (run-IsSettled scenario instrument rs first.1 apart settled)
