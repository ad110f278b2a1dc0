-- ===== src/Investments/Settled.antt =====
-- An allocation of a saved plan under the requests of all users.
use nbe_financial_advisor_ba.Prelude.{
  ℕ, ◌≡◌, ◌⊎◌, inl, inr, refl, ◌∙◌, Bool, true, false, not, Option, none, some, List, [], ◌∷◌, ◌++◌,
  ◌&&◌, ◌||◌, ◌%◌, ◌==◌, is_some, arith, ==_iff, Bool-cases,
}
use mathlib.Core.Path.{subst}
use nbe_financial_advisor_ba.Investments.Model.{
  Payload, Scenario, Instrument, Holding, Purchase, Tables, has_id,
}
use nbe_financial_advisor_ba.Investments.Plan.{Outcome, refused, aborted, done}
use nbe_financial_advisor_ba.Investments.Edits.{
  Changes, is_valid_change, update_saved_allocation, remove_saved_allocation, Reply, find_scenario,
  save_scenario, drop_scenario, drop_purchases, find_purchase, delete_scenario, is_saved,
  all_purchased, on_pending, store_payload, edit, store_remaining, remove,
}
use nbe_financial_advisor_ba.Investments.Purchases.{
  Bought, is_valid_purchase, find_instrument, find_holding, save_holding, enlarged, fits_columns,
  hold, with_instrument, unless_recorded, on_body, on_scenario, recorded, opened,
}

unfoldable pub has_scenario : (id : ℕ) → List Scenario → Bool
has_scenario id [] = false
has_scenario id (s ∷ rest) = (s.id == id) || has_scenario id rest

-- The purchase is recorded, or the plan is gone.
abbrev pub IsSettled : (scenario instrument : ℕ) → Tables → Type 0
IsSettled scenario instrument tables =
    (is_some (find_purchase scenario instrument tables.purchases) ≡ true)
    ⊎ (has_scenario scenario tables.scenarios ≡ false)

pub find_scenario-gone :
    (user id : ℕ) (ss : List Scenario)
    → has_scenario id ss ≡ false
    → find_scenario user id ss ≡ none
unfolding find_scenario has_scenario
find_scenario-gone user id [] gone = refl
find_scenario-gone user id (s ∷ rest) gone = ground (arith, gone, find_scenario-gone user id rest)

pub find_scenario-id :
    (user id : ℕ) (ss : List Scenario) (s : Scenario)
    → find_scenario user id ss ≡ some s
    → s.id ≡ id
unfolding find_scenario
find_scenario-id user id [] s found = absurd (ground (arith, found))
find_scenario-id user id (t ∷ rest) s found = elim (Bool-cases ((t.id == id) && (t.user == user))) [
  | inl here ↦ grind (arith, found, here)
  | inr later ↦ find_scenario-id user id rest s (grind (arith, found, later))
]

has_scenario-save_scenario :
    (id : ℕ) (s : Scenario) (ss : List Scenario)
    → has_scenario id (save_scenario s ss) ≡ has_scenario id ss
unfolding has_scenario save_scenario
has_scenario-save_scenario id s [] = refl
has_scenario-save_scenario id s (t ∷ rest) = ground (arith, has_scenario-save_scenario id s rest)

has_scenario-drop_scenario :
    (id : ℕ) (ss : List Scenario) → has_scenario id (drop_scenario id ss) ≡ false
unfolding has_scenario drop_scenario
has_scenario-drop_scenario id [] = refl
has_scenario-drop_scenario id (s ∷ rest) = ground (arith, has_scenario-drop_scenario id rest)

has_scenario-dropped :
    (id k : ℕ) (ss : List Scenario)
    → has_scenario id ss ≡ false
    → has_scenario id (drop_scenario k ss) ≡ false
unfolding has_scenario drop_scenario
has_scenario-dropped id k [] gone = refl
has_scenario-dropped id k (s ∷ rest) gone = ground (arith, gone, has_scenario-dropped id k rest)

find_purchase-append :
    (scenario instrument : ℕ) (ps new : List Purchase)
    → is_some (find_purchase scenario instrument ps) ≡ true
    → is_some (find_purchase scenario instrument (ps ++ new)) ≡ true
unfolding find_purchase
find_purchase-append scenario instrument [] new known = absurd (ground (arith, known))
find_purchase-append scenario instrument (p ∷ ps) new known =
    ground (arith, known, find_purchase-append scenario instrument ps new)

pub find_purchase-appended :
    (scenario instrument : ℕ) (ps : List Purchase) (p : Purchase)
    → p.scenario ≡ scenario
    → p.instrument ≡ instrument
    → is_some (find_purchase scenario instrument (ps ++ (p ∷ []))) ≡ true
unfolding find_purchase
find_purchase-appended scenario instrument [] p same same' = ground (arith, same, same')
find_purchase-appended scenario instrument (q ∷ ps) p same same' =
    ground (arith, find_purchase-appended scenario instrument ps p same same')

find_purchase-drop_purchases :
    (scenario instrument k : ℕ) (ps : List Purchase)
    → (k == scenario) ≡ false
    → is_some (find_purchase scenario instrument ps) ≡ true
    → is_some (find_purchase scenario instrument (drop_purchases k ps)) ≡ true
unfolding find_purchase drop_purchases
find_purchase-drop_purchases scenario instrument k [] other known = absurd (ground (arith, known))
find_purchase-drop_purchases scenario instrument k (p ∷ ps) other known =
    ground (arith, known, other, find_purchase-drop_purchases scenario instrument k ps other)

module _ (scenario instrument : ℕ) where
  abbrev pub StaysSettled : Reply × Tables → Type 0
  StaysSettled (reply, tables) = IsSettled scenario instrument tables

  pub delete_scenario-IsSettled :
      (s : Scenario) (tables : Tables)
      → IsSettled scenario instrument tables
      → IsSettled scenario instrument (delete_scenario s tables)
  unfolding delete_scenario
  delete_scenario-IsSettled s tables (inl known) = elim (Bool-cases (s.id == scenario)) [
    | inl same ↦ inr (
        subst (λ id. has_scenario id (drop_scenario s.id tables.scenarios) ≡ false)
          ((==_iff s.id scenario).0 same) (has_scenario-drop_scenario s.id tables.scenarios))
    | inr other ↦
        inl (find_purchase-drop_purchases scenario instrument s.id tables.purchases other known)
  ]
  delete_scenario-IsSettled s tables (inr gone) =
      inr (has_scenario-dropped scenario s.id tables.scenarios gone)

  -- Storing a payload leaves the plans and the purchases there are.
  pub save_payload-IsSettled :
      (s : Scenario) (tables : Tables)
      → IsSettled scenario instrument tables
      → IsSettled scenario instrument
          (record tables { scenarios = save_scenario s tables.scenarios })
  save_payload-IsSettled s tables (inl known) = inl known
  save_payload-IsSettled s tables (inr gone) =
      inr (has_scenario-save_scenario scenario s tables.scenarios ∙ gone)

  module _ (tables : Tables) (settled : IsSettled scenario instrument tables) where
    pub on_pending-StaysSettled :
        (now : ℕ) (found : Option Scenario) (i : ℕ) (proceed : Scenario → Reply × Tables)
        → ((s : Scenario) → StaysSettled (proceed s))
        → StaysSettled (on_pending now found i tables proceed)
    unfolding on_pending
    on_pending-StaysSettled now none i proceed stays = settled
    on_pending-StaysSettled now (some s) i proceed stays =
        elim (Bool-cases
          (not (is_saved s.status) || is_some (find_purchase s.id i tables.purchases))) [
            | inl stop ↦ rw (stop) settled
            | inr go ↦ rw (go) (stays s)
          ]

    store_payload-StaysSettled :
        (now : ℕ) (s : Scenario) (outcome : Outcome Payload)
        → StaysSettled (store_payload now s tables outcome)
    unfolding store_payload
    store_payload-StaysSettled now s refused = settled
    store_payload-StaysSettled now s aborted = settled
    store_payload-StaysSettled now s (done p) =
        save_payload-IsSettled (record s { payload = p }) tables settled

    pub edit-StaysSettled :
        (now i : ℕ) (body : Option Changes) (s : Scenario) → StaysSettled (edit now i body tables s)
    unfolding edit
    edit-StaysSettled now i none s = settled
    edit-StaysSettled now i (some c) s = elim (Bool-cases (is_valid_change c)) [
      | inl good ↦
          rw (good)
            (store_payload-StaysSettled now s (update_saved_allocation tables now s.payload i c))
      | inr bad ↦ rw (bad) settled
    ]

    store_remaining-StaysSettled :
        (now : ℕ) (s : Scenario) (outcome : Outcome (Option Payload))
        → StaysSettled (store_remaining now s tables outcome)
    unfolding store_remaining
    store_remaining-StaysSettled now s refused = settled
    store_remaining-StaysSettled now s aborted = settled
    store_remaining-StaysSettled now s (done none) = delete_scenario-IsSettled s tables settled
    store_remaining-StaysSettled now s (done (some p)) =
        elim (Bool-cases (all_purchased s.id tables.purchases p.allocations)) [
          | inl all ↦ rw (all) (delete_scenario-IsSettled s tables settled)
          | inr some_left ↦
              rw (some_left) (save_payload-IsSettled (record s { payload = p }) tables settled)
        ]

    pub remove-StaysSettled : (now i : ℕ) (s : Scenario) → StaysSettled (remove now i tables s)
    unfolding remove
    remove-StaysSettled now i s =
        store_remaining-StaysSettled now s (remove_saved_allocation tables now s.payload i)

    add_purchase-IsSettled :
        (holdings : List Holding) (p : Purchase)
        → IsSettled scenario instrument
            (record tables { holdings = holdings; purchases = tables.purchases ++ (p ∷ []) })
    add_purchase-IsSettled holdings p = elim settled [
      | inl known ↦ inl (find_purchase-append scenario instrument tables.purchases (p ∷ []) known)
      | inr gone ↦ inr gone
    ]

    module _ (fresh user today : ℕ) where
      hold-StaysSettled :
          (s i : ℕ) (b : Bought) (found : Option Holding)
          → StaysSettled (hold fresh user today s i b tables found)
      unfolding hold
      hold-StaysSettled s i b none =
          add_purchase-IsSettled (tables.holdings ++ (opened fresh user i b ∷ []))
            (recorded s i fresh b)
      hold-StaysSettled s i b (some h) = elim (Bool-cases (fits_columns (enlarged h b))) [
        | inl fit ↦ rw (fit) (
            add_purchase-IsSettled (save_holding (enlarged h b) tables.holdings)
              (recorded s i h.id b))
        | inr over ↦ rw (over) settled
      ]

      with_instrument-StaysSettled :
          (s : ℕ) (b : Bought) (found : Option Instrument)
          → StaysSettled (with_instrument fresh user today s b tables found)
      unfolding with_instrument
      with_instrument-StaysSettled s b none = settled
      with_instrument-StaysSettled s b (some i) =
          elim (Bool-cases (b.quantity % i.minimum_increment == 0)) [
            | inl whole ↦
                rw (whole) (hold-StaysSettled s i.id b (find_holding user i.id tables.holdings))
            | inr broken ↦ rw (broken) settled
          ]

      unless_recorded-StaysSettled :
          (s i : ℕ) (b : Bought) (found : Option Purchase)
          → StaysSettled (unless_recorded fresh user today s i b tables found)
      unfolding unless_recorded
      unless_recorded-StaysSettled s i b none =
          with_instrument-StaysSettled s b (find_instrument i tables.instruments)
      unless_recorded-StaysSettled s i b (some p) = settled

      on_body-StaysSettled :
          (s i : ℕ) (body : Option Bought) → StaysSettled (on_body fresh user today s i body tables)
      unfolding on_body
      on_body-StaysSettled s i none = settled
      on_body-StaysSettled s i (some b) = elim (Bool-cases (is_valid_purchase today b)) [
        | inl good ↦
            rw (good) (unless_recorded-StaysSettled s i b (find_purchase s i tables.purchases))
        | inr bad ↦ rw (bad) settled
      ]

      pub on_scenario-StaysSettled :
          (i : ℕ) (body : Option Bought) (found : Option Scenario)
          → StaysSettled (on_scenario fresh user today i body tables found)
      unfolding on_scenario
      on_scenario-StaysSettled i body none = settled
      on_scenario-StaysSettled i body (some s) =
          elim (Bool-cases (is_saved s.status && has_id i s.payload.allocations)) [
            | inl open' ↦ rw (open') (on_body-StaysSettled s.id i body)
            | inr shut ↦ rw (shut) settled
          ]
