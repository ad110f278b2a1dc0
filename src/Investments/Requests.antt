-- ===== src/Investments/Requests.antt =====
-- The requests of users on saved plans and holdings, and what they leave of a settled item.
use nbe_financial_advisor_ba.Prelude.{
  ℕ, ◌≡◌, inl, inr, refl, Bool, true, false, not, Option, none, some, List, [], ◌∷◌, ◌++◌, ◌&&◌,
  ◌||◌, ◌%◌, ◌==◌, ◌∙◌, is_some, arith, Bool-cases, All,
}
use nbe_financial_advisor_ba.Investments.Model.{
  Instrument, Payload, Scenario, Holding, Purchase, Tables,
}
use nbe_financial_advisor_ba.Investments.Edits.{
  Changes, Reply, find_scenario, find_purchase, edit, patch_allocation, remove, delete_allocation,
}
use nbe_financial_advisor_ba.Investments.Purchases.{Bought, find_instrument, find_holding, purchase}
use nbe_financial_advisor_ba.Investments.Plans.{
  Update, is_plan_update, titled, in_status, update_found, patch_scenario, destroy_found,
  destroy_scenario, find_saved, save_found, save_widget,
}
use nbe_financial_advisor_ba.Investments.Holdings.{
  Written, is_valid_holding, selectable, add_holding, create_holding, get_holding, keeps_instrument,
  in_increments, rewrite_found, update_holding, unlink_purchases, remove_found, destroy_holding,
}
use nbe_financial_advisor_ba.Investments.Settled.{
  has_scenario, IsSettled, StaysSettled, delete_scenario-IsSettled, save_payload-IsSettled,
  on_pending-StaysSettled, edit-StaysSettled, remove-StaysSettled, on_scenario-StaysSettled,
}

-- A request on an item of a plan, on a plan, on the plan of a message or on a holding.
pub data Request : Type 0 where
  buy : (fresh user today scenario instrument : ℕ) → Option Bought → Request
  patch : (now user scenario instrument : ℕ) → Option Changes → Request
  delete : (now user scenario instrument : ℕ) → Request
  patch_plan : (user scenario : ℕ) → Option Update → Request
  delete_plan : (user scenario : ℕ) → Request
  save_plan : (fresh user message : ℕ) → Option Payload → Request
  own : (fresh user today : ℕ) → Option Written → Request
  rewrite : (today user holding : ℕ) → Option Written → Request
  disown : (user holding : ℕ) → Request

abbrev pub serve : Request → Tables → Reply × Tables
serve (buy fresh user today scenario instrument body) tables =
    purchase fresh user today scenario instrument body tables
serve (patch now user scenario instrument body) tables =
    patch_allocation now user scenario instrument body tables
serve (delete now user scenario instrument) tables =
    delete_allocation now user scenario instrument tables
serve (patch_plan user scenario body) tables = patch_scenario user scenario body tables
serve (delete_plan user scenario) tables = destroy_scenario user scenario tables
serve (save_plan fresh user message payload) tables = save_widget fresh user message payload tables
serve (own fresh user today body) tables = create_holding fresh user today body tables
serve (rewrite today user holding body) tables = update_holding today user holding body tables
serve (disown user holding) tables = destroy_holding user holding tables

abbrev pub run : List Request → Tables → Tables
run [] tables = tables
run (r ∷ rs) tables = run rs (serve r tables).1

-- A new plan gets an id other than this one.
abbrev pub is_fresh : (scenario : ℕ) → Request → Bool
is_fresh scenario (save_plan fresh user message payload) = not (fresh == scenario)
is_fresh scenario _ = true

has_scenario-append :
    (id : ℕ) (ss : List Scenario) (s : Scenario)
    → has_scenario id ss ≡ false
    → (s.id == id) ≡ false
    → has_scenario id (ss ++ (s ∷ [])) ≡ false
unfolding has_scenario
has_scenario-append id [] s gone other = ground (arith, other)
has_scenario-append id (t ∷ ss) s gone other = ground (arith, gone, has_scenario-append id ss s)

find_purchase-unlink_purchases :
    (scenario instrument id : ℕ) (ps : List Purchase)
    → is_some (find_purchase scenario instrument (unlink_purchases id ps))
      ≡ is_some (find_purchase scenario instrument ps)
unfolding find_purchase unlink_purchases
find_purchase-unlink_purchases scenario instrument id [] = refl
find_purchase-unlink_purchases scenario instrument id (p ∷ ps) =
    ground (arith, find_purchase-unlink_purchases scenario instrument id ps)

module _ (scenario instrument : ℕ) (tables : Tables)
    (settled : IsSettled scenario instrument tables) where
  update_found-StaysSettled :
      (body : Option Update) (found : Option Scenario)
      → StaysSettled scenario instrument (update_found body tables found)
  unfolding update_found
  update_found-StaysSettled body none = settled
  update_found-StaysSettled none (some s) = settled
  update_found-StaysSettled (some u) (some s) = elim (Bool-cases (is_plan_update u)) [
    | inl good ↦ rw good (
        save_payload-IsSettled scenario instrument (in_status u.status (titled u.title s)) tables
          settled)
    | inr bad ↦ rw bad settled
  ]

  destroy_found-StaysSettled :
      (found : Option Scenario) → StaysSettled scenario instrument (destroy_found tables found)
  unfolding destroy_found
  destroy_found-StaysSettled none = settled
  destroy_found-StaysSettled (some s) =
      delete_scenario-IsSettled scenario instrument s tables settled

  save_found-StaysSettled :
      (fresh user message : ℕ) (p : Payload) (found : Option Scenario)
      → not (fresh == scenario) ≡ true
      → StaysSettled scenario instrument (save_found fresh user message p tables found)
  unfolding save_found
  save_found-StaysSettled fresh user message p none other = elim settled [
    | inl known ↦ inl known
    | inr gone ↦ inr (has_scenario-append scenario tables.scenarios _ gone (ground (arith, other)))
  ]
  save_found-StaysSettled fresh user message p (some s) other =
      save_payload-IsSettled scenario instrument (record s { payload = p }) tables settled

  save_widget-StaysSettled :
      (fresh user message : ℕ) (payload : Option Payload)
      → not (fresh == scenario) ≡ true
      → StaysSettled scenario instrument (save_widget fresh user message payload tables)
  unfolding save_widget
  save_widget-StaysSettled fresh user message none other = settled
  save_widget-StaysSettled fresh user message (some p) other =
      save_found-StaysSettled fresh user message p (find_saved message tables.scenarios) other

  add_holding-StaysSettled :
      (fresh user today : ℕ) (w : Written) (i : Option Instrument) (quantity price : Option ℕ)
      → StaysSettled scenario instrument (add_holding fresh user today w tables i quantity price)
  unfolding add_holding
  add_holding-StaysSettled fresh user today w none quantity price = settled
  add_holding-StaysSettled fresh user today w (some i) none price = settled
  add_holding-StaysSettled fresh user today w (some i) (some quantity) none = settled
  add_holding-StaysSettled fresh user today w (some i) (some quantity) (some price) =
      elim (Bool-cases (
        is_some (find_holding user i.id tables.holdings)
        || not (quantity % i.minimum_increment == 0))) [
          | inl bad ↦ rw bad settled
          | inr good ↦ rw good settled
        ]

  create_holding-StaysSettled :
      (fresh user today : ℕ) (body : Option Written)
      → StaysSettled scenario instrument (create_holding fresh user today body tables)
  unfolding create_holding
  create_holding-StaysSettled fresh user today none = settled
  create_holding-StaysSettled fresh user today (some w) =
      elim (Bool-cases (is_valid_holding today w)) [
        | inl good ↦ rw good (
            add_holding-StaysSettled fresh user today w
              (selectable w.instrument_id tables.instruments) w.quantity w.average_purchase_price)
        | inr bad ↦ rw bad settled
      ]

  rewrite_found-StaysSettled :
      (today : ℕ) (body : Option Written) (found : Option Holding)
      → StaysSettled scenario instrument (rewrite_found today body tables found)
  unfolding rewrite_found
  rewrite_found-StaysSettled today body none = settled
  rewrite_found-StaysSettled today none (some h) = settled
  rewrite_found-StaysSettled today (some w) (some h) =
      elim (Bool-cases (
        is_valid_holding today w
        && keeps_instrument h w.instrument_id tables.instruments
        && in_increments w.quantity (find_instrument h.instrument tables.instruments))) [
          | inl good ↦ rw good settled
          | inr bad ↦ rw bad settled
        ]

  remove_found-StaysSettled :
      (found : Option Holding) → StaysSettled scenario instrument (remove_found tables found)
  unfolding remove_found
  remove_found-StaysSettled none = settled
  remove_found-StaysSettled (some h) = elim settled [
    | inl known ↦
        inl (find_purchase-unlink_purchases scenario instrument h.id tables.purchases ∙ known)
    | inr gone ↦ inr gone
  ]

module _ (scenario instrument : ℕ) where
  serve-StaysSettled :
      (r : Request) (tables : Tables)
      → is_fresh scenario r ≡ true
      → IsSettled scenario instrument tables
      → StaysSettled scenario instrument (serve r tables)
  unfolding purchase patch_allocation delete_allocation patch_scenario destroy_scenario
      update_holding destroy_holding
  serve-StaysSettled (buy fresh user today s i body) tables apart settled =
      on_scenario-StaysSettled scenario instrument tables settled fresh user today i body
        (find_scenario user s tables.scenarios)
  serve-StaysSettled (patch now user s i body) tables apart settled =
      on_pending-StaysSettled scenario instrument tables settled now
        (find_scenario user s tables.scenarios) i (edit now i body tables)
        (edit-StaysSettled scenario instrument tables settled now i body)
  serve-StaysSettled (delete now user s i) tables apart settled =
      on_pending-StaysSettled scenario instrument tables settled now
        (find_scenario user s tables.scenarios) i (remove now i tables)
        (remove-StaysSettled scenario instrument tables settled now i)
  serve-StaysSettled (patch_plan user s body) tables apart settled =
      update_found-StaysSettled scenario instrument tables settled body
        (find_scenario user s tables.scenarios)
  serve-StaysSettled (delete_plan user s) tables apart settled =
      destroy_found-StaysSettled scenario instrument tables settled
        (find_scenario user s tables.scenarios)
  serve-StaysSettled (save_plan fresh user message payload) tables apart settled =
      save_widget-StaysSettled scenario instrument tables settled fresh user message payload apart
  serve-StaysSettled (own fresh user today body) tables apart settled =
      create_holding-StaysSettled scenario instrument tables settled fresh user today body
  serve-StaysSettled (rewrite today user h body) tables apart settled =
      rewrite_found-StaysSettled scenario instrument tables settled today body
        (get_holding user h tables.holdings)
  serve-StaysSettled (disown user h) tables apart settled =
      remove_found-StaysSettled scenario instrument tables settled
        (get_holding user h tables.holdings)

  pub run-IsSettled :
      (rs : List Request) (tables : Tables)
      → All (λ r. is_fresh scenario r ≡ true) rs
      → IsSettled scenario instrument tables
      → IsSettled scenario instrument (run rs tables)
  run-IsSettled [] tables apart settled = settled
  run-IsSettled (r ∷ rs) tables (first, apart) settled =
      run-IsSettled rs (serve r tables).1 apart (serve-StaysSettled r tables first settled)
