-- ===== src/Investments/Stuck.antt =====
-- An allocation that cannot be removed: `SavedInvestmentAllocationUpdateView.delete`.
use nbe_financial_advisor_ba.Prelude.{
  ℕ, ◌≡◌, ◌≢◌, refl, inl, inr, true, false, not, Option, none, some, List, ◌∷◌, ◌||◌, ◌==◌, is_some,
  length, arith, Bool-cases,
}
use mathlib.Core.Path.{subst}
use nbe_financial_advisor_ba.Investments.Model.{
  Allocation, Payload, Scenario, Tables, is_near, has_id, sum_of, target_of,
}
use nbe_financial_advisor_ba.Investments.Plan.{
  Outcome, refused, aborted, done, expected_target, share_of, recalculate_saved_payload,
}
use nbe_financial_advisor_ba.Investments.Edits.{
  Reply, no_content, without, remove_saved_allocation, kept, find_scenario, find_purchase, is_saved,
  on_pending, store_remaining, remove, delete_allocation,
}
use nbe_financial_advisor_ba.Investments.Recalculated.{rounding_refuses}

abbrev IsRefused : Tables → Reply × Tables → Type 0
IsRefused tables (reply, tables') = (tables' ≡ tables) × (reply ≢ no_content)

module _ (now : ℕ) (tables : Tables) where
  store_remaining-IsRefused :
      (s : Scenario) (outcome : Outcome Payload)
      → ((p : Payload) → outcome ≢ done p)
      → IsRefused tables (store_remaining now s tables (kept tables now outcome))
  unfolding store_remaining
  store_remaining-IsRefused s refused never = (refl, λ e. ground (arith, e))
  store_remaining-IsRefused s aborted never = (refl, λ e. ground (arith, e))
  store_remaining-IsRefused s (done p) never = absurd (never p refl)

  on_pending-IsRefused :
      (found : Option Scenario) (s : Scenario) (instrument : ℕ)
      (proceed : Scenario → Reply × Tables)
      → found ≡ some s
      → IsRefused tables (proceed s)
      → IsRefused tables (on_pending now found instrument tables proceed)
  unfolding on_pending
  on_pending-IsRefused none s instrument proceed found no' = absurd (grind (arith, found))
  on_pending-IsRefused (some t) s instrument proceed found no' =
      elim (Bool-cases
        (not (is_saved t.status) || is_some (find_purchase t.id instrument tables.purchases))) [
          | inl stop ↦ rw (stop) (refl, λ e. ground (arith, e))
          | inr go ↦
              rw (go)
                (subst (λ (x : Scenario). IsRefused tables (proceed x)) (grind (arith, found)) no')
        ]

-- If an allocation is to be removed from a plan of the user that has it, at least two others would
-- remain, and the target of the first of them is more than 0.02 away from what its share of the
-- remaining targets, rounded to a hundredth of a percent, gives back, then the removal does not
-- succeed, and changes nothing.
pub rounding_blocks_removal :
    (now user scenario instrument : ℕ) (tables : Tables) (s : Scenario)
    (found : find_scenario user scenario tables.scenarios ≡ some s)
    (listed : has_id instrument s.payload.allocations ≡ true) (a b : Allocation)
    (rest : List Allocation) (left : without instrument s.payload.allocations ≡ a ∷ b ∷ rest)
    (off : (let amount = sum_of target_of (a ∷ b ∷ rest) in
        is_near a.target_amount (expected_target amount (share_of a.target_amount amount)))
      ≡ false)
    → (let answer = delete_allocation now user scenario instrument tables in
        (answer.1 ≡ tables) × (answer.0 ≢ no_content))
unfolding delete_allocation remove remove_saved_allocation
rounding_blocks_removal now user scenario instrument tables s found listed a b rest left off =
    let more : (length (a ∷ b ∷ rest) == 0) ≡ false = ground arith in
    let remaining = record s.payload { allocations = a ∷ b ∷ rest } in
    on_pending-IsRefused now tables (find_scenario user scenario tables.scenarios) s instrument
      (remove now instrument tables) found
      (rw (listed, left, more)
        (store_remaining-IsRefused now tables s
          (recalculate_saved_payload tables.instruments now remaining)
          (rounding_refuses tables.instruments now remaining a b rest refl off)))
