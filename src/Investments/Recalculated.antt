-- ===== src/Investments/Recalculated.antt =====
-- What a recalculated plan satisfies, and a plan that cannot be recalculated.
use nbe_financial_advisor_ba.Prelude.{
  ℕ, ◌+◌, ◌%◌, ◌≤◌, ◌≡◌, ◌≢◌, refl, sym, ap, ◌∙◌, inl, inr, Bool, true, false, Option, none, some,
  List, [], ◌∷◌, map, leb, ◌==◌, length, arith, Bool-cases, ==_iff,
}
use mathlib.Core.Path.{subst}
use nbe_financial_advisor_ba.Investments.Model.{
  Instrument, Allocation, Payload, is_near, cost, sum_of, percentage_of, target_of, actual_of,
}
use nbe_financial_advisor_ba.Investments.Plan.{
  Outcome, refused, aborted, done, then_do, check, expected_target, is_allocation, all_allocations,
  is_consistent, share_of, percentage, with_amounts, with_share, spend, priced, recalculate_items,
  recalculated, recalculate_saved_payload,
}

then_do-done {ℓ κ} :
    {A : Type ℓ} {B : Type κ} (o : Outcome A) (f : A → Outcome B) (b : B)
    → then_do o f ≡ done b
    → (a : A) × (o ≡ done a) × (f a ≡ done b)
unfolding then_do
then_do-done refused f b same = absurd (grind (arith, same))
then_do-done aborted f b same = absurd (grind (arith, same))
then_do-done (done a) f b same = (a, refl, same)

check-done {ℓ} :
    {A : Type ℓ} (t : Bool) (o : Outcome A) (a : A) → check t o ≡ done a → (t ≡ true) × (o ≡ done a)
unfolding check
check-done true o a same = (refl, same)
check-done false o a same = absurd (grind (arith, same))

abbrev done_or {ℓ} : {A : Type ℓ} → A → Outcome A → A
done_or a refused = a
done_or a aborted = a
done_or a (done b) = b

done_inj {ℓ} : {A : Type ℓ} (a b : A) → done a ≡ done b → a ≡ b
done_inj a b same = ap (done_or a) same

abbrev pub remainder_of : Allocation → ℕ
remainder_of a = a.unallocated_remainder

-- An allocation without what the recalculation sets.
abbrev pub outline : Allocation → Allocation
outline a = record a { percentage = 0; actual_allocated_amount = 0; unallocated_remainder = 0 }

abbrev IsPriced : Allocation → Allocation → Type 0
IsPriced a a' =
    (outline a' ≡ outline a)
    × (a'.target_amount ≡ a.target_amount)
    × (a'.actual_allocated_amount + a'.unallocated_remainder ≡ a.target_amount)

with_share-IsPriced :
    (a : Allocation) (allocated : ℕ) (p : Option ℕ) (a' : Allocation)
    → allocated ≤ a.target_amount
    → with_share a allocated p ≡ done a'
    → IsPriced a a' × (p ≡ some a'.percentage)
with_share-IsPriced a allocated none a' fits same = absurd (grind (arith, same))
with_share-IsPriced a allocated (some p) a' fits same =
    subst (λ (x : Allocation). IsPriced a x × (some p ≡ some x.percentage))
      (done_inj (with_amounts a p allocated) a' same) ((refl, refl, omega (arith, fits)), refl)

spend-IsPriced :
    (a : Allocation) (p spent : Option ℕ) (a' : Allocation)
    → spend a p spent ≡ done a'
    → IsPriced a a' × (p ≡ some a'.percentage)
unfolding spend
spend-IsPriced a p none a' same = absurd (grind (arith, same))
spend-IsPriced a p (some allocated) a' same =
    let (fits, same') =
      check-done (leb allocated a.target_amount) (with_share a allocated p) a' same in
    with_share-IsPriced a allocated p a' (ground (arith, fits)) same'

priced-IsPriced :
    (a : Allocation) (p : Option ℕ) (a' : Allocation)
    → priced a p ≡ done a'
    → IsPriced a a' × (p ≡ some a'.percentage)
unfolding priced
priced-IsPriced a p a' same =
    let (whole, same') =
      check-done (a.quantity % a.minimum_increment == 0) (spend a p (cost a.quantity a.unit_price))
        a' same in
    spend-IsPriced a p (cost a.quantity a.unit_price) a' same'

-- The outlines and targets stay, and each target is split into what is spent and what is left.
abbrev IsRecalculated : List Allocation → List Allocation → Type 0
IsRecalculated as' bs =
    (map outline bs ≡ map outline as')
    × (sum_of target_of bs ≡ sum_of target_of as')
    × (sum_of actual_of bs + sum_of remainder_of bs ≡ sum_of target_of as')

recalculate_items-IsRecalculated :
    (confirmed used : ℕ) (as' bs : List Allocation)
    → recalculate_items confirmed used as' ≡ done bs
    → IsRecalculated as' bs
unfolding recalculate_items sum_of
recalculate_items-IsRecalculated confirmed used [] bs same =
    subst (IsRecalculated []) (done_inj [] bs same) (refl, refl, refl)
recalculate_items-IsRecalculated confirmed used (a ∷ rest) bs same =
    let (p, shared, same') =
      then_do-done (percentage confirmed used a.target_amount rest) (turn a rest) bs same in
    let (a', spent, same'') = then_do-done (priced a p) (after a rest) bs same' in
    let (rest', counted, last) =
      then_do-done (recalculate_items confirmed (used + a'.percentage) rest)
        (λ rest'. done (a' ∷ rest')) bs same'' in
    let ((outlined, kept, split), share) = priced-IsPriced a p a' spent in
    let (outlines, targets, splits) =
      recalculate_items-IsRecalculated confirmed (used + a'.percentage) rest rest' counted in
    subst (IsRecalculated (a ∷ rest)) (done_inj (a' ∷ rest') bs last)
      (rw (outlined, outlines) refl, omega (arith, kept, targets), omega (arith, split, splits))
  where
    after : Allocation → List Allocation → Allocation → Outcome (List Allocation)
    after a rest a' =
        then_do (recalculate_items confirmed (used + a'.percentage) rest) λ rest'. done (a' ∷ rest')

    turn : Allocation → List Allocation → Option ℕ → Outcome (List Allocation)
    turn a rest p = then_do (priced a p) (after a rest)

abbrev pub IsBalanced : Payload → Payload → Type 0
IsBalanced p p' =
    (map outline p'.allocations ≡ map outline p.allocations)
    × (sum_of percentage_of p'.allocations ≡ 10000)
    × (p'.confirmed_amount ≡ sum_of target_of p'.allocations)
    × (p'.total_allocated ≡ sum_of actual_of p'.allocations)
    × (p'.total_remainder ≡ sum_of remainder_of p'.allocations)
    × (p'.total_allocated + p'.total_remainder ≡ p'.confirmed_amount)

recalculated-done :
    (instruments : List Instrument) (now : ℕ) (p p' : Payload)
    (succeeds : recalculate_saved_payload instruments now p ≡ done p')
    → (bs : List Allocation) × (recalculate_items (sum_of target_of p.allocations) 0 p.allocations
        ≡ done bs)
      × (is_consistent instruments now (recalculated p (sum_of target_of p.allocations) bs) ≡ true)
      × (recalculated p (sum_of target_of p.allocations) bs ≡ p')
unfolding recalculate_saved_payload
recalculated-done instruments now p p' succeeds =
    let confirmed = sum_of target_of p.allocations in
    let (whole, same) =
      check-done (leb 1 (length p.allocations))
        (then_do (recalculate_items confirmed 0 p.allocations) (checked confirmed)) p' succeeds in
    let (bs, counted, same') =
      then_do-done (recalculate_items confirmed 0 p.allocations) (checked confirmed) p' same in
    let (consistent, same'') =
      check-done (is_consistent instruments now (recalculated p confirmed bs))
        (done (recalculated p confirmed bs)) p' same' in
    (bs, counted, consistent, done_inj (recalculated p confirmed bs) p' same'')
  where
    checked : ℕ → List Allocation → Outcome Payload
    checked confirmed bs =
        check (is_consistent instruments now (recalculated p confirmed bs))
          (done (recalculated p confirmed bs))

-- A recalculation that succeeds keeps what it does not set: the allocations in order, with their
-- instruments, targets, prices and quantities. The percentages sum to 100, the plan's amount is the sum of the
-- targets, and is the sum of what is allocated and of the remainders of the allocations.
pub recalculation_balances :
    (instruments : List Instrument) (now : ℕ) (p p' : Payload)
    (succeeds : recalculate_saved_payload instruments now p ≡ done p')
    → IsBalanced p p'
unfolding is_consistent
recalculation_balances instruments now p p' succeeds =
    let (bs, counted, consistent, same) = recalculated-done instruments now p p' succeeds in
    let confirmed = sum_of target_of p.allocations in
    let (outlines, targets, splits) =
      recalculate_items-IsRecalculated confirmed 0 p.allocations bs counted in
    let percentages : (sum_of percentage_of bs == 10000) ≡ true = ground (arith, consistent) in
    subst (IsBalanced p) same (
      outlines,
      (==_iff (sum_of percentage_of bs) 10000).0 percentages,
      sym targets,
      refl,
      omega (arith, splits),
      omega (arith, splits),
    )

percentage-share :
    (confirmed target q : ℕ) (b : Allocation) (rest : List Allocation) (p : Option ℕ)
    → percentage confirmed 0 target (b ∷ rest) ≡ done p
    → p ≡ some q
    → q ≡ share_of target confirmed
unfolding percentage
percentage-share confirmed target q b rest p shared share = elim (Bool-cases (confirmed == 0)) [
  | inl zero' ↦ absurd (grind (arith, shared, zero'))
  | inr positive ↦ grind (arith, shared, positive, share)
]

recalculate_items-first :
    (confirmed : ℕ) (a b : Allocation) (rest bs : List Allocation)
    → recalculate_items confirmed 0 (a ∷ b ∷ rest) ≡ done bs
    → (a' : Allocation) × (rest' : List Allocation) × (bs ≡ a' ∷ rest')
      × (a'.target_amount ≡ a.target_amount)
      × (a'.percentage ≡ share_of a.target_amount confirmed)
unfolding recalculate_items
recalculate_items-first confirmed a b rest bs same =
    let (p, shared, same') =
      then_do-done (percentage confirmed 0 a.target_amount (b ∷ rest)) turn bs same in
    let (a', spent, same'') = then_do-done (priced a p) after bs same' in
    let (rest', counted, last) =
      then_do-done (recalculate_items confirmed (0 + a'.percentage) (b ∷ rest))
        (λ rest'. done (a' ∷ rest')) bs same'' in
    let ((outlined, kept, split), share) = priced-IsPriced a p a' spent in
    (
      a',
      rest',
      sym (done_inj (a' ∷ rest') bs last),
      kept,
      percentage-share confirmed a.target_amount a'.percentage b rest p shared share,
    )
  where
    after : Allocation → Outcome (List Allocation)
    after a' =
        then_do (recalculate_items confirmed (0 + a'.percentage) (b ∷ rest))
          λ rest'. done (a' ∷ rest')

    turn : Option ℕ → Outcome (List Allocation)
    turn p = then_do (priced a p) after

-- If the target of the first of several allocations is more than 0.02 away from what its share, rounded to a
-- hundredth of a percent, gives back, then the plan cannot be recalculated.
pub rounding_refuses :
    (instruments : List Instrument) (now : ℕ) (p : Payload) (a b : Allocation)
    (rest : List Allocation) (several : p.allocations ≡ a ∷ b ∷ rest)
    (off : (let confirmed = sum_of target_of p.allocations in
        is_near a.target_amount (expected_target confirmed (share_of a.target_amount confirmed)))
      ≡ false)
    (p' : Payload)
    → recalculate_saved_payload instruments now p ≢ done p'
unfolding is_consistent is_allocation
rounding_refuses instruments now p a b rest several off p' succeeds =
    let confirmed = sum_of target_of p.allocations in
    let (bs, counted, consistent, same) = recalculated-done instruments now p p' succeeds in
    let (a', rest', listed, kept, share) =
      recalculate_items-first confirmed a b rest bs
        (ap (recalculate_items confirmed 0) (sym several) ∙ counted) in
    let all : all_allocations (is_allocation now confirmed) bs ≡ true =
      ground (arith, consistent) in
    let all' : all_allocations (is_allocation now confirmed) (a' ∷ rest') ≡ true =
      ap (all_allocations (is_allocation now confirmed)) (sym listed) ∙ all in
    let near : is_near a'.target_amount (expected_target confirmed a'.percentage) ≡ true =
      ground (arith, all') in
    let near' =
      ap (λ (q : ℕ). is_near a.target_amount (expected_target confirmed q)) (sym share)
      ∙ ap (λ (t : ℕ). is_near t (expected_target confirmed a'.percentage)) (sym kept)
      ∙ near in
    let clash : true ≡ false = sym near' ∙ off in absurd (ground (arith, clash))
