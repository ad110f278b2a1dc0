-- ===== src/Bank/Balance.antt =====
-- `BankAccount.current_balance`, and a replay of the ledger row by row.
use nbe_financial_advisor_ba.Prelude.{
  ◌≡◌, refl, sym, ap, ◌∙◌, inl, inr, Bool, true, false, not, Option, none, some, List, [], ◌∷◌,
  if◌then◌else◌, All, arith, Option-cases, Bool-cases,
}
use nbe_financial_advisor_ba.Prelude.Int.{ℤ, pos, ◌+ℤ◌, ◌-ℤ◌, +ℤ-credit, -ℤ-outflow, no_movement}
use nbe_financial_advisor_ba.Bank.Model.{
  Transaction, is_newer, anchor, is_credit, is_movement, credits, outflows, base_balance,
  balance_from, stated_balance, current_balance, later, with_balance,
}

-- A row that states a balance sets it; any other row moves it by its amount.
abbrev pub book : Transaction → Option ℤ → ℤ → ℤ
book t (some b) before = b
book t none before = if is_credit t then before +ℤ t.amount else before -ℤ t.amount

-- The balance after the rows of a ledger, the newest first, booked one by one from zero.
abbrev pub replay : List Transaction → ℤ
replay [] = pos 0
replay (t ∷ ts) = book t t.balance (replay ts)

-- No two rows have the same date and instant, and they stand newest first.
abbrev pub IsNewestFirst : List Transaction → Type 0
IsNewestFirst [] = Unit
IsNewestFirst (t ∷ ts) = All (λ u. is_newer t u ≡ true) ts × IsNewestFirst ts

-- Of what holds for all rows, the anchor has it.
abbrev OfAnchor : (Transaction → Type 0) → Option Transaction → Type 0
OfAnchor P none = Unit
OfAnchor P (some a) = P a

later-OfAnchor :
    (P : Transaction → Type 0) (t : Transaction) (rest : Option Transaction)
    → P t
    → OfAnchor P rest
    → OfAnchor P (later t rest)
unfolding later
later-OfAnchor P t none first found = first
later-OfAnchor P t (some u) first found = elim (Bool-cases (is_newer u t)) [
  | inl newer ↦ rw newer found
  | inr older ↦ rw older first
]

with_balance-OfAnchor :
    (P : Transaction → Type 0) (b : Option ℤ) (t : Transaction) (rest : Option Transaction)
    → P t
    → OfAnchor P rest
    → OfAnchor P (with_balance b t rest)
unfolding with_balance
with_balance-OfAnchor P none t rest first found = found
with_balance-OfAnchor P (some b) t rest first found = later-OfAnchor P t rest first found

anchor-OfAnchor :
    (P : Transaction → Type 0) (ts : List Transaction) → All P ts → OfAnchor P (anchor ts)
unfolding anchor
anchor-OfAnchor P [] every = tt
anchor-OfAnchor P (t ∷ ts) (first, every) =
    with_balance-OfAnchor P t.balance t (anchor ts) first (anchor-OfAnchor P ts every)

newer_asym : (t u : Transaction) → is_newer t u ≡ true → is_newer u t ≡ false
newer_asym t u h = ground arith

newer_irrefl : (t : Transaction) → is_newer t t ≡ false
newer_irrefl t = ground arith

-- Rows older than the anchor move nothing.
credits_old :
    (a : Transaction) (ts : List Transaction)
    → All (λ u. is_newer a u ≡ true) ts
    → credits (some a) ts ≡ pos 0
unfolding credits
credits_old a [] every = refl
credits_old a (t ∷ ts) (first, every) = rw (newer_asym a t first) (credits_old a ts every)

outflows_old :
    (a : Transaction) (ts : List Transaction)
    → All (λ u. is_newer a u ≡ true) ts
    → outflows (some a) ts ≡ pos 0
unfolding outflows
outflows_old a [] every = refl
outflows_old a (t ∷ ts) (first, every) = rw (newer_asym a t first) (outflows_old a ts every)

later_old :
    (t : Transaction) (rest : Option Transaction)
    → OfAnchor (λ u. is_newer t u ≡ true) rest
    → later t rest ≡ some t
unfolding later
later_old t none old = refl
later_old t (some u) old = rw (newer_asym t u old) refl

-- The anchor of a ledger whose newest row states a balance is that row.
anchor_stated :
    (t : Transaction) (b : ℤ) (ts : List Transaction)
    → t.balance ≡ some b
    → All (λ u. is_newer t u ≡ true) ts
    → anchor (t ∷ ts) ≡ some t
unfolding anchor with_balance
anchor_stated t b ts stated every =
    ap (λ o. with_balance o t (anchor ts)) stated
    ∙ later_old t (anchor ts) (anchor-OfAnchor (λ u. is_newer t u ≡ true) ts every)

moved :
    (credit : Bool) (base x c o : ℤ)
    → base +ℤ (if credit then x +ℤ c else c) -ℤ (if not credit then x +ℤ o else o)
      ≡ (if credit then (base +ℤ c -ℤ o) +ℤ x else (base +ℤ c -ℤ o) -ℤ x)
moved true base x c o = +ℤ-credit base x c o
moved false base x c o = -ℤ-outflow base x c o

is_movement-newest :
    (t : Transaction) (a : Option Transaction)
    → OfAnchor (λ u. is_newer t u ≡ true) a
    → is_movement a t ≡ true
is_movement-newest t none old = refl
is_movement-newest t (some a) old = old

anchor_unstated :
    (t : Transaction) (ts : List Transaction) → t.balance ≡ none → anchor (t ∷ ts) ≡ anchor ts
unfolding anchor with_balance
anchor_unstated t ts unstated = rw unstated refl

balance_from-stated :
    (t : Transaction) (ts : List Transaction)
    → All (λ u. is_newer t u ≡ true) ts
    → balance_from (some t) (t ∷ ts) ≡ stated_balance t.balance
unfolding balance_from credits outflows
balance_from-stated t ts every =
    rw (newer_irrefl t, credits_old t ts every, outflows_old t ts every)
      (no_movement (stated_balance t.balance))

balance_from-newest :
    (a : Option Transaction) (t : Transaction) (ts : List Transaction)
    → is_movement a t ≡ true
    → balance_from a (t ∷ ts) ≡ book t none (balance_from a ts)
unfolding balance_from credits outflows
balance_from-newest a t ts moves =
    rw moves (moved (is_credit t) (base_balance a) t.amount (credits a ts) (outflows a ts))

book_stated :
    (t : Transaction) (b : ℤ) (ts : List Transaction)
    → t.balance ≡ some b
    → All (λ u. is_newer t u ≡ true) ts
    → current_balance (t ∷ ts) ≡ b
unfolding current_balance
book_stated t b ts stated every =
    ap (λ a. balance_from a (t ∷ ts)) (anchor_stated t b ts stated every)
    ∙ balance_from-stated t ts every
    ∙ ap stated_balance stated

book_unstated :
    (t : Transaction) (ts : List Transaction)
    → t.balance ≡ none
    → All (λ u. is_newer t u ≡ true) ts
    → current_balance (t ∷ ts) ≡ book t none (current_balance ts)
unfolding current_balance
book_unstated t ts unstated every =
    ap (λ a. balance_from a (t ∷ ts)) (anchor_unstated t ts unstated)
    ∙ balance_from-newest (anchor ts) t ts
        (is_movement-newest t (anchor ts) (anchor-OfAnchor (λ u. is_newer t u ≡ true) ts every))

-- The same of a table that stands newest first.
pub sorted_balance : (ts : List Transaction) → IsNewestFirst ts → current_balance ts ≡ replay ts
unfolding current_balance balance_from anchor credits outflows
sorted_balance [] sorted = no_movement (pos 0)
sorted_balance (t ∷ ts) (every, sorted) = elim (Option-cases t.balance) [
  | inl unstated ↦
      book_unstated t ts unstated every
      ∙ ap (book t none) (sorted_balance ts sorted)
      ∙ ap (λ b. book t b (replay ts)) (sym unstated)
  | inr (b, stated) ↦ book_stated t b ts stated every ∙ ap (λ o. book t o (replay ts)) (sym stated)
]
