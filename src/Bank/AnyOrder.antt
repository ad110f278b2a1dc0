-- ===== src/Bank/AnyOrder.antt =====
-- `BankAccount.current_balance` does not depend on the order in which the rows of the table stand.
use nbe_financial_advisor_ba.Prelude.{
  ◌≡◌, refl, sym, ap, ◌∙◌, inl, inr, Bool, true, false, not, Option, none, some, List, [], ◌∷◌,
  ◌&&◌, ◌||◌, if◌then◌else◌, All, arith, Bool-cases,
}
use nbe_financial_advisor_ba.Prelude.Int.{ℤ, ◌+ℤ◌, +ℤ-swap}
use nbe_financial_advisor_ba.Bank.Model.{
  Transaction, is_newer, anchor, is_credit, is_movement, credits, outflows, balance_from,
  current_balance, later, with_balance,
}
use nbe_financial_advisor_ba.Bank.Balance.{replay, IsNewestFirst, sorted_balance}

unfoldable pub insert_newest : Transaction → List Transaction → List Transaction
insert_newest t [] = t ∷ []
insert_newest t (u ∷ us) =
    let rest = insert_newest t us in if is_newer t u then t ∷ u ∷ us else u ∷ rest

-- The rows, the newest first.
unfoldable pub newest_first : List Transaction → List Transaction
newest_first [] = []
newest_first (t ∷ ts) = insert_newest t (newest_first ts)

-- The rows differ in their dates or their instants.
abbrev pub is_apart : Transaction → Transaction → Bool
is_apart t u = is_newer t u || is_newer u t

-- Any two rows do.
abbrev pub AreApart : List Transaction → Type 0
AreApart [] = Unit
AreApart (t ∷ ts) = All (λ u. is_apart t u ≡ true) ts × AreApart ts

insert_newest-All :
    (P : Transaction → Type 0) (t : Transaction) (us : List Transaction)
    → P t
    → All P us
    → All P (insert_newest t us)
unfolding insert_newest
insert_newest-All P t [] first every = (first, tt)
insert_newest-All P t (u ∷ us) first (second, every) = elim (Bool-cases (is_newer t u)) [
  | inl newer ↦ rw newer (first, (second, every))
  | inr older ↦ rw older (second, insert_newest-All P t us first every)
]

newest_first-All :
    (P : Transaction → Type 0) (ts : List Transaction) → All P ts → All P (newest_first ts)
unfolding newest_first
newest_first-All P [] every = tt
newest_first-All P (t ∷ ts) (first, every) =
    insert_newest-All P t (newest_first ts) first (newest_first-All P ts every)

newer_trans :
    (t u : Transaction) (us : List Transaction)
    → is_newer t u ≡ true
    → All (λ v. is_newer u v ≡ true) us
    → All (λ v. is_newer t v ≡ true) us
newer_trans t u [] first every = tt
newer_trans t u (v ∷ us) first (second, every) =
    (ground (arith, first, second), newer_trans t u us first every)

insert_newest-IsNewestFirst :
    (t : Transaction) (us : List Transaction)
    → All (λ u. is_apart t u ≡ true) us
    → IsNewestFirst us
    → IsNewestFirst (insert_newest t us)
unfolding insert_newest
insert_newest-IsNewestFirst t [] apart sorted = (tt, tt)
insert_newest-IsNewestFirst t (u ∷ us) (differs, apart) (every, sorted) =
    elim (Bool-cases (is_newer t u)) [
      | inl newer ↦ rw newer ((newer, newer_trans t u us newer every), (every, sorted))
      | inr older ↦
          let after : is_newer u t ≡ true = ground (arith, differs, older) in
          rw older (
            insert_newest-All (λ v. is_newer u v ≡ true) t us after every,
            insert_newest-IsNewestFirst t us apart sorted,
          )
    ]

newest_first-IsNewestFirst : (ts : List Transaction) → AreApart ts → IsNewestFirst (newest_first ts)
unfolding newest_first
newest_first-IsNewestFirst [] apart = tt
newest_first-IsNewestFirst (t ∷ ts) (differs, apart) =
    insert_newest-IsNewestFirst t (newest_first ts)
      (newest_first-All (λ u. is_apart t u ≡ true) ts differs) (newest_first-IsNewestFirst ts apart)

two_swap : (t u : Transaction) → is_apart t u ≡ true → later u (some t) ≡ later t (some u)
unfolding later
two_swap t u differs = elim (Bool-cases (is_newer t u)) [
  | inl newer ↦ let older : is_newer u t ≡ false = ground (arith, newer) in rw (newer, older) refl
  | inr older ↦
      let newer : is_newer u t ≡ true = ground (arith, differs, older) in rw (newer, older) refl
]

-- Of two rows that differ, the later one is found in either order.
later_swap :
    (t u : Transaction) (rest : Option Transaction)
    → is_apart t u ≡ true
    → later u (later t rest) ≡ later t (later u rest)
unfolding later
later_swap t u none differs = two_swap t u differs
later_swap t u (some v) differs = elim (Bool-cases (is_newer v t)) [
  | inl vt ↦ elim (Bool-cases (is_newer v u)) [
    | inl vu ↦ rw (vt, vu) (rw vt refl)
    | inr vu ↦ let ut : is_newer u t ≡ true = ground (arith, vt, vu) in rw (vt, vu) (rw ut refl)
  ]
  | inr vt ↦ elim (Bool-cases (is_newer v u)) [
    | inl vu ↦
        let tu : is_newer t u ≡ true = ground (arith, vt, vu) in rw (vt, vu) (rw (vt, tu) refl)
    | inr vu ↦ rw (vt, vu) (two_swap t u differs)
  ]
]

with_balance_swap :
    (b c : Option ℤ) (t u : Transaction) (rest : Option Transaction)
    → is_apart t u ≡ true
    → with_balance c u (with_balance b t rest) ≡ with_balance b t (with_balance c u rest)
unfolding with_balance
with_balance_swap none c t u rest differs = refl
with_balance_swap (some b) none t u rest differs = refl
with_balance_swap (some b) (some c) t u rest differs = later_swap t u rest differs

anchor-insert_newest :
    (t : Transaction) (us : List Transaction)
    → All (λ u. is_apart t u ≡ true) us
    → anchor (insert_newest t us) ≡ anchor (t ∷ us)
unfolding anchor insert_newest
anchor-insert_newest t [] apart = refl
anchor-insert_newest t (u ∷ us) (differs, apart) = elim (Bool-cases (is_newer t u)) [
  | inl newer ↦ rw newer refl
  | inr older ↦ rw older (
      ap (with_balance u.balance u) (anchor-insert_newest t us apart)
      ∙ with_balance_swap t.balance u.balance t u (anchor us) differs)
]

add_swap :
    (p q : Bool) (x y r : ℤ)
    → (if q then y +ℤ (if p then x +ℤ r else r) else (if p then x +ℤ r else r))
      ≡ (if p then x +ℤ (if q then y +ℤ r else r) else (if q then y +ℤ r else r))
add_swap true true x y r = +ℤ-swap y x r
add_swap true false x y r = refl
add_swap false true x y r = refl
add_swap false false x y r = refl

credits-insert_newest :
    (a : Option Transaction) (t : Transaction) (us : List Transaction)
    → credits a (insert_newest t us) ≡ credits a (t ∷ us)
unfolding credits insert_newest
credits-insert_newest a t [] = refl
credits-insert_newest a t (u ∷ us) = elim (Bool-cases (is_newer t u)) [
  | inl newer ↦ rw newer refl
  | inr older ↦
      rw (older, credits-insert_newest a t us)
        (add_swap (is_movement a t && is_credit t) (is_movement a u && is_credit u) t.amount
          u.amount (credits a us))
]

outflows-insert_newest :
    (a : Option Transaction) (t : Transaction) (us : List Transaction)
    → outflows a (insert_newest t us) ≡ outflows a (t ∷ us)
unfolding outflows insert_newest
outflows-insert_newest a t [] = refl
outflows-insert_newest a t (u ∷ us) = elim (Bool-cases (is_newer t u)) [
  | inl newer ↦ rw newer refl
  | inr older ↦
      rw (older, outflows-insert_newest a t us)
        (add_swap (is_movement a t && not (is_credit t)) (is_movement a u && not (is_credit u))
          t.amount u.amount (outflows a us))
]

-- The sums over the rows in any order.
credits-newest_first :
    (a : Option Transaction) (ts : List Transaction) → credits a (newest_first ts) ≡ credits a ts
unfolding newest_first credits
credits-newest_first a [] = refl
credits-newest_first a (t ∷ ts) =
    credits-insert_newest a t (newest_first ts) ∙ rw (credits-newest_first a ts) refl

outflows-newest_first :
    (a : Option Transaction) (ts : List Transaction) → outflows a (newest_first ts) ≡ outflows a ts
unfolding newest_first outflows
outflows-newest_first a [] = refl
outflows-newest_first a (t ∷ ts) =
    outflows-insert_newest a t (newest_first ts) ∙ rw (outflows-newest_first a ts) refl

anchor-newest_first : (ts : List Transaction) → AreApart ts → anchor (newest_first ts) ≡ anchor ts
unfolding newest_first anchor
anchor-newest_first [] apart = refl
anchor-newest_first (t ∷ ts) (differs, apart) =
    anchor-insert_newest t (newest_first ts)
      (newest_first-All (λ u. is_apart t u ≡ true) ts differs)
    ∙ ap (with_balance t.balance t) (anchor-newest_first ts apart)

-- For rows in any order, of which no two have both the same date and the same instant, the balance is
-- that of booking them one by one from the oldest to the newest, where a row that states a
-- balance sets it.
pub current_balance-replay :
    (ts : List Transaction) → AreApart ts → current_balance ts ≡ replay (newest_first ts)
unfolding current_balance balance_from
current_balance-replay ts apart =
    sym (
      rw
        (
          anchor-newest_first ts apart,
          credits-newest_first (anchor ts) ts,
          outflows-newest_first (anchor ts) ts,
        )
        refl)
    ∙ sorted_balance (newest_first ts) (newest_first-IsNewestFirst ts apart)
