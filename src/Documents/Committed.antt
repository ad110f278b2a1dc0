-- ===== src/Documents/Committed.antt =====
-- What approving a statement does to the ledger and to the statement.
use nbe_financial_advisor_ba.Prelude.{
  ℕ, suc, ◌≡◌, refl, ap, ◌∙◌, inl, inr, Bool, true, is_some, Option, List, [], ◌∷◌, arith, All,
  Option-cases,
}
use nbe_financial_advisor_ba.Prelude.Text.{Text}
use nbe_financial_advisor_ba.Prelude.Int.{ℤ}
use nbe_financial_advisor_ba.Bank.Model.{Transaction, is_duplicate}
use nbe_financial_advisor_ba.Bank.Ledger.{IsUnique, is_match_self}
use nbe_financial_advisor_ba.Documents.Approval.{
  Row, Resolved, Environment, first_match, match_of, new_transaction, resolve_row, resolve_rows,
}

module _ (user account : ℕ) where
  -- The ledger has a row that agrees with the submitted one.
  abbrev pub is_recorded : Row → List Transaction → Bool
  is_recorded r rows =
      is_duplicate user account r.transaction_date r.amount r.merchant_raw r.transaction_type rows

pub first_match-is_duplicate :
    (user account date : ℕ) (amount : ℤ) (merchant_raw transaction_type : Option Text)
    (rows : List Transaction)
    → is_duplicate user account date amount merchant_raw transaction_type rows
      ≡ is_some (first_match user account date amount merchant_raw transaction_type rows)
unfolding is_duplicate first_match
first_match-is_duplicate user account date amount merchant_raw transaction_type [] = refl
first_match-is_duplicate user account date amount merchant_raw transaction_type (t ∷ ts) =
    ground
      (arith, first_match-is_duplicate user account date amount merchant_raw transaction_type ts)

module _ (env : Environment) (user account statement : ℕ) where
  abbrev pub step : (n : ℕ) → Row → List Transaction → Resolved × List Transaction
  step n r rows =
      resolve_row env user account statement n r (match_of env user account statement r rows) rows

  pub duplicate-match :
      (r : Row) (rows : List Transaction)
      → is_recorded user account r rows ≡ is_some (match_of env user account statement r rows)
  duplicate-match r rows =
      first_match-is_duplicate user account r.transaction_date r.amount r.merchant_raw
        r.transaction_type rows

  step-recorded :
      (n : ℕ) (r : Row) (rows : List Transaction)
      → is_recorded user account r (step n r rows).1 ≡ true
  unfolding resolve_row is_duplicate new_transaction
  step-recorded n r rows = elim (Option-cases (match_of env user account statement r rows)) [
    | inl new ↦
        rw new (ground (arith, is_match_self (new_transaction env user account statement n r)))
    | inr (t, known) ↦ rw known (duplicate-match r rows ∙ ap is_some known)
  ]

  step-IsUnique :
      (n : ℕ) (r : Row) (rows : List Transaction) → IsUnique rows → IsUnique (step n r rows).1
  unfolding resolve_row new_transaction
  step-IsUnique n r rows unique = elim (Option-cases (match_of env user account statement r rows)) [
    | inl new ↦ rw new (duplicate-match r rows ∙ ap is_some new, unique)
    | inr (t, known) ↦ rw known unique
  ]

  step-keeps :
      (n : ℕ) (q r : Row) (rows : List Transaction)
      → is_recorded user account q rows ≡ true
      → is_recorded user account q (step n r rows).1 ≡ true
  unfolding resolve_row is_duplicate
  step-keeps n q r rows known = elim (Option-cases (match_of env user account statement r rows)) [
    | inl new ↦ rw new (ground (arith, known))
    | inr (t, found) ↦ rw found known
  ]

  abbrev ledger : (n : ℕ) → List Row → List Transaction → List Transaction
  ledger n rs rows = (resolve_rows env user account statement n rs rows).1

  resolve_rows-keeps :
      (q : Row) (rs : List Row) (n : ℕ) (rows : List Transaction)
      → is_recorded user account q rows ≡ true
      → is_recorded user account q (ledger n rs rows) ≡ true
  unfolding resolve_rows
  resolve_rows-keeps q [] n rows known = known
  resolve_rows-keeps q (r ∷ rs) n rows known =
      resolve_rows-keeps q rs (suc n) (step n r rows).1 (step-keeps n q r rows known)

  pub resolve_rows-recorded :
      (rs : List Row) (n : ℕ) (rows : List Transaction)
      → All (λ r. is_recorded user account r (ledger n rs rows) ≡ true) rs
  unfolding resolve_rows
  resolve_rows-recorded [] n rows = tt
  resolve_rows-recorded (r ∷ rs) n rows = (
    resolve_rows-keeps r rs (suc n) (step n r rows).1 (step-recorded n r rows),
    resolve_rows-recorded rs (suc n) (step n r rows).1,
  )

  pub resolve_rows-IsUnique :
      (rs : List Row) (n : ℕ) (rows : List Transaction)
      → IsUnique rows
      → IsUnique (ledger n rs rows)
  unfolding resolve_rows
  resolve_rows-IsUnique [] n rows unique = unique
  resolve_rows-IsUnique (r ∷ rs) n rows unique =
      resolve_rows-IsUnique rs (suc n) (step n r rows).1 (step-IsUnique n r rows unique)
