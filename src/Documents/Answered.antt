-- ===== src/Documents/Answered.antt =====
-- The answer to an approval, and the rows that the loop adds to the ledger.
use mathlib.Core.Path.{subst}
use mathlib.Core.List.{append_assoc}
use nbe_financial_advisor_ba.Prelude.{
  ℕ, suc, ◌≡◌, refl, sym, ap, ◌∙◌, ◌⊎◌, inl, inr, true, false, is_some, Option, none, some, List,
  [], ◌∷◌, ◌++◌, arith, Option-cases, Bool-cases,
}
use nbe_financial_advisor_ba.Prelude.Text.{Text}
use nbe_financial_advisor_ba.Prelude.Int.{ℤ}
use nbe_financial_advisor_ba.Bank.Model.{Transaction, is_match, is_duplicate}
use nbe_financial_advisor_ba.Bank.Ledger.{is_match_self}
use nbe_financial_advisor_ba.Documents.Approval.{
  Row, Resolved, Environment, first_match, match_of, new_transaction, resolve_row, resolve_rows,
  new_ids,
}
use nbe_financial_advisor_ba.Documents.Committed.{step, duplicate-match}

-- A row of the ledger agrees with the submitted one.
abbrev pub Agrees : (user account : ℕ) → Row → Transaction → Type 0
Agrees user account r t =
    is_match user account r.transaction_date r.amount r.merchant_raw r.transaction_type t ≡ true

abbrev pub IsIn : Transaction → List Transaction → Type 0
IsIn t [] = ⊥
IsIn t (u ∷ us) = (u ≡ t) ⊎ IsIn t us

-- The answer to a row: an agreeing row was added and its id is given as stored, or one was there
-- and its id is given as the original.
abbrev pub IsAnswer : (user account : ℕ) (added rows : List Transaction) → Row → Resolved → Type 0
IsAnswer user account added rows r a =
    (a.transaction_date ≡ r.transaction_date)
    × (a.merchant_raw ≡ r.merchant_raw)
    × (a.amount ≡ r.amount)
    × ((t : Transaction) × Agrees user account r t
        × ((IsIn t added × (a.transaction_id ≡ some t.id) × (a.duplicate_of ≡ none))
            ⊎ (IsIn t (added ++ rows) × (a.transaction_id ≡ none) × (a.duplicate_of ≡ some t.id))))

-- The answer has one row for each of the request, in order.
abbrev pub IsAnswered :
    (user account : ℕ) (added rows : List Transaction) → List Row → List Resolved → Type 0
IsAnswered user account added rows [] [] = Unit
IsAnswered user account added rows (r ∷ rs) (a ∷ rest) =
    IsAnswer user account added rows r a × IsAnswered user account added rows rs rest
IsAnswered user account added rows _ _ = ⊥

-- The ids of the added rows, the oldest first.
abbrev pub added_ids : List Transaction → List ℕ
added_ids [] = []
added_ids (t ∷ ts) = added_ids ts ++ (t.id ∷ [])

-- Each added row is of the statement, the user and the account, and no older row agrees with it.
abbrev pub AreNew : (user account statement : ℕ) (added rows : List Transaction) → Type 0
AreNew user account statement [] rows = Unit
AreNew user account statement (t ∷ ts) rows =
    (t.user ≡ user)
    × (t.account ≡ account)
    × (t.statement ≡ some statement)
    × (is_duplicate user account t.transaction_date t.amount t.merchant_raw t.transaction_type
          (ts ++ rows)
        ≡ false)
    × AreNew user account statement ts rows

IsIn-last : (t : Transaction) (ts : List Transaction) → IsIn t (ts ++ (t ∷ []))
IsIn-last t [] = inl refl
IsIn-last t (u ∷ us) = inr (IsIn-last t us)

IsIn-before : (t : Transaction) (ts us : List Transaction) → IsIn t ts → IsIn t (ts ++ us)
IsIn-before t [] us here = elim here [ ]
IsIn-before t (u ∷ ts) us (inl same) = inl same
IsIn-before t (u ∷ ts) us (inr later) = inr (IsIn-before t ts us later)

IsIn-behind : (t : Transaction) (ts us : List Transaction) → IsIn t us → IsIn t (ts ++ us)
IsIn-behind t [] us here = here
IsIn-behind t (u ∷ ts) us here = inr (IsIn-behind t ts us here)

added_ids-append :
    (ts : List Transaction) (t : Transaction) → added_ids (ts ++ (t ∷ [])) ≡ t.id ∷ added_ids ts
added_ids-append [] t = refl
added_ids-append (u ∷ ts) t = ap (λ ids. ids ++ (u.id ∷ [])) (added_ids-append ts t)

first_match-IsIn :
    (user account date : ℕ) (amount : ℤ) (merchant_raw transaction_type : Option Text)
    (rows : List Transaction) (e : Transaction)
    → first_match user account date amount merchant_raw transaction_type rows ≡ some e
    → IsIn e rows × (is_match user account date amount merchant_raw transaction_type e ≡ true)
unfolding first_match
first_match-IsIn user account date amount merchant_raw transaction_type [] e found =
    absurd (ground (arith, found))
first_match-IsIn user account date amount merchant_raw transaction_type (t ∷ ts) e found =
    elim (Bool-cases (is_match user account date amount merchant_raw transaction_type t)) [
      | inl here ↦
          let same : t ≡ e = grind (arith, found, here) in
          (
            inl same,
            subst
                (λ (x : Transaction).
                  is_match user account date amount merchant_raw transaction_type x ≡ true)
                same here,
          )
      | inr later ↦
          let (listed, matches) =
            first_match-IsIn user account date amount merchant_raw transaction_type ts e
              (grind (arith, found, later)) in
          (inr listed, matches)
    ]

module _ (user account statement : ℕ) (t : Transaction) (rows : List Transaction) where
  -- With one more row that was added first.
  IsAnswered-older :
      (added : List Transaction) (rs : List Row) (results : List Resolved)
      → IsAnswered user account added (t ∷ rows) rs results
      → IsAnswered user account (added ++ (t ∷ [])) rows rs results
  IsAnswered-older added [] [] answered = tt
  IsAnswered-older added [] (a ∷ rest) answered = answered
  IsAnswered-older added (r ∷ rs) [] answered = answered
  IsAnswered-older added (r ∷ rs) (a ∷ rest)
        ((date, merchant, amount, (x, agrees, how)), answered) =
      (
        (
          date,
          merchant,
          amount,
          (
            x,
            agrees,
            elim how [
              | inl (listed, stored, single) ↦
                  inl (IsIn-before x added (t ∷ []) listed, stored, single)
              | inr (listed, single, original) ↦
                  inr (
                    subst (IsIn x) (sym (append_assoc added (t ∷ []) rows)) listed,
                    single,
                    original,
                  )
            ],
          ),
        ),
        IsAnswered-older added rs rest answered,
      )

  AreNew-older :
      (added : List Transaction)
      → (t.user ≡ user)
        × (t.account ≡ account)
        × (t.statement ≡ some statement)
        × (is_duplicate user account t.transaction_date t.amount t.merchant_raw t.transaction_type
              rows
            ≡ false)
      → AreNew user account statement added (t ∷ rows)
      → AreNew user account statement (added ++ (t ∷ [])) rows
  AreNew-older [] (by, on, of', new) none' = (by, on, of', new, tt)
  AreNew-older (u ∷ added) first (by, on, of', new, rest) = (
    by,
    on,
    of',
    subst
        (λ ledger.
          is_duplicate user account u.transaction_date u.amount u.merchant_raw u.transaction_type
            ledger
          ≡ false)
        (sym (append_assoc added (t ∷ []) rows)) new,
    AreNew-older added first rest,
  )

module _ (env : Environment) (user account statement : ℕ) where
  -- What the loop has done: the ledger has the added rows on top, and the answer says so.
  abbrev pub IsLogged :
      (rows : List Transaction) → List Row → List Resolved × List Transaction → Type 0
  IsLogged rows rs (results, ledger) =
      (added : List Transaction) × (ledger ≡ added ++ rows)
      × (new_ids results ≡ added_ids added)
      × AreNew user account statement added rows
      × IsAnswered user account added rows rs results

  step-IsLogged :
      (n : ℕ) (r : Row) (rs : List Row) (rows : List Transaction)
      (later : List Resolved × List Transaction)
      → (let (a, rows') = step env user account statement n r rows in
          IsLogged rows' rs later → IsLogged rows (r ∷ rs) (a ∷ later.0, later.1))
  unfolding resolve_row new_ids new_transaction
  step-IsLogged n r rs rows later =
      elim (Option-cases (match_of env user account statement r rows)) [
        | inl new ↦
            let t = new_transaction env user account statement n r in
            let fresh : is_duplicate user account t.transaction_date t.amount t.merchant_raw
                  t.transaction_type rows
                ≡ false =
              duplicate-match env user account statement r rows ∙ ap is_some new in
            rw new λ logged.
              let (added, grown, ids, news, answered) = logged in
              (
                added ++ (t ∷ []),
                grown ∙ sym (append_assoc added (t ∷ []) rows),
                ap (λ rest. t.id ∷ rest) ids ∙ sym (added_ids-append added t),
                AreNew-older user account statement t rows added (refl, refl, refl, fresh) news,
                (
                  (refl, refl, refl, (t, is_match_self t, inl (IsIn-last t added, refl, refl))),
                  IsAnswered-older user account statement t rows added rs later.0 answered,
                ),
              )
        | inr (e, known) ↦
            let (listed, matches) =
              first_match-IsIn user account r.transaction_date r.amount r.merchant_raw
                r.transaction_type rows e known in
            rw known λ logged.
              let (added, grown, ids, news, answered) = logged in
              (
                added,
                grown,
                ids,
                news,
                (
                  (
                    refl,
                    refl,
                    refl,
                    (e, matches, inr (IsIn-behind e added rows listed, refl, refl)),
                  ),
                  answered,
                ),
              )
      ]

  pub resolve_rows-IsLogged :
      (rs : List Row) (n : ℕ) (rows : List Transaction)
      → IsLogged rows rs (resolve_rows env user account statement n rs rows)
  unfolding resolve_rows new_ids
  resolve_rows-IsLogged [] n rows = ([], refl, refl, tt, tt)
  resolve_rows-IsLogged (r ∷ rs) n rows =
      let rows' = (step env user account statement n r rows).1 in
      step-IsLogged n r rs rows (resolve_rows env user account statement (suc n) rs rows')
        (resolve_rows-IsLogged rs (suc n) rows')
