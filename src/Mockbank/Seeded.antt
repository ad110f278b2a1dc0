-- ===== src/Mockbank/Seeded.antt =====
-- A seeded customer and its removal: mock-bank-sync/app/routes_simulate.py.
use nbe_financial_advisor_ba.Prelude.{
  ℕ, suc, ◌≡◌, refl, ap, inl, inr, Bool, true, false, none, some, List, [], ◌∷◌, ◌++◌, ◌||◌, ◌==◌,
  arith, Bool-cases,
}
use mathlib.Core.List.{append-nil}
use nbe_financial_advisor_ba.Prelude.Text.{Text, text_eq, text_eq_iff}
use nbe_financial_advisor_ba.Mockbank.Model.{Customer, Account, Transaction, Tables, accounts_of}
use nbe_financial_advisor_ba.Mockbank.Access.{conflict, find_customer}
use nbe_financial_advisor_ba.Mockbank.Simulate.{
  AccountSpec, CustomerSpec, account_for, specs_of, customer_for, new_accounts, simulate_customer,
  drop_customer, drop_accounts, has_account, drop_transactions, remove_customer,
  delete_simulated_customer,
}

unfoldable pub has_customer : (id : ℕ) → List Customer → Bool
has_customer id [] = false
has_customer id (c ∷ cs) = (c.id == id) || has_customer id cs

-- An account of the customer.
unfoldable pub has_account_of : (customer : ℕ) → List Account → Bool
has_account_of customer [] = false
has_account_of customer (a ∷ as') = (a.customer_id == customer) || has_account_of customer as'

-- A transaction on one of the accounts.
unfoldable pub has_transaction_on : List Account → List Transaction → Bool
has_transaction_on as' [] = false
has_transaction_on as' (t ∷ ts) = has_account t.account_id as' || has_transaction_on as' ts

find_customer-append :
    (bank_id : Text) (cs : List Customer) (c : Customer)
    → find_customer bank_id cs ≡ none
    → c.customer_bank_id ≡ bank_id
    → find_customer bank_id (cs ++ (c ∷ [])) ≡ some c
unfolding find_customer
find_customer-append bank_id [] c absent same =
    let equal = (text_eq_iff c.customer_bank_id bank_id).1 same in rw (equal) refl
find_customer-append bank_id (d ∷ cs) c absent same =
    elim (Bool-cases (text_eq d.customer_bank_id bank_id)) [
      | inl here ↦ absurd (grind (arith, absent, here))
      | inr later ↦
          rw (later) (find_customer-append bank_id cs c (grind (arith, absent, later)) same)
    ]

drop_customer-append :
    (cs : List Customer) (c : Customer)
    → has_customer c.id cs ≡ false
    → drop_customer c.id (cs ++ (c ∷ [])) ≡ cs
unfolding drop_customer has_customer
drop_customer-append [] c absent = grind arith
drop_customer-append (d ∷ cs) c absent =
    let rest = drop_customer-append cs c (ground (arith, absent)) in
    let other : (d.id == c.id) ≡ false = ground (arith, absent) in
    rw (other) (ap (λ (x : List Customer). d ∷ x) rest)

module _ (customer : ℕ) (random : ℕ → ℕ × Text) where
  drop_accounts-new :
      (n : ℕ) (specs : List AccountSpec)
      → drop_accounts customer (new_accounts random customer n specs) ≡ []
  unfolding drop_accounts new_accounts account_for
  drop_accounts-new n [] = refl
  drop_accounts-new n (spec ∷ specs) =
      let self : (customer == customer) ≡ true = ground arith in
      rw (self) (drop_accounts-new (suc n) specs)

  accounts_of-new :
      (n : ℕ) (specs : List AccountSpec)
      → accounts_of customer (new_accounts random customer n specs)
        ≡ new_accounts random customer n specs
  unfolding accounts_of new_accounts account_for
  accounts_of-new n [] = refl
  accounts_of-new n (spec ∷ specs) =
      let self : (customer == customer) ≡ true = ground arith in
      rw (self) (
        ap (λ (x : List Account). account_for customer (random n) spec ∷ x)
          (accounts_of-new (suc n) specs))

drop_accounts-append :
    (customer : ℕ) (as' bs : List Account)
    → has_account_of customer as' ≡ false
    → drop_accounts customer (as' ++ bs) ≡ as' ++ drop_accounts customer bs
unfolding drop_accounts has_account_of
drop_accounts-append customer [] bs absent = refl
drop_accounts-append customer (a ∷ as') bs absent =
    let rest = drop_accounts-append customer as' bs (ground (arith, absent)) in
    let other : (a.customer_id == customer) ≡ false = ground (arith, absent) in
    rw (other) (ap (λ (x : List Account). a ∷ x) rest)

accounts_of-append :
    (customer : ℕ) (as' bs : List Account)
    → has_account_of customer as' ≡ false
    → accounts_of customer (as' ++ bs) ≡ accounts_of customer bs
unfolding accounts_of has_account_of
accounts_of-append customer [] bs absent = refl
accounts_of-append customer (a ∷ as') bs absent =
    let rest = accounts_of-append customer as' bs (ground (arith, absent)) in
    let other : (a.customer_id == customer) ≡ false = ground (arith, absent) in rw (other) rest

drop_transactions_unused :
    (gone : List Account) (ts : List Transaction)
    → has_transaction_on gone ts ≡ false
    → drop_transactions gone ts ≡ ts
unfolding drop_transactions has_transaction_on
drop_transactions_unused gone [] unused = refl
drop_transactions_unused gone (t ∷ ts) unused =
    let rest = drop_transactions_unused gone ts (ground (arith, unused)) in
    let other : has_account t.account_id gone ≡ false = ground (arith, unused) in
    rw (other) (ap (λ (x : List Transaction). t ∷ x) rest)

-- If a bank id is not taken, and the fresh ids are not in use, then a seeded customer takes the bank id:
-- seeding it again is a conflict that changes nothing. Removing the customer gives back the tables as they were.
pub seed_and_remove :
    (random random' : ℕ → ℕ × Text) (fresh fresh' : ℕ) (body body' : CustomerSpec) (tables : Tables)
    (free : find_customer body.customer_bank_id tables.customers ≡ none)
    (unused : has_customer fresh tables.customers ≡ false)
    (unowned : has_account_of fresh tables.accounts ≡ false)
    (untouched : has_transaction_on
        (new_accounts random fresh 0 (specs_of body.accounts))
        tables.transactions
      ≡ false)
    (again : body'.customer_bank_id ≡ body.customer_bank_id)
    → (let after = (simulate_customer random fresh body tables).1 in
        (simulate_customer random' fresh' body' after ≡ (conflict, after))
        × (delete_simulated_customer body.customer_bank_id after ≡ (true, tables)))
unfolding simulate_customer delete_simulated_customer remove_customer
seed_and_remove random random' fresh fresh' body body' tables free unused unowned untouched again =
    let c = customer_for fresh body in
    let specs = specs_of body.accounts in
    let new = new_accounts random fresh 0 specs in
    let found = find_customer-append body.customer_bank_id tables.customers c free refl in
    rw (free) (
      rw (again, found) refl,
      rw
          (
            found,
            drop_customer-append tables.customers c unused,
            drop_accounts-append fresh tables.accounts new unowned,
            drop_accounts-new fresh random 0 specs,
            append-nil,
            accounts_of-append fresh tables.accounts new unowned,
            accounts_of-new fresh random 0 specs,
            drop_transactions_unused new tables.transactions untouched,
          )
          refl,
    )
