-- ===== src/Mockbank/Scoped.antt =====
-- What a customer of the mock bank can tell apart: `require_customer` in front of the routes.
use nbe_financial_advisor_ba.Prelude.{
  ℕ, ◌≡◌, refl, sym, ap, ◌∙◌, inl, inr, true, Option, none, some, List, [], ◌∷◌, map, ◌&&◌, ◌==◌,
  if◌then◌else◌, arith, ==_iff, Bool-cases, Option-cases,
}
use nbe_financial_advisor_ba.Prelude.Text.{Text}
use nbe_financial_advisor_ba.Mockbank.Model.{
  Account, Transaction, Tables, TransactionView, serialize_account, serialize_transaction,
  accounts_of, transactions_of, order_by_date,
}
use nbe_financial_advisor_ba.Mockbank.Access.{
  Reply, unauthorized, forbidden, missing, conflict, ok, Env, require_customer, as_customer,
  list_accounts, find_account, since_date, show_transactions, on_account, list_transactions,
}
use nbe_financial_advisor_ba.Mockbank.Simulate.{has_account}

-- The transactions on the accounts.
unfoldable pub transactions_on : List Account → List Transaction → List Transaction
transactions_on as' [] = []
transactions_on as' (t ∷ rest) =
    let others = transactions_on as' rest in
    if has_account t.account_id as' then t ∷ others else others

-- The rows of a customer.
abbrev pub rows_of : (customer : ℕ) → Tables → List Account × List Transaction
rows_of customer tables = (
  accounts_of customer tables.accounts,
  transactions_on (accounts_of customer tables.accounts) tables.transactions,
)

-- An account of the customer is found among the customer's own.
find_account-accounts_of :
    (customer id : ℕ) (as' : List Account)
    → find_account customer id as' ≡ find_account customer id (accounts_of customer as')
unfolding find_account accounts_of
find_account-accounts_of customer id [] = refl
find_account-accounts_of customer id (a ∷ as') = elim (Bool-cases (a.customer_id == customer)) [
  | inl own ↦ rw (own) (grind (arith, own, find_account-accounts_of customer id as'))
  | inr other ↦ rw (other) (grind (arith, other, find_account-accounts_of customer id as'))
]

find_account-has_account :
    (customer id : ℕ) (as' : List Account) (a : Account)
    → find_account customer id as' ≡ some a
    → has_account a.id as' ≡ true
unfolding find_account has_account
find_account-has_account customer id [] a found = absurd (ground (arith, found))
find_account-has_account customer id (b ∷ as') a found =
    elim (Bool-cases ((b.id == id) && (b.customer_id == customer))) [
      | inl here ↦ grind (arith, found, here)
      | inr later ↦
          let rest = find_account-has_account customer id as' a (grind (arith, found, later)) in
          ground (arith, rest)
    ]

-- The transactions of one of the accounts are among those on the accounts.
transactions_of-transactions_on :
    (as' : List Account) (id : ℕ) (ts : List Transaction) (own : has_account id as' ≡ true)
    → transactions_of id ts ≡ transactions_of id (transactions_on as' ts)
unfolding transactions_of transactions_on
transactions_of-transactions_on as' id [] own = refl
transactions_of-transactions_on as' id (t ∷ ts) own =
    let rest = transactions_of-transactions_on as' id ts own in
    elim (Bool-cases (t.account_id == id)) [
      | inl mine ↦
          let same : t.account_id ≡ id = (==_iff t.account_id id).0 mine in
          let listed = ap (λ (x : ℕ). has_account x as') same ∙ own in
          rw (mine, listed) (rw (mine) (ap (λ (us : List Transaction). t ∷ us) rest))
      | inr other ↦ elim (Bool-cases (has_account t.account_id as')) [
        | inl listed ↦ rw (other, listed) (rw (other) rest)
        | inr unlisted ↦ rw (other, unlisted) rest
      ]
    ]

show_transactions-own :
    (customer id : ℕ) (since : Option ℕ) (tables : Tables) (found : Option Account)
    → ((a : Account)
        → found ≡ some a
        → has_account a.id (accounts_of customer tables.accounts) ≡ true)
    → show_transactions since tables.transactions found
      ≡ show_transactions since (rows_of customer tables).1 found
unfolding show_transactions
show_transactions-own customer id since tables none listed = refl
show_transactions-own customer id since tables (some a) listed =
    ap
      (λ (ts : List Transaction).
        ok (map (serialize_transaction a.currency) (order_by_date (since_date since ts))))
      (transactions_of-transactions_on (accounts_of customer tables.accounts) a.id
        tables.transactions (listed a refl))

-- The reply on an account, from the rows of the customer alone.
on_account-own :
    (customer id : ℕ) (since : Option ℕ) (tables : Tables)
    → on_account customer since tables (some id)
      ≡ show_transactions since
          (rows_of customer tables).1
          (find_account customer id (rows_of customer tables).0)
unfolding on_account
on_account-own customer id since tables =
    rw (find_account-accounts_of customer id tables.accounts) (
      show_transactions-own customer id since tables
        (find_account customer id (accounts_of customer tables.accounts))
        (find_account-has_account customer id (accounts_of customer tables.accounts)))

module _ (env : Env) where
  pub as_customer-ok :
      {A : Type 0} (r : Reply Text) (f : ℕ → Reply A) (customer : ℕ)
      → as_customer env r (λ c. ok c) ≡ ok customer
      → as_customer env r f ≡ f customer
  unfolding as_customer
  as_customer-ok unauthorized f customer named = absurd (grind (arith, named))
  as_customer-ok forbidden f customer named = absurd (grind (arith, named))
  as_customer-ok missing f customer named = absurd (grind (arith, named))
  as_customer-ok conflict f customer named = absurd (grind (arith, named))
  as_customer-ok (ok sub) f customer named = elim (Option-cases (env.parse_uuid sub)) [
    | inl broken ↦ absurd (grind (arith, named, broken))
    | inr (c, parsed) ↦
        let same : c ≡ customer = grind (arith, named, parsed) in rw (parsed) (ap f same)
  ]

  -- The customer that a request is made by.
  abbrev pub IsBy : Option Text → ℕ → Type 0
  IsBy authorization customer =
      as_customer env (require_customer env authorization) (λ c. ok c) ≡ ok customer

  abbrev own_reply :
      (customer : ℕ) (since : Option ℕ)
      → Option ℕ
      → List Account × List Transaction
      → Reply (List TransactionView)
  own_reply customer since none rows = missing
  own_reply customer since (some id) rows =
      show_transactions since rows.1 (find_account customer id rows.0)

  on_account-own_reply :
      (customer : ℕ) (since : Option ℕ) (tables : Tables) (id : Option ℕ)
      → on_account customer since tables id ≡ own_reply customer since id (rows_of customer tables)
  unfolding on_account
  on_account-own_reply customer since tables none = refl
  on_account-own_reply customer since tables (some id) = on_account-own customer id since tables

  list_accounts-rows_of :
      (authorization : Option Text) (customer : ℕ) (by : IsBy authorization customer)
      (tables : Tables)
      → list_accounts env authorization tables
        ≡ ok (map serialize_account (rows_of customer tables).0)
  unfolding list_accounts
  list_accounts-rows_of authorization customer by tables =
      as_customer-ok (require_customer env authorization)
        (λ c. ok (map serialize_account (accounts_of c tables.accounts))) customer by

  list_transactions-rows_of :
      (authorization : Option Text) (customer : ℕ) (by : IsBy authorization customer)
      (tables : Tables) (account_id : Text) (since : Option ℕ)
      → list_transactions env authorization account_id since tables
        ≡ own_reply customer since (env.parse_uuid account_id) (rows_of customer tables)
  unfolding list_transactions
  list_transactions-rows_of authorization customer by tables account_id since =
      as_customer-ok (require_customer env authorization)
        (λ c. on_account c since tables (env.parse_uuid account_id)) customer by
      ∙ on_account-own_reply customer since tables (env.parse_uuid account_id)

  -- If two ledgers have the same accounts of a customer and the same transactions on them, then the
  -- routes reply to that customer the same on both, whatever account is asked for: an account
  -- of somebody else cannot be told from one that does not exist.
  pub replies_own_rows :
      (authorization : Option Text) (customer : ℕ) (by : IsBy authorization customer)
      (tables tables' : Tables) (same : rows_of customer tables ≡ rows_of customer tables')
      (account_id : Text) (since : Option ℕ)
      → (list_accounts env authorization tables ≡ list_accounts env authorization tables')
        × (list_transactions env authorization account_id since tables
            ≡ list_transactions env authorization account_id since tables')
  replies_own_rows authorization customer by tables tables' same account_id since = (
    list_accounts-rows_of authorization customer by tables
        ∙ ap (λ (rows : List Account × List Transaction). ok (map serialize_account rows.0)) same
        ∙ sym (list_accounts-rows_of authorization customer by tables'),
    list_transactions-rows_of authorization customer by tables account_id since
        ∙ ap (own_reply customer since (env.parse_uuid account_id)) same
        ∙ sym (list_transactions-rows_of authorization customer by tables' account_id since),
  )
