-- ===== src/Mockbank/Tests.antt =====
-- The mock bank on concrete input.
use nbe_financial_advisor_ba.Prelude.{
  ℕ, ◌-◌, ◌≡◌, refl, true, Option, none, some, List, [], ◌∷◌, if◌then◌else◌,
}
use nbe_financial_advisor_ba.Prelude.Text.{Text, codes, text_eq, strip, lstrip, is_space}
use nbe_financial_advisor_ba.Prelude.Int.{pos}
use nbe_financial_advisor_ba.Mockbank.Model.{
  Customer, Account, Transaction, Tables, TransactionView, serialize_transaction, accounts_of,
}
use nbe_financial_advisor_ba.Mockbank.Access.{
  conflict, ok, Env, after_scheme, subject_of, bearer, require_customer, as_customer, list_accounts,
  find_account, find_customer, list_transactions,
}
use nbe_financial_advisor_ba.Mockbank.Simulate.{
  CustomerSpec, TransactionSpec, WebhookPayload, account_for, new_accounts, simulate_customer,
  delete_simulated_customer, has_account, Chance, account_by_id, target_account, new_transaction,
  simulate_transaction,
}
use nbe_financial_advisor_ba.Mockbank.Scoped.{transactions_on, replies_own_rows}
use nbe_financial_advisor_ba.Mockbank.Seeded.{
  has_customer, has_account_of, has_transaction_on, seed_and_remove,
}
use nbe_financial_advisor_ba.Mockbank.Listed.{IsIn, simulated_is_listed}

-- An id of one digit.
abbrev digit_uuid : Text → Option ℕ
digit_uuid [] = none
digit_uuid (c ∷ []) = some (c - 48)
digit_uuid (c ∷ d ∷ s) = none

-- The token "a" is made out to customer 1.
abbrev env : Env
env = record {
  decode = λ token.
      if text_eq token (codes "a")
      then some (record { exp = some 900; subject = some (codes "1") })
      else none;
  parse_uuid = digit_uuid;
  internal_secret = codes "s";
  now = 500;
}

abbrev account_of : (id customer : ℕ) → Account
account_of id customer = record {
  id = id;
  customer_id = customer;
  bank_name = codes "Mock National Bank";
  account_type = none;
  account_number = none;
  currency = codes "EGP";
}

abbrev transaction_of : (id account : ℕ) → Transaction
transaction_of id account = record {
  id = id;
  account_id = account;
  transaction_date = 0;
  merchant = none;
  amount = pos 500;
  transaction_type = some (codes "debit");
  balance = none;
}

abbrev ada : Customer
ada = record {
  id = 1;
  customer_bank_id = codes "ada";
  email = codes "a@b";
  phone = codes "+201";
  name = none;
}

abbrev tables : Tables
tables = record {
  customers = ada ∷ [];
  accounts = account_of 4 1 ∷ account_of 5 2 ∷ [];
  transactions = transaction_of 8 4 ∷ transaction_of 9 5 ∷ [];
}

-- Without the account of customer 2.
abbrev own_tables : Tables
own_tables = record {
  customers = ada ∷ [];
  accounts = account_of 4 1 ∷ [];
  transactions = transaction_of 8 4 ∷ [];
}

replies_own_rows_example :
    (list_accounts env (some (codes "Bearer a")) tables
      ≡ list_accounts env (some (codes "Bearer a")) own_tables)
    × (list_transactions env (some (codes "Bearer a")) (codes "5") none tables
        ≡ list_transactions env (some (codes "Bearer a")) (codes "5") none own_tables)
unfolding require_customer after_scheme bearer subject_of strip lstrip is_space text_eq as_customer
    accounts_of transactions_on has_account
replies_own_rows_example =
    replies_own_rows env (some (codes "Bearer a")) 1 refl tables own_tables refl (codes "5") none

abbrev bob : CustomerSpec
bob = record {
  customer_bank_id = codes "bob";
  email = codes "b@b";
  phone = codes "+2012345678";
  name = none;
  accounts = [];
}

abbrev random : ℕ → ℕ × Text
random n = (6, codes "12345678901234567")

seed_and_remove_example :
    (let after = (simulate_customer random 3 bob tables).1 in
      (simulate_customer random 7 bob after ≡ (conflict, after))
      × (delete_simulated_customer (codes "bob") after ≡ (true, tables)))
unfolding find_customer text_eq has_customer has_account_of has_transaction_on new_accounts
    account_for has_account
seed_and_remove_example = seed_and_remove random random 3 7 bob bob tables refl refl refl refl refl

abbrev chance : Chance
chance = record {
  id = 11;
  candidate = 1;
  transaction_type = codes "credit";
  income_merchant = codes "Bank Transfer";
  expense_merchant = codes "Uber";
  amount = pos 12500;
  now = 86400000000;
}

abbrev on_four : TransactionSpec
on_four = record {
  account_id = some (codes "4");
  amount = none;
  merchant = none;
  transaction_type = none;
  transaction_date = none;
}

simulated_is_listed_example :
    (let t = new_transaction digit_uuid chance on_four (account_of 4 1) in
      let shown = serialize_transaction (codes "EGP") t in
      let payload : WebhookPayload = record {
        external_account_id = 4;
        external_customer_id = 1;
        transactions = shown ∷ [];
      } in
      let (answer, after) = simulate_transaction digit_uuid chance on_four tables in
      (answer ≡ ok (shown, payload))
      × ((views : List TransactionView) × (list_transactions env
              (some (codes "Bearer a"))
              (codes "4")
              none
              after
            ≡ ok views)
          × IsIn shown views))
unfolding target_account account_by_id require_customer after_scheme bearer subject_of strip lstrip
    is_space text_eq as_customer find_account
simulated_is_listed_example =
    simulated_is_listed env chance on_four tables (account_of 4 1) (some (codes "Bearer a"))
      (codes "4") refl refl refl refl
