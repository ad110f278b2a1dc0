-- ===== src/Mockbank/Simulate.antt =====
-- mock-bank-sync/app/routes_simulate.py. The random choices, the fresh ids and the outcome of the push
-- to the webhook are arguments; a body has passed its model, and its amount is as the column rounds it.
use nbe_financial_advisor_ba.Prelude.{
  ℕ, zero, suc, Bool, true, false, Option, none, some, List, [], ◌∷◌, ◌++◌, map, ◌||◌, ◌==◌,
  is_some, if◌then◌else◌,
}
use nbe_financial_advisor_ba.Prelude.Text.{Text, codes, text_eq}
use nbe_financial_advisor_ba.Prelude.Int.{ℤ}
use nbe_financial_advisor_ba.Mockbank.Model.{
  Customer, Account, Transaction, Tables, AccountView, TransactionView, serialize_account,
  serialize_transaction, accounts_of,
}
use nbe_financial_advisor_ba.Mockbank.Access.{Reply, missing, conflict, ok, find_customer}

-- `SimulateAccountRequest`
pub record AccountSpec : Type 0 where
  pub bank_name : Option Text
  pub account_type : Option Text
  pub account_number : Option Text
  pub currency : Option Text

-- `SimulateCustomerRequest`; an absent list and an empty one are the same.
pub record CustomerSpec : Type 0 where
  pub customer_bank_id : Text
  pub email : Text
  pub phone : Text
  pub name : Option Text
  pub accounts : List AccountSpec

-- `SimulateTransactionRequest`
pub record TransactionSpec : Type 0 where
  pub account_id : Option Text
  pub amount : Option ℤ
  pub merchant : Option Text
  pub transaction_type : Option Text
  pub transaction_date : Option ℕ

-- `value or default`
unfoldable pub or_text : Option Text → Text → Text
or_text none d = d
or_text (some []) d = d
or_text (some (c ∷ s)) d = c ∷ s

abbrev pub default_spec : AccountSpec
default_spec = record {
  bank_name = none;
  account_type = none;
  account_number = none;
  currency = none;
}

-- The new account of a specification, with its id and its generated number.
unfoldable pub account_for : (customer : ℕ) → (ℕ × Text) → AccountSpec → Account
account_for customer (id, number) spec = record {
  id = id;
  customer_id = customer;
  bank_name = or_text spec.bank_name (codes "Mock National Bank");
  account_type = some (or_text spec.account_type (codes "checking"));
  account_number = some (or_text spec.account_number number);
  currency = or_text spec.currency (codes "EGP");
}

-- `body.accounts or [SimulateAccountRequest()]`
abbrev pub specs_of : List AccountSpec → List AccountSpec
specs_of [] = default_spec ∷ []
specs_of (spec ∷ specs) = spec ∷ specs

abbrev pub customer_for : (id : ℕ) → CustomerSpec → Customer
customer_for id body = record {
  id = id;
  customer_bank_id = body.customer_bank_id;
  email = body.email;
  phone = body.phone;
  name = body.name;
}

module _ (random : ℕ → ℕ × Text) where
  -- The loop over the specifications, the n-th of which takes the n-th random choice.
  unfoldable pub new_accounts : (customer n : ℕ) → List AccountSpec → List Account
  new_accounts customer n [] = []
  new_accounts customer n (spec ∷ specs) =
      account_for customer (random n) spec ∷ new_accounts customer (suc n) specs

  -- `simulate_customer`; the reply shows the customer and the accounts.
  unfoldable pub simulate_customer :
      (fresh : ℕ) → CustomerSpec → Tables → Reply (Customer × List AccountView) × Tables
  simulate_customer fresh body tables =
      let accounts = new_accounts fresh 0 (specs_of body.accounts) in
      let c = customer_for fresh body in
      if is_some (find_customer body.customer_bank_id tables.customers)
      then (conflict, tables)
      else (
        ok (c, map serialize_account accounts),
        record tables {
          customers = tables.customers ++ (c ∷ []);
          accounts = tables.accounts ++ accounts;
        },
      )

unfoldable pub drop_customer : (id : ℕ) → List Customer → List Customer
drop_customer id [] = []
drop_customer id (c ∷ rest) =
    let others = drop_customer id rest in if c.id == id then others else c ∷ others

unfoldable pub drop_accounts : (customer : ℕ) → List Account → List Account
drop_accounts customer [] = []
drop_accounts customer (a ∷ rest) =
    let others = drop_accounts customer rest in
    if a.customer_id == customer then others else a ∷ others

unfoldable pub has_account : (id : ℕ) → List Account → Bool
has_account id [] = false
has_account id (a ∷ rest) = (a.id == id) || has_account id rest

-- The transactions that are left when the accounts are gone.
unfoldable pub drop_transactions : (gone : List Account) → List Transaction → List Transaction
drop_transactions gone [] = []
drop_transactions gone (t ∷ rest) =
    let others = drop_transactions gone rest in
    if has_account t.account_id gone then others else t ∷ others

unfoldable pub remove_customer : Tables → Option Customer → Bool × Tables
remove_customer tables none = (false, tables)
remove_customer tables (some c) = (
  true,
  record {
    customers = drop_customer c.id tables.customers;
    accounts = drop_accounts c.id tables.accounts;
    transactions = drop_transactions (accounts_of c.id tables.accounts) tables.transactions;
  },
)

-- `delete_simulated_customer`, with its cascades: whether the customer was found
unfoldable pub delete_simulated_customer : (customer_bank_id : Text) → Tables → Bool × Tables
delete_simulated_customer bank_id tables =
    remove_customer tables (find_customer bank_id tables.customers)

-- The random choices of `simulate_transaction`, and the clock; `candidate` is the index of the account
-- that is chosen.
pub record Chance : Type 0 where
  pub id : ℕ
  pub candidate : ℕ
  pub transaction_type : Text
  pub income_merchant : Text
  pub expense_merchant : Text
  pub amount : ℤ
  pub now : ℕ

-- What is pushed to the webhook.
pub record WebhookPayload : Type 0 where
  pub external_account_id : ℕ
  pub external_customer_id : ℕ
  pub transactions : List TransactionView

unfoldable pub account_by_id : Option ℕ → List Account → Option Account
account_by_id none accounts = none
account_by_id (some id) [] = none
account_by_id (some id) (a ∷ rest) = if a.id == id then some a else account_by_id (some id) rest

abbrev pub or_else {ℓ} : {A : Type ℓ} → Option A → A → A
or_else none d = d
or_else (some a) d = a

-- `random.choice(candidates)`
unfoldable pub choice : (n : ℕ) → List Account → Option Account
choice n [] = none
choice zero (a ∷ rest) = some a
choice (suc n) (a ∷ rest) = choice n rest

module _ (parse_uuid : Text → Option ℕ) (chance : Chance) where
  -- The target: the named account, or one at random.
  unfoldable pub target_account : Option Text → List Account → Option Account
  target_account none accounts = choice chance.candidate accounts
  target_account (some []) accounts = choice chance.candidate accounts
  target_account (some (c ∷ id)) accounts = account_by_id (parse_uuid (c ∷ id)) accounts

  unfoldable pub new_transaction : TransactionSpec → Account → Transaction
  new_transaction body a =
      let kind = or_text body.transaction_type chance.transaction_type in
      record {
        id = chance.id;
        account_id = a.id;
        transaction_date = or_else body.transaction_date chance.now;
        merchant = some (
            or_text body.merchant (
              if text_eq kind (codes "credit")
              then chance.income_merchant
              else chance.expense_merchant));
        amount = or_else body.amount chance.amount;
        transaction_type = some kind;
        balance = none;
      }

  unfoldable pub on_target :
      TransactionSpec → Tables → Option Account → Reply (TransactionView × WebhookPayload) × Tables
  on_target body tables none = (missing, tables)
  on_target body tables (some a) =
      let t = new_transaction body a in
      let shown = serialize_transaction a.currency t in
      let payload : WebhookPayload = record {
        external_account_id = a.id;
        external_customer_id = a.customer_id;
        transactions = shown ∷ [];
      } in
      (ok (shown, payload), record tables { transactions = tables.transactions ++ (t ∷ []) })

  -- `simulate_transaction` up to the delivery, whose outcome is only reported.
  unfoldable pub simulate_transaction :
      TransactionSpec → Tables → Reply (TransactionView × WebhookPayload) × Tables
  simulate_transaction body tables =
      on_target body tables (target_account body.account_id tables.accounts)
