-- ===== src/Mockbank/Model.antt =====
-- The tables of mock-bank-sync/app/models.py. A UUID is a number, an amount a number of hundredths, a
-- time a number of microseconds in UTC.
use nbe_financial_advisor_ba.Prelude.{ℕ, ◌/◌, Option, List, [], ◌∷◌, leb, ◌==◌, if◌then◌else◌}
use nbe_financial_advisor_ba.Prelude.Text.{Text}
use nbe_financial_advisor_ba.Prelude.Int.{ℤ}

pub record Customer : Type 0 where
  pub id : ℕ
  pub customer_bank_id : Text
  pub email : Text
  pub phone : Text
  pub name : Option Text

pub record Account : Type 0 where
  pub id : ℕ
  pub customer_id : ℕ
  pub bank_name : Text
  pub account_type : Option Text
  pub account_number : Option Text
  pub currency : Text

pub record Transaction : Type 0 where
  pub id : ℕ
  pub account_id : ℕ
  pub transaction_date : ℕ
  pub merchant : Option Text
  pub amount : ℤ
  pub transaction_type : Option Text
  pub balance : Option ℤ

pub record Tables : Type 0 where
  pub customers : List Customer
  pub accounts : List Account
  pub transactions : List Transaction

-- `_serialize_account`
pub record AccountView : Type 0 where
  pub external_account_id : ℕ
  pub bank_name : Text
  pub account_type : Option Text
  pub account_number : Option Text
  pub currency : Text

unfoldable pub serialize_account : Account → AccountView
serialize_account a = record {
  external_account_id = a.id;
  bank_name = a.bank_name;
  account_type = a.account_type;
  account_number = a.account_number;
  currency = a.currency;
}

-- `_serialize_transaction`; the date is the number of its day.
pub record TransactionView : Type 0 where
  pub external_transaction_id : ℕ
  pub transaction_date : ℕ
  pub merchant_raw : Option Text
  pub amount : ℤ
  pub transaction_type : Option Text
  pub currency : Text
  pub balance : Option ℤ

unfoldable pub serialize_transaction : (currency : Text) → Transaction → TransactionView
serialize_transaction currency t = record {
  external_transaction_id = t.id;
  transaction_date = t.transaction_date / 86400000000;
  merchant_raw = t.merchant;
  amount = t.amount;
  transaction_type = t.transaction_type;
  currency = currency;
  balance = t.balance;
}

-- `.filter(MockAccount.customer_id == customer)`
unfoldable pub accounts_of : (customer : ℕ) → List Account → List Account
accounts_of customer [] = []
accounts_of customer (a ∷ rest) =
    let others = accounts_of customer rest in
    if a.customer_id == customer then a ∷ others else others

-- `.filter(MockTransaction.account_id == account)`
unfoldable pub transactions_of : (account : ℕ) → List Transaction → List Transaction
transactions_of account [] = []
transactions_of account (t ∷ rest) =
    let others = transactions_of account rest in
    if t.account_id == account then t ∷ others else others

-- `.order_by(MockTransaction.transaction_date)`; equal times keep the order of the table.
unfoldable pub insert_by_date : Transaction → List Transaction → List Transaction
insert_by_date t [] = t ∷ []
insert_by_date t (u ∷ rest) =
    let later = insert_by_date t rest in
    if leb t.transaction_date u.transaction_date then t ∷ u ∷ rest else u ∷ later

unfoldable pub order_by_date : List Transaction → List Transaction
order_by_date [] = []
order_by_date (t ∷ rest) = insert_by_date t (order_by_date rest)

-- `query.filter(MockTransaction.transaction_date >= since)`
unfoldable pub from_date : ℕ → List Transaction → List Transaction
from_date since [] = []
from_date since (t ∷ rest) =
    let later = from_date since rest in if leb since t.transaction_date then t ∷ later else later
