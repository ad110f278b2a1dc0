-- ===== src/Bank/Model.antt =====
-- core/models/profile/bank_account.py and core/models/aggregations/transaction.py: accounts, ledger
-- rows, and the two queries on the ledger. A table is the list of its rows; amounts and balances have
-- two decimal places and are counted in hundredths; dates are day numbers and instants ticks.
use nbe_financial_advisor_ba.Prelude.{
  ℕ, Bool, true, false, not, Option, none, some, List, [], ◌∷◌, ◌&&◌, ◌||◌, ltb, ◌==◌,
  if◌then◌else◌,
}
use nbe_financial_advisor_ba.Prelude.Text.{Text, codes, text_eq}
use nbe_financial_advisor_ba.Prelude.Int.{ℤ, pos, ◌+ℤ◌, ◌-ℤ◌, int_eq}
use nbe_financial_advisor_ba.Categories.Model.{Category}

pub record Transaction : Type 0 where
  pub id : ℕ
  pub user : ℕ
  pub account : ℕ
  pub statement : Option ℕ
  pub transaction_date : ℕ
  pub merchant_raw : Option Text
  pub merchant_normalized : Option Text
  pub category : Option Category
  pub amount : ℤ
  pub currency : Text
  pub source : Text
  pub balance : Option ℤ
  pub transaction_type : Option Text
  pub extra_fields : Option Text
  pub created_at : ℕ

-- Equality of two values of a column that may be NULL, as `filter(column=value)` tests it.
abbrev pub option_text_eq : Option Text → Option Text → Bool
option_text_eq none none = true
option_text_eq (some s) (some t) = text_eq s t
option_text_eq _ _ = false

-- The filter of `is_duplicate` on one row.
unfoldable pub is_match :
    (user account date : ℕ) (amount : ℤ) (merchant_raw transaction_type : Option Text)
    → Transaction
    → Bool
is_match user account date amount merchant_raw transaction_type t =
    (t.user == user)
    && (t.account == account)
    && (t.transaction_date == date)
    && int_eq t.amount amount
    && option_text_eq t.merchant_raw merchant_raw
    && option_text_eq t.transaction_type transaction_type

-- `Transaction.is_duplicate`
unfoldable pub is_duplicate :
    (user account date : ℕ) (amount : ℤ) (merchant_raw transaction_type : Option Text)
    → List Transaction
    → Bool
is_duplicate user account date amount merchant_raw transaction_type [] = false
is_duplicate user account date amount merchant_raw transaction_type (t ∷ ts) =
    is_match user account date amount merchant_raw transaction_type t
    || is_duplicate user account date amount merchant_raw transaction_type ts

-- A later date, or the same date and a later instant of creation.
abbrev pub is_newer : Transaction → Transaction → Bool
is_newer t u =
    ltb u.transaction_date t.transaction_date
    || ((t.transaction_date == u.transaction_date) && ltb u.created_at t.created_at)

unfoldable pub later : Transaction → Option Transaction → Option Transaction
later t none = some t
later t (some u) = if is_newer u t then some u else some t

unfoldable pub with_balance : Option ℤ → Transaction → Option Transaction → Option Transaction
unfolding later
with_balance none t rest = rest
with_balance (some _) t rest = later t rest

-- The first row with a balance, in the order of descending dates and instants.
unfoldable pub anchor : List Transaction → Option Transaction
unfolding with_balance
anchor [] = none
anchor (t ∷ ts) = with_balance t.balance t (anchor ts)

abbrev pub is_credit : Transaction → Bool
is_credit t = option_text_eq t.transaction_type (some (codes "credit"))

-- `movements` is the ledger without an anchor, and otherwise the rows newer than it.
abbrev pub is_movement : Option Transaction → Transaction → Bool
is_movement none t = true
is_movement (some a) t = is_newer t a

-- `Sum("amount", filter=Q(transaction_type="credit"))`, zero if there is no row
unfoldable pub credits : Option Transaction → List Transaction → ℤ
credits a [] = pos 0
credits a (t ∷ ts) =
    let rest = credits a ts in if is_movement a t && is_credit t then t.amount +ℤ rest else rest

-- The sum over the rows of any other direction, or of none.
unfoldable pub outflows : Option Transaction → List Transaction → ℤ
outflows a [] = pos 0
outflows a (t ∷ ts) =
    let rest = outflows a ts in
    if is_movement a t && not (is_credit t) then t.amount +ℤ rest else rest

abbrev pub stated_balance : Option ℤ → ℤ
stated_balance none = pos 0
stated_balance (some b) = b

abbrev pub base_balance : Option Transaction → ℤ
base_balance none = pos 0
base_balance (some a) = stated_balance a.balance

-- The balance of the anchor and the movements after it.
unfoldable pub balance_from : Option Transaction → List Transaction → ℤ
balance_from a ts = base_balance a +ℤ credits a ts -ℤ outflows a ts

-- `BankAccount.current_balance`, on the transactions of the account
unfoldable pub current_balance : List Transaction → ℤ
current_balance ts = balance_from (anchor ts) ts
