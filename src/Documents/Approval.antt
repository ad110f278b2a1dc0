-- ===== src/Documents/Approval.antt =====
-- `StatementTransactionApprovalView.post` of core/views/statements.py, with the truncation of
-- core/serializers/statements.py and the guard of core/views/profile.py. The rows are those of a valid
-- request. `stamp` gives the id and the instant of the n-th row; `raised` is an exception that the
-- view lets through. An `AIServiceError` of the embedding call is passed over, so only the call itself
-- is in the answer.
use nbe_financial_advisor_ba.Prelude.{
  ℕ, zero, suc, Bool, true, false, Option, none, some, List, [], ◌∷◌, ◌&&◌, ◌==◌, if◌then◌else◌,
}
use nbe_financial_advisor_ba.Prelude.Text.{Text, codes}
use nbe_financial_advisor_ba.Prelude.Int.{ℤ}
use nbe_financial_advisor_ba.Categories.Model.{Category, resolve_category}
use nbe_financial_advisor_ba.Statements.Model.{Status, normalized, approved}
use nbe_financial_advisor_ba.Bank.Model.{Transaction, is_match}
use nbe_financial_advisor_ba.Bank.Accounts.{BankAccount, is_manual}
use nbe_financial_advisor_ba.Documents.Model.{StatementFile, Tables, get_file, save_file}

-- One row of the submitted batch.
pub record Row : Type 0 where
  pub transaction_date : ℕ
  pub merchant_raw : Option Text
  pub category : Option Text
  pub amount : ℤ
  pub transaction_type : Option Text
  pub balance : Option ℤ
  pub merchant_normalized : Option Text
  pub extra_fields : Option Text

abbrev pub take {ℓ} : {A : Type ℓ} → ℕ → List A → List A
take zero xs = []
take (suc n) [] = []
take (suc n) (x ∷ xs) = x ∷ take n xs

-- `validate_merchant_raw`
unfoldable pub validate_merchant_raw : Option Text → Option Text
validate_merchant_raw none = none
validate_merchant_raw (some s) = some (take 1024 s)

abbrev pub validated : Row → Row
validated r = record r { merchant_raw = validate_merchant_raw r.merchant_raw }

-- One row of the response.
pub record Resolved : Type 0 where
  pub transaction_date : ℕ
  pub merchant_raw : Option Text
  pub amount : ℤ
  pub transaction_id : Option ℕ
  pub duplicate_of : Option ℕ

pub data Reply : Type 0 where
  not_found invalid_status_transition synced_account_read_only raised : Reply
  resolved : List Resolved → (embedded : List ℕ) → Reply

pub record Environment : Type 0 where
  pub unicode_lower : Text → Text
  pub categories : List Category
  pub stamp : ℕ → ℕ × ℕ

-- `Transaction.objects.filter(...).first()`
unfoldable pub first_match :
    (user account date : ℕ) (amount : ℤ) (merchant_raw transaction_type : Option Text)
    → List Transaction
    → Option Transaction
first_match user account date amount merchant_raw transaction_type [] = none
first_match user account date amount merchant_raw transaction_type (t ∷ ts) =
    if is_match user account date amount merchant_raw transaction_type t
    then some t
    else first_match user account date amount merchant_raw transaction_type ts

-- `get_object_or_404(BankAccount, id=account_id, user=request.user)`
unfoldable pub get_account : (id user : ℕ) → List BankAccount → Option BankAccount
get_account id user [] = none
get_account id user (a ∷ rest) =
    if (a.id == id) && (a.user == user) then some a else get_account id user rest

-- The account that a foreign key points to.
unfoldable pub find_account : (id : ℕ) → List BankAccount → Option BankAccount
find_account id [] = none
find_account id (a ∷ rest) = if a.id == id then some a else find_account id rest

abbrev pub is_normalized : Status → Bool
is_normalized normalized = true
is_normalized _ = false

module _ (env : Environment) (user account statement : ℕ) where
  abbrev pub match_of : Row → List Transaction → Option Transaction
  match_of r rows =
      first_match user account r.transaction_date r.amount r.merchant_raw r.transaction_type rows

  -- `Transaction.objects.create`; the currency is the column's default.
  unfoldable pub new_transaction : (n : ℕ) → Row → Transaction
  new_transaction n r = record {
    id = (env.stamp n).0;
    user = user;
    account = account;
    statement = some statement;
    transaction_date = r.transaction_date;
    merchant_raw = r.merchant_raw;
    merchant_normalized = r.merchant_normalized;
    category = resolve_category env.unicode_lower env.categories r.category r.transaction_type;
    amount = r.amount;
    currency = codes "EGP";
    source = codes "statement";
    balance = r.balance;
    transaction_type = r.transaction_type;
    extra_fields = r.extra_fields;
    created_at = (env.stamp n).1;
  }

  abbrev pub resolution : Row → (transaction_id duplicate_of : Option ℕ) → Resolved
  resolution r transaction_id duplicate_of = record {
    transaction_date = r.transaction_date;
    merchant_raw = r.merchant_raw;
    amount = r.amount;
    transaction_id = transaction_id;
    duplicate_of = duplicate_of;
  }

  -- One row of the loop; `n` counts the rows so far.
  unfoldable pub resolve_row :
      (n : ℕ) → Row → Option Transaction → List Transaction → Resolved × List Transaction
  resolve_row n r (some existing) rows = (resolution r none (some existing.id), rows)
  resolve_row n r none rows =
      let t = new_transaction n r in (resolution r (some t.id) none, t ∷ rows)

  -- The loop over the submitted rows.
  unfoldable pub resolve_rows :
      (n : ℕ) → List Row → List Transaction → List Resolved × List Transaction
  resolve_rows n [] rows = ([], rows)
  resolve_rows n (r ∷ rs) rows =
      let (result, rows') = resolve_row n r (match_of r rows) rows in
      let (results, rows'') = resolve_rows (suc n) rs rows' in (result ∷ results, rows'')

-- The ids of the new transactions.
unfoldable pub new_ids : List Resolved → List ℕ
new_ids [] = []
new_ids (r ∷ rs) =
    let rest = new_ids rs in elim r.transaction_id [ none ↦ rest | some id ↦ id ∷ rest ]

abbrev pub approved_file : StatementFile → StatementFile
approved_file f = record f {
  state = record f.state { status = approved; failure_reason = none; failed_phase = none };
}

abbrev pub with_account : ℕ → StatementFile → StatementFile
with_account account f = record f { state = record f.state { account = some account } }

module _ (env : Environment) (submitted : List Row) where
  -- The atomic block, and the embedding call.
  unfoldable pub commit : StatementFile → BankAccount → Tables → Reply × Tables
  commit f a db =
      let (results, rows) = resolve_rows env f.user a.id f.id 0 submitted db.transactions in
      (
        resolved results (new_ids results),
        record db { transactions = rows; files = save_file (approved_file f) db.files },
      )

  -- `assert_account_mutable(statement.account)`, which fails on None.
  unfoldable pub guarded : StatementFile → Option BankAccount → Tables → Reply × Tables
  guarded f none db = (raised, db)
  guarded f (some a) db =
      if is_manual a.link_type then commit f a db else (synced_account_read_only, db)

  -- The account of the statement's foreign key.
  abbrev pub account_of : StatementFile → List BankAccount → Option BankAccount
  account_of f accounts = elim f.state.account [ none ↦ none | some id ↦ find_account id accounts ]

  -- The account that the request names.
  unfoldable pub override : StatementFile → Option BankAccount → Tables → Reply × Tables
  override f none db = (not_found, db)
  override f (some a) db =
      let f' = with_account a.id f in
      guarded f' (some a) (record db { files = save_file f' db.files })

  unfoldable pub on_file :
      (user : ℕ) (account_id : Option ℕ) → Option StatementFile → Tables → Reply × Tables
  on_file user account_id none db = (not_found, db)
  on_file user none (some f) db =
      if is_normalized f.state.status
      then guarded f (account_of f db.accounts) db
      else (invalid_status_transition, db)
  on_file user (some id) (some f) db =
      if is_normalized f.state.status
      then override f (get_account id user db.accounts) db
      else (invalid_status_transition, db)

unfoldable pub map_rows : List Row → List Row
map_rows [] = []
map_rows (r ∷ rs) = validated r ∷ map_rows rs

-- `StatementTransactionApprovalView.post`
unfoldable pub approve :
    Environment
    → (user statement_id : ℕ) (account_id : Option ℕ) → List Row
    → Tables
    → Reply × Tables
approve env user statement_id account_id rows db =
    on_file env (map_rows rows) user account_id (get_file statement_id user db.files) db
