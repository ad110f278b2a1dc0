-- ===== src/Bank/Accounts.antt =====
-- services/bank_connectors/sync.py: `apply_synced_accounts`, on the tables of linked banks, accounts
-- and transactions. A foreign key with CASCADE is followed from accounts to transactions only.
use nbe_financial_advisor_ba.Prelude.{
  ℕ, Bool, true, false, Option, none, some, List, [], ◌∷◌, ◌++◌, ◌&&◌, ◌||◌, ◌==◌, if◌then◌else◌,
  length,
}
use nbe_financial_advisor_ba.Prelude.Text.{Text, codes}
use nbe_financial_advisor_ba.Bank.Model.{Transaction, option_text_eq}
use nbe_financial_advisor_ba.Bank.Ingest.{Entry}

-- `BankConnection.STATUS_CHOICES`
pub data Status : Type 0 where
  pending_otp linked revoked failed : Status

pub record Connection : Type 0 where
  pub id : ℕ
  pub user : ℕ
  pub provider_slug : Text
  pub status : Status
  pub external_customer_id : Option Text
  pub access_token : Option Text
  pub refresh_token : Option Text
  pub oauth_state : Option ℕ
  pub error_reason : Option Text
  pub linked_at : Option ℕ

pub data LinkType : Type 0 where
  manual synced : LinkType

pub record BankAccount : Type 0 where
  pub id : ℕ
  pub user : ℕ
  pub bank_name : Text
  pub account_type : Option Text
  pub account_number : Text
  pub currency : Text
  pub link_type : LinkType
  pub connection : Option ℕ
  pub external_account_id : Option Text

-- One account of `fetch_accounts`.
pub record RemoteAccount : Type 0 where
  pub external_account_id : Text
  pub bank_name : Text
  pub account_type : Option Text
  pub account_number : Text
  pub currency : Option Text

-- The tables, and the ingestion tasks that were queued: account ids with entries.
pub record Tables : Type 0 where
  pub connections : List Connection
  pub accounts : List BankAccount
  pub transactions : List Transaction
  pub queue : List (ℕ × List Entry)

abbrev pub is_manual : LinkType → Bool
is_manual manual = true
is_manual synced = false

abbrev pub option_eq : Option ℕ → ℕ → Bool
option_eq none n = false
option_eq (some m) n = m == n

-- `acct.get("currency", "EGP")`
abbrev or_egp : Option Text → Text
or_egp none = codes "EGP"
or_egp (some c) = c

-- A manual account of the user under the bank's name; `iexact` is the database's test.
abbrev pub is_shadow :
    (iexact : Text → Text → Bool) (user : ℕ) (bank_name : Text) → BankAccount → Bool
is_shadow iexact user bank_name a =
    (a.user == user) && is_manual a.link_type && iexact a.bank_name bank_name

unfoldable pub keep_accounts : (BankAccount → Bool) → List BankAccount → List BankAccount
keep_accounts dropped [] = []
keep_accounts dropped (a ∷ others) =
    let rest = keep_accounts dropped others in if dropped a then rest else a ∷ rest

abbrev pub is_dropped : (BankAccount → Bool) → List BankAccount → ℕ → Bool
is_dropped dropped [] account = false
is_dropped dropped (a ∷ others) account =
    ((a.id == account) && dropped a) || is_dropped dropped others account

unfoldable pub keep_transactions :
    (BankAccount → Bool) → List BankAccount → List Transaction → List Transaction
keep_transactions dropped accounts [] = []
keep_transactions dropped accounts (t ∷ ts) =
    let rest = keep_transactions dropped accounts ts in
    if is_dropped dropped accounts t.account then rest else t ∷ rest

-- `.filter(user, link_type, bank_name__iexact).delete()`, for the bank of the first account
unfoldable pub delete_shadows :
    (iexact : Text → Text → Bool) (user : ℕ) → List RemoteAccount → Tables → Tables
delete_shadows iexact user [] db = db
delete_shadows iexact user (r ∷ _) db =
    let dropped = is_shadow iexact user r.bank_name in
    record db {
      accounts = keep_accounts dropped db.accounts;
      transactions = keep_transactions dropped db.accounts db.transactions;
    }

-- The row of `update_or_create`, with the id of the old row or a new one.
unfoldable pub synced_row : Connection → RemoteAccount → ℕ → BankAccount
synced_row c r id = record {
  id = id;
  user = c.user;
  bank_name = r.bank_name;
  account_type = r.account_type;
  account_number = r.account_number;
  currency = or_egp r.currency;
  link_type = synced;
  connection = some c.id;
  external_account_id = some r.external_account_id;
}

abbrev pub is_row_of : ℕ → Text → BankAccount → Bool
is_row_of connection external a =
    option_eq a.connection connection && option_text_eq a.external_account_id (some external)

-- `update_or_create(connection, external_account_id)`: the id of the row, and the table. The table's
-- unique constraint leaves at most one row to update.
unfoldable pub update_or_create :
    (fresh : ℕ) → Connection → RemoteAccount → List BankAccount → ℕ × List BankAccount
update_or_create fresh c r [] = (fresh, synced_row c r fresh ∷ [])
update_or_create fresh c r (a ∷ others) =
    let rest = update_or_create fresh c r others in
    if is_row_of c.id r.external_account_id a
    then (a.id, synced_row c r a.id ∷ others)
    else (rest.0, a ∷ rest.1)

-- The loop over the accounts: the ids of their rows, and the table.
unfoldable pub land_accounts :
    (fresh : ℕ → ℕ) → Connection → List RemoteAccount → List BankAccount → List ℕ × List BankAccount
land_accounts fresh c [] accounts = ([], accounts)
land_accounts fresh c (r ∷ rs) accounts =
    let (id, accounts') = update_or_create (fresh (length rs)) c r accounts in
    let (ids, accounts'') = land_accounts fresh c rs accounts' in (id ∷ ids, accounts'')

-- One backfill: a `BankConnectorError` or an empty answer queues nothing.
backfill_one : ℕ → Option (List Entry) → List (ℕ × List Entry) → List (ℕ × List Entry)
backfill_one id none queue = queue
backfill_one id (some []) queue = queue
backfill_one id (some (e ∷ es)) queue = queue ++ ((id, e ∷ es) ∷ [])

unfoldable pub backfill :
    (fetch_transactions : Text → Option (List Entry))
    → List ℕ
    → List RemoteAccount
    → List (ℕ × List Entry)
    → List (ℕ × List Entry)
unfolding backfill_one
backfill fetch_transactions (id ∷ ids) (r ∷ rs) queue =
    backfill fetch_transactions ids rs
      (backfill_one id (fetch_transactions r.external_account_id) queue)
backfill fetch_transactions _ _ queue = queue

-- `apply_synced_accounts`: the ids of the accounts, and the tables
unfoldable pub apply_synced_accounts :
    (iexact : Text → Text → Bool)
    → (fetch_transactions : Text → Option (List Entry)) → (fresh : ℕ → ℕ) → Connection
    → List RemoteAccount
    → Tables
    → List ℕ × Tables
apply_synced_accounts iexact fetch_transactions fresh c remote db =
    let db' = delete_shadows iexact c.user remote db in
    let (ids, accounts) = land_accounts fresh c remote db'.accounts in
    (
      ids,
      record db' { accounts = accounts; queue = backfill fetch_transactions ids remote db'.queue },
    )
