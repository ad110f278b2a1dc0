-- ===== src/Bank/Ingest.antt =====
-- core/tasks/bank_sync.py: `ingest_synced_transactions`. An entry's date is `none` where
-- `date.fromisoformat` raises, and otherwise year * 10000 + month * 100 + day; `none` as the answer of
-- the AI service is an `AIServiceError`. The months of a Python set are visited in the order of their
-- first rows. `stamp` gives the id and the instant of creation of the n-th new row.
use nbe_financial_advisor_ba.Prelude.{
  ℕ, Option, none, some, List, [], ◌∷◌, ◌++◌, if◌then◌else◌, length,
}
use nbe_financial_advisor_ba.Prelude.Text.{Text, codes}
use nbe_financial_advisor_ba.Prelude.Int.{ℤ}
use nbe_financial_advisor_ba.Categories.Model.{Category, resolve_category}
use nbe_financial_advisor_ba.Categories.Keywords.{guess_category_from_merchant}
use nbe_financial_advisor_ba.Bank.Model.{Transaction, is_duplicate}

pub record Entry : Type 0 where
  pub transaction_date : Option ℕ
  pub merchant_raw : Option Text
  pub amount : ℤ
  pub transaction_type : Option Text
  pub currency : Option Text
  pub balance : Option ℤ

-- One anomaly of the AI service: `month` is `none` where the key is missing.
pub record Anomaly : Type 0 where
  pub category : Option Text
  pub month : Option Text
  pub amount : Option ℤ
  pub reason : Option Text

pub record AnomalyFlag : Type 0 where
  pub id : ℕ
  pub user : ℕ
  pub account : ℕ
  pub category : Option Text
  pub month : Text
  pub amount : Option ℤ
  pub reason : Text
  pub severity : Text

pub data Event : Type 0 where
  transaction_synced : (account count : ℕ) → List ℕ → Event
  anomaly_detected : (account : ℕ) → List ℕ → Event

pub data Email : Type 0 where
  unusual_activity : ℕ → Email
  new_transactions : ℕ → Email

-- The account that the task reads.
pub record Account : Type 0 where
  pub id : ℕ
  pub user : ℕ
  pub currency : Text

pub record Db : Type 0 where
  pub transactions : List Transaction
  pub anomaly_flags : List AnomalyFlag
  pub events : List Event
  pub emails : List Email

-- How the task ends.
pub data Outcome : Type 0 where
  returned raised : Outcome

pub record Environment : Type 0 where
  pub unicode_lower : Text → Text
  pub categories : List Category
  pub stamp : ℕ → ℕ × ℕ
  pub flag_id : ℕ → ℕ
  pub run_post_ingestion_analysis : (user account month : ℕ) → Option (List Anomaly)

-- `txn.get("currency") or account.currency`
abbrev or_currency : Option Text → Text → Text
or_currency none default = default
or_currency (some []) default = default
or_currency (some (c ∷ s)) default = c ∷ s

-- The date of the entry, and then the rest of the loop.
unfoldable pub read_date {ℓ} : {S : Type ℓ} → Option ℕ → S → (ℕ → Outcome × S) → Outcome × S
read_date none s rest = (raised, s)
read_date (some date) s rest = rest date

module _ (env : Environment) (account : Account) where
  -- The row that `Transaction.objects.create` stores.
  unfoldable pub new_row : (n date : ℕ) → Entry → Transaction
  new_row n date e = record {
    id = (env.stamp n).0;
    user = account.user;
    account = account.id;
    statement = none;
    transaction_date = date;
    merchant_raw = e.merchant_raw;
    merchant_normalized = none;
    category =
        resolve_category env.unicode_lower env.categories
          (guess_category_from_merchant env.unicode_lower e.merchant_raw e.transaction_type)
          e.transaction_type;
    amount = e.amount;
    currency = or_currency e.currency account.currency;
    source = codes "synced";
    balance = e.balance;
    transaction_type = e.transaction_type;
    extra_fields = none;
    created_at = (env.stamp n).1;
  }

  -- The body of the loop, on the created rows and the table.
  unfoldable pub land :
      (date : ℕ) → Entry → List Transaction × List Transaction → List Transaction × List Transaction
  land date e (created, rows) =
      if is_duplicate account.user account.id date e.amount e.merchant_raw e.transaction_type rows
      then (created, rows)
      else (let t = new_row (length created) date e in (created ++ (t ∷ []), t ∷ rows))

  -- The loop over the entries: the outcome, the created rows and the table.
  unfoldable pub ingest_rows :
      List Entry
      → List Transaction × List Transaction
      → Outcome × (List Transaction × List Transaction)
  unfolding read_date
  ingest_rows [] s = (returned, s)
  ingest_rows (e ∷ es) s = read_date e.transaction_date s (λ date. ingest_rows es (land date e s))
