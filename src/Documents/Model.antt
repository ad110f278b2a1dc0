-- ===== src/Documents/Model.antt =====
-- The tables and the object store that core/views/statements.py works on: the rows of
-- core/models/statements/file.py, the keys of services/file_storage.py, and the preferences.
use nbe_financial_advisor_ba.Prelude.{
  ℕ, Bool, true, false, Option, none, some, List, [], ◌∷◌, ◌&&◌, ◌==◌, if◌then◌else◌,
}
use nbe_financial_advisor_ba.Prelude.Text.{Text}
use nbe_financial_advisor_ba.Statements.Model.{Statement, Status}
use nbe_financial_advisor_ba.Bank.Model.{Transaction}
use nbe_financial_advisor_ba.Bank.Accounts.{BankAccount}

-- `state` holds the columns that the pipeline works on.
pub record StatementFile : Type 0 where
  pub id : ℕ
  pub user : ℕ
  pub checksum : Text
  pub file_size : ℕ
  pub file_type : Text
  pub state : Statement

-- "pfm-statements-raw", "pfm-statements-ocr", "pfm-statements-normalized"
pub data Bucket : Type 0 where
  raw ocr normalized_json : Bucket

-- The object key "{bucket}/{user_id}/{statement_id}/{name}"
pub record Key : Type 0 where
  pub bucket : Bucket
  pub user : ℕ
  pub statement : ℕ
  pub name : Text

pub record Tables : Type 0 where
  pub files : List StatementFile
  pub objects : List Key
  pub preferences : List (ℕ × Bool)
  pub accounts : List BankAccount
  pub transactions : List Transaction
  pub queue : List (ℕ × Status)

abbrev pub same_bucket : Bucket → Bucket → Bool
same_bucket raw raw = true
same_bucket ocr ocr = true
same_bucket normalized_json normalized_json = true
same_bucket _ _ = false

-- `delete_prefix("{bucket}/{user_id}/{statement_id}/")`
unfoldable pub delete_prefix : Bucket → (user statement : ℕ) → List Key → List Key
delete_prefix bucket user statement [] = []
delete_prefix bucket user statement (k ∷ ks) =
    let rest = delete_prefix bucket user statement ks in
    if same_bucket k.bucket bucket && (k.user == user) && (k.statement == statement)
    then rest
    else k ∷ rest

-- `get_object_or_404(StatementFile, id=statement_id, user=request.user)`
unfoldable pub get_file : (id user : ℕ) → List StatementFile → Option StatementFile
get_file id user [] = none
get_file id user (f ∷ fs) = if (f.id == id) && (f.user == user) then some f else get_file id user fs

-- Saves the columns of the row with the id.
unfoldable pub save_file : StatementFile → List StatementFile → List StatementFile
save_file f [] = []
save_file f (g ∷ gs) = let rest = save_file f gs in (if g.id == f.id then f else g) ∷ rest
