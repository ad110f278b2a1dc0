-- ===== src/Documents/Tests.antt =====
-- Runs on concrete statement files.
use nbe_financial_advisor_ba.Prelude.{
  ℕ, ◌+◌, ◌≡◌, refl, ◌⊎◌, true, false, Option, none, some, List, [], ◌∷◌, ◌++◌, All,
}
use nbe_financial_advisor_ba.Prelude.Text.{Text, codes, text_eq}
use nbe_financial_advisor_ba.Prelude.Int.{pos, int_eq}
use nbe_financial_advisor_ba.Categories.Model.{category_seed_data}
use nbe_financial_advisor_ba.Statements.Model.{normalized, approved}
use nbe_financial_advisor_ba.Bank.Model.{Transaction, is_match}
use nbe_financial_advisor_ba.Bank.Accounts.{BankAccount, LinkType, manual, synced}
use nbe_financial_advisor_ba.Documents.Model.{StatementFile, raw, Tables, get_file, save_file}
use nbe_financial_advisor_ba.Documents.Upload.{
  FileObject, Rejection, created, rejected, is_uploaded, create_statement_from_upload,
}
use nbe_financial_advisor_ba.Documents.Stored.{with_upload, upload_all_or_nothing}
use nbe_financial_advisor_ba.Documents.Deletion.{
  bulk_delete, returned, raised, delete_loop, delete_one, proceed,
}
use nbe_financial_advisor_ba.Documents.Removed.{owned_once, bulk_delete_returns_iff}
use nbe_financial_advisor_ba.Documents.Approval.{
  Row, Resolved, Environment, resolved, synced_account_read_only, approve, map_rows,
  validate_merchant_raw, on_file, guarded, commit, find_account, get_account, resolve_rows,
  resolve_row, first_match, new_transaction, new_ids, with_account,
}
use nbe_financial_advisor_ba.Documents.Committed.{is_recorded}
use nbe_financial_advisor_ba.Documents.Answered.{IsAnswered, AreNew, added_ids}
use nbe_financial_advisor_ba.Documents.Approved.{approve_commits, is_resolved}
use nbe_financial_advisor_ba.Documents.Override.{synced_override_sticks}

abbrev unchanged : Text → Text
unchanged s = s

abbrev account : (id : ℕ) → LinkType → BankAccount
account id link_type = record {
  id = id;
  user = 1;
  bank_name = codes "NBE";
  account_type = none;
  account_number = codes "1";
  currency = codes "EGP";
  link_type = link_type;
  connection = none;
  external_account_id = none;
}

abbrev file : StatementFile
file = record {
  id = 5;
  user = 1;
  checksum = codes "a";
  file_size = 1;
  file_type = codes "pdf";
  state = record {
    account = some 3;
    status = normalized;
    failure_reason = none;
    failed_phase = none;
    is_processing = false;
    start_transaction_date = none;
    last_transaction_date = none;
  };
}

abbrev tables : Tables
tables = record {
  files = file ∷ [];
  objects = record { bucket = raw; user = 1; statement = 5; name = codes "original.pdf" } ∷ [];
  preferences = [];
  accounts = account 3 manual ∷ account 4 synced ∷ [];
  transactions = [];
  queue = [];
}

abbrev scan : FileObject
scan = record { name = codes "June.PDF"; size = 2; content_type = none; bytes = 7 ∷ 8 ∷ [] }

upload_all_or_nothing_example :
    (let result =
        create_statement_from_upload unchanged unchanged 9 1 true (some scan) none tables in
      ((r : Rejection) × (result ≡ (rejected r, tables)))
      ⊎ ((f : FileObject) × (some scan ≡ some f)
          × (is_uploaded 1 f.bytes tables.files ≡ false)
          × (result ≡ (created 9, with_upload unchanged unchanged 9 1 f normalized tables))))
upload_all_or_nothing_example =
    upload_all_or_nothing unchanged unchanged 9 1 true (some scan) none tables refl refl

-- The id stands twice: the second deletion of it raises.
repeated_id : (bulk_delete 1 (5 ∷ 6 ∷ 5 ∷ []) tables).0 ≡ raised
unfolding bulk_delete delete_loop delete_one proceed get_file
repeated_id = refl

bulk_delete_returns_iff_example : (bulk_delete 1 (5 ∷ 6 ∷ 6 ∷ []) tables).0 ≡ returned
unfolding owned_once get_file
bulk_delete_returns_iff_example = (bulk_delete_returns_iff 1 (5 ∷ 6 ∷ 6 ∷ []) tables).1 refl

returns : (bulk_delete 1 (5 ∷ 6 ∷ 6 ∷ []) tables).0 ≡ returned
unfolding bulk_delete delete_loop delete_one proceed get_file
returns = refl

abbrev env : Environment
env = record {
  unicode_lower = unchanged;
  categories = category_seed_data;
  stamp = λ n. (n + 100, n + 5000);
}

abbrev paid : Row
paid = record {
  transaction_date = 20260801;
  merchant_raw = some (codes "Uber");
  category = none;
  amount = pos 4500;
  transaction_type = some (codes "debit");
  balance = none;
  merchant_normalized = none;
  extra_fields = none;
}

abbrev answered : (transaction_id duplicate_of : Option ℕ) → Resolved
answered transaction_id duplicate_of = record {
  transaction_date = 20260801;
  merchant_raw = some (codes "Uber");
  amount = pos 4500;
  transaction_id = transaction_id;
  duplicate_of = duplicate_of;
}

abbrev answers : List Resolved
answers = answered (some 100) none ∷ answered none (some 100) ∷ []

approval_reply : (approve env 1 5 none (paid ∷ paid ∷ []) tables).0 ≡ resolved answers (100 ∷ [])
unfolding approve map_rows validate_merchant_raw on_file guarded commit find_account get_file
    resolve_rows resolve_row first_match is_match new_transaction new_ids text_eq int_eq
approval_reply = refl

approve_commits_example :
    (let db' : Tables = (approve env 1 5 none (paid ∷ paid ∷ []) tables).1 in
      ((account_id : ℕ) × (added : List Transaction) × (db'.transactions
          ≡ added ++ tables.transactions)
        × (100 ∷ [] ≡ added_ids added)
        × AreNew 1 account_id 5 added tables.transactions
        × IsAnswered 1 account_id added tables.transactions (map_rows (paid ∷ paid ∷ [])) answers
        × All
            (λ r. is_recorded 1 account_id r db'.transactions ≡ true)
            (map_rows (paid ∷ paid ∷ [])))
      × ((f : StatementFile) × (get_file 5 1 db'.files ≡ some f)
          × (f.state.status ≡ approved)
          × (f.state.failure_reason ≡ none)
          × (f.state.failed_phase ≡ none)))
approve_commits_example =
    approve_commits env 1 5 none (paid ∷ paid ∷ []) tables answers (100 ∷ []) approval_reply

approved_first : is_resolved (approve env 1 5 none (paid ∷ []) tables).0 ≡ true
unfolding approve on_file guarded commit find_account get_file
approved_first = refl

synced_override_sticks_example :
    (let stuck : Tables = record tables { files = save_file (with_account 4 file) tables.files } in
      (approve env 1 5 (some 4) (paid ∷ []) tables ≡ (synced_account_read_only, stuck))
      × (approve env 1 5 none (paid ∷ []) stuck ≡ (synced_account_read_only, stuck)))
unfolding get_file get_account find_account
synced_override_sticks_example =
    synced_override_sticks env env 1 5 4 (paid ∷ []) (paid ∷ []) file (account 4 synced) tables refl
      refl refl refl refl
