-- ===== src/Documents/Override.antt =====
-- An approval that names a synced account.
use nbe_financial_advisor_ba.Prelude.{ℕ, ◌≡◌, refl, ap, ◌∙◌, true, false, none, some, List}
use nbe_financial_advisor_ba.Statements.Model.{normalized}
use nbe_financial_advisor_ba.Bank.Accounts.{BankAccount, is_manual}
use nbe_financial_advisor_ba.Documents.Model.{StatementFile, Tables, get_file, save_file}
use nbe_financial_advisor_ba.Documents.Approval.{
  Row, synced_account_read_only, Environment, with_account, is_normalized, get_account,
  find_account, guarded, override, on_file, map_rows, approve,
}
use nbe_financial_advisor_ba.Documents.Approved.{get_file-key, get_file-save_file}

-- A normalized statement that is approved with a synced account of the user is refused, but its account
-- is now the synced one, and so every further approval that names no account is refused too, while the
-- ledger stays as it was.
pub synced_override_sticks :
    (env later : Environment) (user id account_id : ℕ) (rows other : List Row) (f : StatementFile)
    (a : BankAccount) (db : Tables)
    → get_file id user db.files ≡ some f
    → f.state.status ≡ normalized
    → get_account account_id user db.accounts ≡ some a
    → find_account a.id db.accounts ≡ some a
    → is_manual a.link_type ≡ false
    → (let stuck : Tables = record db { files = save_file (with_account a.id f) db.files } in
        (approve env user id (some account_id) rows db ≡ (synced_account_read_only, stuck))
        × (approve later user id none other stuck ≡ (synced_account_read_only, stuck)))
unfolding approve on_file override guarded
synced_override_sticks env later user id account_id rows other f a db found status owned listed
      synced =
    let ready : is_normalized f.state.status ≡ true = ap is_normalized status in
    let f' = with_account a.id f in
    let stuck : Tables = record db { files = save_file f' db.files } in
    let (same_id, same_user) = get_file-key id user db.files f found in
    let saved = get_file-save_file id user db.files f f' found same_id same_user in
    (
      ap (λ o. on_file env (map_rows rows) user (some account_id) o db) found
          ∙ rw (ready, owned, synced) refl,
      ap (λ o. on_file later (map_rows other) user none o stuck) saved
          ∙ rw (ready, listed, synced) refl,
    )
