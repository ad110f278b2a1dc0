-- ===== src/Statements/Phases.antt =====
-- The finalizers of the two phases, and the failure of a phase.
use nbe_financial_advisor_ba.Prelude.{
  ℕ, false, Option, none, some, List, [], ◌∷◌, ◌++◌, ◌&&◌, leb, length, if◌then◌else◌,
}
use nbe_financial_advisor_ba.Prelude.Text.{Text, codes, text_eq, is_blank}
use nbe_financial_advisor_ba.Statements.Model.{
  Status, extracted, normalized, Phase, extraction, normalization, Reason, Statement, OcrResult,
  NormalizedJson, Account, Db,
}

-- `status["result"]` of a succeeded job. `incomplete` has a normalized_json, which lacks
-- `transactions` or comes without `model_used`; `malformed` lacks the first key that the finalizer of
-- its phase reads. Both carry the text of the exception.
pub data JobResult : Type 0 where
  ocr : OcrResult → JobResult
  normalization_result : NormalizedJson → JobResult
  incomplete : NormalizedJson → Text → JobResult
  malformed : Text → JobResult

-- A finalizer returns, or raises an exception; the rows that it wrote before that stay.
pub data Finalized : Type 0 where
  saved : Db → Finalized
  raised : Text → Db → Finalized

-- `x or default` for an optional text
unfoldable pub or_default : Option Text → Text → Text
or_default none default = default
or_default (some t) default = if is_blank t then default else t

unfoldable pub matching : Text → Text → List Account → List Account
matching bank_name account_number [] = []
matching bank_name account_number (a ∷ rest) =
    let others = matching bank_name account_number rest in
    if text_eq a.bank_name bank_name && text_eq a.account_number account_number
    then a ∷ others
    else others

-- The account a statement is put on, or the exception of `get_or_create` where two rows match.
pub data Resolved : Type 0 where
  account_is : ℕ → List Account → Resolved
  several_match : Resolved

unfoldable pub pick :
    List Account → (bank_name account_number : Text) (fresh : ℕ) → List Account → Resolved
pick [] bank_name account_number fresh accounts =
    let a : Account = record {
      id = fresh;
      bank_name = bank_name;
      account_number = account_number;
    } in
    account_is fresh (accounts ++ a ∷ [])
pick (a ∷ []) bank_name account_number fresh accounts = account_is a.id accounts
pick (a ∷ (b ∷ rest)) bank_name account_number fresh accounts = several_match

-- `BankAccount.objects.get_or_create(user, bank_name, account_number)`, with the placeholders for
-- fields that the document does not show.
unfoldable pub get_or_create : NormalizedJson → (fresh : ℕ) → List Account → Resolved
get_or_create j fresh accounts =
    let bank_name = or_default j.bank_name (codes "Unknown Bank") in
    let account_number = or_default j.account_number (codes "unknown") in
    pick (matching bank_name account_number accounts) bank_name account_number fresh accounts

unfoldable pub resolve_account : Option ℕ → NormalizedJson → (fresh : ℕ) → List Account → Resolved
resolve_account (some a) j fresh accounts = account_is a accounts
resolve_account none j fresh accounts = get_or_create j fresh accounts

-- `[date.fromisoformat(txn["transaction_date"]) for txn in transactions]`
unfoldable pub parse_dates : List (Option ℕ) → Option (List ℕ)
parse_dates [] = some []
parse_dates (none ∷ rest) = none
parse_dates (some d ∷ rest) = elim (parse_dates rest) [ none ↦ none | some ds ↦ some (d ∷ ds) ]

unfoldable pub min_date : ℕ → List ℕ → ℕ
min_date d [] = d
min_date d (e ∷ es) = min_date (if leb d e then d else e) es

unfoldable pub max_date : ℕ → List ℕ → ℕ
max_date d [] = d
max_date d (e ∷ es) = max_date (if leb e d then d else e) es

-- `if transaction_dates:`
unfoldable pub with_dates : List ℕ → Statement → Statement
with_dates [] s = s
with_dates (d ∷ ds) s = record s {
  start_transaction_date = some (min_date d ds);
  last_transaction_date = some (max_date d ds);
}

-- The fields that both finalizers set.
abbrev pub advanced : Status → Statement → Statement
advanced status s = record s {
  status = status;
  failure_reason = none;
  failed_phase = none;
  is_processing = false;
}

-- `_finalize_extraction_phase`
unfoldable pub finalize_extraction : JobResult → Db → Finalized
finalize_extraction (ocr r) db = saved (record db {
  statement = advanced extracted db.statement;
  ocr_results = db.ocr_results ++ r ∷ [];
})
finalize_extraction (normalization_result j) db = raised (codes "'prefix'") db
finalize_extraction (incomplete j e) db = raised (codes "'prefix'") db
finalize_extraction (malformed e) db = raised e db

unfoldable pub store_normalized : NormalizedJson → Option (List ℕ) → (account : ℕ) → Db → Finalized
store_normalized j none account db = raised (codes "Invalid isoformat string") db
store_normalized j (some dates) account db =
    let s =
      with_dates dates (advanced normalized (record db.statement { account = some account })) in
    saved (record db {
      statement = s;
      normalized_records = db.normalized_records ++ j ∷ [];
      notices = db.notices ++ length j.transaction_dates ∷ [];
    })

unfoldable pub normalize_onto : NormalizedJson → Resolved → Db → Finalized
normalize_onto j several_match db = raised (codes "get() returned more than one BankAccount") db
normalize_onto j (account_is a accounts) db =
    store_normalized j (parse_dates j.transaction_dates) a (record db { accounts = accounts })

-- The exception of a missing key, once the account is resolved.
unfoldable pub raise_onto : Text → Resolved → Db → Finalized
raise_onto e several_match db = raised (codes "get() returned more than one BankAccount") db
raise_onto e (account_is a accounts) db = raised e (record db { accounts = accounts })

-- `_finalize_normalization_phase`: an account that it created stays when it raises, and the
-- statement's row is as it was.
unfoldable pub finalize_normalization : JobResult → (fresh : ℕ) → Db → Finalized
finalize_normalization (normalization_result j) fresh db =
    normalize_onto j (resolve_account db.statement.account j fresh db.accounts) db
finalize_normalization (ocr r) fresh db = raised (codes "'normalized_json'") db
finalize_normalization (incomplete j e) fresh db =
    raise_onto e (resolve_account db.statement.account j fresh db.accounts) db
finalize_normalization (malformed e) fresh db = raised e db

-- `_PHASE_FINALIZERS[phase](statement, result)`
unfoldable pub finalize : Phase → JobResult → (fresh : ℕ) → Db → Finalized
finalize extraction r fresh db = finalize_extraction r db
finalize normalization r fresh db = finalize_normalization r fresh db

-- `_fail_phase`
abbrev pub fail_phase : Phase → Reason → Db → Db
fail_phase phase reason db =
    let s : Statement = record db.statement {
      failure_reason = some reason;
      failed_phase = some phase;
      is_processing = false;
    } in
    record db { statement = s }
