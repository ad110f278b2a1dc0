-- ===== src/Documents/Deletion.antt =====
-- `delete_statement_file` and `StatementBulkDeleteView.post` of core/views/statements.py.
use nbe_financial_advisor_ba.Prelude.{
  ℕ, Bool, false, not, Option, none, some, List, [], ◌∷◌, ◌++◌, ◌||◌, ◌==◌, if◌then◌else◌,
}
use nbe_financial_advisor_ba.Bank.Model.{Transaction}
use nbe_financial_advisor_ba.Documents.Model.{
  StatementFile, Key, raw, ocr, normalized_json, Tables, delete_prefix, get_file,
}

-- `UserPreference.objects.get_or_create(user=user)`: `retain_raw_documents`, and the table
unfoldable pub get_preferences : (user : ℕ) → List (ℕ × Bool) → Bool × List (ℕ × Bool)
get_preferences user [] = (false, (user, false) ∷ [])
get_preferences user ((u, retain) ∷ ps) =
    let rest = get_preferences user ps in
    if u == user then (retain, (u, retain) ∷ ps) else (rest.0, (u, retain) ∷ rest.1)

-- `on_delete=SET_NULL` of a transaction's statement
abbrev pub option_is : ℕ → Option ℕ → Bool
option_is n none = false
option_is n (some m) = m == n

unfoldable pub unlink : (statement : ℕ) → List Transaction → List Transaction
unlink statement [] = []
unlink statement (t ∷ ts) =
    let rest = unlink statement ts in
    (if option_is statement t.statement then record t { statement = none } else t) ∷ rest

unfoldable pub drop_file : (id : ℕ) → List StatementFile → List StatementFile
drop_file id [] = []
drop_file id (f ∷ fs) = let rest = drop_file id fs in if f.id == id then rest else f ∷ rest

-- The three calls of `delete_prefix`.
unfoldable pub purge : (user statement : ℕ) → List Key → List Key
purge user statement ks =
    delete_prefix normalized_json user statement
      (delete_prefix ocr user statement (delete_prefix raw user statement ks))

-- `delete_statement_file`
unfoldable pub delete_statement_file : StatementFile → Tables → Tables
delete_statement_file f db =
    let (retain, preferences) = get_preferences f.user db.preferences in
    record db {
      preferences = preferences;
      objects = if not retain then purge f.user f.id db.objects else db.objects;
      files = drop_file f.id db.files;
      transactions = unlink f.id db.transactions;
    }

pub data Outcome : Type 0 where
  returned raised : Outcome

-- What the view reports, the ids in the order of the request.
pub record Report : Type 0 where
  pub deleted : List ℕ
  pub skipped : List ℕ

abbrev pub has : ℕ → List ℕ → Bool
has n [] = false
has n (m ∷ ms) = (m == n) || has n ms

-- `found_by_id.get(statement_id)`, on the rows read before the loop
abbrev pub find_row : (id user : ℕ) → List StatementFile → Option StatementFile
find_row id user files = get_file id user files

abbrev skip : ℕ → Report → Report
skip id r = record r { skipped = r.skipped ++ (id ∷ []) }

abbrev done : ℕ → Report → Report
done id r = record r { deleted = r.deleted ++ (id ∷ []) }

-- One id. `Model.delete` raises on an instance that it has deleted before, whose id it has set to
-- None; the call before it then finds no object to delete.
unfoldable pub delete_one :
    (user id : ℕ) → Option StatementFile → Report → Tables → Outcome × (Report × Tables)
delete_one user id none r db = (returned, (skip id r, db))
delete_one user id (some f) r db =
    if has id r.deleted
    then (raised, (r, record db { preferences = (get_preferences f.user db.preferences).1 }))
    else (returned, (done id r, delete_statement_file f db))

unfoldable pub proceed :
    Outcome × (Report × Tables)
    → (Report × Tables → Outcome × (Report × Tables))
    → Outcome × (Report × Tables)
proceed (raised, s) rest = (raised, s)
proceed (returned, s) rest = rest s

-- The loop, on the rows found before it.
unfoldable pub delete_loop :
    (user : ℕ) (found : List StatementFile) → List ℕ → Report × Tables → Outcome × (Report × Tables)
delete_loop user found [] s = (returned, s)
delete_loop user found (id ∷ ids) s =
    proceed (delete_one user id (find_row id user found) s.0 s.1)
      (λ s'. delete_loop user found ids s')

abbrev pub no_report : Report
no_report = record { deleted = []; skipped = [] }

-- `StatementBulkDeleteView.post`, on a non-empty list of ids
unfoldable pub bulk_delete : (user : ℕ) → List ℕ → Tables → Outcome × (Report × Tables)
bulk_delete user ids db = delete_loop user db.files ids (no_report, db)
