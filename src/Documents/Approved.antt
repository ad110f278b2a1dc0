-- ===== src/Documents/Approved.antt =====
-- The approval of a statement as a whole: what it commits, and when it is refused.
use mathlib.Core.Path.{subst}
use nbe_financial_advisor_ba.Prelude.{
  ℕ, ◌≡◌, refl, sym, ap, ◌∙◌, ◌⊎◌, inl, inr, Bool, true, false, Option, none, some, List, [], ◌∷◌,
  ◌++◌, arith, All, Bool-cases, Option-cases,
}
use nbe_financial_advisor_ba.Statements.Model.{approved}
use nbe_financial_advisor_ba.Bank.Model.{Transaction}
use nbe_financial_advisor_ba.Bank.Ledger.{IsUnique}
use nbe_financial_advisor_ba.Bank.Accounts.{BankAccount, is_manual}
use nbe_financial_advisor_ba.Documents.Model.{StatementFile, Tables, get_file, save_file}
use nbe_financial_advisor_ba.Documents.Approval.{
  Row, Resolved, Reply, invalid_status_transition, resolved, Environment, resolve_rows, new_ids,
  approved_file, with_account, is_normalized, get_account, commit, guarded, account_of, override,
  on_file, map_rows, approve,
}
use nbe_financial_advisor_ba.Documents.Committed.{
  is_recorded, resolve_rows-recorded, resolve_rows-IsUnique,
}
use nbe_financial_advisor_ba.Documents.Answered.{
  IsAnswered, AreNew, added_ids, resolve_rows-IsLogged,
}

pub get_file-key :
    (id user : ℕ) (fs : List StatementFile) (f : StatementFile)
    → get_file id user fs ≡ some f
    → (f.id ≡ id) × (f.user ≡ user)
unfolding get_file
get_file-key id user [] f found = absurd (ground arith)
get_file-key id user (g ∷ gs) f found = grind (arith, get_file-key id user gs f)

pub get_file-save_file :
    (id user : ℕ) (fs : List StatementFile) (f f' : StatementFile)
    → get_file id user fs ≡ some f
    → f'.id ≡ id
    → f'.user ≡ user
    → get_file id user (save_file f' fs) ≡ some f'
unfolding get_file save_file
get_file-save_file id user [] f f' found same_id same_user = absurd (ground arith)
get_file-save_file id user (g ∷ gs) f f' found same_id same_user =
    grind (arith, get_file-save_file id user gs f f')

abbrev pub is_resolved : Reply → Bool
is_resolved (resolved results embedded) = true
is_resolved _ = false

abbrev results_of : Reply → List Resolved
results_of (resolved results embedded) = results
results_of _ = []

abbrev embedded_of : Reply → List ℕ
embedded_of (resolved results embedded) = embedded
embedded_of _ = []

module _ (env : Environment) (rs : List Row) (id user : ℕ) (db : Tables) where
  abbrev run_of : (u account statement : ℕ) → List Resolved × List Transaction
  run_of u account statement = resolve_rows env u account statement 0 rs db.transactions

  -- A refused approval leaves the ledger; a successful one has run the loop on it, on a manual account
  -- of some id, and the statement is approved.
  abbrev IsDone : Reply × Tables → Type 0
  IsDone (reply, db') =
      ((is_resolved reply ≡ false) × (db'.transactions ≡ db.transactions))
      ⊎ ((account : ℕ) × (f : StatementFile) × (get_file id user db'.files ≡ some f)
          × (f.state.status ≡ approved)
          × (f.state.failure_reason ≡ none)
          × (f.state.failed_phase ≡ none)
          × (db'.transactions ≡ (resolve_rows env user account id 0 rs db.transactions).1)
          × (let results = (resolve_rows env user account id 0 rs db.transactions).0 in
              reply ≡ resolved results (new_ids results)))

  guarded-IsDone :
      (f : StatementFile) (o : Option BankAccount) (files : List StatementFile)
      → get_file id user files ≡ some f
      → IsDone (guarded env rs f o (record db { files = files }))
  unfolding guarded commit
  guarded-IsDone f none files found = inl (refl, refl)
  guarded-IsDone f (some a) files found = elim (Bool-cases (is_manual a.link_type)) [
    | inr synced ↦ rw synced (inl (refl, refl))
    | inl manual ↦
        let (same_id, same_user) = get_file-key id user files f found in
        rw manual (
          inr (
            a.id,
            approved_file f,
            get_file-save_file id user files f (approved_file f) found same_id same_user,
            refl,
            refl,
            refl,
            λ i. (run_of (same_user i) a.id (same_id i)).1,
            λ i.
                resolved (run_of (same_user i) a.id (same_id i)).0
                  (new_ids (run_of (same_user i) a.id (same_id i)).0),
          ))
  ]

  on_file-IsDone :
      (account_id : Option ℕ) (o : Option StatementFile)
      → get_file id user db.files ≡ o
      → IsDone (on_file env rs user account_id o db)
  unfolding on_file override
  on_file-IsDone account_id none found = inl (refl, refl)
  on_file-IsDone none (some f) found = elim (Bool-cases (is_normalized f.state.status)) [
    | inl ready ↦ rw ready (guarded-IsDone f (account_of env rs f db.accounts) db.files found)
    | inr early ↦ rw early (inl (refl, refl))
  ]
  on_file-IsDone (some named) (some f) found = elim (Bool-cases (is_normalized f.state.status)) [
    | inr early ↦ rw early (inl (refl, refl))
    | inl ready ↦ elim (Option-cases (get_account named user db.accounts)) [
      | inl missing ↦ rw (ready, missing) (inl (refl, refl))
      | inr (a, owned) ↦
          let (same_id, same_user) = get_file-key id user db.files f found in
          let f' = with_account a.id f in
          rw (ready, owned)
            (guarded-IsDone f' (some a) (save_file f' db.files)
              (get_file-save_file id user db.files f f' found same_id same_user))
    ]
  ]

approve-IsDone :
    (env : Environment) (user id : ℕ) (account_id : Option ℕ) (rows : List Row) (db : Tables)
    → IsDone env (map_rows rows) id user db (approve env user id account_id rows db)
unfolding approve
approve-IsDone env user id account_id rows db =
    on_file-IsDone env (map_rows rows) id user db account_id (get_file id user db.files) refl

-- A ledger without duplicate rows has none after an approval, whether it succeeds or is refused.
approve-IsUnique :
    (env : Environment) (user id : ℕ) (account_id : Option ℕ) (rows : List Row) (db : Tables)
    → IsUnique db.transactions
    → IsUnique (approve env user id account_id rows db).1.transactions
approve-IsUnique env user id account_id rows db unique =
    elim (approve-IsDone env user id account_id rows db) [
      | inl (_, same) ↦ subst IsUnique (sym same) unique
      | inr (account, f, _, _, _, _, ran, _) ↦
          subst IsUnique (sym ran)
            (resolve_rows-IsUnique env user account id (map_rows rows) 0 db.transactions unique)
    ]

-- An approval that succeeds adds to the ledger rows of the user and the statement, all on one account,
-- that no older row agrees with, and nothing else; it answers the submitted rows in order, each either
-- with the id of an added row that agrees with it or, as a duplicate, with the id of an agreeing row of
-- the ledger; it names exactly the added ids to the embedding; and it leaves the statement approved
-- without a failure.
pub approve_commits :
    (env : Environment) (user id : ℕ) (account_id : Option ℕ) (rows : List Row) (db : Tables)
    (results : List Resolved) (embedded : List ℕ)
    → (approve env user id account_id rows db).0 ≡ resolved results embedded
    → (let db' : Tables = (approve env user id account_id rows db).1 in
        ((account : ℕ) × (added : List Transaction) × (db'.transactions ≡ added ++ db.transactions)
          × (embedded ≡ added_ids added)
          × AreNew user account id added db.transactions
          × IsAnswered user account added db.transactions (map_rows rows) results
          × All (λ r. is_recorded user account r db'.transactions ≡ true) (map_rows rows))
        × ((f : StatementFile) × (get_file id user db'.files ≡ some f)
            × (f.state.status ≡ approved)
            × (f.state.failure_reason ≡ none)
            × (f.state.failed_phase ≡ none)))
approve_commits env user id account_id rows db results embedded done =
    elim (approve-IsDone env user id account_id rows db) [
      | inl (refused, _) ↦ absurd (ground (arith, refused, ap is_resolved done))
      | inr (account, f, found, status, reason, phase, ran, reply) ↦
          let (added, grown, ids, news, answered) =
            resolve_rows-IsLogged env user account id (map_rows rows) 0 db.transactions in
          let recorded =
            resolve_rows-recorded env user account id (map_rows rows) 0 db.transactions in
          let same = sym done ∙ reply in
          (
            (
              account,
              added,
              ran ∙ grown,
              ap embedded_of same ∙ ids,
              news,
              subst (IsAnswered user account added db.transactions (map_rows rows))
                  (sym (ap results_of same)) answered,
              subst (λ ledger. All (λ r. is_recorded user account r ledger ≡ true) (map_rows rows))
                  (sym ran) recorded,
            ),
            (f, found, status, reason, phase),
          )
    ]

pub approve_early :
    (env : Environment) (user id : ℕ) (account_id : Option ℕ) (rows : List Row) (f : StatementFile)
    (db : Tables)
    → get_file id user db.files ≡ some f
    → is_normalized f.state.status ≡ false
    → approve env user id account_id rows db ≡ (invalid_status_transition, db)
unfolding approve on_file
approve_early env user id none rows f db found early =
    ap (λ o. on_file env (map_rows rows) user none o db) found ∙ rw early refl
approve_early env user id (some account) rows f db found early =
    ap (λ o. on_file env (map_rows rows) user (some account) o db) found ∙ rw early refl

-- Once a statement is approved, every further approval of it is refused and changes nothing.
pub approve_once :
    (env later : Environment) (user id : ℕ) (account_id other_id : Option ℕ) (rows other : List Row)
    (db : Tables)
    → is_resolved (approve env user id account_id rows db).0 ≡ true
    → (let db' : Tables = (approve env user id account_id rows db).1 in
        approve later user id other_id other db' ≡ (invalid_status_transition, db'))
approve_once env later user id account_id other_id rows other db done =
    elim (approve-IsDone env user id account_id rows db) [
      | inl (refused, _) ↦ absurd (ground (arith, refused, done))
      | inr (account, f, found, status, _, _, _, _) ↦
          approve_early later user id other_id other f (approve env user id account_id rows db).1
            found (ap is_normalized status)
    ]
