-- ===== src/Bank/OneRow.antt =====
-- The rows of the accounts of a link, under the unique constraint of
-- core/models/profile/bank_account.py.
use mathlib.Core.Path.{subst₂}
use nbe_financial_advisor_ba.Prelude.{
  ℕ, suc, ◌≤◌, ◌≡◌, refl, ap, ◌∙◌, inl, inr, Bool, true, false, Option, none, some, List, [], ◌∷◌,
  ◌&&◌, ◌==◌, ==_iff, if◌then◌else◌, arith, Bool-cases, All, length,
}
use nbe_financial_advisor_ba.Prelude.Text.{Text, text_eq, text_eq_iff}
use nbe_financial_advisor_ba.Bank.Model.{option_text_eq}
use nbe_financial_advisor_ba.Bank.Ingest.{Entry}
use nbe_financial_advisor_ba.Bank.Accounts.{
  Connection, BankAccount, RemoteAccount, Tables, option_eq, is_row_of, synced_row,
  update_or_create, land_accounts, keep_accounts, delete_shadows, is_shadow, apply_synced_accounts,
}

-- How many accounts are of the connection and the provider's identifier.
unfoldable pub count_rows : (connection : ℕ) (external : Text) → List BankAccount → ℕ
count_rows connection external [] = 0
count_rows connection external (a ∷ others) =
    let rest = count_rows connection external others in
    if is_row_of connection external a then suc rest else rest

option_eq-same : (o : Option ℕ) (m n : ℕ) → option_eq o m ≡ true → option_eq o n ≡ (m == n)
option_eq-same none m n h = ground arith
option_eq-same (some k) m n h = ground arith

option_text_eq-same :
    (o : Option Text) (s t : Text)
    → option_text_eq o (some s) ≡ true
    → option_text_eq o (some t) ≡ text_eq s t
option_text_eq-same none s t h = ground arith
option_text_eq-same (some u) s t h = ap (λ x. text_eq x t) ((text_eq_iff u s).0 h)

module _ (fresh : ℕ) (k : Connection) (r : RemoteAccount) where
  -- The row keeps its identity.
  synced_row-same :
      (c : ℕ) (e : Text) (a : BankAccount)
      → is_row_of k.id r.external_account_id a ≡ true
      → is_row_of c e a ≡ is_row_of c e (synced_row k r a.id)
  unfolding synced_row
  synced_row-same c e a h = grind (
    arith,
    option_eq-same a.connection k.id c,
    option_text_eq-same a.external_account_id r.external_account_id e,
  )

  synced_row-own : (id : ℕ) → is_row_of k.id r.external_account_id (synced_row k r id) ≡ true
  unfolding synced_row
  synced_row-own id =
      rw
        (
          (==_iff k.id k.id).1 refl,
          (text_eq_iff r.external_account_id r.external_account_id).1 refl,
        )
        refl

  -- The rows of the account that is landed: one if there was none.
  update_or_create-own :
      (accounts : List BankAccount)
      → (let before : ℕ = count_rows k.id r.external_account_id accounts in
          count_rows k.id r.external_account_id (update_or_create fresh k r accounts).1
          ≡ (if before == 0 then 1 else before))
  unfolding count_rows update_or_create
  update_or_create-own [] = rw (synced_row-own fresh) refl
  update_or_create-own (a ∷ others) = elim (Bool-cases (is_row_of k.id r.external_account_id a)) [
    | inl mine ↦ rw (mine, synced_row-own a.id) (ground arith)
    | inr other ↦ rw (other, other) (update_or_create-own others)
  ]

  -- The rows of any other account.
  update_or_create-other :
      (c : ℕ) (e : Text) (accounts : List BankAccount)
      → ((k.id == c) && text_eq r.external_account_id e) ≡ false
      → count_rows c e (update_or_create fresh k r accounts).1 ≡ count_rows c e accounts
  unfolding count_rows update_or_create synced_row
  update_or_create-other c e [] differs = rw differs refl
  update_or_create-other c e (a ∷ others) differs =
      elim (Bool-cases (is_row_of k.id r.external_account_id a)) [
        | inl mine ↦ rw (mine, differs, synced_row-same c e a mine ∙ differs) refl
        | inr other ↦ rw (other, update_or_create-other c e others differs) refl
      ]

  -- The count after landing an account.
  update_or_create-count :
      (c : ℕ) (e : Text) (accounts : List BankAccount)
      → (let before : ℕ = count_rows c e accounts in
          count_rows c e (update_or_create fresh k r accounts).1 ≡ (
            if ((k.id == c) && text_eq r.external_account_id e) && (before == 0)
            then 1
            else before))
  update_or_create-count c e accounts =
      elim (Bool-cases ((k.id == c) && text_eq r.external_account_id e)) [
        | inl own ↦ rw own (
            subst₂
              (λ d f.
                count_rows d f (update_or_create fresh k r accounts).1
                ≡ (if count_rows d f accounts == 0 then 1 else count_rows d f accounts))
              ((==_iff k.id c).0 (ground (arith, own)))
              ((text_eq_iff r.external_account_id e).0 (ground (arith, own)))
              (update_or_create-own accounts))
        | inr other ↦ rw (other, update_or_create-other c e accounts other) refl
      ]

-- Every account of a connection has at most one row.
abbrev pub IsOnePer : List BankAccount → Type 0
IsOnePer accounts = (c : ℕ) (e : Text) → count_rows c e accounts ≤ 1

keep_accounts-count :
    (dropped : BankAccount → Bool) (c : ℕ) (e : Text) (accounts : List BankAccount)
    → count_rows c e (keep_accounts dropped accounts) ≤ count_rows c e accounts
unfolding keep_accounts count_rows
keep_accounts-count dropped c e [] = ground arith
keep_accounts-count dropped c e (a ∷ others) =
    ground (arith, keep_accounts-count dropped c e others)

delete_shadows-count :
    (iexact : Text → Text → Bool) (user : ℕ) (remote : List RemoteAccount) (db : Tables) (c : ℕ)
    (e : Text)
    → count_rows c e (delete_shadows iexact user remote db).accounts ≤ count_rows c e db.accounts
unfolding delete_shadows
delete_shadows-count iexact user [] db c e = ground arith
delete_shadows-count iexact user (r ∷ rs) db c e =
    keep_accounts-count (is_shadow iexact user r.bank_name) c e db.accounts

module _ (fresh : ℕ → ℕ) (k : Connection) where
  land_accounts-grows :
      (c : ℕ) (e : Text) (remote : List RemoteAccount) (accounts : List BankAccount)
      → count_rows c e accounts ≤ count_rows c e (land_accounts fresh k remote accounts).1
  unfolding land_accounts
  land_accounts-grows c e [] accounts = ground arith
  land_accounts-grows c e (r ∷ rs) accounts =
      let id = fresh (length rs) in
      ground (
        arith,
        update_or_create-count id k r c e accounts,
        land_accounts-grows c e rs (update_or_create id k r accounts).1,
      )

  land_accounts-IsOnePer :
      (remote : List RemoteAccount) (accounts : List BankAccount)
      → IsOnePer accounts
      → IsOnePer (land_accounts fresh k remote accounts).1
  unfolding land_accounts
  land_accounts-IsOnePer [] accounts one = one
  land_accounts-IsOnePer (r ∷ rs) accounts one =
      let id = fresh (length rs) in
      land_accounts-IsOnePer rs (update_or_create id k r accounts).1
        (λ c e. ground (arith, update_or_create-count id k r c e accounts, one c e))

  land_accounts-rows :
      (remote : List RemoteAccount) (accounts : List BankAccount)
      → All
          (λ r. 1 ≤ count_rows k.id r.external_account_id (land_accounts fresh k remote accounts).1)
          remote
  unfolding land_accounts
  land_accounts-rows [] accounts = tt
  land_accounts-rows (r ∷ rs) accounts =
      let id = fresh (length rs) in
      (
        ground (
          arith,
          update_or_create-own id k r accounts,
          land_accounts-grows k.id r.external_account_id rs (update_or_create id k r accounts).1,
        ),
        land_accounts-rows rs (update_or_create id k r accounts).1,
      )

All-weaken :
    (P Q : RemoteAccount → Type 0)
    → ((r : RemoteAccount) → P r → Q r)
    → (rs : List RemoteAccount) → All P rs
    → All Q rs
All-weaken P Q f [] every = tt
All-weaken P Q f (r ∷ rs) (first, every) = (f r first, All-weaken P Q f rs every)

-- If every account of a link has at most one row, then landing a list of accounts keeps it so, and
-- each account of the list has exactly one row, whether it was known before or the list repeats it.
pub synced_once :
    (iexact : Text → Text → Bool) (fetch_transactions : Text → Option (List Entry)) (fresh : ℕ → ℕ)
    (k : Connection) (remote : List RemoteAccount) (db : Tables)
    → IsOnePer db.accounts
    → (let accounts : List BankAccount =
          (apply_synced_accounts iexact fetch_transactions fresh k remote db).1.accounts in
        IsOnePer accounts × All (λ r. count_rows k.id r.external_account_id accounts ≡ 1) remote)
unfolding apply_synced_accounts
synced_once iexact fetch_transactions fresh k remote db one =
    let kept = (delete_shadows iexact k.user remote db).accounts in
    let after = (land_accounts fresh k remote kept).1 in
    let one_after =
      land_accounts-IsOnePer fresh k remote kept
        (λ c e. omega (arith, delete_shadows-count iexact k.user remote db c e, one c e)) in
    (
      one_after,
      All-weaken (λ r. 1 ≤ count_rows k.id r.external_account_id after)
          (λ r. count_rows k.id r.external_account_id after ≡ 1)
          (λ r some_row. omega (arith, some_row, one_after k.id r.external_account_id)) remote
          (land_accounts-rows fresh k remote kept),
    )
