-- ===== src/Mockbank/Access.antt =====
-- Who may read: mock-bank-sync/app/auth.py, routes_accounts.py and routes_internal.py. The JWT library
-- and `uuid.UUID` are arguments: `decode` verifies the signature and the registered claims.
use nbe_financial_advisor_ba.Prelude.{
  ℕ, ◌+◌, Bool, false, Option, none, some, List, [], ◌∷◌, map, ◌&&◌, ltb, leb, ◌==◌, if◌then◌else◌,
}
use nbe_financial_advisor_ba.Prelude.Text.{Text, codes, text_eq, strip}
use nbe_financial_advisor_ba.Mockbank.Model.{
  Customer, Account, Transaction, Tables, AccountView, TransactionView, serialize_account,
  serialize_transaction, accounts_of, transactions_of, order_by_date, from_date,
}

pub data Reply {ℓ} (A : Type ℓ) : Type ℓ where
  unauthorized forbidden missing conflict : Reply A
  ok : A → Reply A

-- The claims of a verified token; `exp` in microseconds.
pub record Claims : Type 0 where
  pub exp : Option ℕ
  pub subject : Option Text

pub record Env : Type 0 where
  pub decode : Text → Option Claims
  pub parse_uuid : Text → Option ℕ
  pub internal_secret : Text
  pub now : ℕ

-- `ord(c.lower())` for the letters that "bearer " has; no other character is lowered to one of them.
abbrev pub lower_ascii : ℕ → ℕ
lower_ascii c = if leb 65 c && leb c 90 then c + 32 else c

-- `authorization.split(" ", 1)[1]` if `authorization.lower().startswith("bearer ")`
unfoldable pub after_scheme : (scheme authorization : Text) → Option Text
after_scheme [] s = some s
after_scheme (a ∷ scheme) [] = none
after_scheme (a ∷ scheme) (b ∷ s) = if lower_ascii b == a then after_scheme scheme s else none

unfoldable pub find_account : (customer id : ℕ) → List Account → Option Account
find_account customer id [] = none
find_account customer id (a ∷ rest) =
    if (a.id == id) && (a.customer_id == customer) then some a else find_account customer id rest

abbrev pub since_date : Option ℕ → List Transaction → List Transaction
since_date none ts = ts
since_date (some since) ts = from_date since ts

unfoldable pub show_transactions :
    (since : Option ℕ) → List Transaction → Option Account → Reply (List TransactionView)
show_transactions since ts none = missing
show_transactions since ts (some a) = ok (
    map (serialize_transaction a.currency)
      (order_by_date (since_date since (transactions_of a.id ts))))

unfoldable pub on_account :
    (customer : ℕ) (since : Option ℕ) → Tables → Option ℕ → Reply (List TransactionView)
on_account customer since tables none = missing
on_account customer since tables (some id) =
    show_transactions since tables.transactions (find_account customer id tables.accounts)

unfoldable pub find_customer : (customer_bank_id : Text) → List Customer → Option Customer
find_customer bank_id [] = none
find_customer bank_id (c ∷ rest) =
    if text_eq c.customer_bank_id bank_id then some c else find_customer bank_id rest

-- The directory entry that mock-bank-oauth is given.
unfoldable pub lookup : Reply Text → Option Customer → Reply Customer
lookup unauthorized found = unauthorized
lookup forbidden found = forbidden
lookup missing found = missing
lookup conflict found = conflict
lookup (ok secret) none = missing
lookup (ok secret) (some c) = ok c

module _ (env : Env) where
  -- `require_internal_secret`, with the secret where it returns
  unfoldable pub require_internal_secret : Option Text → Reply Text
  require_internal_secret none = unauthorized
  require_internal_secret (some []) = unauthorized
  require_internal_secret (some (c ∷ secret)) =
      if text_eq (c ∷ secret) env.internal_secret then ok (c ∷ secret) else forbidden

  abbrev pub is_expired : Option ℕ → Bool
  is_expired none = false
  is_expired (some exp) = ltb exp env.now

  unfoldable pub subject_of : Option Claims → Reply Text
  subject_of none = unauthorized
  subject_of (some claims) = if is_expired claims.exp then unauthorized else named claims.subject
    where
      named : Option Text → Reply Text
      named none = unauthorized
      named (some []) = unauthorized
      named (some (c ∷ sub)) = ok (c ∷ sub)

  unfoldable pub bearer : Option Text → Reply Text
  bearer none = unauthorized
  bearer (some token) = subject_of (env.decode (strip token))

  -- `require_customer`
  unfoldable pub require_customer : Option Text → Reply Text
  require_customer none = unauthorized
  require_customer (some authorization) = bearer (after_scheme (codes "bearer ") authorization)

  -- The token's subject as a UUID, passed on.
  unfoldable pub as_customer {ℓ} : {A : Type ℓ} → Reply Text → (ℕ → Reply A) → Reply A
  as_customer unauthorized f = unauthorized
  as_customer forbidden f = forbidden
  as_customer missing f = missing
  as_customer conflict f = conflict
  as_customer (ok sub) f = parsed (env.parse_uuid sub) f
    where
      parsed : {A : Type ℓ} → Option ℕ → (ℕ → Reply A) → Reply A
      parsed none f = unauthorized
      parsed (some id) f = f id

  -- `list_accounts`
  unfoldable pub list_accounts : (authorization : Option Text) → Tables → Reply (List AccountView)
  list_accounts authorization tables =
      as_customer (require_customer authorization)
        λ customer. ok (map serialize_account (accounts_of customer tables.accounts))

  -- `list_transactions`
  unfoldable pub list_transactions :
      (authorization : Option Text) (account_id : Text) (since : Option ℕ)
      → Tables
      → Reply (List TransactionView)
  list_transactions authorization account_id since tables =
      as_customer (require_customer authorization)
        λ customer. on_account customer since tables (env.parse_uuid account_id)

  -- `lookup_customer`
  unfoldable pub lookup_customer :
      (secret : Option Text) (customer_bank_id : Text) → Tables → Reply Customer
  lookup_customer secret bank_id tables =
      lookup (require_internal_secret secret) (find_customer bank_id tables.customers)
