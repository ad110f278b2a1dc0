-- ===== src/Mockbank/Listed.antt =====
-- A simulated transaction in the listing of its account: `simulate_transaction` and `list_transactions`.
use nbe_financial_advisor_ba.Prelude.{
  ◌≡◌, ◌⊎◌, inl, inr, refl, ap, ◌∙◌, true, Option, none, some, List, [], ◌∷◌, ◌++◌, map, ◌==◌, leb,
  arith, Bool-cases,
}
use mathlib.Core.Path.{subst}
use nbe_financial_advisor_ba.Prelude.Text.{Text}
use nbe_financial_advisor_ba.Mockbank.Model.{
  Account, Transaction, Tables, TransactionView, serialize_transaction, transactions_of,
  insert_by_date, order_by_date,
}
use nbe_financial_advisor_ba.Mockbank.Access.{
  ok, Env, require_customer, find_account, show_transactions, on_account, list_transactions,
}
use nbe_financial_advisor_ba.Mockbank.Simulate.{
  TransactionSpec, Chance, target_account, new_transaction, WebhookPayload, on_target,
  simulate_transaction,
}
use nbe_financial_advisor_ba.Mockbank.Scoped.{as_customer-ok, IsBy}

abbrev pub IsIn : {A : Type 0} → A → List A → Type 0
IsIn t [] = ⊥
IsIn t (x ∷ xs) = (x ≡ t) ⊎ IsIn t xs

append-IsIn : (t : Transaction) (xs : List Transaction) → IsIn t (xs ++ (t ∷ []))
append-IsIn t [] = inl refl
append-IsIn t (x ∷ xs) = inr (append-IsIn t xs)

map-IsIn :
    (f : Transaction → TransactionView) (t : Transaction) (ts : List Transaction)
    → IsIn t ts
    → IsIn (f t) (map f ts)
map-IsIn f t [] here = elim here [ ]
map-IsIn f t (x ∷ ts) (inl same) = inl (ap f same)
map-IsIn f t (x ∷ ts) (inr later) = inr (map-IsIn f t ts later)

insert_by_date_self : (t : Transaction) (ts : List Transaction) → IsIn t (insert_by_date t ts)
unfolding insert_by_date
insert_by_date_self t [] = inl refl
insert_by_date_self t (u ∷ ts) = elim (Bool-cases (leb t.transaction_date u.transaction_date)) [
  | inl early ↦ rw (early) (inl refl)
  | inr late ↦ rw (late) (inr (insert_by_date_self t ts))
]

insert_by_date-IsIn :
    (u t : Transaction) (ts : List Transaction) → IsIn t ts → IsIn t (insert_by_date u ts)
unfolding insert_by_date
insert_by_date-IsIn u t [] here = elim here [ ]
insert_by_date-IsIn u t (x ∷ ts) here =
    elim (Bool-cases (leb u.transaction_date x.transaction_date)) [
      | inl early ↦ rw (early) (inr here)
      | inr late ↦
          rw (late)
            (elim here [ inl same ↦ inl same | inr later ↦ inr (insert_by_date-IsIn u t ts later) ])
    ]

order_by_date-IsIn :
    (t : Transaction) (ts : List Transaction) → IsIn t ts → IsIn t (order_by_date ts)
unfolding order_by_date
order_by_date-IsIn t [] here = elim here [ ]
order_by_date-IsIn t (x ∷ ts) (inl same) =
    subst (λ (y : Transaction). IsIn y (insert_by_date x (order_by_date ts))) same
      (insert_by_date_self x (order_by_date ts))
order_by_date-IsIn t (x ∷ ts) (inr later) =
    insert_by_date-IsIn x t (order_by_date ts) (order_by_date-IsIn t ts later)

transactions_of-IsIn :
    (t : Transaction) (ts : List Transaction) → IsIn t ts → IsIn t (transactions_of t.account_id ts)
unfolding transactions_of
transactions_of-IsIn t [] here = elim here [ ]
transactions_of-IsIn t (x ∷ ts) (inl same) =
    let mine : (x.account_id == t.account_id) ≡ true =
      ground (arith, ap (λ (y : Transaction). y.account_id) same) in
    rw (mine) (inl same)
transactions_of-IsIn t (x ∷ ts) (inr later) = elim (Bool-cases (x.account_id == t.account_id)) [
  | inl mine ↦ rw (mine) (inr (transactions_of-IsIn t ts later))
  | inr other ↦ rw (other) (transactions_of-IsIn t ts later)
]

-- The listing of an account with the transaction just stored.
module _ (env : Env) (chance : Chance) where
  -- If the target of a simulated transaction is an account `a`, which its id and its customer
  -- determine, then the transaction that the request answers and pushes to the backend, under the
  -- ids of `a` and of its customer, is in the listing of `a` that a valid token of the customer is
  -- given then.
  pub simulated_is_listed :
      (body : TransactionSpec) (tables : Tables) (a : Account) (authorization : Option Text)
      (account_id : Text)
      (target : target_account env.parse_uuid chance body.account_id tables.accounts ≡ some a)
      (by : IsBy env authorization a.customer_id) (named : env.parse_uuid account_id ≡ some a.id)
      (known : find_account a.customer_id a.id tables.accounts ≡ some a)
      → (let t = new_transaction env.parse_uuid chance body a in
          let shown = serialize_transaction a.currency t in
          let payload : WebhookPayload = record {
            external_account_id = a.id;
            external_customer_id = a.customer_id;
            transactions = shown ∷ [];
          } in
          let (answer, after) = simulate_transaction env.parse_uuid chance body tables in
          (answer ≡ ok (shown, payload))
          × ((views : List TransactionView) × (list_transactions env authorization account_id none
                  after
                ≡ ok views)
              × IsIn shown views))
  unfolding simulate_transaction on_target list_transactions on_account show_transactions
      new_transaction
  simulated_is_listed body tables a authorization account_id target by named known =
      let t = new_transaction env.parse_uuid chance body a in
      let after = record tables { transactions = tables.transactions ++ (t ∷ []) } in
      let listed = order_by_date-IsIn t (transactions_of a.id (tables.transactions ++ (t ∷ []))) (
        transactions_of-IsIn t (tables.transactions ++ (t ∷ []))
          (append-IsIn t tables.transactions)) in
      rw (target) (
        refl,
        (
          map (serialize_transaction a.currency)
              (order_by_date (transactions_of a.id (tables.transactions ++ (t ∷ [])))),
          as_customer-ok env (require_customer env authorization)
                (λ c. on_account c none after (env.parse_uuid account_id)) a.customer_id by
              ∙ rw (named, known) refl,
          map-IsIn (serialize_transaction a.currency) t
              (order_by_date (transactions_of a.id (tables.transactions ++ (t ∷ [])))) listed,
        ),
      )
