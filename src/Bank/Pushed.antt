-- ===== src/Bank/Pushed.antt =====
-- What a push of the bank does to the tables.
use nbe_financial_advisor_ba.Prelude.{
  ℕ, ◌≡◌, refl, inl, inr, Bool, true, false, some, List, [], ◌∷◌, ◌++◌, ◌&&◌, ◌||◌, ◌==◌, arith,
  Bool-cases, Option-cases,
}
use nbe_financial_advisor_ba.Prelude.Text.{Text}
use nbe_financial_advisor_ba.Bank.Model.{option_text_eq}
use nbe_financial_advisor_ba.Bank.Ingest.{Entry}
use nbe_financial_advisor_ba.Bank.Accounts.{
  Connection, BankAccount, RemoteAccount, Tables, is_row_of, apply_synced_accounts,
}
use nbe_financial_advisor_ba.Bank.Connect.{Answer, ok, connector_error, is_registered}
use nbe_financial_advisor_ba.Bank.Webhook.{
  Push, PushReply, accepted, Feed, first_account, is_target, customer_connections, queue_ingestion,
  after_fetch, discover, on_account, receive_push,
}

-- An account has the id and the provider's identifier.
abbrev pub owns : (id : ℕ) (external : Text) → List BankAccount → Bool
owns id external [] = false
owns id external (a ∷ others) =
    ((a.id == id) && option_text_eq a.external_account_id (some external))
    || owns id external others

first_account-owns :
    (p : BankAccount → Bool) (external : Text) (accounts : List BankAccount) (a : BankAccount)
    → ((b : BankAccount) → p b ≡ true → option_text_eq b.external_account_id (some external) ≡ true)
    → first_account p accounts ≡ some a
    → owns a.id external accounts ≡ true
unfolding first_account
first_account-owns p external [] a named found = absurd (ground arith)
first_account-owns p external (b ∷ others) a named found =
    grind (arith, named b, first_account-owns p external others a named)

-- An accepted push has queued its entries, last, for an account with its identifier.
abbrev IsQueued : Push → PushReply × Tables → Type 0
IsQueued push (reply, db) =
    reply ≡ accepted
    → (id : ℕ) × (before : List (ℕ × List Entry)) × (owns id push.external_account_id db.accounts
        ≡ true)
      × (db.queue ≡ before ++ ((id, push.transactions) ∷ []))

queue_ingestion-IsQueued :
    (push : Push) (p : BankAccount → Bool) (db : Tables)
    → ((b : BankAccount)
        → p b ≡ true
        → option_text_eq b.external_account_id (some push.external_account_id) ≡ true)
    → IsQueued push (queue_ingestion push (first_account p db.accounts) db)
unfolding queue_ingestion
queue_ingestion-IsQueued push p db named = elim (Option-cases (first_account p db.accounts)) [
  | inl missing ↦ rw missing (λ h. absurd (ground (arith, h)))
  | inr (a, found) ↦ rw found (λ _. (
    a.id,
    db.queue,
    first_account-owns p push.external_account_id db.accounts a named found,
    refl,
  ))
]

module _ (feed : Feed) (push : Push) where
  after_fetch-IsQueued :
      (c : Connection) (answer : Answer (List RemoteAccount)) (db : Tables)
      → IsQueued push (after_fetch feed push c answer db)
  unfolding after_fetch
  after_fetch-IsQueued c (connector_error reason) db = λ h. absurd (ground (arith, h))
  after_fetch-IsQueued c (ok remote) db =
      queue_ingestion-IsQueued push (is_row_of c.id push.external_account_id)
        (apply_synced_accounts feed.iexact (feed.fetch_transactions c.access_token) feed.fresh c
          remote db).1
        (λ b h. ground (arith, h))

  discover-IsQueued :
      (cs : List Connection) (db : Tables) → IsQueued push (discover feed push cs db)
  unfolding discover
  discover-IsQueued [] db = λ h. absurd (ground (arith, h))
  discover-IsQueued (c ∷ []) db = elim (Bool-cases (is_registered c.provider_slug)) [
    | inl known ↦ rw known (after_fetch-IsQueued c (feed.fetch_accounts c.access_token) db)
    | inr unknown ↦ rw unknown (λ h. absurd (ground (arith, h)))
  ]
  discover-IsQueued (c ∷ d ∷ cs) db = λ h. absurd (ground (arith, h))

  receive_push-IsQueued : (db : Tables) → IsQueued push (receive_push feed push db)
  unfolding receive_push on_account queue_ingestion
  receive_push-IsQueued db =
      elim (Option-cases (first_account (is_target db.connections push) db.accounts)) [
        | inl missing ↦ rw missing (discover-IsQueued (customer_connections push db.connections) db)
        | inr (a, found) ↦ rw found (λ _. (
          a.id,
          db.queue,
          first_account-owns (is_target db.connections push) push.external_account_id db.accounts a
              (λ b h. ground (arith, h)) found,
          refl,
        ))
      ]

-- A push that is accepted, for an account known before or found at the bank, has queued its entries as
-- the last task, for an account in the table with the identifier of the push.
pub push_queued :
    (feed : Feed) (push : Push) (db : Tables)
    → (receive_push feed push db).0 ≡ accepted
    → (let db' : Tables = (receive_push feed push db).1 in
        (id : ℕ) × (before : List (ℕ × List Entry)) × (owns id push.external_account_id db'.accounts
          ≡ true)
        × (db'.queue ≡ before ++ ((id, push.transactions) ∷ [])))
push_queued feed push db = receive_push-IsQueued feed push db
