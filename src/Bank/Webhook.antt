-- ===== src/Bank/Webhook.antt =====
-- core/views/webhooks.py: `BankSyncWebhookView.post`, after the shared secret and the payload are
-- checked. `raised` stands for an exception that the view lets through.
use nbe_financial_advisor_ba.Prelude.{
  ℕ, Bool, false, not, Option, none, some, List, [], ◌∷◌, ◌++◌, ◌&&◌, ◌||◌, if◌then◌else◌,
}
use nbe_financial_advisor_ba.Prelude.Text.{Text, text_eq}
use nbe_financial_advisor_ba.Bank.Model.{option_text_eq}
use nbe_financial_advisor_ba.Bank.Ingest.{Entry}
use nbe_financial_advisor_ba.Bank.Accounts.{
  Connection, BankAccount, RemoteAccount, Tables, option_eq, is_manual, is_row_of,
  apply_synced_accounts,
}
use nbe_financial_advisor_ba.Bank.Connect.{Answer, ok, connector_error, is_linked, is_registered}

pub record Push : Type 0 where
  pub provider_slug : Text
  pub external_account_id : Text
  pub external_customer_id : Text
  pub transactions : List Entry

pub data PushReply : Type 0 where
  accepted not_found raised : PushReply

-- The connector, on the access token of a connection, which may be NULL.
pub record Feed : Type 0 where
  pub iexact : Text → Text → Bool
  pub fetch_accounts : Option Text → Answer (List RemoteAccount)
  pub fetch_transactions : Option Text → Text → Option (List Entry)
  pub fresh : ℕ → ℕ

-- The account's connection is linked and of the provider.
unfoldable pub is_fed : (connections : List Connection) (slug : Text) → BankAccount → Bool
is_fed [] slug a = false
is_fed (c ∷ cs) slug a =
    (option_eq a.connection c.id && text_eq c.provider_slug slug && is_linked c.status)
    || is_fed cs slug a

-- `.filter(...).first()`
unfoldable pub first_account : (BankAccount → Bool) → List BankAccount → Option BankAccount
first_account p [] = none
first_account p (a ∷ others) = if p a then some a else first_account p others

abbrev pub is_target : List Connection → Push → BankAccount → Bool
is_target connections push a =
    option_text_eq a.external_account_id (some push.external_account_id)
    && is_fed connections push.provider_slug a
    && not (is_manual a.link_type)

-- The filter of `get_object_or_404(BankConnection, ...)`.
unfoldable pub customer_connections : Push → List Connection → List Connection
customer_connections push [] = []
customer_connections push (c ∷ cs) =
    let rest = customer_connections push cs in
    if text_eq c.provider_slug push.provider_slug
      && option_text_eq c.external_customer_id (some push.external_customer_id)
      && is_linked c.status
    then c ∷ rest
    else rest

-- `ingest_synced_transactions.delay`
unfoldable pub queue_ingestion : Push → Option BankAccount → Tables → PushReply × Tables
queue_ingestion push none db = (not_found, db)
queue_ingestion push (some a) db =
    (accepted, record db { queue = db.queue ++ ((a.id, push.transactions) ∷ []) })

module _ (feed : Feed) where
  unfoldable pub after_fetch :
      Push → Connection → Answer (List RemoteAccount) → Tables → PushReply × Tables
  after_fetch push c (connector_error reason) db = (not_found, db)
  after_fetch push c (ok remote) db =
      let db' =
        (apply_synced_accounts feed.iexact (feed.fetch_transactions c.access_token) feed.fresh c
          remote db).1 in
      queue_ingestion push (first_account (is_row_of c.id push.external_account_id) db'.accounts)
        db'

  -- A push for an account that is not known yet.
  unfoldable pub discover : Push → List Connection → Tables → PushReply × Tables
  discover push [] db = (not_found, db)
  discover push (c ∷ []) db =
      if is_registered c.provider_slug
      then after_fetch push c (feed.fetch_accounts c.access_token) db
      else (raised, db)
  discover push (c ∷ _ ∷ _) db = (raised, db)

  unfoldable pub on_account : Push → Option BankAccount → Tables → PushReply × Tables
  on_account push (some a) db = queue_ingestion push (some a) db
  on_account push none db = discover push (customer_connections push db.connections) db

  -- `BankSyncWebhookView.post`
  unfoldable pub receive_push : Push → Tables → PushReply × Tables
  receive_push push db =
      on_account push (first_account (is_target db.connections push) db.accounts) db
