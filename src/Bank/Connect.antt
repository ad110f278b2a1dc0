-- ===== src/Bank/Connect.antt =====
-- core/views/bank_connections.py: starting a link and its callback. The connector's answers are
-- arguments, and so are the new id, the OAuth state and the clock of one request. The only connector is "mock_bank". A save that breaks one of the two unique
-- constraints of core/models/profile/bank_connection.py raises and changes nothing.
use nbe_financial_advisor_ba.Prelude.{
  ℕ, Bool, true, false, not, Option, none, some, List, [], ◌∷◌, ◌&&◌, ◌||◌, ◌==◌, if◌then◌else◌,
  is_some,
}
use nbe_financial_advisor_ba.Prelude.Text.{Text, codes, text_eq}
use nbe_financial_advisor_ba.Bank.Model.{option_text_eq}
use nbe_financial_advisor_ba.Bank.Ingest.{Entry}
use nbe_financial_advisor_ba.Bank.Accounts.{
  Status, pending_otp, linked, failed, Connection, RemoteAccount, Tables, option_eq,
  apply_synced_accounts,
}

pub data Answer {ℓ} (A : Type ℓ) : Type ℓ where
  ok : A → Answer A
  connector_error : Text → Answer A

pub record Token : Type 0 where
  pub access_token : Text
  pub refresh_token : Option Text
  pub external_customer_id : Option Text

pub data Reply : Type 0 where
  unknown_provider not_found bank_already_linked invalid_oauth_state : Reply
  bank_connection_failed multiple_objects integrity_error : Reply
  started : (connection_id oauth_state : ℕ) → Reply
  accounts_linked : List ℕ → Reply

abbrev pub is_linked : Status → Bool
is_linked linked = true
is_linked _ = false

-- `get_connector` finds a connector.
abbrev pub is_registered : Text → Bool
is_registered slug = text_eq slug (codes "mock_bank")

abbrev pub is_for : (user : ℕ) (slug : Text) → Connection → Bool
is_for user slug c = (c.user == user) && text_eq c.provider_slug slug

-- `BankConnection.objects.filter(user, provider_slug)`
unfoldable pub filter_for : (user : ℕ) (slug : Text) → List Connection → List Connection
filter_for user slug [] = []
filter_for user slug (c ∷ cs) =
    let rest = filter_for user slug cs in if is_for user slug c then c ∷ rest else rest

-- Saves the row with its id.
unfoldable pub save : Connection → List Connection → List Connection
save c [] = []
save c (d ∷ ds) = let rest = save c ds in (if d.id == c.id then c else d) ∷ rest

-- The row of a started link.
abbrev pub restarted : (oauth_state : ℕ) → Connection → Connection
restarted oauth_state c = record c {
  status = pending_otp;
  oauth_state = some oauth_state;
  error_reason = none;
}

abbrev pub new_connection : (fresh user : ℕ) (slug : Text) (oauth_state : ℕ) → Connection
new_connection fresh user slug oauth_state = record {
  id = fresh;
  user = user;
  provider_slug = slug;
  status = pending_otp;
  external_customer_id = none;
  access_token = none;
  refresh_token = none;
  oauth_state = some oauth_state;
  error_reason = none;
  linked_at = none;
}

unfoldable pub start :
    (fresh user : ℕ) (slug : Text) (oauth_state : ℕ) → List Connection → Tables → Reply × Tables
start fresh user slug oauth_state [] db = (
  started fresh oauth_state,
  record db { connections = new_connection fresh user slug oauth_state ∷ db.connections },
)
start fresh user slug oauth_state (c ∷ []) db =
    if is_linked c.status then (bank_already_linked, db) else (
      started c.id oauth_state,
      record db { connections = save (restarted oauth_state c) db.connections },
    )
start fresh user slug oauth_state (c ∷ _ ∷ _) db =
    if is_linked c.status then (bank_already_linked, db) else (multiple_objects, db)

-- `BankConnectionListCreateView.post`
unfoldable pub initiate : (fresh user : ℕ) (slug : Text) (oauth_state : ℕ) → Tables → Reply × Tables
unfolding start
initiate fresh user slug oauth_state db =
    if is_registered slug
    then start fresh user slug oauth_state (filter_for user slug db.connections) db
    else (unknown_provider, db)

-- `get_object_or_404(BankConnection, id=connection_id, user=request.user)`
unfoldable pub get_connection : (id user : ℕ) → List Connection → Option Connection
get_connection id user [] = none
get_connection id user (c ∷ cs) =
    if (c.id == id) && (c.user == user) then some c else get_connection id user cs

-- Another row breaks a unique constraint with the row: linked for its user and provider, or of its
-- customer at the provider.
unfoldable pub is_taken : Connection → List Connection → Bool
is_taken c [] = false
is_taken c (d ∷ ds) =
    (not (d.id == c.id)
      && text_eq d.provider_slug c.provider_slug
      && ((is_linked d.status && (d.user == c.user))
          || (is_some c.external_customer_id
              && option_text_eq d.external_customer_id c.external_customer_id)))
    || is_taken c ds

abbrev pub marked_failed : Text → Connection → Connection
marked_failed reason c = record c {
  status = failed;
  error_reason = some reason;
  oauth_state = none;
}

-- `_mark_failed`, and the error raised after it
unfoldable pub mark_failed : Text → Connection → Tables → Reply × Tables
mark_failed reason c db = (
  bank_connection_failed,
  record db { connections = save (marked_failed reason c) db.connections },
)

abbrev pub with_token : (now : ℕ) → Token → Connection → Connection
with_token now token c = record c {
  access_token = some token.access_token;
  refresh_token = token.refresh_token;
  external_customer_id = token.external_customer_id;
  status = linked;
  linked_at = some now;
  oauth_state = none;
}

pub record Bank : Type 0 where
  pub iexact : Text → Text → Bool
  pub exchange_code_for_token : Text → Answer Token
  pub fetch_accounts : Text → Answer (List RemoteAccount)
  pub fetch_transactions : Text → Text → Option (List Entry)
  pub fresh : ℕ → ℕ

module _ (bank : Bank) (now : ℕ) where
  -- From the saving of the token on.
  unfoldable pub link : Token → List RemoteAccount → Connection → Tables → Reply × Tables
  link token remote c db =
      let c' = with_token now token c in
      if is_taken c' db.connections
      then (integrity_error, db)
      else (let (ids, db') =
            apply_synced_accounts bank.iexact (bank.fetch_transactions token.access_token)
              bank.fresh c' remote (record db { connections = save c' db.connections }) in
          (accounts_linked ids, db'))

  unfoldable pub on_accounts :
      Token → Answer (List RemoteAccount) → Connection → Tables → Reply × Tables
  on_accounts token (connector_error reason) c db = mark_failed reason c db
  on_accounts token (ok remote) c db = link token remote c db

  unfoldable pub on_token : Answer Token → Connection → Tables → Reply × Tables
  on_token (connector_error reason) c db = mark_failed reason c db
  on_token (ok token) c db = on_accounts token (bank.fetch_accounts token.access_token) c db

  unfoldable pub on_connection :
      (code : Text) (oauth_state : ℕ) → Option Connection → Tables → Reply × Tables
  on_connection code oauth_state none db = (not_found, db)
  on_connection code oauth_state (some c) db =
      if option_eq c.oauth_state oauth_state
      then on_token (bank.exchange_code_for_token code) c db
      else (invalid_oauth_state, db)

  -- `BankConnectionCallbackView.post`
  unfoldable pub callback : (id user : ℕ) (code : Text) (oauth_state : ℕ) → Tables → Reply × Tables
  callback id user code oauth_state db =
      on_connection code oauth_state (get_connection id user db.connections) db
