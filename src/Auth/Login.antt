-- ===== src/Auth/Login.antt =====
-- `BankLoginInitiateView.post` and `BankLoginCallbackView.post` of core/views/auth.py, one request at
-- a time: no other request comes between the lookup of a customer and the creation of a user. The
-- bank's answers to the connector, Django's `normalize_email` and the new ids are arguments. A session is the response with tokens for its user.
use nbe_financial_advisor_ba.Prelude.{
  ℕ, Bool, false, Option, none, some, List, [], ◌∷◌, ◌&&◌, ◌||◌, ◌==◌, if◌then◌else◌,
}
use nbe_financial_advisor_ba.Prelude.Text.{Text, codes, text_eq, is_falsy}
use nbe_financial_advisor_ba.Bank.Model.{option_text_eq}
use nbe_financial_advisor_ba.Bank.Accounts.{
  linked, Connection, RemoteAccount, Tables, apply_synced_accounts,
}
use nbe_financial_advisor_ba.Bank.Connect.{Answer, ok, connector_error, is_registered, is_taken}
use nbe_financial_advisor_ba.Auth.Token.{LoginToken, Connector, exchange_code_for_token}
use nbe_financial_advisor_ba.Auth.States.{Redis, mint_state, redeem_state}

pub record User : Type 0 where
  pub id : ℕ
  pub name : Text
  pub email : Text
  pub phone : Option Text

pub data Reply : Type 0 where
  unknown_provider invalid_oauth_state bank_login_failed bank_login_email_conflict raised : Reply
  authorize : (oauth_state : ℕ) → Reply
  session : (user status : ℕ) → Reply

pub record Site (S : Type 0) : Type 0 where
  pub users : List User
  pub bank : Tables
  pub states : S

-- The ids and the time of one request.
pub record Fresh : Type 0 where
  pub user : ℕ
  pub connection : ℕ
  pub now : ℕ

-- `BankConnection.objects.filter(provider_slug, external_customer_id).first()`; with `None` the filter
-- is that the column is NULL.
unfoldable pub find_customer : (slug : Text) → Option Text → List Connection → Option Connection
find_customer slug customer [] = none
find_customer slug customer (c ∷ cs) =
    if text_eq c.provider_slug slug && option_text_eq c.external_customer_id customer
    then some c
    else find_customer slug customer cs

-- `User.objects.filter(email=email).exists()`
unfoldable pub has_email : Text → List User → Bool
has_email email [] = false
has_email email (u ∷ us) = text_eq u.email email || has_email email us

-- `if not user.phone: user.phone = phone; user.save(...)`
unfoldable pub fill_phone : (user : ℕ) → Text → List User → List User
fill_phone user phone [] = []
fill_phone user phone (u ∷ us) =
    let rest = fill_phone user phone us in
    (if (u.id == user) && is_falsy u.phone then record u { phone = some phone } else u) ∷ rest

abbrev pub with_tokens : LoginToken → Connection → Connection
with_tokens token c = record c {
  access_token = some token.access_token;
  refresh_token = token.refresh_token;
}

-- `connection.save(update_fields=["access_token", "refresh_token"])`
unfoldable pub save_tokens : (id : ℕ) → LoginToken → List Connection → List Connection
save_tokens id token [] = []
save_tokens id token (c ∷ cs) =
    let rest = save_tokens id token cs in (if c.id == id then with_tokens token c else c) ∷ rest

-- `token.get("name") or "Bank Customer"`
abbrev pub or_bank_customer : Option Text → Text
or_bank_customer none = codes "Bank Customer"
or_bank_customer (some []) = codes "Bank Customer"
or_bank_customer (some (c ∷ s)) = c ∷ s

unfoldable pub new_login_connection : Fresh → (slug : Text) → LoginToken → Connection
new_login_connection fresh slug token = record {
  id = fresh.connection;
  user = fresh.user;
  provider_slug = slug;
  status = linked;
  external_customer_id = token.external_customer_id;
  access_token = some token.access_token;
  refresh_token = token.refresh_token;
  oauth_state = none;
  error_reason = none;
  linked_at = some fresh.now;
}

module _ {S : Type 0} (redis : Redis Text S) (connector : Connector) where
  abbrev pub sync : Text → Connection → List RemoteAccount → Tables → Tables
  sync access_token c remote db =
      (apply_synced_accounts connector.iexact (connector.fetch_transactions access_token)
        connector.fresh c remote db).1

  -- The accounts, if the bank answers.
  unfoldable pub try_sync : Text → Connection → Answer (List RemoteAccount) → Tables → Tables
  try_sync access_token c (connector_error reason) db = db
  try_sync access_token c (ok remote) db = sync access_token c remote db

  -- A customer who is known.
  unfoldable pub repeat_login : LoginToken → Connection → Site S → Reply × Site S
  repeat_login token c site =
      let db = record site.bank { connections = save_tokens c.id token site.bank.connections } in
      (
        session c.user 200,
        record site {
          users = fill_phone c.user token.phone site.users;
          bank =
              try_sync token.access_token (with_tokens token c)
                (connector.fetch_accounts token.access_token) db;
        },
      )

  -- After the IntegrityError: the row of a customer who was created meanwhile.
  unfoldable pub on_conflict : Option Connection → Site S → Reply × Site S
  on_conflict none site = (bank_login_email_conflict, site)
  on_conflict (some c) site = (session c.user 201, site)

  -- The user and the connection, or neither, and then the accounts.
  unfoldable pub provision :
      Fresh → (slug : Text) → LoginToken → List RemoteAccount → Site S → Reply × Site S
  provision fresh slug token remote site =
      let c = new_login_connection fresh slug token in
      let email = connector.normalize_email token.email in
      if has_email email site.users || is_taken c site.bank.connections
      then on_conflict (find_customer slug token.external_customer_id site.bank.connections) site
      else (let u : User = record {
        id = fresh.user;
        name = or_bank_customer token.name;
        email = email;
        phone = some token.phone;
      } in
          (
            session fresh.user 201,
            record site {
              users = u ∷ site.users;
              bank =
                  sync token.access_token c remote
                    (record site.bank { connections = c ∷ site.bank.connections });
            },
          ))

  unfoldable pub on_accounts :
      Fresh → (slug : Text) → LoginToken → Answer (List RemoteAccount) → Site S → Reply × Site S
  on_accounts fresh slug token (connector_error reason) site = (bank_login_failed, site)
  on_accounts fresh slug token (ok remote) site = provision fresh slug token remote site

  unfoldable pub on_customer :
      Fresh → (slug : Text) → LoginToken → Option Connection → Site S → Reply × Site S
  on_customer fresh slug token (some c) site = repeat_login token c site
  on_customer fresh slug token none site =
      if has_email token.email site.users
      then (bank_login_email_conflict, site)
      else on_accounts fresh slug token (connector.fetch_accounts token.access_token) site

  unfoldable pub on_exchange : Fresh → (slug : Text) → Answer LoginToken → Site S → Reply × Site S
  on_exchange fresh slug (connector_error reason) site = (bank_login_failed, site)
  on_exchange fresh slug (ok token) site =
      on_customer fresh slug token
        (find_customer slug token.external_customer_id site.bank.connections) site

  -- `get_connector` raises for a provider that is not registered.
  unfoldable pub on_state : Fresh → (code : Text) → Option Text → Site S → Reply × Site S
  on_state fresh code none site = (invalid_oauth_state, site)
  on_state fresh code (some slug) site =
      if is_registered slug
      then on_exchange fresh slug (exchange_code_for_token connector code) site
      else (raised, site)

  -- `BankLoginCallbackView.post`
  unfoldable pub login_callback : Fresh → (code : Text) (state : ℕ) → Site S → Reply × Site S
  login_callback fresh code state site =
      let (slug, states) = redeem_state redis fresh.now state site.states in
      on_state fresh code slug (record site { states = states })

  -- `BankLoginInitiateView.post`
  unfoldable pub login_initiate :
      (state_ttl now fresh : ℕ) → (slug : Text) → Site S → Reply × Site S
  login_initiate state_ttl now fresh slug site =
      if is_registered slug
      then (let (state, states) = mint_state redis state_ttl now fresh slug site.states in
          (authorize state, record site { states = states }))
      else (unknown_provider, site)
