-- ===== src/Auth/Identity.antt =====
-- Which user a bank customer is.
use mathlib.Core.Path.{subst}
use nbe_financial_advisor_ba.Prelude.{
  ℕ, ◌≡◌, refl, sym, ap, ◌∙◌, inl, inr, Bool, true, Option, none, some, List, [], ◌∷◌, ◌&&◌, ◌||◌,
  ◌==◌, if◌then◌else◌, arith, Bool-cases,
}
use nbe_financial_advisor_ba.Prelude.Text.{Text, text_eq, text_eq_iff}
use nbe_financial_advisor_ba.Bank.Model.{option_text_eq}
use nbe_financial_advisor_ba.Bank.Accounts.{
  Connection, RemoteAccount, Tables, delete_shadows, apply_synced_accounts,
}
use nbe_financial_advisor_ba.Bank.Connect.{Answer, ok, connector_error, is_registered, is_taken}
use nbe_financial_advisor_ba.Auth.States.{Redis, redeem_state}
use nbe_financial_advisor_ba.Auth.Token.{LoginToken, Connector, exchange_code_for_token}
use nbe_financial_advisor_ba.Auth.Login.{
  Site, Fresh, find_customer, has_email, with_tokens, save_tokens, new_login_connection, sync,
  try_sync, repeat_login, on_conflict, provision, on_accounts, on_customer, on_exchange, on_state,
  login_callback,
}

abbrev is_of : Text → Option Text → Connection → Bool
is_of slug customer c =
    text_eq c.provider_slug slug && option_text_eq c.external_customer_id customer

-- The first link of the customer at the provider is of the user.
abbrev pub IsOwner : (slug customer : Text) (user : ℕ) → List Connection → Type 0
IsOwner slug customer user cs =
    (c : Connection) × (find_customer slug (some customer) cs ≡ some c) × (c.user ≡ user)

abbrev retoken : ℕ → LoginToken → Connection → Connection
retoken id token c = if c.id == id then with_tokens token c else c

abbrev retoken_found : ℕ → LoginToken → Option Connection → Option Connection
retoken_found id token none = none
retoken_found id token (some c) = some (retoken id token c)

find_customer-save_tokens :
    (slug : Text) (k : Option Text) (id : ℕ) (token : LoginToken) (cs : List Connection)
    → find_customer slug k (save_tokens id token cs)
      ≡ retoken_found id token (find_customer slug k cs)
unfolding find_customer save_tokens
find_customer-save_tokens slug k id token [] = refl
find_customer-save_tokens slug k id token (d ∷ cs) =
    let rest = find_customer-save_tokens slug k id token cs in
    elim (Bool-cases (d.id == id)) [
      | inl same ↦ elim (Bool-cases (is_of slug k d)) [
        | inl match ↦ rw (same, match, same) refl
        | inr other ↦ rw (same, other) rest
      ]
      | inr apart ↦ elim (Bool-cases (is_of slug k d)) [
        | inl match ↦ rw (apart, match, apart) refl
        | inr other ↦ rw (apart, other) rest
      ]
    ]

retoken-user : (id : ℕ) (token : LoginToken) (c : Connection) → (retoken id token c).user ≡ c.user
retoken-user id token c = elim (Bool-cases (c.id == id)) [
  | inl same ↦ rw same refl
  | inr apart ↦ rw apart refl
]

pub save_tokens-IsOwner :
    (slug k : Text) (u id : ℕ) (token : LoginToken) (cs : List Connection)
    → IsOwner slug k u cs
    → IsOwner slug k u (save_tokens id token cs)
save_tokens-IsOwner slug k u id token cs (c, found, own) = (
  retoken id token c,
  find_customer-save_tokens slug (some k) id token cs ∙ ap (retoken_found id token) found,
  retoken-user id token c ∙ own,
)

delete_shadows-connections :
    (iexact : Text → Text → Bool) (user : ℕ) (remote : List RemoteAccount) (db : Tables)
    → (delete_shadows iexact user remote db).connections ≡ db.connections
unfolding delete_shadows
delete_shadows-connections iexact user [] db = refl
delete_shadows-connections iexact user (r ∷ remote) db = refl

option_text_eq-some : (o : Option Text) (s : Text) → option_text_eq o (some s) ≡ true → o ≡ some s
option_text_eq-some none s same = absurd (ground arith)
option_text_eq-some (some t) s same = ap (λ x. some x) ((text_eq_iff t s).0 same)

-- A new link of another customer does not come before the first one.
added-IsOwner :
    (slug k : Text) (u : ℕ) (n : Connection) (cs : List Connection)
    → find_customer n.provider_slug n.external_customer_id cs ≡ none
    → IsOwner slug k u cs
    → IsOwner slug k u (n ∷ cs)
unfolding find_customer
added-IsOwner slug k u n cs absent (c, found, own) = elim (Bool-cases (is_of slug (some k) n)) [
  | inr other ↦ (c, rw other found, own)
  | inl match ↦
      let same_slug : n.provider_slug ≡ slug =
        (text_eq_iff n.provider_slug slug).0 (ground (arith, match)) in
      let same_customer : n.external_customer_id ≡ some k =
        option_text_eq-some n.external_customer_id k (ground (arith, match)) in
      let impossible : none ≡ some c =
        sym absent
        ∙ ap (λ t. find_customer t n.external_customer_id cs) same_slug
        ∙ ap (λ o. find_customer slug o cs) same_customer
        ∙ found in
      absurd (ground (arith, impossible))
]

module _ {S : Type 0} (redis : Redis Text S) (connector : Connector) (slug k : Text) (u : ℕ) where
  pub sync-IsOwner :
      (access_token : Text) (c : Connection) (remote : List RemoteAccount) (db : Tables)
      → IsOwner slug k u db.connections
      → IsOwner slug k u (sync redis connector access_token c remote db).connections
  unfolding apply_synced_accounts
  sync-IsOwner access_token c remote db owner =
      subst (IsOwner slug k u) (sym (delete_shadows-connections connector.iexact c.user remote db))
        owner

  pub try_sync-IsOwner :
      (access_token : Text) (c : Connection) (answer : Answer (List RemoteAccount)) (db : Tables)
      → IsOwner slug k u db.connections
      → IsOwner slug k u (try_sync redis connector access_token c answer db).connections
  unfolding try_sync
  try_sync-IsOwner access_token c (connector_error reason) db owner = owner
  try_sync-IsOwner access_token c (ok remote) db owner = sync-IsOwner access_token c remote db owner

  on_conflict-IsOwner :
      (o : Option Connection) (site : Site S)
      → IsOwner slug k u site.bank.connections
      → IsOwner slug k u (on_conflict redis connector o site).1.bank.connections
  unfolding on_conflict
  on_conflict-IsOwner none site owner = owner
  on_conflict-IsOwner (some c) site owner = owner

  provision-IsOwner :
      (fresh : Fresh) (provider : Text) (token : LoginToken) (remote : List RemoteAccount)
      (site : Site S)
      → find_customer provider token.external_customer_id site.bank.connections ≡ none
      → IsOwner slug k u site.bank.connections
      → IsOwner slug k u
          (provision redis connector fresh provider token remote site).1.bank.connections
  unfolding provision new_login_connection
  provision-IsOwner fresh provider token remote site absent owner =
      elim (Bool-cases (
        has_email (connector.normalize_email token.email) site.users
        || is_taken (new_login_connection fresh provider token) site.bank.connections)) [
          | inl refused ↦ rw refused (on_conflict-IsOwner _ site owner)
          | inr fine ↦ rw fine (
              sync-IsOwner token.access_token (new_login_connection fresh provider token) remote _ (
                added-IsOwner slug k u (new_login_connection fresh provider token)
                  site.bank.connections absent owner))
        ]

  on_customer-IsOwner :
      (fresh : Fresh) (provider : Text) (token : LoginToken) (o : Option Connection) (site : Site S)
      → find_customer provider token.external_customer_id site.bank.connections ≡ o
      → IsOwner slug k u site.bank.connections
      → IsOwner slug k u
          (on_customer redis connector fresh provider token o site).1.bank.connections
  unfolding on_customer repeat_login on_accounts
  on_customer-IsOwner fresh provider token (some c) site looked owner =
      try_sync-IsOwner token.access_token (with_tokens token c)
        (connector.fetch_accounts token.access_token) _
        (save_tokens-IsOwner slug k u c.id token site.bank.connections owner)
  on_customer-IsOwner fresh provider token none site absent owner =
      elim (Bool-cases (has_email token.email site.users)) [
        | inl known ↦ rw known owner
        | inr new ↦ rw new (fetched (connector.fetch_accounts token.access_token))
      ]
    where
      fetched :
          (answer : Answer (List RemoteAccount))
          → IsOwner slug k u
              (on_accounts redis connector fresh provider token answer site).1.bank.connections
      fetched (connector_error reason) = owner
      fetched (ok remote) = provision-IsOwner fresh provider token remote site absent owner

  on_exchange-IsOwner :
      (fresh : Fresh) (provider : Text) (answer : Answer LoginToken) (site : Site S)
      → IsOwner slug k u site.bank.connections
      → IsOwner slug k u (on_exchange redis connector fresh provider answer site).1.bank.connections
  unfolding on_exchange
  on_exchange-IsOwner fresh provider (connector_error reason) site owner = owner
  on_exchange-IsOwner fresh provider (ok token) site owner =
      on_customer-IsOwner fresh provider token
        (find_customer provider token.external_customer_id site.bank.connections) site refl owner

  on_state-IsOwner :
      (fresh : Fresh) (code : Text) (provider : Option Text) (site : Site S)
      → IsOwner slug k u site.bank.connections
      → IsOwner slug k u (on_state redis connector fresh code provider site).1.bank.connections
  unfolding on_state
  on_state-IsOwner fresh code none site owner = owner
  on_state-IsOwner fresh code (some provider) site owner =
      elim (Bool-cases (is_registered provider)) [
        | inl good ↦
            rw good (
              on_exchange-IsOwner fresh provider (exchange_code_for_token connector code) site
                owner)
        | inr bad ↦ rw bad owner
      ]

  -- No callback gives the customer to another user.
  pub login_callback-IsOwner :
      (fresh : Fresh) (code : Text) (state : ℕ) (site : Site S)
      → IsOwner slug k u site.bank.connections
      → IsOwner slug k u (login_callback redis connector fresh code state site).1.bank.connections
  unfolding login_callback
  login_callback-IsOwner fresh code state site owner =
      let (provider, states) = redeem_state redis fresh.now state site.states in
      on_state-IsOwner fresh code provider (record site { states = states }) owner
