-- ===== src/Auth/Once.antt =====
-- The OAuth state of a login, and a login that is refused.
use mathlib.Core.Path.{subst}
use nbe_financial_advisor_ba.Prelude.{
  ℕ, ◌≡◌, refl, sym, ◌⊎◌, inl, inr, Bool, true, false, Option, none, some, List, [], ◌∷◌, ◌||◌,
  Bool-cases,
}
use nbe_financial_advisor_ba.Prelude.Text.{Text}
use nbe_financial_advisor_ba.Bank.Accounts.{Connection, RemoteAccount}
use nbe_financial_advisor_ba.Bank.Connect.{Answer, ok, connector_error, is_registered, is_taken}
use nbe_financial_advisor_ba.Auth.States.{Redis, IsRedis, redeem_state}
use nbe_financial_advisor_ba.Auth.Token.{LoginToken, Connector, exchange_code_for_token}
use nbe_financial_advisor_ba.Auth.Login.{
  Reply, invalid_oauth_state, session, Site, Fresh, find_customer, has_email, new_login_connection,
  repeat_login, on_conflict, provision, on_accounts, on_customer, on_exchange, on_state,
  login_callback,
}
use nbe_financial_advisor_ba.Auth.Same.{run}

abbrev pub is_session : Reply → Bool
is_session (session user status) = true
is_session _ = false

module _ {S : Type 0} (redis : Redis Text S) (connector : Connector) where
  -- No handler touches the states, and one that gives no session changes no table.
  abbrev IsEnded : Site S → Reply × Site S → Type 0
  IsEnded site (reply, site') =
      (site'.states ≡ site.states)
      × ((is_session reply ≡ true) ⊎ ((site'.users ≡ site.users) × (site'.bank ≡ site.bank)))

  conflict-IsEnded :
      (o : Option Connection) (site : Site S) → IsEnded site (on_conflict redis connector o site)
  unfolding on_conflict
  conflict-IsEnded none site = (refl, inr (refl, refl))
  conflict-IsEnded (some c) site = (refl, inl refl)

  accounts-IsEnded :
      (fresh : Fresh) (slug : Text) (token : LoginToken) (answer : Answer (List RemoteAccount))
      (site : Site S)
      → IsEnded site (on_accounts redis connector fresh slug token answer site)
  unfolding on_accounts provision
  accounts-IsEnded fresh slug token (connector_error reason) site = (refl, inr (refl, refl))
  accounts-IsEnded fresh slug token (ok remote) site =
      elim (Bool-cases (
        has_email (connector.normalize_email token.email) site.users
        || is_taken (new_login_connection fresh slug token) site.bank.connections)) [
          | inl refused ↦ rw refused (conflict-IsEnded _ site)
          | inr fine ↦ rw fine (refl, inl refl)
        ]

  customer-IsEnded :
      (fresh : Fresh) (slug : Text) (token : LoginToken) (o : Option Connection) (site : Site S)
      → IsEnded site (on_customer redis connector fresh slug token o site)
  unfolding on_customer repeat_login
  customer-IsEnded fresh slug token (some c) site = (refl, inl refl)
  customer-IsEnded fresh slug token none site =
      elim (Bool-cases (has_email token.email site.users)) [
        | inl known ↦ rw known (refl, inr (refl, refl))
        | inr new ↦
            rw new
              (accounts-IsEnded fresh slug token (connector.fetch_accounts token.access_token) site)
      ]

  exchange-IsEnded :
      (fresh : Fresh) (slug : Text) (answer : Answer LoginToken) (site : Site S)
      → IsEnded site (on_exchange redis connector fresh slug answer site)
  unfolding on_exchange
  exchange-IsEnded fresh slug (connector_error reason) site = (refl, inr (refl, refl))
  exchange-IsEnded fresh slug (ok token) site =
      customer-IsEnded fresh slug token
        (find_customer slug token.external_customer_id site.bank.connections) site

  state-IsEnded :
      (fresh : Fresh) (code : Text) (slug : Option Text) (site : Site S)
      → IsEnded site (on_state redis connector fresh code slug site)
  unfolding on_state
  state-IsEnded fresh code none site = (refl, inr (refl, refl))
  state-IsEnded fresh code (some slug) site = elim (Bool-cases (is_registered slug)) [
    | inl good ↦ rw good (exchange-IsEnded fresh slug (exchange_code_for_token connector code) site)
    | inr bad ↦ rw bad (refl, inr (refl, refl))
  ]

  -- The state is in the store at no time.
  abbrev IsGone : ℕ → S → Type 0
  IsGone state s = (t : ℕ) → (redis.getdel t state s).0 ≡ none

  callback-states :
      (fresh : Fresh) (code : Text) (state : ℕ) (site : Site S)
      → (login_callback redis connector fresh code state site).1.states
        ≡ (redis.getdel fresh.now state site.states).1
  unfolding login_callback redeem_state
  callback-states fresh code state site =
      (state-IsEnded fresh code (redis.getdel fresh.now state site.states).0
        (record site { states = (redis.getdel fresh.now state site.states).1 })).0

  ended :
      (fresh : Fresh) (code : Text) (state : ℕ) (site : Site S)
      → (let (reply, site') = login_callback redis connector fresh code state site in
          (is_session reply ≡ true) ⊎ ((site'.users ≡ site.users) × (site'.bank ≡ site.bank)))
  unfolding login_callback redeem_state
  ended fresh code state site =
      (state-IsEnded fresh code (redis.getdel fresh.now state site.states).0
        (record site { states = (redis.getdel fresh.now state site.states).1 })).1

  run-IsGone :
      (laws : IsRedis redis) (state : ℕ) (between : List (Fresh × Text × ℕ)) (site : Site S)
      → IsGone state site.states
      → IsGone state (run redis connector between site).states
  run-IsGone laws state [] site gone = gone
  run-IsGone laws state ((fresh, code, other) ∷ rest) site gone = run-IsGone laws state rest _ (
      subst (IsGone state) (sym (callback-states fresh code other site))
        (λ t. laws.stays_gone fresh.now t state other site.states gone))

  gone-refused :
      (fresh : Fresh) (code : Text) (state : ℕ) (site : Site S)
      → IsGone state site.states
      → (login_callback redis connector fresh code state site).0 ≡ invalid_oauth_state
  unfolding login_callback redeem_state on_state
  gone-refused fresh code state site gone = rw (gone fresh.now) refl

-- A callback that gives no session changes no user and no table of the banks. Whatever it answers, its
-- state is spent: every later callback with it is refused, whatever callbacks come between.
pub login_callback_once :
    {S : Type 0} (redis : Redis Text S) (laws : IsRedis redis) (connector : Connector)
    (fresh : Fresh) (code : Text) (state : ℕ) (site : Site S) (between : List (Fresh × Text × ℕ))
    (fresh' : Fresh) (code' : Text)
    → (let (reply, site') = login_callback redis connector fresh code state site in
        ((is_session reply ≡ true) ⊎ ((site'.users ≡ site.users) × (site'.bank ≡ site.bank)))
        × ((login_callback redis connector fresh' code' state (run redis connector between site')).0
            ≡ invalid_oauth_state))
login_callback_once redis laws connector fresh code state site between fresh' code' = (
  ended redis connector fresh code state site,
  gone-refused redis connector fresh' code' state _ (
      run-IsGone redis connector laws state between _ (
        subst (IsGone redis connector state)
          (sym (callback-states redis connector fresh code state site))
          (λ t. laws.taken fresh.now t state site.states))),
)
