-- ===== src/Auth/Same.antt =====
-- Sessions of one bank customer in a sequence of logins.
use nbe_financial_advisor_ba.Prelude.{
  ℕ, ◌≡◌, refl, sym, ap, ◌∙◌, inl, inr, true, Option, none, some, List, [], ◌∷◌, arith, Bool-cases,
}
use nbe_financial_advisor_ba.Prelude.Text.{Text}
use nbe_financial_advisor_ba.Bank.Connect.{Answer, ok, connector_error, is_registered}
use nbe_financial_advisor_ba.Auth.States.{Redis, redeem_state}
use nbe_financial_advisor_ba.Auth.Token.{LoginToken, Connector, exchange_code_for_token}
use nbe_financial_advisor_ba.Auth.Login.{
  session, Site, Fresh, find_customer, repeat_login, on_customer, on_exchange, on_state,
  login_callback,
}
use nbe_financial_advisor_ba.Auth.Identity.{IsOwner, login_callback-IsOwner}
use nbe_financial_advisor_ba.Auth.Owners.{
  identify, identify-registered, with_customer_inv, exchange_owns,
}

module _ {S : Type 0} (redis : Redis Text S) (connector : Connector) where
  -- The provider of the state, and the customer that the code stands for.
  abbrev pub customer_of : Fresh → (code : Text) (state : ℕ) → Site S → Option (Text × Text)
  customer_of fresh code state site =
      identify (redeem_state redis fresh.now state site.states).0
        (exchange_code_for_token connector code)

  -- The site after the callbacks.
  abbrev pub run : List (Fresh × Text × ℕ) → Site S → Site S
  run [] site = site
  run ((fresh, code, state) ∷ rest) site =
      run rest (login_callback redis connector fresh code state site).1

  run-IsOwner :
      (slug k : Text) (u : ℕ) (callbacks : List (Fresh × Text × ℕ)) (site : Site S)
      → IsOwner slug k u site.bank.connections
      → IsOwner slug k u (run callbacks site).bank.connections
  run-IsOwner slug k u [] site owner = owner
  run-IsOwner slug k u ((fresh, code, state) ∷ rest) site owner =
      run-IsOwner slug k u rest _
        (login_callback-IsOwner redis connector slug k u fresh code state site owner)

  registered :
      (p : Text) (fresh : Fresh) (code : Text) (site : Site S)
      → is_registered p ≡ true
      → on_state redis connector fresh code (some p) site
        ≡ on_exchange redis connector fresh p (exchange_code_for_token connector code) site
  unfolding on_state
  registered p fresh code site good = rw good refl

  state_owns :
      (slug k : Text) (u status : ℕ) (fresh : Fresh) (code : Text) (provider : Option Text)
      (site : Site S)
      → identify provider (exchange_code_for_token connector code) ≡ some (slug, k)
      → (on_state redis connector fresh code provider site).0 ≡ session u status
      → IsOwner slug k u (on_state redis connector fresh code provider site).1.bank.connections
  unfolding on_state
  state_owns slug k u status fresh code none site same done = absurd (ground (arith, done))
  state_owns slug k u status fresh code (some p) site same done =
      elim (Bool-cases (is_registered p)) [
        | inr bad ↦ absurd (ground (arith, bad, done))
        | inl good ↦ rw good (
            exchange_owns redis connector slug k p u status fresh
              (exchange_code_for_token connector code) site good same
              (ap (λ r. r.0) (sym (registered p fresh code site good)) ∙ done))
      ]

  exchange_knows :
      (slug k p : Text) (u : ℕ) (fresh : Fresh) (answer : Answer LoginToken) (site : Site S)
      → is_registered p ≡ true
      → identify (some p) answer ≡ some (slug, k)
      → IsOwner slug k u site.bank.connections
      → (on_exchange redis connector fresh p answer site).0 ≡ session u 200
  unfolding on_exchange on_customer repeat_login
  exchange_knows slug k p u fresh (connector_error reason) site good same owner =
      absurd (ground (arith, same))
  exchange_knows slug k p u fresh (ok token) site good same (c, found, own) =
      let (same_p, of_k) =
        with_customer_inv p slug k token.external_customer_id (ground (arith, good, same)) in
      let known : find_customer p token.external_customer_id site.bank.connections ≡ some c =
        ap (λ q. find_customer q token.external_customer_id site.bank.connections) same_p
        ∙ ap (λ o. find_customer slug o site.bank.connections) of_k
        ∙ found in
      rw known (ap (λ v. session v 200) own)

  state_knows :
      (slug k : Text) (u : ℕ) (fresh : Fresh) (code : Text) (provider : Option Text) (site : Site S)
      → identify provider (exchange_code_for_token connector code) ≡ some (slug, k)
      → IsOwner slug k u site.bank.connections
      → (on_state redis connector fresh code provider site).0 ≡ session u 200
  state_knows slug k u fresh code none site same owner = absurd (ground (arith, same))
  state_knows slug k u fresh code (some p) site same owner =
      let good = identify-registered p (exchange_code_for_token connector code) slug k same in
      ap (λ r. r.0) (registered p fresh code site good)
      ∙ exchange_knows slug k p u fresh (exchange_code_for_token connector code) site good same
          owner

-- Once a callback has signed a bank customer in as a user, every later callback of the same customer at
-- the same provider signs in that user, whatever callbacks come between and whatever e-mail the bank
-- then names.
pub same_customer_same_user :
    {S : Type 0} (redis : Redis Text S) (connector : Connector) (slug k : Text) (u status : ℕ)
    (fresh : Fresh) (code : Text) (state : ℕ) (site : Site S) (between : List (Fresh × Text × ℕ))
    (fresh' : Fresh) (code' : Text) (state' : ℕ)
    → customer_of redis connector fresh code state site ≡ some (slug, k)
    → (login_callback redis connector fresh code state site).0 ≡ session u status
    → (let site' =
          run redis connector between (login_callback redis connector fresh code state site).1 in
        customer_of redis connector fresh' code' state' site' ≡ some (slug, k))
    → (let site' =
          run redis connector between (login_callback redis connector fresh code state site).1 in
        (login_callback redis connector fresh' code' state' site').0 ≡ session u 200)
unfolding login_callback
same_customer_same_user redis connector slug k u status fresh code state site between fresh' code'
      state' is_k signed_in is_k' =
    let site' =
      run redis connector between (login_callback redis connector fresh code state site).1 in
    let owner =
      state_owns redis connector slug k u status fresh code
        (redeem_state redis fresh.now state site.states).0 _ is_k signed_in in
    state_knows redis connector slug k u fresh' code'
      (redeem_state redis fresh'.now state' site'.states).0 _ is_k'
      (run-IsOwner redis connector slug k u between _ owner)
