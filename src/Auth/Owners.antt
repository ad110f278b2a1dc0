-- ===== src/Auth/Owners.antt =====
-- A session is of the user whose link the customer has.
use mathlib.Core.Path.{subst}
use nbe_financial_advisor_ba.Prelude.{
  ℕ, ◌≡◌, refl, sym, ap, ◌∙◌, inl, inr, true, false, Option, none, some, List, ◌∷◌, ◌||◌,
  if◌then◌else◌, arith, Bool-cases,
}
use nbe_financial_advisor_ba.Prelude.Text.{Text, text_eq_iff}
use nbe_financial_advisor_ba.Bank.Model.{option_text_eq}
use nbe_financial_advisor_ba.Bank.Accounts.{Connection, RemoteAccount}
use nbe_financial_advisor_ba.Bank.Connect.{Answer, ok, connector_error, is_registered, is_taken}
use nbe_financial_advisor_ba.Auth.States.{Redis}
use nbe_financial_advisor_ba.Auth.Token.{LoginToken, Connector}
use nbe_financial_advisor_ba.Auth.Login.{
  session, Site, Fresh, find_customer, has_email, with_tokens, new_login_connection, repeat_login,
  on_conflict, provision, on_accounts, on_customer, on_exchange,
}
use nbe_financial_advisor_ba.Auth.Identity.{
  IsOwner, save_tokens-IsOwner, sync-IsOwner, try_sync-IsOwner,
}

-- The provider and its customer, where both are known.
abbrev pub with_customer : Text → Option Text → Option (Text × Text)
with_customer slug none = none
with_customer slug (some k) = some (slug, k)

abbrev pub identify : Option Text → Answer LoginToken → Option (Text × Text)
identify none answer = none
identify (some slug) (connector_error reason) = none
identify (some slug) (ok token) =
    if is_registered slug then with_customer slug token.external_customer_id else none

pub identify-registered :
    (p : Text) (answer : Answer LoginToken) (slug k : Text)
    → identify (some p) answer ≡ some (slug, k)
    → is_registered p ≡ true
identify-registered p (connector_error reason) slug k same = absurd (ground (arith, same))
identify-registered p (ok token) slug k same = ground (arith, same)

pub with_customer_inv :
    (p slug k : Text) (o : Option Text)
    → with_customer p o ≡ some (slug, k)
    → (p ≡ slug) × (o ≡ some k)
with_customer_inv p slug k none same = absurd (ground (arith, same))
with_customer_inv p slug k (some j) same = grind (arith, same)

session_inv : (u v s t : ℕ) → session u s ≡ session v t → u ≡ v
session_inv u v s t same = grind (arith, same)

created_first :
    (slug k : Text) (fresh : Fresh) (token : LoginToken) (cs : List Connection)
    → token.external_customer_id ≡ some k
    → find_customer slug (some k) (new_login_connection fresh slug token ∷ cs)
      ≡ some (new_login_connection fresh slug token)
unfolding find_customer new_login_connection
created_first slug k fresh token cs of_k =
    rw
      (
        ap (λ o. option_text_eq o (some k)) of_k,
        (text_eq_iff slug slug).1 refl,
        (text_eq_iff k k).1 refl,
      )
      refl

module _ {S : Type 0} (redis : Redis Text S) (connector : Connector) where
  module _ (slug k : Text) (u status : ℕ) (fresh : Fresh) where
    -- The new row is of its customer.
    provision_owns :
        (token : LoginToken) (remote : List RemoteAccount) (site : Site S)
        → find_customer slug token.external_customer_id site.bank.connections ≡ none
        → token.external_customer_id ≡ some k
        → (provision redis connector fresh slug token remote site).0 ≡ session u status
        → IsOwner slug k u
            (provision redis connector fresh slug token remote site).1.bank.connections
    unfolding provision on_conflict new_login_connection
    provision_owns token remote site absent of_k =
        let n = new_login_connection fresh slug token in
        elim (Bool-cases (
          has_email (connector.normalize_email token.email) site.users
          || is_taken n site.bank.connections)) [
            | inl refused ↦ rw (refused, absent) (λ done. absurd (ground (arith, done)))
            | inr fine ↦ rw fine (λ done.
                sync-IsOwner redis connector slug k u token.access_token n remote _ (
                  n,
                  created_first slug k fresh token site.bank.connections of_k,
                  session_inv fresh.user u 201 status done,
                ))
          ]

    accounts_own :
        (token : LoginToken) (answer : Answer (List RemoteAccount)) (site : Site S)
        → find_customer slug token.external_customer_id site.bank.connections ≡ none
        → token.external_customer_id ≡ some k
        → (on_accounts redis connector fresh slug token answer site).0 ≡ session u status
        → IsOwner slug k u
            (on_accounts redis connector fresh slug token answer site).1.bank.connections
    unfolding on_accounts
    accounts_own token (connector_error reason) site absent of_k done =
        absurd (ground (arith, done))
    accounts_own token (ok remote) site absent of_k done =
        provision_owns token remote site absent of_k done

    on_new :
        (token : LoginToken) (site : Site S)
        → has_email token.email site.users ≡ false
        → (on_accounts redis connector fresh slug token
            (connector.fetch_accounts token.access_token)
            site).0
          ≡ (on_customer redis connector fresh slug token none site).0
    unfolding on_customer
    on_new token site new = rw new refl

    customer_owns :
        (token : LoginToken) (o : Option Connection) (site : Site S)
        → find_customer slug token.external_customer_id site.bank.connections ≡ o
        → token.external_customer_id ≡ some k
        → (on_customer redis connector fresh slug token o site).0 ≡ session u status
        → IsOwner slug k u (on_customer redis connector fresh slug token o site).1.bank.connections
    unfolding on_customer repeat_login
    customer_owns token (some c) site found of_k done =
        try_sync-IsOwner redis connector slug k u token.access_token (with_tokens token c)
          (connector.fetch_accounts token.access_token) _
          (save_tokens-IsOwner slug k u c.id token site.bank.connections (
            c,
            ap (λ o. find_customer slug o site.bank.connections) (sym of_k) ∙ found,
            session_inv c.user u 200 status done,
          ))
    customer_owns token none site absent of_k done =
        elim (Bool-cases (has_email token.email site.users)) [
          | inl known ↦ absurd (ground (arith, known, done))
          | inr new ↦ rw new (
              accounts_own token (connector.fetch_accounts token.access_token) site absent of_k
                (on_new token site new ∙ done))
        ]

  pub exchange_owns :
      (slug k p : Text) (u status : ℕ) (fresh : Fresh) (answer : Answer LoginToken) (site : Site S)
      → is_registered p ≡ true
      → identify (some p) answer ≡ some (slug, k)
      → (on_exchange redis connector fresh p answer site).0 ≡ session u status
      → IsOwner slug k u (on_exchange redis connector fresh p answer site).1.bank.connections
  unfolding on_exchange
  exchange_owns slug k p u status fresh (connector_error reason) site good same done =
      absurd (ground (arith, done))
  exchange_owns slug k p u status fresh (ok token) site good same done =
      let (same_p, of_k) =
        with_customer_inv p slug k token.external_customer_id (ground (arith, good, same)) in
      subst
        (λ q.
          IsOwner q k u (on_exchange redis connector fresh p (ok token) site).1.bank.connections)
        same_p
        (customer_owns p k u status fresh token
          (find_customer p token.external_customer_id site.bank.connections) site refl of_k done)
