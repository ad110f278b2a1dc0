-- ===== src/Oauth/Flow.antt =====
-- The whole login: /authorize, /login/start, /login/verify and /token, one after the other.
use nbe_financial_advisor_ba.Prelude.{
  ℕ, ◌+◌, ◌≤◌, ◌≡◌, refl, true, false, Option, none, some, arith,
}
use nbe_financial_advisor_ba.Prelude.Dict
use nbe_financial_advisor_ba.Prelude.Dict.{get-put}
use nbe_financial_advisor_ba.Prelude.Text.{Text, codes, is_blank, strip, six_digits}
use nbe_financial_advisor_ba.Oauth.Store.{
  Store, Challenge, create_challenge, get_challenge, set_challenge_otp, challenge_ttl, otp_ttl,
  auth_code_ttl,
}
use nbe_financial_advisor_ba.Oauth.Routes.{
  Env, Grant, Reply, token_granted, CustomerRecord, response, authorize_accepts, authorize,
  login_start, start_for, send_otp, login_verify, token,
}
use nbe_financial_advisor_ba.Oauth.Login.{Answered, minted, answered_redirects}
use nbe_financial_advisor_ba.Oauth.Token.{issued, token-granted}

-- What the client, the customer, the directory, the clock and the random source contribute.
pub record Session : Type 0 where
  pub redirect_uri : Text
  pub state : Option Text
  pub scope : Option Text
  pub customer_bank_id : Text
  pub customer : CustomerRecord
  pub customer_id : Text
  pub email : Text
  pub phone : Text
  pub typed_otp : Text
  pub challenge_id : ℕ
  pub draw : ℕ
  pub code : ℕ
  pub refresh : ℕ
  pub authorized_at : ℕ
  pub started_at : ℕ
  pub otp_sent_at : ℕ
  pub verified_at : ℕ
  pub otp_checked_at : ℕ
  pub code_created_at : ℕ
  pub redeemed_at : ℕ

-- The client is configured, the directory knows the customer, the customer types the OTP that was
-- sent, and each step is taken before what it uses expires.
pub record Proceeds (env : Env) (l : Session) : Type 0 where
  pub accepted : authorize_accepts env env.client_id l.redirect_uri (codes "code") ≡ true
  pub named : is_blank (strip l.customer_bank_id) ≡ false
  pub has_id : l.customer.customer_id ≡ some l.customer_id
  pub has_email : l.customer.email ≡ some l.email
  pub has_phone : l.customer.phone ≡ some l.phone
  pub id_nonempty : is_blank l.customer_id ≡ false
  pub email_nonempty : is_blank l.email ≡ false
  pub phone_nonempty : is_blank l.phone ≡ false
  pub otp_typed : strip l.typed_otp ≡ six_digits l.draw
  pub start_in_time : l.started_at ≤ l.authorized_at + challenge_ttl
  pub verify_in_time : l.verified_at ≤ l.authorized_at + challenge_ttl
  pub otp_in_time : l.otp_checked_at ≤ l.otp_sent_at + otp_ttl
  pub redeem_in_time : l.redeemed_at ≤ l.code_created_at + auth_code_ttl

module _ (env : Env) (l : Session) (s : Store) where
  abbrev pub after_authorize : Store
  after_authorize =
      (authorize env env.client_id l.redirect_uri (codes "code") l.state l.scope l.challenge_id
        l.authorized_at s).1

  abbrev pub after_start : Store
  after_start =
      (login_start l.challenge_id l.customer_bank_id l.started_at (response 200 l.customer) l.draw
        l.otp_sent_at true after_authorize).1

  abbrev pub after_verify : Store
  after_verify =
      (login_verify env l.challenge_id l.typed_otp l.verified_at l.otp_checked_at l.code_created_at
        l.code after_start).1

  abbrev pub final_reply : Reply
  final_reply =
      (token env (codes "authorization_code") l.code l.redirect_uri env.client_id env.client_secret
        l.redeemed_at l.refresh l.redeemed_at l.redeemed_at after_verify).0

  abbrev pub opened : Challenge
  opened = record {
    challenge_id = l.challenge_id;
    client_id = env.client_id;
    redirect_uri = l.redirect_uri;
    state = l.state;
    scope = l.scope;
    created_at = l.authorized_at;
    expires_at = l.authorized_at + challenge_ttl;
    customer_id = none;
    email = none;
    phone = none;
    name = none;
    otp = none;
    otp_expires_at = none;
  }

  abbrev pub challenged : Challenge
  challenged = record opened {
    customer_id = some l.customer_id;
    email = some l.email;
    phone = some l.phone;
    name = l.customer.name;
    otp = some (six_digits l.draw);
    otp_expires_at = some (l.otp_sent_at + otp_ttl);
  }

  module _ (p : Proceeds env l) where
    opens : Dict.get after_authorize.challenges l.challenge_id ≡ some opened
    unfolding authorize create_challenge
    opens = ground (arith, p.accepted, get-put s.challenges l.challenge_id l.challenge_id opened)

    challenges : Dict.get after_start.challenges l.challenge_id ≡ some challenged
    unfolding login_start start_for send_otp get_challenge set_challenge_otp
    challenges =
        ground (
          arith,
          opens,
          get-put after_authorize.challenges l.challenge_id l.challenge_id challenged,
        )

    answers : Answered challenged l.customer_id l.typed_otp l.verified_at l.otp_checked_at
    answers = record {
      alive = p.verify_in_time;
      code = rw p.otp_typed;
      customer = refl;
      phone = (l.phone, refl);
      in_time = (l.otp_sent_at + otp_ttl, refl, p.otp_in_time);
    }

    granted :
        final_reply
        ≡ token_granted (
            issued env
              (minted challenged l.customer_id l.code l.code_created_at)
              l.refresh
              l.redeemed_at)
    unfolding minted
    granted =
        token-granted env (codes "authorization_code") l.code l.redirect_uri env.client_id
          env.client_secret l.redeemed_at l.refresh l.redeemed_at l.redeemed_at after_verify
          (minted challenged l.customer_id l.code l.code_created_at)
          (answered_redirects env l.challenge_id l.typed_otp l.verified_at l.otp_checked_at
            l.code_created_at l.code after_start challenged l.customer_id challenges answers).2
          (record {
            grant = refl;
            client = refl;
            secret = refl;
            fresh = refl;
            alive = p.redeem_in_time;
            same_redirect = refl;
            same_client = refl;
          })

    -- A login whose steps all proceed ends with a token made out to the customer that the directory
    -- named, whatever else the store holds.
    pub login_completes :
        (g : Grant) × (final_reply ≡ token_granted g)
        × (g.external_customer_id ≡ l.customer_id)
        × (g.email ≡ some l.email)
        × (g.phone ≡ some l.phone)
    unfolding minted issued
    login_completes = (_, granted, refl, refl, refl)
