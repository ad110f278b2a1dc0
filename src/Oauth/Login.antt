-- ===== src/Oauth/Login.antt =====
-- POST /login/verify: when it redirects, and what it leaves in the store.
use nbe_financial_advisor_ba.Prelude.{
  ℕ, ◌+◌, ◌≤◌, ◌≡◌, false, none, some, arith, inl, inr, Option-cases, ◌↔◌,
}
use nbe_financial_advisor_ba.Prelude.Dict
use nbe_financial_advisor_ba.Prelude.Dict.{get-put, get-remove, get-empty}
use nbe_financial_advisor_ba.Prelude.Text.{Text, text_eq_iff, strip}
use nbe_financial_advisor_ba.Oauth.Store.{
  Store, Challenge, AuthorizationCode, get_challenge, otp_is_expired, pop_challenge,
  create_authorization_code, auth_code_ttl,
}
use nbe_financial_advisor_ba.Oauth.Routes.{
  Env, Reply, redirect, login_verify, verified, redirect_url,
}

-- The challenge is unexpired, has been given an OTP that is unexpired and equal to the submitted
-- text without surrounding spaces, and names the customer.
pub record Answered (c : Challenge) (customer_id otp : Text) (now_get now_otp : ℕ) : Type 0 where
  pub alive : now_get ≤ c.expires_at
  pub code : c.otp ≡ some (strip otp)
  pub customer : c.customer_id ≡ some customer_id
  pub phone : (p : Text) × (c.phone ≡ some p)
  pub in_time : (t : ℕ) × (c.otp_expires_at ≡ some t) × (now_otp ≤ t)

-- The code that a verified login is given.
unfoldable pub minted : Challenge → (customer_id : Text) (fresh now : ℕ) → AuthorizationCode
minted c customer_id fresh now = record {
  code = fresh;
  client_id = c.client_id;
  redirect_uri = c.redirect_uri;
  customer_id = customer_id;
  created_at = now;
  expires_at = now + auth_code_ttl;
  email = c.email;
  phone = c.phone;
  name = c.name;
  used = false;
}

module _ (env : Env) (challenge_id : ℕ) (otp : Text) (now_get now_otp now_code fresh : ℕ)
    (s : Store) where
  abbrev outcome : Reply × Store
  outcome = login_verify env challenge_id otp now_get now_otp now_code fresh s

  unknown_challenge :
      Dict.get s.challenges challenge_id ≡ none → (url : Text) → ¬ (outcome.0 ≡ redirect url)
  unfolding login_verify get_challenge
  unknown_challenge unknown url h = ground arith

  -- An answered challenge redirects, is deleted, and leaves in the store exactly the code minted for
  -- its client, redirect URI and customer.
  pub answered_redirects :
      (c : Challenge) (customer_id : Text)
      → Dict.get s.challenges challenge_id ≡ some c
      → Answered c customer_id otp now_get now_otp
      → (outcome.0 ≡ redirect (redirect_url env c fresh))
        × (Dict.get outcome.1.challenges challenge_id ≡ none)
        × (Dict.get outcome.1.auth_codes fresh ≡ some (minted c customer_id fresh now_code))
  unfolding login_verify verified get_challenge otp_is_expired create_authorization_code
      pop_challenge minted
  answered_redirects c customer_id known a = ground (
    arith,
    text_eq_iff (strip otp) (strip otp),
    get-remove s.challenges challenge_id challenge_id,
    get-put s.auth_codes fresh fresh (minted c customer_id fresh now_code),
  )

  redirect-Answered :
      (c : Challenge)
      → Dict.get s.challenges challenge_id ≡ some c
      → (url : Text) → outcome.0 ≡ redirect url
      → (customer_id : Text) × Answered c customer_id otp now_get now_otp
  unfolding login_verify verified get_challenge otp_is_expired
  redirect-Answered c known url h = elim (Option-cases c.customer_id) [
    | inl no_customer ↦ absurd (ground arith)
    | inr (customer_id, customer) ↦ elim (Option-cases c.phone) [
      | inl no_phone ↦ absurd (ground arith)
      | inr (p, phone) ↦ elim (Option-cases c.otp_expires_at) [
        | inl no_otp ↦ absurd (ground arith)
        | inr (t, expires) ↦ elim (Option-cases c.otp) [
          | inl no_code ↦ absurd (ground arith)
          | inr (code, sent) ↦ (
            customer_id,
            record {
              alive = ground arith;
              code = ground (arith, text_eq_iff (strip otp) code);
              customer = customer;
              phone = (p, phone);
              in_time = (t, expires, ground arith);
            },
          )
        ]
      ]
    ]
  ]

  -- A login is answered by a redirect exactly when its challenge is known and answered: unexpired,
  -- with an unexpired OTP equal to the submitted text up to surrounding spaces, and with a customer
  -- and a phone number. The redirect carries the new code to the URI of the challenge.
  pub redirect_iff :
      (url : Text)
      → (outcome.0 ≡ redirect url) ↔ (
          (c : Challenge) × (customer_id : Text) × (Dict.get s.challenges challenge_id ≡ some c)
          × Answered c customer_id otp now_get now_otp
          × (url ≡ redirect_url env c fresh))
  redirect_iff url = (
    λ h. elim (Option-cases (Dict.get s.challenges challenge_id)) [
      | inl unknown ↦ absurd (unknown_challenge unknown url h)
      | inr (c, known) ↦
          let (customer_id, answered) = redirect-Answered c known url h in
          (
            c,
            customer_id,
            known,
            answered,
            cc (h, (answered_redirects c customer_id known answered).0),
          )
    ],
    λ (c, customer_id, known, answered, same).
        rw same (answered_redirects c customer_id known answered).0,
  )
