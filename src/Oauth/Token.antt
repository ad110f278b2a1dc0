-- ===== src/Oauth/Token.antt =====
-- POST /token: when it grants a token, what the grant carries, and that no later request redeems the
-- same code.
use nbe_financial_advisor_ba.Prelude.{
  ℕ, ◌≤◌, ◌≡◌, false, none, some, arith, inl, inr, Option-cases, ◌↔◌,
}
use nbe_financial_advisor_ba.Prelude.Dict
use nbe_financial_advisor_ba.Prelude.Dict.{get-put}
use nbe_financial_advisor_ba.Prelude.Text.{Text, codes, text_eq_iff}
use nbe_financial_advisor_ba.Oauth.Store.{
  Store, AuthorizationCode, consume_authorization_code, create_refresh_token,
}
use nbe_financial_advisor_ba.Oauth.Routes.{
  Env, Reply, token_granted, Grant, token, validate_client, issue_access_token, access_token_ttl,
}

-- Everything that a token request must satisfy.
pub record Redeemable (env : Env) (grant_type : Text) (redirect_uri client_id client_secret : Text)
    (now : ℕ) (r : AuthorizationCode) : Type 0 where
  pub grant : grant_type ≡ codes "authorization_code"
  pub client : client_id ≡ env.client_id
  pub secret : client_secret ≡ env.client_secret
  pub fresh : r.used ≡ false
  pub alive : now ≤ r.expires_at
  pub same_redirect : r.redirect_uri ≡ redirect_uri
  pub same_client : r.client_id ≡ client_id

-- What a granted request is answered with.
unfoldable pub issued : Env → AuthorizationCode → (fresh now_jwt : ℕ) → Grant
issued env r fresh now_jwt = record {
  access_token = issue_access_token env r.customer_id now_jwt;
  expires_in = access_token_ttl;
  refresh_token = fresh;
  external_customer_id = r.customer_id;
  email = r.email;
  phone = r.phone;
  name = r.name;
}

module _ (env : Env) (grant_type : Text) (code : ℕ) (redirect_uri client_id client_secret : Text)
    (now fresh now_jwt now_refresh : ℕ) (s : Store) where
  abbrev reply : Reply
  reply =
      (token env grant_type code redirect_uri client_id client_secret now fresh now_jwt now_refresh
        s).0

  pub token-granted :
      (r : AuthorizationCode)
      → Dict.get s.auth_codes code ≡ some r
      → Redeemable env grant_type redirect_uri client_id client_secret now r
      → reply ≡ token_granted (issued env r fresh now_jwt)
  unfolding token consume_authorization_code validate_client create_refresh_token issued
  token-granted r known ok = ground (
    arith,
    text_eq_iff grant_type (codes "authorization_code"),
    text_eq_iff client_id env.client_id,
    text_eq_iff client_secret env.client_secret,
    text_eq_iff r.redirect_uri redirect_uri,
    text_eq_iff r.client_id client_id,
  )

  granted-Redeemable :
      (r : AuthorizationCode)
      → Dict.get s.auth_codes code ≡ some r
      → (g : Grant) → reply ≡ token_granted g
      → Redeemable env grant_type redirect_uri client_id client_secret now r
        × (g ≡ issued env r fresh now_jwt)
  unfolding token consume_authorization_code validate_client create_refresh_token issued
  granted-Redeemable r known g h = (
    ground (
      arith,
      text_eq_iff grant_type (codes "authorization_code"),
      text_eq_iff client_id env.client_id,
      text_eq_iff client_secret env.client_secret,
      text_eq_iff r.redirect_uri redirect_uri,
      text_eq_iff r.client_id client_id,
    ),
    ground arith,
  )

  unknown-refused : Dict.get s.auth_codes code ≡ none → (g : Grant) → ¬ (reply ≡ token_granted g)
  unfolding token consume_authorization_code
  unknown-refused unknown g h = ground arith

  -- A token request is granted exactly when its grant type and client credentials are right, the
  -- code is known, unused and unexpired, and its redirect URI and client are those of the request;
  -- the grant is then the one made out to the customer of the code.
  pub token_granted_iff :
      (g : Grant)
      → (reply ≡ token_granted g) ↔ (
          (r : AuthorizationCode) × (Dict.get s.auth_codes code ≡ some r)
          × Redeemable env grant_type redirect_uri client_id client_secret now r
          × (g ≡ issued env r fresh now_jwt))
  token_granted_iff g = (
    λ h. elim (Option-cases (Dict.get s.auth_codes code)) [
      | inl unknown ↦ absurd (unknown-refused unknown g h)
      | inr (r, known) ↦ let (ok, same) = granted-Redeemable r known g h in (r, known, ok, same)
    ],
    λ (r, known, ok, same). rw same (token-granted r known ok),
  )
