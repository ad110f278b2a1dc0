-- ===== src/Oauth/Replay.antt =====
-- POST /token burns the code that it reads, also where it goes on to refuse the request.
use nbe_financial_advisor_ba.Prelude.{ℕ, ◌≤◌, ◌≡◌, true, false, some, List, arith, All}
use nbe_financial_advisor_ba.Prelude.Dict
use nbe_financial_advisor_ba.Prelude.Dict.{get-put}
use nbe_financial_advisor_ba.Prelude.Text.{Text, codes, text_eq_iff}
use nbe_financial_advisor_ba.Oauth.Store.{
  Store, AuthorizationCode, consume_authorization_code, create_refresh_token,
}
use nbe_financial_advisor_ba.Oauth.SingleUse.{IsSpent}
use nbe_financial_advisor_ba.Oauth.Routes.{Env, Reply, token_granted, Grant, token, validate_client}
use nbe_financial_advisor_ba.Oauth.Requests.{Request, Spares, run, run-IsSpent}
use nbe_financial_advisor_ba.Oauth.Token.{token_granted_iff}

-- The arguments of one token request.
pub record TokenRequest : Type 0 where
  pub grant_type : Text
  pub redirect_uri : Text
  pub client_id : Text
  pub client_secret : Text
  pub now : ℕ
  pub fresh : ℕ
  pub now_jwt : ℕ
  pub now_refresh : ℕ

abbrev pub redeem : Env → ℕ → TokenRequest → Store → Reply × Store
redeem env code q s =
    token env q.grant_type code q.redirect_uri q.client_id q.client_secret q.now q.fresh q.now_jwt
      q.now_refresh s

module _ (env : Env) (code : ℕ) (q : TokenRequest) (s : Store) (r : AuthorizationCode) where
  redeem-IsSpent :
      q.grant_type ≡ codes "authorization_code"
      → q.client_id ≡ env.client_id
      → q.client_secret ≡ env.client_secret
      → Dict.get s.auth_codes code ≡ some r
      → r.used ≡ false
      → q.now ≤ r.expires_at
      → IsSpent code (redeem env code q s).1
  unfolding token validate_client consume_authorization_code create_refresh_token
  redeem-IsSpent gt ci cs known fresh alive p e = ground (
    arith,
    text_eq_iff q.grant_type (codes "authorization_code"),
    text_eq_iff q.client_id env.client_id,
    text_eq_iff q.client_secret env.client_secret,
    get-put s.auth_codes code code (record r { used = true }),
  )

  -- A request with the right grant type and client that reads a live code burns it, whether or not
  -- its redirect URI fits: after any further requests that do not create the code again, no token
  -- request with that code is granted.
  pub burned_code_refused :
      q.grant_type ≡ codes "authorization_code"
      → q.client_id ≡ env.client_id
      → q.client_secret ≡ env.client_secret
      → Dict.get s.auth_codes code ≡ some r
      → r.used ≡ false
      → q.now ≤ r.expires_at
      → (between : List Request) → All (Spares code) between
      → (q' : TokenRequest) (g : Grant)
      → ¬ ((redeem env code q' (run env between (redeem env code q s).1)).0 ≡ token_granted g)
  burned_code_refused gt ci cs known fresh alive between spared q' g granted =
      let after : Store = run env between (redeem env code q s).1 in
      let (r', known', ok, _) =
        (token_granted_iff env q'.grant_type code q'.redirect_uri q'.client_id q'.client_secret
            q'.now q'.fresh q'.now_jwt q'.now_refresh after g).0
          granted in
      let spent : r'.used ≡ true =
        run-IsSpent code env between (redeem env code q s).1 spared
          (redeem-IsSpent gt ci cs known fresh alive) r' known' in
      cc (ok.fresh, spent)
