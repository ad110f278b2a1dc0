-- ===== src/Oauth/Binding.antt =====
-- Every login challenge and every authorization code belongs to the configured client and to an
-- allowed redirect URI, so the service redirects to no other place.
use nbe_financial_advisor_ba.Prelude.{
  ℕ, ◌≡◌, Bool, true, false, Option, some, List, [], ◌∷◌, ◌++◌, arith, ◌⊎◌, inl, inr, Option-cases,
  Bool-cases,
}
use nbe_financial_advisor_ba.Prelude.Dict
use nbe_financial_advisor_ba.Prelude.Dict.{get-put, get-remove, get-empty}
use nbe_financial_advisor_ba.Prelude.Text.{Text, text_eq_iff, has_text, is_blank}
use nbe_financial_advisor_ba.Oauth.Store.{
  Store, Challenge, AuthorizationCode, create_challenge, get_challenge, set_challenge_otp,
  pop_challenge, create_authorization_code, consume_authorization_code, create_refresh_token,
  empty_store,
}
use nbe_financial_advisor_ba.Oauth.Routes
use nbe_financial_advisor_ba.Oauth.Routes.{
  Env, Reply, redirect, Lookup, response, unreachable, authorize_accepts,
}
use nbe_financial_advisor_ba.Oauth.Login.{redirect_iff}
use nbe_financial_advisor_ba.Oauth.Requests.{
  Request, handle, run, authorize, login_start, login_verify, token,
}

-- The client is the configured one, the URI is not empty, and it is on the list if there is one.
pub record Allowed (env : Env) (client_id redirect_uri : Text) : Type 0 where
  pub client : client_id ≡ env.client_id
  pub nonempty : is_blank redirect_uri ≡ false
  pub listed :
      (env.allowed_redirect_uris ≡ []) ⊎ (has_text redirect_uri env.allowed_redirect_uris ≡ true)

abbrev ChallengeOk : Env → Challenge → Type 0
ChallengeOk env c = Allowed env c.client_id c.redirect_uri

abbrev CodeOk : Env → AuthorizationCode → Type 0
CodeOk env r = Allowed env r.client_id r.redirect_uri

pub record IsBound (env : Env) (s : Store) : Type 0 where
  pub challenges_ok :
      (k : ℕ) (c : Challenge)
      → Dict.get s.challenges k ≡ some c
      → Allowed env c.client_id c.redirect_uri
  pub codes_ok :
      (k : ℕ) (r : AuthorizationCode)
      → Dict.get s.auth_codes k ≡ some r
      → Allowed env r.client_id r.redirect_uri

module _ (env : Env) where
  accepts-Allowed :
      (client_id redirect_uri response_type : Text)
      → authorize_accepts env client_id redirect_uri response_type ≡ true
      → Allowed env client_id redirect_uri
  unfolding authorize_accepts
  accepts-Allowed client_id redirect_uri response_type h =
      ground (arith, text_eq_iff client_id env.client_id)

  authorize-IsBound :
      (client_id redirect_uri response_type : Text) (state scope : Option Text) (fresh now : ℕ)
      → (s : Store) → IsBound env s
      → IsBound env
          (Routes.authorize env client_id redirect_uri response_type state scope fresh now s).1
  unfolding Routes.authorize create_challenge
  authorize-IsBound client_id redirect_uri response_type state scope fresh now s b =
      elim (Bool-cases (authorize_accepts env client_id redirect_uri response_type)) [
        | inl accepted ↦ rw accepted (record {
          challenges_ok = λ k c e. grind (
            arith,
            get-put,
            b.challenges_ok k c,
            accepts-Allowed client_id redirect_uri response_type accepted,
          );
          codes_ok = b.codes_ok;
        })
        | inr refused ↦ rw refused b
      ]

  get_challenge-IsBound :
      (challenge_id now : ℕ) (s : Store)
      → IsBound env s
      → IsBound env (get_challenge challenge_id now s).1
  unfolding get_challenge
  get_challenge-IsBound challenge_id now s b = record {
    challenges_ok = λ k c e. grind (arith, get-remove, b.challenges_ok k c);
    codes_ok = λ k r e. grind (arith, b.codes_ok k r);
  }

  get_challenge-Allowed :
      (challenge_id now : ℕ) (s : Store) (c : Challenge)
      → IsBound env s
      → (get_challenge challenge_id now s).0 ≡ some c
      → Allowed env c.client_id c.redirect_uri
  unfolding get_challenge
  get_challenge-Allowed challenge_id now s c b e = ground (arith, b.challenges_ok challenge_id c)

  set_challenge_otp-IsBound :
      (challenge_id : ℕ) (customer_id email phone : Text) (name : Option Text) (draw now : ℕ)
      → (s : Store) → IsBound env s
      → IsBound env (set_challenge_otp challenge_id customer_id email phone name draw now s).1
  unfolding set_challenge_otp
  set_challenge_otp-IsBound challenge_id customer_id email phone name draw now s b =
      elim (Option-cases (Dict.get s.challenges challenge_id)) [
        | inl unknown ↦ rw unknown b
        | inr (c, known) ↦ rw known (record {
          challenges_ok =
              λ k d e. grind (arith, get-put, b.challenges_ok k d, b.challenges_ok challenge_id c);
          codes_ok = b.codes_ok;
        })
      ]

  send_otp-IsBound :
      (challenge_id : ℕ) (customer_id email phone : Text) (name : Option Text) (draw now : ℕ)
      → (mail_ok : Bool) (s : Store) → IsBound env s
      → IsBound env (Routes.send_otp challenge_id customer_id email phone name draw now mail_ok s).1
  unfolding Routes.send_otp
  send_otp-IsBound challenge_id customer_id email phone name draw now mail_ok s b =
      let kept = set_challenge_otp-IsBound challenge_id customer_id email phone name draw now s b in
      elim (Option-cases
        (set_challenge_otp challenge_id customer_id email phone name draw now s).0) [
          | inl lost ↦ rw (lost, Routes.send_otp) kept
          | inr (otp, set) ↦ rw (set, Routes.send_otp) kept
        ]

  start_for-IsBound :
      (lookup : Lookup) (challenge_id draw now : ℕ) (mail_ok : Bool) (s : Store)
      → IsBound env s
      → IsBound env (Routes.start_for lookup challenge_id draw now mail_ok s).1
  unfolding Routes.start_for
  start_for-IsBound unreachable challenge_id draw now mail_ok s b = b
  start_for-IsBound (response status customer) challenge_id draw now mail_ok s b =
      grind (arith, b, send_otp-IsBound)

  login_start-IsBound :
      (challenge_id : ℕ) (customer_bank_id : Text) (now_get : ℕ) (lookup : Lookup)
      → (draw now_otp : ℕ) (mail_ok : Bool) (s : Store) → IsBound env s
      → IsBound env
          (Routes.login_start challenge_id customer_bank_id now_get lookup draw now_otp mail_ok s).1
  unfolding Routes.login_start
  login_start-IsBound challenge_id customer_bank_id now_get lookup draw now_otp mail_ok s b =
      let (found, s') = get_challenge challenge_id now_get s in
      grind (
        arith,
        get_challenge-IsBound challenge_id now_get s b,
        start_for-IsBound lookup challenge_id draw now_otp mail_ok
            (get_challenge challenge_id now_get s).1,
      )

  login_verify-IsBound :
      (challenge_id : ℕ) (otp : Text) (now_get now_otp now_code fresh : ℕ) (s : Store)
      → IsBound env s
      → IsBound env (Routes.login_verify env challenge_id otp now_get now_otp now_code fresh s).1
  unfolding Routes.login_verify Routes.verified create_authorization_code pop_challenge
  login_verify-IsBound challenge_id otp now_get now_otp now_code fresh s b =
      let before = get_challenge-IsBound challenge_id now_get s b in
      record {
        challenges_ok = λ k c e. grind (arith, get-remove, before.challenges_ok k c);
        codes_ok = λ k r e. grind (
          arith,
          get-put,
          before.codes_ok k r,
          λ (c : Challenge). get_challenge-Allowed challenge_id now_get s c b,
        );
      }

  consume-IsBound :
      (code now : ℕ) (s : Store)
      → IsBound env s
      → IsBound env (consume_authorization_code code now s).1
  unfolding consume_authorization_code
  consume-IsBound code now s b = elim (Option-cases (Dict.get s.auth_codes code)) [
    | inl unknown ↦ rw unknown b
    | inr (r, known) ↦ rw known (record {
      challenges_ok = λ k c e. ground (arith, b.challenges_ok k c);
      codes_ok = λ k q e. grind (arith, get-put, b.codes_ok k q, b.codes_ok code r);
    })
  ]

  token-IsBound :
      (grant_type : Text) (code : ℕ) (redirect_uri client_id client_secret : Text)
      → (now fresh now_jwt now_refresh : ℕ) (s : Store) → IsBound env s
      → IsBound env
          (Routes.token env grant_type code redirect_uri client_id client_secret now fresh now_jwt
            now_refresh s).1
  unfolding Routes.token create_refresh_token
  token-IsBound grant_type code redirect_uri client_id client_secret now fresh now_jwt now_refresh s
        b =
      let kept = consume-IsBound code now s b in
      record {
        challenges_ok = λ k c e. ground (arith, b.challenges_ok k c, kept.challenges_ok k c);
        codes_ok = λ k r e. ground (arith, b.codes_ok k r, kept.codes_ok k r);
      }

  handle-IsBound : (q : Request) (s : Store) → IsBound env s → IsBound env (handle env q s).1
  unfolding handle
  handle-IsBound (authorize client_id redirect_uri response_type state scope fresh now) s b =
      authorize-IsBound client_id redirect_uri response_type state scope fresh now s b
  handle-IsBound (login_start challenge_id customer_bank_id now_get lookup draw now_otp mail_ok) s
        b =
      login_start-IsBound challenge_id customer_bank_id now_get lookup draw now_otp mail_ok s b
  handle-IsBound (login_verify challenge_id otp now_get now_otp now_code fresh) s b =
      login_verify-IsBound challenge_id otp now_get now_otp now_code fresh s b
  handle-IsBound
        (token grant_type code redirect_uri client_id client_secret now fresh now_jwt now_refresh) s
        b =
      token-IsBound grant_type code redirect_uri client_id client_secret now fresh now_jwt
        now_refresh s b

  pub run-IsBound : (qs : List Request) (s : Store) → IsBound env s → IsBound env (run env qs s)
  unfolding run
  run-IsBound [] s b = b
  run-IsBound (q ∷ qs) s b = run-IsBound qs (handle env q s).1 (handle-IsBound q s b)

  IsBound-empty : IsBound env empty_store
  IsBound-empty = record {
    challenges_ok = λ k c e. cc (get-empty {V = Challenge} k);
    codes_ok = λ k r e. cc (get-empty {V = AuthorizationCode} k);
  }

  -- A service that starts empty redirects, after any requests, only to a URL that begins with an
  -- allowed redirect URI.
  pub redirect-Allowed :
      (qs : List Request) (challenge_id : ℕ) (otp : Text) (now_get now_otp now_code fresh : ℕ)
      (url : Text)
      → (Routes.login_verify env challenge_id otp now_get now_otp now_code fresh
          (run env qs empty_store)).0
        ≡ redirect url
      → (uri : Text) × (rest : Text) × (url ≡ uri ++ rest) × Allowed env env.client_id uri
  unfolding Routes.redirect_url
  redirect-Allowed qs challenge_id otp now_get now_otp now_code fresh url h =
      let s : Store = run env qs empty_store in
      let (c, _, known, _, same) =
        (redirect_iff env challenge_id otp now_get now_otp now_code fresh s url).0 h in
      let ok = (run-IsBound qs empty_store IsBound-empty).challenges_ok challenge_id c known in
      (c.redirect_uri, _, same, rw ok.client at ok)
