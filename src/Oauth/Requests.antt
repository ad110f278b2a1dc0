-- ===== src/Oauth/Requests.antt =====
-- Requests to the service as values, and sequences of them.
use nbe_financial_advisor_ba.Prelude.{ℕ, ◌≡◌, Bool, false, Option, List, [], ◌∷◌, arith, ◌==◌, All}
use nbe_financial_advisor_ba.Prelude.Dict.{get-put}
use nbe_financial_advisor_ba.Prelude.Text.{Text}
use nbe_financial_advisor_ba.Oauth.Store.{
  Store, create_challenge, pop_challenge, create_authorization_code, create_refresh_token,
}
use nbe_financial_advisor_ba.Oauth.Frame.{get_challenge-auth_codes, set_challenge_otp-auth_codes}
use nbe_financial_advisor_ba.Oauth.SingleUse.{IsSpent, consume-IsSpent}
use nbe_financial_advisor_ba.Oauth.Routes
use nbe_financial_advisor_ba.Oauth.Routes.{Env, Reply, Lookup, response, unreachable}

pub data Request : Type 0 where
  authorize :
      (client_id redirect_uri response_type : Text) (state scope : Option Text) (fresh now : ℕ)
      → Request
  login_start :
      (challenge_id : ℕ) (customer_bank_id : Text) (now_get : ℕ)
      → Lookup
      → (draw now_otp : ℕ) (mail_ok : Bool) → Request
  login_verify : (challenge_id : ℕ) (otp : Text) (now_get now_otp now_code fresh : ℕ) → Request
  token :
      (grant_type : Text) (code : ℕ) (redirect_uri client_id client_secret : Text)
      → (now fresh now_jwt now_refresh : ℕ) → Request

unfoldable pub handle : Env → Request → Store → Reply × Store
handle env (authorize client_id redirect_uri response_type state scope fresh now) s =
    Routes.authorize env client_id redirect_uri response_type state scope fresh now s
handle env (login_start challenge_id customer_bank_id now_get lookup draw now_otp mail_ok) s =
    Routes.login_start challenge_id customer_bank_id now_get lookup draw now_otp mail_ok s
handle env (login_verify challenge_id otp now_get now_otp now_code fresh) s =
    Routes.login_verify env challenge_id otp now_get now_otp now_code fresh s
handle env
      (token grant_type code redirect_uri client_id client_secret now fresh now_jwt now_refresh) s =
    Routes.token env grant_type code redirect_uri client_id client_secret now fresh now_jwt
      now_refresh s

-- The store after a sequence of requests.
unfoldable pub run : Env → List Request → Store → Store
unfolding handle
run env [] s = s
run env (q ∷ qs) s = run env qs (handle env q s).1

-- The request, should it create a code, draws another value than `code`.
abbrev pub Spares : ℕ → Request → Type 0
Spares code (login_verify _ _ _ _ _ fresh) = (fresh == code) ≡ false
Spares code _ = Unit

authorize-auth_codes :
    (env : Env) (client_id redirect_uri response_type : Text) (state scope : Option Text)
    → (fresh now : ℕ) (s : Store)
    → (Routes.authorize env client_id redirect_uri response_type state scope fresh now
        s).1.auth_codes
      ≡ s.auth_codes
unfolding Routes.authorize create_challenge
authorize-auth_codes env client_id redirect_uri response_type state scope fresh now s = ground arith

login_start-auth_codes :
    (challenge_id : ℕ) (customer_bank_id : Text) (now_get : ℕ) (lookup : Lookup)
    → (draw now_otp : ℕ) (mail_ok : Bool) (s : Store)
    → (Routes.login_start challenge_id customer_bank_id now_get lookup draw now_otp mail_ok
        s).1.auth_codes
      ≡ s.auth_codes
unfolding Routes.login_start Routes.start_for Routes.send_otp
login_start-auth_codes challenge_id customer_bank_id now_get unreachable draw now_otp mail_ok s =
    ground (arith, get_challenge-auth_codes challenge_id now_get s)
login_start-auth_codes challenge_id customer_bank_id now_get (response status customer) draw now_otp
      mail_ok s =
    grind (arith, get_challenge-auth_codes, set_challenge_otp-auth_codes)

login_verify-IsSpent :
    (code : ℕ) (env : Env) (challenge_id : ℕ) (otp : Text) (now_get now_otp now_code fresh : ℕ)
    (s : Store)
    → (fresh == code) ≡ false
    → IsSpent code s
    → IsSpent code (Routes.login_verify env challenge_id otp now_get now_otp now_code fresh s).1
unfolding Routes.login_verify Routes.verified create_authorization_code pop_challenge
login_verify-IsSpent code env challenge_id otp now_get now_otp now_code fresh s ne h r e =
    grind (arith, get_challenge-auth_codes, get-put, h)

token-IsSpent :
    (code : ℕ) (env : Env) (grant_type : Text) (c : ℕ) (redirect_uri client_id client_secret : Text)
    → (now fresh now_jwt now_refresh : ℕ) (s : Store) → IsSpent code s
    → IsSpent code
        (Routes.token env grant_type c redirect_uri client_id client_secret now fresh now_jwt
          now_refresh s).1
unfolding Routes.token create_refresh_token
token-IsSpent code env grant_type c redirect_uri client_id client_secret now fresh now_jwt
      now_refresh s h r e =
    ground (arith, h r, consume-IsSpent code c now s h r)

pub handle-IsSpent :
    (code : ℕ) (env : Env) (q : Request) (s : Store)
    → Spares code q
    → IsSpent code s
    → IsSpent code (handle env q s).1
unfolding handle
handle-IsSpent code env (authorize client_id redirect_uri response_type state scope fresh now) s sp
      h =
    rw authorize-auth_codes h
handle-IsSpent code env
      (login_start challenge_id customer_bank_id now_get lookup draw now_otp mail_ok) s sp h =
    rw login_start-auth_codes h
handle-IsSpent code env (login_verify challenge_id otp now_get now_otp now_code fresh) s sp h =
    login_verify-IsSpent code env challenge_id otp now_get now_otp now_code fresh s sp h
handle-IsSpent code env
      (token grant_type c redirect_uri client_id client_secret now fresh now_jwt now_refresh) s sp
      h =
    token-IsSpent code env grant_type c redirect_uri client_id client_secret now fresh now_jwt
      now_refresh s h

pub run-IsSpent :
    (code : ℕ) (env : Env) (qs : List Request) (s : Store)
    → All (Spares code) qs
    → IsSpent code s
    → IsSpent code (run env qs s)
unfolding run
run-IsSpent code env [] s sp h = h
run-IsSpent code env (q ∷ qs) s (sp, rest) h =
    run-IsSpent code env qs (handle env q s).1 rest (handle-IsSpent code env q s sp h)
