-- ===== src/Oauth/Routes.antt =====
-- The route handlers of mock-bank-oauth/app: /authorize, /login/start, /login/verify and /token.
-- A handler takes the times that it reads from the clock, in order, and the random values that it
-- draws; the customer directory's reply and the mail server's outcome are arguments too. The HTML
-- of a page is left out: a reply says which page it is and what data it carries.
use nbe_financial_advisor_ba.Prelude.{
  ℕ, ◌+◌, ◌*◌, ◌/◌, Bool, true, false, Option, none, some, List, ◌++◌, ◌∷◌, [], ◌&&◌, ◌||◌, not,
  leb, ◌==◌, if◌then◌else◌,
}
use nbe_financial_advisor_ba.Prelude.Text.{
  Text, codes, text_eq, is_blank, has_char, has_text, strip,
}
use nbe_financial_advisor_ba.Oauth.Store.{
  second, Challenge, AuthorizationCode, Store, otp_is_expired, create_challenge, get_challenge,
  set_challenge_otp, pop_challenge, create_authorization_code, consume_authorization_code,
  create_refresh_token,
}

-- The claims of an access token; `provider` is always "mock_bank".
pub record Claims : Type 0 where
  pub sub : Text
  pub iat : ℕ
  pub exp : ℕ

-- The query string of the final redirect.
pub record QueryParams : Type 0 where
  pub code : ℕ
  pub state : Option Text

-- The configuration, and the two library calls whose code is not here: `urllib.parse.urlencode`
-- and `authlib.jose.jwt.encode`.
pub record Env : Type 0 where
  pub client_id : Text
  pub client_secret : Text
  pub allowed_redirect_uris : List Text
  pub jwt_secret : Text
  pub urlencode : QueryParams → Text
  pub jwt_encode : Claims → Text → Text

-- The reply of the customer directory to the lookup by /login/start.
pub record CustomerRecord : Type 0 where
  pub customer_id : Option Text
  pub email : Option Text
  pub phone : Option Text
  pub name : Option Text

pub data Lookup : Type 0 where
  unreachable : Lookup
  response : (status : ℕ) → CustomerRecord → Lookup

pub data TokenError : Type 0 where
  unsupported_grant_type invalid_client invalid_grant : TokenError

pub record Grant : Type 0 where
  pub access_token : Text
  pub expires_in : ℕ
  pub refresh_token : ℕ
  pub external_customer_id : Text
  pub email : Option Text
  pub phone : Option Text
  pub name : Option Text

-- `verify_page` also names the message that was mailed before it was served; `server_error` is an
-- exception that no handler catches.
pub data Reply : Type 0 where
  error_page : (status : ℕ) → Reply
  login_page : (challenge_id : ℕ) → Reply
  verify_page : (challenge_id : ℕ) (mailed_to otp : Text) → Reply
  redirect : (url : Text) → Reply
  token_error : TokenError → Reply
  token_granted : Grant → Reply
  server_error : Reply

abbrev pub access_token_ttl : ℕ
access_token_ttl = 60 * 60

-- `not texts`
no_texts : List Text → Bool
no_texts [] = true
no_texts (_ ∷ _) = false

-- The guards of GET /authorize, in order: true if a challenge is created.
unfoldable pub authorize_accepts : Env → (client_id redirect_uri response_type : Text) → Bool
unfolding no_texts
authorize_accepts env client_id redirect_uri response_type =
    if not (text_eq client_id env.client_id)
    then false
    else if not (text_eq response_type (codes "code"))
    then false
    else if is_blank redirect_uri
    then false
    else not (
        not (no_texts env.allowed_redirect_uris)
        && not (has_text redirect_uri env.allowed_redirect_uris))

-- GET /authorize: each failed guard serves the same kind of error page.
unfoldable pub authorize :
    Env
    → (client_id redirect_uri response_type : Text) (state scope : Option Text) (fresh now : ℕ)
    → Store
    → Reply × Store
authorize env client_id redirect_uri response_type state scope fresh now s =
    if authorize_accepts env client_id redirect_uri response_type
    then (let (challenge, s') = create_challenge fresh client_id redirect_uri state scope now s in
        (login_page challenge.challenge_id, s'))
    else (error_page 400, s)

-- What /login/start does once the directory has named the customer.
unfoldable pub send_otp :
    (challenge_id : ℕ) (customer_id email phone : Text) (name : Option Text) (draw now : ℕ)
    → (mail_ok : Bool) → Store
    → Reply × Store
send_otp challenge_id customer_id email phone name draw now mail_ok s =
    let (otp, s') = set_challenge_otp challenge_id customer_id email phone name draw now s in
    elim otp [
      | none ↦ (server_error, s')
      | some code ↦ (if mail_ok then verify_page challenge_id email code else error_page 502, s')
    ]

-- `not x` fails for each of the three.
collect : Option Text → Option Text → Option Text → Option (Text × Text × Text)
collect (some customer_id) (some email) (some phone) =
    if is_blank customer_id || is_blank email || is_blank phone
    then none
    else some (customer_id, email, phone)
collect _ _ _ = none

-- The three fields that /login/start requires of the directory's record.
required_fields : CustomerRecord → Option (Text × Text × Text)
unfolding collect
required_fields r = collect r.customer_id r.email r.phone

unfoldable pub start_for :
    Lookup → (challenge_id draw now : ℕ) (mail_ok : Bool) → Store → Reply × Store
unfolding required_fields
start_for unreachable challenge_id draw now mail_ok s = (error_page 502, s)
start_for (response status customer) challenge_id draw now mail_ok s =
    if status == 404
    then (error_page 404, s)
    else if leb 400 status
    then (error_page 502, s)
    else elim (required_fields customer) [
      | none ↦ (error_page 502, s)
      | some (customer_id, email, phone) ↦
          send_otp challenge_id customer_id email phone customer.name draw now mail_ok s
    ]

-- POST /login/start
unfoldable pub login_start :
    (challenge_id : ℕ) (customer_bank_id : Text) (now_get : ℕ)
    → Lookup
    → (draw now_otp : ℕ) (mail_ok : Bool) → Store
    → Reply × Store
login_start challenge_id customer_bank_id now_get lookup draw now_otp mail_ok s =
    let (found, s') = get_challenge challenge_id now_get s in
    elim found [
      | none ↦ (error_page 404, s')
      | some _ ↦
          if is_blank (strip customer_bank_id)
          then (error_page 400, s')
          else start_for lookup challenge_id draw now_otp mail_ok s'
    ]

accept :
    Option Text
    → (customer_id phone : Option Text) (expired : Bool) (submitted : Text) → Option Text
accept (some otp) (some customer_id) (some phone) expired submitted =
    if expired || not (text_eq submitted otp) then none else some customer_id
accept _ _ _ expired submitted = none

-- What the challenge must hold for the submitted code to be accepted: the customer and the OTP.
unfoldable pub verified : Challenge → (otp : Text) (now : ℕ) → Option Text
unfolding accept
verified c otp now = accept c.otp c.customer_id c.phone (otp_is_expired c now) (strip otp)

-- The redirect back to the caller.
unfoldable pub redirect_url : Env → Challenge → (code : ℕ) → Text
redirect_url env c code =
    let separator : Text = if has_char b'?' c.redirect_uri then codes "&" else codes "?" in
    let params : QueryParams = record { code = code; state = c.state } in
    c.redirect_uri ++ (separator ++ env.urlencode params)

-- POST /login/verify
unfoldable pub login_verify :
    Env
    → (challenge_id : ℕ) (otp : Text) (now_get now_otp now_code fresh : ℕ) → Store
    → Reply × Store
login_verify env challenge_id otp now_get now_otp now_code fresh s =
    let (found, s₁) = get_challenge challenge_id now_get s in
    elim found [
      | none ↦ (error_page 400, s₁)
      | some c ↦ elim (verified c otp now_otp) [
        | none ↦ (error_page 400, s₁)
        | some customer_id ↦
            let (code, s₂) =
              create_authorization_code fresh c.client_id c.redirect_uri customer_id c.email c.phone
                c.name now_code s₁ in
            let (_, s₃) = pop_challenge challenge_id s₂ in
            (redirect (redirect_url env c code.code), s₃)
      ]
    ]

-- `validate_client`: false is `OAuthError("invalid_client")`.
unfoldable pub validate_client : Env → (client_id client_secret : Text) → Bool
validate_client env client_id client_secret =
    text_eq client_id env.client_id && text_eq client_secret env.client_secret

unfoldable pub issue_access_token : Env → (customer_id : Text) (now : ℕ) → Text
issue_access_token env customer_id now =
    let iat = now / second in
    let claims : Claims = record { sub = customer_id; iat = iat; exp = iat + access_token_ttl } in
    env.jwt_encode claims env.jwt_secret

grant_for :
    Env
    → AuthorizationCode
    → (client_id : Text) (fresh now_jwt now_refresh : ℕ) → Store
    → Reply × Store
grant_for env r client_id fresh now_jwt now_refresh s =
    let access_token : Text = issue_access_token env r.customer_id now_jwt in
    let (refresh_token, s') = create_refresh_token fresh client_id r.customer_id now_refresh s in
    let grant : Grant = record {
      access_token = access_token;
      expires_in = access_token_ttl;
      refresh_token = refresh_token;
      external_customer_id = r.customer_id;
      email = r.email;
      phone = r.phone;
      name = r.name;
    } in
    (token_granted grant, s')

-- POST /token
unfoldable pub token :
    Env
    → (grant_type : Text) (code : ℕ) (redirect_uri client_id client_secret : Text)
    → (now fresh now_jwt now_refresh : ℕ) → Store
    → Reply × Store
unfolding grant_for
token env grant_type code redirect_uri client_id client_secret now fresh now_jwt now_refresh s =
    if not (text_eq grant_type (codes "authorization_code"))
    then (token_error unsupported_grant_type, s)
    else if not (validate_client env client_id client_secret)
    then (token_error invalid_client, s)
    else let (found, s') = consume_authorization_code code now s in
      elim found [
        | none ↦ (token_error invalid_grant, s')
        | some r ↦
            if not (text_eq r.redirect_uri redirect_uri) || not (text_eq r.client_id client_id)
            then (token_error invalid_grant, s')
            else grant_for env r client_id fresh now_jwt now_refresh s'
      ]
