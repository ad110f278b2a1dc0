-- ===== src/Oauth/Tests.antt =====
-- The OAuth theorems at concrete inputs.
use nbe_financial_advisor_ba.Prelude.{
  ◌+◌, ◌*◌, ◌≤◌, ◌≡◌, refl, true, false, none, some, List, [], ◌∷◌, ◌++◌, arith,
}
use nbe_financial_advisor_ba.Prelude.Dict
use nbe_financial_advisor_ba.Prelude.Dict.{Dict}
use nbe_financial_advisor_ba.Prelude.Text.{
  Text, codes, text_eq, strip, lstrip, is_space, digit, six_digits, has_char, has_text,
}
use nbe_financial_advisor_ba.Oauth.Store.{
  Store, AuthorizationCode, Challenge, empty_store, challenge_ttl, otp_ttl, auth_code_ttl,
  create_authorization_code, create_challenge, get_challenge, set_challenge_otp, otp_is_expired,
  pop_challenge, consume_authorization_code, second,
}
use nbe_financial_advisor_ba.Oauth.SingleUse.{Op, redemptions, redemptions-le-one}
use nbe_financial_advisor_ba.Oauth.Routes
use nbe_financial_advisor_ba.Oauth.Routes.{
  response, start_for, send_otp, verified, Env, Reply, Grant, token, token_granted, redirect,
  redirect_url, login_verify, CustomerRecord, authorize_accepts,
}
use nbe_financial_advisor_ba.Oauth.Token.{Redeemable, issued, token_granted_iff}
use nbe_financial_advisor_ba.Oauth.Requests.{Request, run, authorize, login_start}
use nbe_financial_advisor_ba.Oauth.Replay.{TokenRequest, redeem, burned_code_refused}
use nbe_financial_advisor_ba.Oauth.Login.{Answered, redirect_iff}
use nbe_financial_advisor_ba.Oauth.Binding.{Allowed, redirect-Allowed}
use nbe_financial_advisor_ba.Oauth.Flow.{Session, Proceeds, final_reply, login_completes}

abbrev callback : Text
callback = codes "https://app/cb"

abbrev env : Env
env = record {
  client_id = codes "nbe";
  client_secret = codes "s3";
  allowed_redirect_uris = callback ∷ [];
  jwt_secret = codes "key";
  urlencode = λ q. codes "code=" ++ (48 + q.code) ∷ [];
  jwt_encode = λ c k. c.sub ++ k;
}

abbrev code_record : AuthorizationCode
code_record = record {
  code = 7;
  client_id = codes "nbe";
  redirect_uri = callback;
  customer_id = codes "c-1";
  created_at = 0;
  expires_at = auth_code_ttl;
  email = some (codes "a@b");
  phone = some (codes "+20100000");
  name = none;
  used = false;
}

abbrev with_code : Store
with_code = record empty_store { auth_codes = Dict.put Dict.empty 7 code_record }

abbrev two_tries : List Op
two_tries =
    Op.consume_authorization_code 7 5
    ∷ Op.get_challenge 1 6
    ∷ Op.consume_authorization_code 7 8
    ∷ []

-- Of two tries the first succeeds.
redeemed_once : redemptions 7 two_tries with_code ≡ 1
unfolding redemptions consume_authorization_code get_challenge Dict.get Dict.put Dict.empty
    Dict.remove
redeemed_once = refl

redemptions-le-one_example : redemptions 7 two_tries with_code ≤ 1
redemptions-le-one_example = redemptions-le-one 7 two_tries with_code (tt, (tt, (tt, tt)))

abbrev first_try : TokenRequest
first_try = record {
  grant_type = codes "authorization_code";
  redirect_uri = callback;
  client_id = codes "nbe";
  client_secret = codes "s3";
  now = second;
  fresh = 20;
  now_jwt = second;
  now_refresh = second;
}

code_known : Dict.get with_code.auth_codes 7 ≡ some code_record
unfolding Dict.get Dict.put Dict.empty
code_known = refl

code-Redeemable :
    Redeemable env
      (codes "authorization_code")
      callback
      (codes "nbe")
      (codes "s3")
      second
      code_record
code-Redeemable = record {
  grant = refl;
  client = refl;
  secret = refl;
  fresh = refl;
  alive = omega arith;
  same_redirect = refl;
  same_client = refl;
}

token_granted_iff_example :
    (token env
      (codes "authorization_code")
      7
      callback
      (codes "nbe")
      (codes "s3")
      second
      20
      second
      second
      with_code).0
    ≡ token_granted (issued env code_record 20 second)
token_granted_iff_example =
    (token_granted_iff env (codes "authorization_code") 7 callback (codes "nbe") (codes "s3") second
        20 second second with_code (issued env code_record 20 second)).1
      (code_record, code_known, code-Redeemable, refl)

abbrev elsewhere : TokenRequest
elsewhere = record first_try { redirect_uri = codes "https://evil" }

abbrev another_login : List Request
another_login = authorize (codes "nbe") callback (codes "code") none none 3 second ∷ []

-- A request with the wrong redirect URI has burned the code for the right one.
burned_code_refused_example : ¬ (
    (redeem env 7 first_try (run env another_login (redeem env 7 elsewhere with_code).1)).0
    ≡ token_granted (issued env code_record 20 second))
burned_code_refused_example =
    burned_code_refused env 7 elsewhere with_code code_record refl refl refl code_known refl
      (omega arith) another_login (tt, tt) first_try (issued env code_record 20 second)

abbrev challenge : Challenge
challenge = record {
  challenge_id = 1;
  client_id = codes "nbe";
  redirect_uri = callback;
  state = none;
  scope = none;
  created_at = 0;
  expires_at = challenge_ttl;
  customer_id = some (codes "c-1");
  email = some (codes "a@b");
  phone = some (codes "+20100000");
  name = none;
  otp = some (codes "004217");
  otp_expires_at = some otp_ttl;
}

abbrev with_challenge : Store
with_challenge = record empty_store { challenges = Dict.put Dict.empty 1 challenge }

challenge_known : Dict.get with_challenge.challenges 1 ≡ some challenge
unfolding Dict.get Dict.put Dict.empty
challenge_known = refl

challenge-Answered : Answered challenge (codes "c-1") (codes " 004217\n") 9 9
unfolding strip lstrip is_space
challenge-Answered = record {
  alive = omega arith;
  code = refl;
  customer = refl;
  phone = (codes "+20100000", refl);
  in_time = (otp_ttl, refl, omega arith);
}

redirect_iff_example :
    (login_verify env 1 (codes " 004217\n") 9 9 9 7 with_challenge).0
    ≡ redirect (redirect_url env challenge 7)
redirect_iff_example =
    (redirect_iff env 1 (codes " 004217\n") 9 9 9 7 with_challenge (redirect_url env challenge 7)).1
      (challenge, codes "c-1", challenge_known, challenge-Answered, refl)

abbrev customer : CustomerRecord
customer = record {
  customer_id = some (codes "c-1");
  email = some (codes "a@b");
  phone = some (codes "+20100000");
  name = none;
}

abbrev session : Session
session = record {
  redirect_uri = callback;
  state = none;
  scope = none;
  customer_bank_id = codes "CB1";
  customer = customer;
  customer_id = codes "c-1";
  email = codes "a@b";
  phone = codes "+20100000";
  typed_otp = codes "004217 ";
  challenge_id = 1;
  draw = 4217;
  code = 7;
  refresh = 20;
  authorized_at = 0;
  started_at = second;
  otp_sent_at = 2 * second;
  verified_at = 60 * second;
  otp_checked_at = 60 * second;
  code_created_at = 60 * second;
  redeemed_at = 61 * second;
}

session_accepted : authorize_accepts env env.client_id callback (codes "code") ≡ true
unfolding authorize_accepts text_eq has_text
session_accepted = refl

session-Proceeds : Proceeds env session
unfolding strip lstrip is_space six_digits digit
session-Proceeds = record {
  accepted = session_accepted;
  named = refl;
  has_id = refl;
  has_email = refl;
  has_phone = refl;
  id_nonempty = refl;
  email_nonempty = refl;
  phone_nonempty = refl;
  otp_typed = refl;
  start_in_time = omega arith;
  verify_in_time = omega arith;
  otp_in_time = omega arith;
  redeem_in_time = omega arith;
}

login_completes_example :
    (g : Grant) × (final_reply env session empty_store ≡ token_granted g)
    × (g.external_customer_id ≡ codes "c-1")
    × (g.email ≡ some (codes "a@b"))
    × (g.phone ≡ some (codes "+20100000"))
login_completes_example = login_completes env session empty_store session-Proceeds

abbrev login_so_far : List Request
login_so_far =
    authorize (codes "nbe") callback (codes "code") none none 1 0
    ∷ login_start 1 (codes "CB1") 5 (response 200 customer) 4217 6 true
    ∷ []

abbrev final_url : Text
final_url = callback ++ (codes "?" ++ codes "code=7")

redirected :
    (login_verify env 1 (codes "004217") 9 9 9 7 (run env login_so_far empty_store)).0
    ≡ redirect final_url
unfolding run login_verify verified redirect_url Routes.authorize authorize_accepts
    Routes.login_start start_for send_otp create_challenge get_challenge set_challenge_otp
    otp_is_expired pop_challenge create_authorization_code Dict.get Dict.put Dict.remove Dict.empty
    text_eq has_text has_char strip lstrip is_space six_digits digit
redirected = refl

redirect-Allowed_example :
    (uri : Text) × (rest : Text) × (final_url ≡ uri ++ rest) × Allowed env env.client_id uri
redirect-Allowed_example =
    redirect-Allowed env login_so_far 1 (codes "004217") 9 9 9 7 final_url redirected
