-- ===== src/Oauth/Store.antt =====
-- mock-bank-oauth/app/store.py: the tables of login challenges, authorization codes and refresh
-- tokens, with one function for each of the module's functions. Each function holds the module's
-- lock for all of its table accesses, so it is one atomic step here. Times are whole ticks of
-- `time.time()`; random identifiers and tokens are numbers, since they are only compared, and enter
-- as arguments.
use nbe_financial_advisor_ba.Prelude.{
  ℕ, ◌+◌, ◌*◌, Bool, true, false, Option, none, some, ◌||◌, ltb, if◌then◌else◌,
}
use nbe_financial_advisor_ba.Prelude.Dict
use nbe_financial_advisor_ba.Prelude.Dict.{Dict}
use nbe_financial_advisor_ba.Prelude.Text.{Text, six_digits}

-- Ticks in a second: `time.time()` is read in microseconds.
abbrev pub second : ℕ
second = 1000000

abbrev pub challenge_ttl : ℕ
challenge_ttl = 5 * 60 * second

abbrev pub otp_ttl : ℕ
otp_ttl = 5 * 60 * second

abbrev pub auth_code_ttl : ℕ
auth_code_ttl = 60 * second

pub record Challenge : Type 0 where
  pub challenge_id : ℕ
  pub client_id : Text
  pub redirect_uri : Text
  pub state : Option Text
  pub scope : Option Text
  pub created_at : ℕ
  pub expires_at : ℕ
  pub customer_id : Option Text
  pub email : Option Text
  pub phone : Option Text
  pub name : Option Text
  pub otp : Option Text
  pub otp_expires_at : Option ℕ

pub record AuthorizationCode : Type 0 where
  pub code : ℕ
  pub client_id : Text
  pub redirect_uri : Text
  pub customer_id : Text
  pub created_at : ℕ
  pub expires_at : ℕ
  pub email : Option Text
  pub phone : Option Text
  pub name : Option Text
  pub used : Bool

pub record RefreshToken : Type 0 where
  pub token : ℕ
  pub client_id : Text
  pub customer_id : Text
  pub created_at : ℕ

pub record Store : Type 0 where
  pub challenges : Dict Challenge
  pub auth_codes : Dict AuthorizationCode
  pub refresh_tokens : Dict RefreshToken

abbrev pub empty_store : Store
empty_store = record {
  challenges = Dict.empty;
  auth_codes = Dict.empty;
  refresh_tokens = Dict.empty;
}

-- `Challenge.is_expired`
abbrev pub challenge_is_expired : Challenge → ℕ → Bool
challenge_is_expired c now = ltb c.expires_at now

after : Option ℕ → ℕ → Bool
after none now = true
after (some t) now = ltb t now

-- `Challenge.otp_is_expired`
unfoldable pub otp_is_expired : Challenge → ℕ → Bool
unfolding after
otp_is_expired c now = after c.otp_expires_at now

-- `AuthorizationCode.is_expired`
abbrev pub code_is_expired : AuthorizationCode → ℕ → Bool
code_is_expired r now = ltb r.expires_at now

unfoldable pub create_challenge :
    (fresh : ℕ) (client_id redirect_uri : Text) (state scope : Option Text) (now : ℕ)
    → Store
    → Challenge × Store
create_challenge fresh client_id redirect_uri state scope now s =
    let challenge : Challenge = record {
      challenge_id = fresh;
      client_id = client_id;
      redirect_uri = redirect_uri;
      state = state;
      scope = scope;
      created_at = now;
      expires_at = now + challenge_ttl;
      customer_id = none;
      email = none;
      phone = none;
      name = none;
      otp = none;
      otp_expires_at = none;
    } in
    (challenge, record s { challenges = Dict.put s.challenges fresh challenge })

evict : Option Challenge → ℕ → ℕ → Store → Option Challenge × Store
evict none challenge_id now s = (none, s)
evict (some c) challenge_id now s =
    if challenge_is_expired c now
    then (none, record s { challenges = Dict.remove s.challenges challenge_id })
    else (some c, s)

unfoldable pub get_challenge : (challenge_id now : ℕ) → Store → Option Challenge × Store
unfolding evict
get_challenge challenge_id now s = evict (Dict.get s.challenges challenge_id) challenge_id now s

-- `KeyError` is `none`; the OTP is drawn before the lock is taken.
attach_otp :
    Option Challenge
    → (challenge_id : ℕ) (customer_id email phone : Text) (name : Option Text) → (draw now : ℕ)
    → Store
    → Option Text × Store
attach_otp none challenge_id customer_id email phone name draw now s = (none, s)
attach_otp (some c) challenge_id customer_id email phone name draw now s =
    let otp : Text = six_digits draw in
    let challenge : Challenge = record c {
      customer_id = some customer_id;
      email = some email;
      phone = some phone;
      name = name;
      otp = some otp;
      otp_expires_at = some (now + otp_ttl);
    } in
    (some otp, record s { challenges = Dict.put s.challenges challenge_id challenge })

unfoldable pub set_challenge_otp :
    (challenge_id : ℕ) (customer_id email phone : Text) (name : Option Text) (draw now : ℕ)
    → Store
    → Option Text × Store
unfolding attach_otp
set_challenge_otp challenge_id customer_id email phone name draw now s =
    attach_otp (Dict.get s.challenges challenge_id) challenge_id customer_id email phone name draw
      now s

unfoldable pub pop_challenge : (challenge_id : ℕ) → Store → Option Challenge × Store
pop_challenge challenge_id s = (
  Dict.get s.challenges challenge_id,
  record s { challenges = Dict.remove s.challenges challenge_id },
)

unfoldable pub delete_challenge : (challenge_id : ℕ) → Store → Store
delete_challenge challenge_id s = record s { challenges = Dict.remove s.challenges challenge_id }

unfoldable pub create_authorization_code :
    (fresh : ℕ) (client_id redirect_uri customer_id : Text) (email phone name : Option Text)
    → (now : ℕ) → Store
    → AuthorizationCode × Store
create_authorization_code fresh client_id redirect_uri customer_id email phone name now s =
    let code : AuthorizationCode = record {
      code = fresh;
      client_id = client_id;
      redirect_uri = redirect_uri;
      customer_id = customer_id;
      created_at = now;
      expires_at = now + auth_code_ttl;
      email = email;
      phone = phone;
      name = name;
      used = false;
    } in
    (code, record s { auth_codes = Dict.put s.auth_codes fresh code })

-- The record is returned with its mark set, as the caller shares the object with the table.
mark_used : Option AuthorizationCode → (code now : ℕ) → Store → Option AuthorizationCode × Store
mark_used none code now s = (none, s)
mark_used (some r) code now s =
    let r' : AuthorizationCode = record r { used = true } in
    if r.used || code_is_expired r now
    then (none, s)
    else (some r', record s { auth_codes = Dict.put s.auth_codes code r' })

unfoldable pub consume_authorization_code :
    (code now : ℕ) → Store → Option AuthorizationCode × Store
unfolding mark_used
consume_authorization_code code now s = mark_used (Dict.get s.auth_codes code) code now s

unfoldable pub create_refresh_token :
    (fresh : ℕ) (client_id customer_id : Text) (now : ℕ) → Store → ℕ × Store
create_refresh_token fresh client_id customer_id now s =
    let token : RefreshToken = record {
      token = fresh;
      client_id = client_id;
      customer_id = customer_id;
      created_at = now;
    } in
    (fresh, record s { refresh_tokens = Dict.put s.refresh_tokens fresh token })
