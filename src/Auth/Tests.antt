-- ===== src/Auth/Tests.antt =====
-- Logins of a concrete bank customer.
use nbe_financial_advisor_ba.Prelude.{
  ℕ, ◌+◌, ◌≡◌, refl, ◌⊎◌, inl, inr, Bool, true, false, Option, none, some, [], ◌∷◌, ltb, ◌==◌,
  ==_iff, if◌then◌else◌, Bool-cases,
}
use nbe_financial_advisor_ba.Prelude.Text.{Text, codes, text_eq}
use nbe_financial_advisor_ba.Bank.Accounts.{pending_otp, Connection}
use nbe_financial_advisor_ba.Bank.Connect.{ok, is_taken}
use nbe_financial_advisor_ba.Auth.States.{Redis, IsRedis, redeem_state}
use nbe_financial_advisor_ba.Auth.Token.{Connector, token_of, read_token, exchange_code_for_token}
use nbe_financial_advisor_ba.Auth.Login.{
  invalid_oauth_state, session, Site, Fresh, find_customer, has_email, repeat_login, provision,
  on_accounts, on_customer, on_exchange, on_state, login_callback,
}
use nbe_financial_advisor_ba.Auth.Sessions.{
  Account, Desk, invalid_link, is_blacklisted, get_or_create, blacklist_all, logout_all,
  find_account, redeem_link_ticket, checked, account_for, reset, confirm_reset,
}
use nbe_financial_advisor_ba.Auth.Ended.{IsReset, confirm_reset_ends}
use nbe_financial_advisor_ba.Auth.Same.{customer_of, run, same_customer_same_user}
use nbe_financial_advisor_ba.Auth.Once.{is_session, login_callback_once}

-- A store of values with their expiry.
abbrev Store : Type 0
Store = ℕ → Option (Text × ℕ)

abbrev live : {V : Type 0} → ℕ → Option (V × ℕ) → Option V
live now none = none
live now (some (value, expires_at)) = if ltb now expires_at then some value else none

abbrev redis_of : (V : Type 0) → Redis V (ℕ → Option (V × ℕ))
redis_of V = record {
  set = λ now key value ex s other. if key == other then some (value, now + ex) else s other;
  getdel = λ now key s. (live now (s key), λ other. if key == other then none else s other);
}

abbrev redis : Redis Text Store
redis = redis_of Text

redis_of-IsRedis : (V : Type 0) → IsRedis (redis_of V)
redis_of-IsRedis V = record {
  taken = λ now later key s. rw ((==_iff key key).1 refl) refl;
  stays_gone = λ now later key other s gone. elim (Bool-cases (other == key)) [
    | inl same ↦ rw same refl
    | inr apart ↦ rw apart (gone later)
  ];
}

abbrev mock_bank : Text
mock_bank = codes "mock_bank"

-- The bank knows one customer; the code is her e-mail.
abbrev connector : Connector
connector = record {
  iexact = text_eq;
  normalize_email = λ email. email;
  post_token = λ code. ok (
      some (record {
        access_token = some (codes "t");
        refresh_token = none;
        external_customer_id = some (codes "c");
        email = some code;
        phone = some (codes "1");
        name = none;
      }));
  fetch_accounts = λ token. ok [];
  fetch_transactions = λ token account. none;
  fresh = λ n. n;
}

abbrev fresh : ℕ → Fresh
fresh n = record { user = n; connection = n + 100; now = n }

-- Nobody is known, and two states are minted.
abbrev site : Site Store
site = record {
  users = [];
  bank = record { connections = []; accounts = []; transactions = []; queue = [] };
  states = redis.set 0 8 mock_bank 600 (redis.set 0 7 mock_bank 600 (λ key. none));
}

first_login : (login_callback redis connector (fresh 1) (codes "a@b.eg") 7 site).0 ≡ session 1 201
unfolding login_callback redeem_state exchange_code_for_token read_token token_of on_state
    on_exchange find_customer on_customer has_email on_accounts provision is_taken text_eq
first_login = refl

customer_known :
    customer_of redis connector (fresh 1) (codes "a@b.eg") 7 site ≡ some (mock_bank, codes "c")
unfolding redeem_state exchange_code_for_token read_token token_of text_eq
customer_known = refl

second_known :
    customer_of redis connector (fresh 3) (codes "new@b.eg") 8 (
      run redis connector
        ((fresh 2, codes "x", 9) ∷ [])
        (login_callback redis connector (fresh 1) (codes "a@b.eg") 7 site).1)
    ≡ some (mock_bank, codes "c")
unfolding login_callback redeem_state exchange_code_for_token read_token token_of on_state
    on_exchange find_customer on_customer has_email on_accounts provision is_taken text_eq
second_known = refl

same_customer_same_user_example :
    (login_callback redis connector (fresh 3) (codes "new@b.eg") 8 (
      run redis connector
        ((fresh 2, codes "x", 9) ∷ [])
        (login_callback redis connector (fresh 1) (codes "a@b.eg") 7 site).1)).0
    ≡ session 1 200
same_customer_same_user_example =
    same_customer_same_user redis connector mock_bank (codes "c") 1 201 (fresh 1) (codes "a@b.eg") 7
      site ((fresh 2, codes "x", 9) ∷ []) (fresh 3) (codes "new@b.eg") 8 customer_known first_login
      second_known

login_callback_once_example :
    (let (reply, site') = login_callback redis connector (fresh 1) (codes "a@b.eg") 7 site in
      ((is_session reply ≡ true) ⊎ ((site'.users ≡ site.users) × (site'.bank ≡ site.bank)))
      × ((login_callback redis connector
            (fresh 2)
            (codes "a@b.eg")
            7
            (run redis connector [] site')).0
          ≡ invalid_oauth_state))
login_callback_once_example =
    login_callback_once redis (redis_of-IsRedis Text) connector (fresh 1) (codes "a@b.eg") 7 site []
      (fresh 2) (codes "a@b.eg")

-- A link of user 5 that is not finished: its customer is NULL.
abbrev unfinished : Connection
unfinished = record {
  id = 50;
  user = 5;
  provider_slug = mock_bank;
  status = pending_otp;
  external_customer_id = none;
  access_token = none;
  refresh_token = none;
  oauth_state = some 1;
  error_reason = none;
  linked_at = none;
}

-- A token without a customer signs in as user 5.
taken_over :
    (on_exchange redis connector
      (fresh 1)
      mock_bank
      (ok (record {
        access_token = codes "t";
        refresh_token = none;
        external_customer_id = none;
        email = codes "a@b.eg";
        phone = codes "1";
        name = none;
      }))
      (record site { bank = record site.bank { connections = unfinished ∷ [] } })).0
    ≡ session 5 200
unfolding on_exchange find_customer on_customer repeat_login text_eq
taken_over = refl

abbrev check_token : Account → Text → Bool
check_token a token = text_eq a.password token

-- Users 1 and 2 with their sessions, and a ticket of user 1.
abbrev desk : Desk (ℕ → Option ((ℕ × Text) × ℕ))
desk = record {
  accounts =
      record { id = 1; password = codes "old"; email_verified = false }
      ∷ record { id = 2; password = codes "two"; email_verified = true }
      ∷ [];
  outstanding =
      record { id = 10; user = 1; jti = 100 }
      ∷ record { id = 11; user = 2; jti = 101 }
      ∷ record { id = 12; user = 1; jti = 102 }
      ∷ [];
  blacklisted = [];
  tickets = (redis_of (ℕ × Text)).set 0 9 (1, codes "old") 600 (λ key. none);
}

confirm_reset_ends_example :
    IsReset
      (redis_of (ℕ × Text))
      check_token
      (codes "new")
      ((redis_of (ℕ × Text)).getdel 5 9 desk.tickets).0
      desk
      (confirm_reset (redis_of (ℕ × Text)) check_token 5 9 (codes "new") desk)
    × ((confirm_reset
          (redis_of (ℕ × Text))
          check_token
          6
          9
          (codes "third")
          (confirm_reset (redis_of (ℕ × Text)) check_token 5 9 (codes "new") desk).1).0
        ≡ invalid_link)
confirm_reset_ends_example =
    confirm_reset_ends (redis_of (ℕ × Text)) (redis_of-IsRedis (ℕ × Text)) check_token 5 9
      (codes "new") desk 6 (codes "third")

ended_tokens :
    (confirm_reset (redis_of (ℕ × Text)) check_token 5 9 (codes "new") desk).1.blacklisted
    ≡ 12 ∷ 10 ∷ []
unfolding confirm_reset redeem_link_ticket account_for find_account checked reset blacklist_all
    get_or_create is_blacklisted text_eq
ended_tokens = refl

-- The session that asks for it stays.
kept_token : (logout_all 1 (some 102) desk).blacklisted ≡ 10 ∷ []
unfolding logout_all blacklist_all get_or_create is_blacklisted
kept_token = refl
