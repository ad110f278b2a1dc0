-- ===== src/Auth/Sessions.antt =====
-- The link tickets of services/link_tickets.py, and the password reset, the verification of an e-mail
-- and the end of all other sessions in core/views/auth.py. The tables of refresh tokens are those of
-- simplejwt; `check_token` of Django's two generators and the password hash are arguments. The payload
-- of a ticket is the pair that its JSON text stands for.
use nbe_financial_advisor_ba.Prelude.{
  ℕ, Bool, true, false, not, Option, none, some, List, [], ◌∷◌, ◌&&◌, ◌||◌, ◌==◌, if◌then◌else◌,
}
use nbe_financial_advisor_ba.Prelude.Text.{Text}
use nbe_financial_advisor_ba.Auth.States.{Redis}

-- The columns of a user that these views read or write.
pub record Account : Type 0 where
  pub id : ℕ
  pub password : Text
  pub email_verified : Bool

-- A refresh token that was issued.
pub record OutstandingToken : Type 0 where
  pub id : ℕ
  pub user : ℕ
  pub jti : ℕ

-- `blacklisted` has the ids of the tokens in BlacklistedToken.
pub record Desk (S : Type 0) : Type 0 where
  pub accounts : List Account
  pub outstanding : List OutstandingToken
  pub blacklisted : List ℕ
  pub tickets : S

pub data Answer : Type 0 where
  invalid_link done : Answer

unfoldable pub is_blacklisted : (id : ℕ) → List ℕ → Bool
is_blacklisted id [] = false
is_blacklisted id (b ∷ bs) = (b == id) || is_blacklisted id bs

-- `BlacklistedToken.objects.get_or_create(token=token)`
unfoldable pub get_or_create : (id : ℕ) → List ℕ → List ℕ
get_or_create id bs = if is_blacklisted id bs then bs else id ∷ bs

abbrev pub is_excluded : Option ℕ → ℕ → Bool
is_excluded none jti = false
is_excluded (some excluded) jti = jti == excluded

-- The token is one of the user's, and not the excluded one.
abbrev pub is_ended : (user : ℕ) → Option ℕ → OutstandingToken → Bool
is_ended user exclude_jti t = (t.user == user) && not (is_excluded exclude_jti t.jti)

-- `_blacklist_all_outstanding_tokens`
unfoldable pub blacklist_all :
    (user : ℕ) (exclude_jti : Option ℕ) → List OutstandingToken → List ℕ → List ℕ
blacklist_all user exclude_jti [] bs = bs
blacklist_all user exclude_jti (t ∷ ts) bs =
    let bs' = if is_ended user exclude_jti t then get_or_create t.id bs else bs in
    blacklist_all user exclude_jti ts bs'

-- `LogoutAllDevicesView.post`; the cookie's `jti` is `none` without a readable cookie.
unfoldable pub logout_all : {S : Type 0} → (user : ℕ) (current_jti : Option ℕ) → Desk S → Desk S
logout_all user current_jti desk = record desk {
  blacklisted = blacklist_all user current_jti desk.outstanding desk.blacklisted;
}

-- `User.objects.filter(id=user_id).first()`
unfoldable pub find_account : (id : ℕ) → List Account → Option Account
find_account id [] = none
find_account id (a ∷ rest) = if a.id == id then some a else find_account id rest

-- `user.save(update_fields=...)`
unfoldable pub save_account : Account → List Account → List Account
save_account a [] = []
save_account a (b ∷ rest) =
    let others = save_account a rest in (if b.id == a.id then a else b) ∷ others

module _ {S : Type 0} (redis : Redis (ℕ × Text) S) where
  -- `mint_link_ticket`, with the random value
  unfoldable pub mint_link_ticket :
      (now fresh user : ℕ) → (token : Text) (ttl_seconds : ℕ) → S → ℕ × S
  mint_link_ticket now fresh user token ttl_seconds s =
      (fresh, redis.set now fresh (user, token) ttl_seconds s)

  -- `redeem_link_ticket`
  unfoldable pub redeem_link_ticket : (now ticket : ℕ) → S → Option (ℕ × Text) × S
  redeem_link_ticket now ticket s = redis.getdel now ticket s

  module _ (check_token : Account → Text → Bool) where
    unfoldable pub checked : (token : Text) → Option Account → Option Account
    checked token none = none
    checked token (some a) = if check_token a token then some a else none

    -- The account that the ticket and its token are good for.
    unfoldable pub account_for : Option (ℕ × Text) → List Account → Option Account
    account_for none accounts = none
    account_for (some (user, token)) accounts = checked token (find_account user accounts)

    unfoldable pub reset : (password : Text) → Option Account → Desk S → Answer × Desk S
    reset password none desk = (invalid_link, desk)
    reset password (some a) desk = (
      done,
      record desk {
        accounts = save_account (record a { password = password }) desk.accounts;
        blacklisted = blacklist_all a.id none desk.outstanding desk.blacklisted;
      },
    )

    -- `PasswordResetConfirmView.post`, with the new password as it is stored
    unfoldable pub confirm_reset : (now ticket : ℕ) (password : Text) → Desk S → Answer × Desk S
    confirm_reset now ticket password desk =
        let (redeemed, tickets) = redeem_link_ticket now ticket desk.tickets in
        reset password (account_for redeemed desk.accounts) (record desk { tickets = tickets })

    unfoldable pub verify : Option Account → Desk S → Answer × Desk S
    verify none desk = (invalid_link, desk)
    verify (some a) desk = (
      done,
      record desk { accounts = save_account (record a { email_verified = true }) desk.accounts },
    )

    -- `EmailVerificationConfirmView.post`
    unfoldable pub confirm_email : (now ticket : ℕ) → Desk S → Answer × Desk S
    confirm_email now ticket desk =
        let (redeemed, tickets) = redeem_link_ticket now ticket desk.tickets in
        verify (account_for redeemed desk.accounts) (record desk { tickets = tickets })
