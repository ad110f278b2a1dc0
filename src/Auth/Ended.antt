-- ===== src/Auth/Ended.antt =====
-- Which refresh tokens a password reset and a logout of the other devices end.
use nbe_financial_advisor_ba.Prelude.{
  ℕ, ◌≡◌, refl, sym, ap, ◌∙◌, ◌⊎◌, inl, inr, Bool, false, Option, none, some, List, [], ◌∷◌, ◌&&◌,
  ◌||◌, ◌==◌, ==_iff, arith, Bool-cases,
}
use nbe_financial_advisor_ba.Prelude.Text.{Text}
use nbe_financial_advisor_ba.Auth.States.{Redis, IsRedis}
use nbe_financial_advisor_ba.Auth.Sessions.{
  Account, OutstandingToken, Desk, Answer, invalid_link, done, is_blacklisted, get_or_create,
  is_ended, blacklist_all, find_account, save_account, redeem_link_ticket, account_for, checked,
  reset, confirm_reset,
}

-- A token of the id was issued to the user, and it is not the excluded one.
abbrev pub is_issued : (user : ℕ) → Option ℕ → (id : ℕ) → List OutstandingToken → Bool
is_issued user exclude_jti id [] = false
is_issued user exclude_jti id (t ∷ ts) =
    (is_ended user exclude_jti t && (t.id == id)) || is_issued user exclude_jti id ts

get_or_create-is_blacklisted :
    (k id : ℕ) (bs : List ℕ)
    → is_blacklisted id (get_or_create k bs) ≡ ((k == id) || is_blacklisted id bs)
unfolding get_or_create is_blacklisted
get_or_create-is_blacklisted k id bs = elim (Bool-cases (is_blacklisted k bs)) [
  | inl known ↦ elim (Bool-cases (k == id)) [
    | inl same ↦
        rw (known, same) (ap (λ n. is_blacklisted n bs) (sym ((==_iff k id).0 same)) ∙ known)
    | inr apart ↦ rw (known, apart) refl
  ]
  | inr unknown ↦ rw unknown refl
]

-- The blacklist gets exactly the user's tokens but for the excluded one.
pub blacklist_all-is_issued :
    (user : ℕ) (exclude_jti : Option ℕ) (id : ℕ) (ts : List OutstandingToken) (bs : List ℕ)
    → is_blacklisted id (blacklist_all user exclude_jti ts bs)
      ≡ (is_issued user exclude_jti id ts || is_blacklisted id bs)
unfolding blacklist_all
blacklist_all-is_issued user exclude_jti id [] bs = refl
blacklist_all-is_issued user exclude_jti id (t ∷ ts) bs =
    elim (Bool-cases (is_ended user exclude_jti t)) [
      | inl ends ↦ rw ends (
          ground (
            arith,
            blacklist_all-is_issued user exclude_jti id ts (get_or_create t.id bs),
            get_or_create-is_blacklisted t.id id bs,
          ))
      | inr stays ↦ rw stays (blacklist_all-is_issued user exclude_jti id ts bs)
    ]

find_account-save_account :
    (id : ℕ) (accounts : List Account) (a a' : Account)
    → find_account id accounts ≡ some a
    → a'.id ≡ a.id
    → find_account a.id (save_account a' accounts) ≡ some a'
unfolding find_account save_account
find_account-save_account id [] a a' found same = absurd (ground (arith, found))
find_account-save_account id (b ∷ accounts) a a' found same =
    grind (arith, find_account-save_account id accounts a a')

module _ {S : Type 0} (redis : Redis (ℕ × Text) S) (check_token : Account → Text → Bool) where
  checked-found :
      (token : Text) (o : Option Account) (a : Account)
      → checked redis check_token token o ≡ some a
      → o ≡ some a
  unfolding checked
  checked-found token none a same = absurd (ground (arith, same))
  checked-found token (some b) a same = elim (Bool-cases (check_token b token)) [
    | inl good ↦ grind (arith, good, same)
    | inr bad ↦ absurd (ground (arith, bad, same))
  ]

  account_for-saved :
      (redeemed : Option (ℕ × Text)) (accounts : List Account) (a a' : Account)
      → account_for redis check_token redeemed accounts ≡ some a
      → a'.id ≡ a.id
      → find_account a.id (save_account a' accounts) ≡ some a'
  unfolding account_for
  account_for-saved none accounts a a' same same_id = absurd (ground (arith, same))
  account_for-saved (some (user, token)) accounts a a' same same_id =
      find_account-save_account user accounts a a'
        (checked-found token (find_account user accounts) a same) same_id

  -- How a reset ends, by the account that the ticket is good for: without any change but to the
  -- tickets, or with the new password and with the tokens of that user ended.
  abbrev pub IsReset : Text → Option (ℕ × Text) → Desk S → Answer × Desk S → Type 0
  IsReset password redeemed desk (answer, desk') =
      ((answer ≡ invalid_link)
        × (desk'.accounts ≡ desk.accounts)
        × (desk'.blacklisted ≡ desk.blacklisted))
      ⊎ ((a : Account) × (account_for redis check_token redeemed desk.accounts ≡ some a)
          × (answer ≡ done)
          × (find_account a.id desk'.accounts ≡ some (record a { password = password }))
          × ((id : ℕ)
              → is_blacklisted id desk'.blacklisted
                ≡ (is_issued a.id none id desk.outstanding || is_blacklisted id desk.blacklisted)))

  reset-IsReset :
      (password : Text) (redeemed : Option (ℕ × Text)) (o : Option Account) (desk : Desk S)
      → account_for redis check_token redeemed desk.accounts ≡ o
      → IsReset password redeemed desk (reset redis check_token password o desk)
  unfolding reset
  reset-IsReset password redeemed none desk good = inl (refl, refl, refl)
  reset-IsReset password redeemed (some a) desk good = inr (
    a,
    good,
    refl,
    account_for-saved redeemed desk.accounts a (record a { password = password }) good refl,
    λ id. blacklist_all-is_issued a.id none id desk.outstanding desk.blacklisted,
  )

  reset-tickets :
      (password : Text) (o : Option Account) (desk : Desk S)
      → (reset redis check_token password o desk).1.tickets ≡ desk.tickets
  unfolding reset
  reset-tickets password none desk = refl
  reset-tickets password (some a) desk = refl

  confirm-IsReset :
      (now ticket : ℕ) (password : Text) (desk : Desk S)
      → IsReset password
          (redis.getdel now ticket desk.tickets).0
          desk
          (confirm_reset redis check_token now ticket password desk)
  unfolding confirm_reset redeem_link_ticket
  confirm-IsReset now ticket password desk =
      let (redeemed, tickets) = redis.getdel now ticket desk.tickets in
      reset-IsReset password redeemed (account_for redis check_token redeemed desk.accounts)
        (record desk { tickets = tickets }) refl

  confirm-tickets :
      (now ticket : ℕ) (password : Text) (desk : Desk S)
      → (confirm_reset redis check_token now ticket password desk).1.tickets
        ≡ (redis.getdel now ticket desk.tickets).1
  unfolding confirm_reset redeem_link_ticket
  confirm-tickets now ticket password desk =
      let (redeemed, tickets) = redis.getdel now ticket desk.tickets in
      reset-tickets password (account_for redis check_token redeemed desk.accounts)
        (record desk { tickets = tickets })

  gone-invalid :
      (now ticket : ℕ) (password : Text) (desk : Desk S)
      → (redis.getdel now ticket desk.tickets).0 ≡ none
      → (confirm_reset redis check_token now ticket password desk).0 ≡ invalid_link
  unfolding confirm_reset redeem_link_ticket account_for reset
  gone-invalid now ticket password desk gone = rw gone refl

-- A password reset either changes no account and no blacklist, or it stores the new password for the
-- account that the link is good for, and blacklists exactly the refresh tokens issued to that user, in
-- addition to those that were. Either way the link is spent: the next reset with it is refused.
pub confirm_reset_ends :
    {S : Type 0} (redis : Redis (ℕ × Text) S) (laws : IsRedis redis)
    (check_token : Account → Text → Bool) (now ticket : ℕ) (password : Text) (desk : Desk S)
    (later : ℕ) (other : Text)
    → IsReset redis check_token password
        (redis.getdel now ticket desk.tickets).0
        desk
        (confirm_reset redis check_token now ticket password desk)
      × ((confirm_reset redis check_token later ticket other
            (confirm_reset redis check_token now ticket password desk).1).0
          ≡ invalid_link)
confirm_reset_ends redis laws check_token now ticket password desk later other = (
  confirm-IsReset redis check_token now ticket password desk,
  gone-invalid redis check_token later ticket other _ (
      ap (λ s. (redis.getdel later ticket s).0)
        (confirm-tickets redis check_token now ticket password desk)
      ∙ laws.taken now later ticket desk.tickets),
)
