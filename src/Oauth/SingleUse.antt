-- ===== src/Oauth/SingleUse.antt =====
-- Authorization codes are redeemed at most once. The lock makes each store function one atomic
-- step, so concurrent requests are an arbitrary sequence of such steps.
use nbe_financial_advisor_ba.Prelude.{
  ℕ, ◌+◌, ◌≤◌, ◌≡◌, refl, true, false, Option, none, some, List, [], ◌∷◌, arith, ◌==◌, All,
  if◌then◌else◌, ◌⊎◌, inl, inr, Bool-cases, ==_iff, Option-cases, is_some,
}
use nbe_financial_advisor_ba.Prelude.Dict
use nbe_financial_advisor_ba.Prelude.Dict.{get-put}
use nbe_financial_advisor_ba.Prelude.Text.{Text}
use nbe_financial_advisor_ba.Oauth.Store
use nbe_financial_advisor_ba.Oauth.Frame.{get_challenge-auth_codes, set_challenge_otp-auth_codes}
use nbe_financial_advisor_ba.Oauth.Store.{Store, AuthorizationCode}

-- One call of a function of the store, with its arguments.
pub data Op : Type 0 where
  create_challenge :
      (fresh : ℕ) (client_id redirect_uri : Text) (state scope : Option Text) (now : ℕ) → Op
  get_challenge : (challenge_id now : ℕ) → Op
  set_challenge_otp :
      (challenge_id : ℕ) (customer_id email phone : Text) (name : Option Text) (draw now : ℕ) → Op
  pop_challenge delete_challenge : (challenge_id : ℕ) → Op
  create_authorization_code :
      (fresh : ℕ) (client_id redirect_uri customer_id : Text) (email phone name : Option Text)
      → (now : ℕ) → Op
  consume_authorization_code : (code now : ℕ) → Op
  create_refresh_token : (fresh : ℕ) (client_id customer_id : Text) (now : ℕ) → Op

unfoldable pub step : Op → Store → Store
step (create_challenge fresh client_id redirect_uri state scope now) s =
    (Store.create_challenge fresh client_id redirect_uri state scope now s).1
step (get_challenge challenge_id now) s = (Store.get_challenge challenge_id now s).1
step (set_challenge_otp challenge_id customer_id email phone name draw now) s =
    (Store.set_challenge_otp challenge_id customer_id email phone name draw now s).1
step (pop_challenge challenge_id) s = (Store.pop_challenge challenge_id s).1
step (delete_challenge challenge_id) s = Store.delete_challenge challenge_id s
step (create_authorization_code fresh client_id redirect_uri customer_id email phone name now) s =
    (Store.create_authorization_code fresh client_id redirect_uri customer_id email phone name now
      s).1
step (consume_authorization_code code now) s = (Store.consume_authorization_code code now s).1
step (create_refresh_token fresh client_id customer_id now) s =
    (Store.create_refresh_token fresh client_id customer_id now s).1

-- 1 if the step hands out the record of `code`.
redeemed : ℕ → Op → Store → ℕ
redeemed code (consume_authorization_code c now) s =
    if c == code then if is_some (Store.consume_authorization_code c now s).0 then 1 else 0 else 0
redeemed code _ s = 0

-- How often a sequence of steps hands out the record of `code`.
unfoldable pub redemptions : ℕ → List Op → Store → ℕ
unfolding redeemed step
redemptions code [] s = 0
redemptions code (op ∷ ops) s = redeemed code op s + redemptions code ops (step op s)

-- The step does not create a code that is equal to `code`.
abbrev pub Spares : ℕ → Op → Type 0
Spares code (create_authorization_code fresh _ _ _ _ _ _ _) = (fresh == code) ≡ false
Spares code _ = Unit

-- `code` is unknown, or marked as used.
abbrev pub IsSpent : ℕ → Store → Type 0
IsSpent code s = (r : AuthorizationCode) → Dict.get s.auth_codes code ≡ some r → r.used ≡ true

pub consume-IsSpent :
    (code c now : ℕ) (s : Store)
    → IsSpent code s
    → IsSpent code (Store.consume_authorization_code c now s).1
unfolding Store.consume_authorization_code
consume-IsSpent code c now s h r e = elim (Option-cases (Dict.get s.auth_codes c)) [
  | inl unknown ↦ ground (arith, h r)
  | inr (q, known) ↦ ground (arith, h r, get-put s.auth_codes c code (record q { used = true }))
]

pub consume_marks :
    (code now : ℕ) (s : Store) (r : AuthorizationCode)
    → (Store.consume_authorization_code code now s).0 ≡ some r
    → IsSpent code (Store.consume_authorization_code code now s).1
unfolding Store.consume_authorization_code
consume_marks code now s r h q e = elim (Option-cases (Dict.get s.auth_codes code)) [
  | inl unknown ↦ ground arith
  | inr (p, known) ↦ ground (arith, get-put s.auth_codes code code (record p { used = true }))
]

pub consume_spent :
    (code now : ℕ) (s : Store)
    → IsSpent code s
    → (Store.consume_authorization_code code now s).0 ≡ none
unfolding Store.consume_authorization_code
consume_spent code now s h = elim (Option-cases (Dict.get s.auth_codes code)) [
  | inl unknown ↦ ground arith
  | inr (p, known) ↦ ground (arith, h p)
]

create_code-IsSpent :
    (code fresh : ℕ) (client_id redirect_uri customer_id : Text) (email phone name : Option Text)
    → (now : ℕ) (s : Store) → (fresh == code) ≡ false
    → IsSpent code s
    → IsSpent code
        (Store.create_authorization_code fresh client_id redirect_uri customer_id email phone name
          now s).1
unfolding Store.create_authorization_code
create_code-IsSpent code fresh client_id redirect_uri customer_id email phone name now s ne h r e =
    h r (rw (get-put, ne) at e)

step-IsSpent :
    (code : ℕ) (op : Op) (s : Store) → Spares code op → IsSpent code s → IsSpent code (step op s)
unfolding step
step-IsSpent code (create_challenge fresh client_id redirect_uri state scope now) s sp h =
    unfold Store.create_challenge in h
step-IsSpent code (get_challenge challenge_id now) s sp h = rw get_challenge-auth_codes h
step-IsSpent code (set_challenge_otp challenge_id customer_id email phone name draw now) s sp h =
    rw set_challenge_otp-auth_codes h
step-IsSpent code (pop_challenge challenge_id) s sp h = unfold Store.pop_challenge in h
step-IsSpent code (delete_challenge challenge_id) s sp h = unfold Store.delete_challenge in h
step-IsSpent code
      (create_authorization_code fresh client_id redirect_uri customer_id email phone name now) s sp
      h =
    create_code-IsSpent code fresh client_id redirect_uri customer_id email phone name now s sp h
step-IsSpent code (consume_authorization_code c now) s sp h = consume-IsSpent code c now s h
step-IsSpent code (create_refresh_token fresh client_id customer_id now) s sp h =
    unfold Store.create_refresh_token in h

redeemed_spent : (code : ℕ) (op : Op) (s : Store) → IsSpent code s → redeemed code op s ≡ 0
unfolding redeemed
redeemed_spent code (consume_authorization_code c now) s h = elim (Bool-cases (c == code)) [
  | inl same ↦ rw (same, consume_spent c now s (rw ((==_iff c code).0 same) h))
  | inr other ↦ rw other
]
redeemed_spent code _ s h = refl

redeemed-cases :
    (code : ℕ) (op : Op) (s : Store)
    → (redeemed code op s ≡ 0) ⊎ ((redeemed code op s ≡ 1) × IsSpent code (step op s))
unfolding redeemed step
redeemed-cases code (consume_authorization_code c now) s = elim (Bool-cases (c == code)) [
  | inr other ↦ inl (rw other)
  | inl same ↦ elim (Option-cases (Store.consume_authorization_code c now s).0) [
    | inl refused ↦ inl (rw (same, refused))
    | inr (r, found) ↦
        inr (rw (same, found), rw (← (==_iff c code).0 same) (consume_marks c now s r found))
  ]
]
redeemed-cases code _ s = inl refl

redemptions_spent :
    (code : ℕ) (ops : List Op) (s : Store)
    → All (Spares code) ops
    → IsSpent code s
    → redemptions code ops s ≡ 0
unfolding redemptions
redemptions_spent code [] s sp h = refl
redemptions_spent code (op ∷ ops) s (sp, rest) h = omega (
  arith,
  redeemed_spent code op s h,
  redemptions_spent code ops (step op s) rest (step-IsSpent code op s sp h),
)

-- However the calls interleave, and whatever the store held, a code that is not created again is
-- handed out at most once.
pub redemptions-le-one :
    (code : ℕ) (ops : List Op) (s : Store) → All (Spares code) ops → redemptions code ops s ≤ 1
unfolding redemptions
redemptions-le-one code [] s sp = omega arith
redemptions-le-one code (op ∷ ops) s (sp, rest) = elim (redeemed-cases code op s) [
  | inl none_yet ↦ omega (arith, redemptions-le-one code ops (step op s) rest)
  | inr (once, spent) ↦ omega (arith, redemptions_spent code ops (step op s) rest spent)
]
