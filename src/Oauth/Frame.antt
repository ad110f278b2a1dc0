-- ===== src/Oauth/Frame.antt =====
-- Which tables the functions of the store leave alone, and what a lookup finds after a write.
use nbe_financial_advisor_ba.Prelude.{
  ℕ, ◌≡◌, Option, none, some, arith, ltb, inl, inr, Option-cases, if◌then◌else◌,
}
use nbe_financial_advisor_ba.Prelude.Dict
use nbe_financial_advisor_ba.Prelude.Text.{Text}
use nbe_financial_advisor_ba.Oauth.Store.{Store, Challenge, get_challenge, set_challenge_otp}

-- The challenge that `get_challenge` returns at a time.
abbrev pub live_challenge : Option Challenge → ℕ → Option Challenge
live_challenge none now = none
live_challenge (some c) now = if ltb c.expires_at now then none else some c

module _ (challenge_id now : ℕ) (s : Store) where
  pub get_challenge-auth_codes : (get_challenge challenge_id now s).1.auth_codes ≡ s.auth_codes
  unfolding get_challenge
  get_challenge-auth_codes = elim (Option-cases (Dict.get s.challenges challenge_id)) [
    | inl unknown ↦ rw unknown
    | inr (c, known) ↦ rw known (ground arith)
  ]

  pub get_challenge-live :
      (get_challenge challenge_id now s).0 ≡ live_challenge (Dict.get s.challenges challenge_id) now
  unfolding get_challenge
  get_challenge-live = elim (Option-cases (Dict.get s.challenges challenge_id)) [
    | inl unknown ↦ rw unknown
    | inr (c, known) ↦ rw known (ground arith)
  ]

pub set_challenge_otp-auth_codes :
    (challenge_id : ℕ) (customer_id email phone : Text) (name : Option Text) (draw now : ℕ)
    → (s : Store)
    → (set_challenge_otp challenge_id customer_id email phone name draw now s).1.auth_codes
      ≡ s.auth_codes
unfolding set_challenge_otp
set_challenge_otp-auth_codes challenge_id customer_id email phone name draw now s =
    elim (Option-cases (Dict.get s.challenges challenge_id)) [
      | inl unknown ↦ rw unknown
      | inr (c, known) ↦ rw known
    ]
