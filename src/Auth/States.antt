-- ===== src/Auth/States.antt =====
-- services/bank_login_states.py, on Redis: `set` with an expiry, and `getdel`.
use nbe_financial_advisor_ba.Prelude.{ℕ, ◌≡◌, Option, none}
use nbe_financial_advisor_ba.Prelude.Text.{Text}

-- The two commands of the client, on a store `S`. The expiry is in the same unit as the clock.
pub record Redis (V S : Type 0) : Type 0 where
  pub set : (now key : ℕ) → V → (ex : ℕ) → S → S
  pub getdel : (now key : ℕ) → S → Option V × S

-- What the documentation of the commands promises of keys that are not there: one that was taken is
-- gone, and stays gone while no command sets it.
pub record IsRedis {V S : Type 0} (redis : Redis V S) : Type 0 where
  pub taken :
      (now later key : ℕ) (s : S) → (redis.getdel later key (redis.getdel now key s).1).0 ≡ none
  pub stays_gone :
      (now later key other : ℕ) (s : S)
      → ((t : ℕ) → (redis.getdel t key s).0 ≡ none)
      → (redis.getdel later key (redis.getdel now other s).1).0 ≡ none

module _ {S : Type 0} (redis : Redis Text S) where
  -- `mint_state`, with the random value
  unfoldable pub mint_state : (state_ttl now fresh : ℕ) → (provider_slug : Text) → S → ℕ × S
  mint_state state_ttl now fresh provider_slug s =
      (fresh, redis.set now fresh provider_slug state_ttl s)

  -- `redeem_state`
  unfoldable pub redeem_state : (now state : ℕ) → S → Option Text × S
  redeem_state now state s = redis.getdel now state s
