-- ===== src/Prelude/Int.antt =====
-- Integers over the native numbers: the amounts of money, in hundredths.
use Prim.Native.Nat.{ℕ, suc, ◌+◌, ◌-◌}
use mathlib.Core.Path.{◌≡◌}
use mathlib.Core.Logic.{◌↔◌}
use mathlib.Core.Bool.{Bool, true, false}
use native.Mathlib.Omega.{arith}
use nbe_financial_advisor_ba.Prelude.Tests.{leb, ◌==◌, if◌then◌else◌}

pub data ℤ : Type 0 where
  pos negsuc : ℕ → ℤ

abbrev gain : ℤ → ℕ
gain (pos n) = n
gain (negsuc n) = 0

abbrev loss : ℤ → ℕ
loss (pos n) = 0
loss (negsuc n) = suc n

-- `a - b` of two natural numbers
abbrev minus : ℕ → ℕ → ℤ
minus a b = if leb b a then pos (a - b) else negsuc (b - a - 1)

infixl 65 ◌+ℤ◌ ◌-ℤ◌
unfoldable pub ◌+ℤ◌ : ℤ → ℤ → ℤ
a +ℤ b = minus (gain a + gain b) (loss a + loss b)

unfoldable pub ◌-ℤ◌ : ℤ → ℤ → ℤ
a -ℤ b = minus (gain a + loss b) (loss a + gain b)

-- `a == b`
unfoldable pub int_eq : ℤ → ℤ → Bool
int_eq (pos m) (pos n) = m == n
int_eq (negsuc m) (negsuc n) = m == n
int_eq _ _ = false

same_parts : (a b : ℤ) → gain a + loss b ≡ gain b + loss a → a ≡ b
same_parts a b h = ground arith

+ℤ_parts : (a b : ℤ) → gain (a +ℤ b) + (loss a + loss b) ≡ loss (a +ℤ b) + (gain a + gain b)
unfolding ◌+ℤ◌
+ℤ_parts a b = ground arith

-ℤ_parts : (a b : ℤ) → gain (a -ℤ b) + (loss a + gain b) ≡ loss (a -ℤ b) + (gain a + loss b)
unfolding ◌-ℤ◌
-ℤ_parts a b = ground arith

-- A credit added to the credits is added to the balance.
pub +ℤ-credit : (base x c o : ℤ) → base +ℤ (x +ℤ c) -ℤ o ≡ (base +ℤ c -ℤ o) +ℤ x
+ℤ-credit base x c o = same_parts _ _ (omega (arith, +ℤ_parts, -ℤ_parts))

-- An outflow added to the outflows is taken from the balance.
pub -ℤ-outflow : (base x c o : ℤ) → base +ℤ c -ℤ (x +ℤ o) ≡ (base +ℤ c -ℤ o) -ℤ x
-ℤ-outflow base x c o = same_parts _ _ (omega (arith, +ℤ_parts, -ℤ_parts))

pub +ℤ-swap : (a b c : ℤ) → a +ℤ (b +ℤ c) ≡ b +ℤ (a +ℤ c)
+ℤ-swap a b c = same_parts _ _ (omega (arith, +ℤ_parts))

pub no_movement : (base : ℤ) → base +ℤ pos 0 -ℤ pos 0 ≡ base
no_movement base = same_parts _ _ (omega (arith, +ℤ_parts, -ℤ_parts))

pub int_eq_iff : (a b : ℤ) → (int_eq a b ≡ true) ↔ (a ≡ b)
unfolding int_eq
int_eq_iff a b = ground arith
