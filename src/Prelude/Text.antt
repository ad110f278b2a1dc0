-- ===== src/Prelude/Text.antt =====
-- Python `str` values as lists of code points: equality, `in`, `strip`, and six-digit numerals.
use Prim.Native.Nat.{ℕ, ◌+◌, ◌/◌, ◌%◌}
use Prim.Native.Char.{code}
use Prim.Native.String.{String}
use mathlib.Core.Path.{◌≡◌}
use mathlib.Core.Logic.{◌↔◌}
use mathlib.Core.Bool.{Bool, true, false, ◌&&◌, ◌||◌}
use mathlib.Core.Option.{Option, none, some}
use mathlib.Core.List.{List, [], ◌∷◌, reverse}
use native.Mathlib.Omega.{arith}
use nbe_financial_advisor_ba.Prelude.Tests.{leb, ◌==◌, if◌then◌else◌}

abbrev pub Text : Type 0
Text = List ℕ

abbrev pub codes : String → Text
codes String.[] = []
codes (String.◌∷◌ c s) = code c ∷ codes s

-- `a == b`
unfoldable pub text_eq : Text → Text → Bool
text_eq [] [] = true
text_eq (a ∷ s) (b ∷ t) = (a == b) && text_eq s t
text_eq _ _ = false

pub text_eq_iff : (s t : Text) → (text_eq s t ≡ true) ↔ (s ≡ t)
unfolding text_eq
text_eq_iff [] [] = ground arith
text_eq_iff [] (b ∷ t) = ground arith
text_eq_iff (a ∷ s) [] = ground arith
text_eq_iff (a ∷ s) (b ∷ t) = ground (arith, text_eq_iff s t)

-- `not s`
abbrev pub is_blank : Text → Bool
is_blank [] = true
is_blank (_ ∷ _) = false

-- `not s` where `s` may be `None`
abbrev pub is_falsy : Option Text → Bool
is_falsy none = true
is_falsy (some s) = is_blank s

-- `c in s` for one character
unfoldable pub has_char : ℕ → Text → Bool
has_char c [] = false
has_char c (a ∷ s) = (a == c) || has_char c s

-- `s in texts` for a list of strings
unfoldable pub has_text : Text → List Text → Bool
unfolding text_eq
has_text s [] = false
has_text s (t ∷ ts) = text_eq s t || has_text s ts

-- The code points for which `str.isspace` holds.
unfoldable pub is_space : ℕ → Bool
is_space c =
    (leb 9 c && leb c 13)
    || (leb 28 c && leb c 32)
    || (c == 133)
    || (c == 160)
    || (c == 5760)
    || (leb 8192 c && leb c 8202)
    || (c == 8232)
    || (c == 8233)
    || (c == 8239)
    || (c == 8287)
    || (c == 12288)

-- `s.lstrip()`
unfoldable pub lstrip : Text → Text
lstrip [] = []
lstrip (c ∷ s) = let rest = lstrip s in if is_space c then rest else c ∷ s

-- `s.strip()`
unfoldable pub strip : Text → Text
strip s = reverse (lstrip (reverse (lstrip s)))

unfoldable pub digit : ℕ → ℕ
digit n = 48 + n % 10

-- `f"{n:06d}"` for a number below one million
unfoldable pub six_digits : ℕ → Text
six_digits n =
    digit (n / 100000)
    ∷ digit (n / 10000)
    ∷ digit (n / 1000)
    ∷ digit (n / 100)
    ∷ digit (n / 10)
    ∷ digit n
    ∷ []

is_space-digit : (n : ℕ) → is_space (digit n) ≡ false
unfolding is_space digit
is_space-digit n = ground arith

lstrip-digit : (n : ℕ) (s : Text) → lstrip (digit n ∷ s) ≡ digit n ∷ s
unfolding lstrip
lstrip-digit n s = rw is_space-digit

-- Digits are never stripped.
pub strip-six_digits : (n : ℕ) → strip (six_digits n) ≡ six_digits n
unfolding strip six_digits
strip-six_digits n = rw (lstrip-digit, lstrip-digit)
