-- ===== src/Prelude/Dict.antt =====
-- A Python `dict` whose keys are only compared. The entries are private: clients have `dict_laws`.
-- The program never iterates over these tables, so their order is not modelled.
use Prim.Native.Nat.{ℕ}
use mathlib.Core.Path.{◌≡◌, refl}
use mathlib.Core.Option.{Option, none, some}
use mathlib.Core.List.{List, [], ◌∷◌}
use native.Mathlib.Omega.{arith}
use nbe_financial_advisor_ba.Prelude.Tests.{◌==◌, if◌then◌else◌}

pub record Dict {ℓ} (V : Type ℓ) : Type ℓ where
  entries : List (ℕ × V)

module _ {ℓ} {V : Type ℓ} where
  find : ℕ → List (ℕ × V) → Option V
  find k [] = none
  find k ((j, v) ∷ rest) = if j == k then some v else find k rest

  drop_key : ℕ → List (ℕ × V) → List (ℕ × V)
  drop_key k [] = []
  drop_key k ((j, v) ∷ rest) =
      let others = drop_key k rest in if j == k then others else (j, v) ∷ others

  find-drop_key :
      (k j : ℕ) (es : List (ℕ × V)) → find j (drop_key k es) ≡ (if k == j then none else find j es)
  unfolding find drop_key
  find-drop_key k j [] = ground arith
  find-drop_key k j ((i, v) ∷ es) = ground (arith, find-drop_key k j es)

  unfoldable pub empty : Dict V
  empty = record { entries = [] }

  -- `d.get(k)`
  unfoldable pub get : Dict V → ℕ → Option V
  unfolding find
  get d k = find k d.entries

  -- `d[k] = v`
  unfoldable pub put : Dict V → ℕ → V → Dict V
  unfolding drop_key
  put d k v = record { entries = (k, v) ∷ drop_key k d.entries }

  -- `d.pop(k, None)`, `del d[k]`
  unfoldable pub remove : Dict V → ℕ → Dict V
  unfolding drop_key
  remove d k = record { entries = drop_key k d.entries }

  pub get-put :
      (d : Dict V) (k j : ℕ) (v : V) → get (put d k v) j ≡ (if k == j then some v else get d j)
  unfolding get put
  get-put d k j v = ground (arith, find-drop_key k j d.entries)

  pub get-remove : (d : Dict V) (k j : ℕ) → get (remove d k) j ≡ (if k == j then none else get d j)
  unfolding get remove
  get-remove d k j = find-drop_key k j d.entries

pub get-empty {ℓ} : {V : Type ℓ} (k : ℕ) → get (empty {V = V}) k ≡ none
unfolding get empty
get-empty k = refl

pub ruleset dict_laws = (get-empty, get-put, get-remove)
