-- ===== src/Prelude/Dict.antt =====
-- Python's `dict` with string keys: its entries in insertion order. `d[k] = v` keeps the place of
-- a key that is there, and puts a new key at the end.
use Prim.Native.String.{String}
use mathlib.Core.Path.{◌≡◌, refl}
use mathlib.Core.Bool.{Bool, true, false}
use mathlib.Core.Option.{Option, none, some}
use mathlib.Core.List.{List, [], ◌∷◌}
use native.Mathlib.Omega.{arith}
use text.Mathlib.Text.{◌==◌}
use text.Mathlib.TextEquality.{eq_iff}
use hobo.Prelude.Tests.{if◌then◌else◌}

abbrev pub Dict {ℓ} : Type ℓ → Type ℓ
Dict V = List (String × V)

module _ {ℓ} {V : Type ℓ} where
  -- d.get(k)
  unfoldable pub get : Dict V → String → Option V
  get [] k = none
  get ((j, v) ∷ d) k = if j == k then some v else get d k

  -- d[k] = v
  unfoldable pub set : Dict V → String → V → Dict V
  set [] k v = (k, v) ∷ []
  set ((j, w) ∷ d) k v = if j == k then (j, v) ∷ d else (j, w) ∷ set d k v

  -- k in d
  abbrev pub has : Dict V → String → Bool
  has d k = elim (get d k) [ none ↦ false | some v ↦ true ]

  pub get-set :
      (d : Dict V) (k j : String) (v : V) → get (set d k v) j ≡ (if k == j then some v else get d j)
  unfolding get set
  get-set [] k j v = refl
  get-set ((i, w) ∷ d) k j v = ground (arith, eq_iff k j, eq_iff i k, eq_iff i j, get-set d k j v)

  pub set-set : (d : Dict V) (k : String) (v w : V) → set (set d k v) k w ≡ set d k w
  unfolding set
  set-set [] k v w = ground (arith, eq_iff k k)
  set-set ((i, u) ∷ d) k v w = ground (arith, eq_iff i k, set-set d k v w)
