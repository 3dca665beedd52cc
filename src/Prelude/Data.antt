-- ===== src/Prelude/Data.antt =====
-- The values of Python that `json` and `tomllib` read and write. A `dict` keeps its entries in order.
-- Python counts and computes with the same numbers; here a number is an `int` where the code wants a
-- natural number, and a `float` where it wants one of `F`.
use mathlib.Core.Path.{◌≡◌, refl}
use mathlib.Core.Bool.{Bool, true, false}
use mathlib.Core.Option.{Option, none, some}
use mathlib.Core.List.{List, [], ◌∷◌}
use Prim.Native.Nat.{ℕ}
use Prim.Native.String.{String}
use package.text.Mathlib.Text.{◌==◌}
use hobo.Prelude.Tests.{if◌then◌else◌}
use hobo.Prelude.Dict.{Dict}
use hobo.Prelude.Exception.{
  Result, ok, err, key_error, type_error, attribute_error, or_raise, ◌>>=◌,
}

mutual
  pub data Data (F : Type 0) : Type 0 where
    null : Data F
    boolean : Bool → Data F
    int : ℕ → Data F
    float : F → Data F
    text : String → Data F
    array : Items F → Data F
    object : Fields F → Data F

  pub data Items (F : Type 0) : Type 0 where
    nil : Items F
    cons : Data F → Items F → Items F

  pub data Fields (F : Type 0) : Type 0 where
    end : Fields F
    field : String → Data F → Fields F → Fields F

-- The keywords of a call `f(**d)` are among the parameters.
abbrev pub listed : String → List String → Bool
listed k [] = false
listed k (j ∷ names) = if j == k then true else listed k names

module _ {F : Type 0} where
  unfoldable pub find : Fields F → String → Option (Data F)
  find end k = none
  find (field j v fs) k = if j == k then some v else find fs k

  -- `d[k]`
  unfoldable pub item : Data F → String → Result (Data F)
  item (object fs) k = or_raise (find fs k) key_error
  item _ k = err type_error

  -- `d.get(k)`, with `none` for an absent key.
  unfoldable pub get : Data F → String → Result (Option (Data F))
  get (object fs) k = ok (find fs k)
  get _ k = err attribute_error

  -- A value where one of a certain type is wanted.
  unfoldable pub text_of : Data F → Result String
  text_of (text s) = ok s
  text_of _ = err type_error

  unfoldable pub float_of : Data F → Result F
  float_of (float x) = ok x
  float_of _ = err type_error

  unfoldable pub int_of : Data F → Result ℕ
  int_of (int k) = ok k
  int_of _ = err type_error

  unfoldable pub boolean_of : Data F → Result Bool
  boolean_of (boolean b) = ok b
  boolean_of _ = err type_error

  -- `d.items()`
  unfoldable pub items_of : Data F → Result (Fields F)
  items_of (object fs) = ok fs
  items_of _ = err attribute_error

  -- The value of a key that may be absent.
  abbrev pub or_default {ℓ} : {A : Type ℓ} → Option (Data F) → (Data F → Result A) → A → Result A
  or_default none read default = ok default
  or_default (some v) read default = read v

  unfoldable pub only : List String → Fields F → Result (Unit {0})
  only names end = ok tt
  only names (field k v fs) = if listed k names then only names fs else err type_error

  -- `{k: f(v) for k, v in d.items()}`, to and from a dictionary of the model.
  unfoldable pub fields_of {ℓ} : {A : Type ℓ} → (A → Data F) → Dict A → Fields F
  fields_of f [] = end
  fields_of f ((k, v) ∷ d) = field k (f v) (fields_of f d)

  unfoldable pub dict_of {ℓ} : {A : Type ℓ} → (Data F → Result A) → Fields F → Result (Dict A)
  dict_of read end = ok []
  dict_of read (field k v fs) = do x ← read v; d ← dict_of read fs; ok ((k, x) ∷ d)

  pub dict_of-fields_of {ℓ} :
      {A : Type ℓ} (f : A → Data F) (read : Data F → Result A)
      → ((a : A) → read (f a) ≡ ok a)
      → (d : Dict A) → dict_of read (fields_of f d) ≡ ok d
  unfolding dict_of fields_of
  dict_of-fields_of f read h [] = refl
  dict_of-fields_of f read h ((k, v) ∷ d) = rw (h v, dict_of-fields_of f read h d) refl
