-- ===== src/Prelude/Exception.antt =====
-- Python code that may raise. `Result` is for code that only reads; `Outcome` is for code that
-- mutates an object, and carries the object as it was left beside the exception too.
use mathlib.Core.Path.{◌≡◌, refl, ap}
use mathlib.Core.Logic.{◌⊎◌, inl, inr}
use mathlib.Core.Option.{Option, none, some}

-- The classes of the exceptions that the code raises or lets through.
pub data Exn : Type 0 where
  key_error value_error zero_division_error corrupt_log_error struct_error : Exn
  type_error attribute_error overflow_error config_error seed_error reference_data_error
        market_data_error :
      Exn

pub data Result {ℓ} (A : Type ℓ) : Type ℓ where
  ok : A → Result A
  err : Exn → Result A

-- `d[k]` on the value that `d.get(k)` gives.
abbrev pub or_raise {ℓ} : {A : Type ℓ} → Option A → Exn → Result A
or_raise none e = err e
or_raise (some a) e = ok a

abbrev pub bind {ℓ κ} : {A : Type ℓ} {B : Type κ} → Result A → (A → Result B) → Result B
bind (ok a) f = f a
bind (err e) f = err e

infixl 5 ◌>>=◌
abbrev pub ◌>>=◌ {ℓ κ} : {A : Type ℓ} {B : Type κ} → Result A → (A → Result B) → Result B
r >>= f = bind r f

pub Result-cases {ℓ} :
    {A : Type ℓ} (r : Result A) → ((a : A) × (r ≡ ok a)) ⊎ ((e : Exn) × (r ≡ err e))
Result-cases (ok a) = inl (a, refl)
Result-cases (err e) = inr (e, refl)

pub bind-eq-ok {ℓ κ} :
    {A : Type ℓ} {B : Type κ} (r : Result A) (f : A → Result B) {b : B}
    → bind r f ≡ ok b
    → (a : A) × (r ≡ ok a) × (f a ≡ ok b)
bind-eq-ok (ok a) f h = (a, refl, h)
bind-eq-ok (err e) f h = cc

pub ok-injective {ℓ} : {A : Type ℓ} {a b : A} → ok a ≡ ok b → a ≡ b
ok-injective e = cc

pub or_raise-ok {ℓ} :
    {A : Type ℓ} (o : Option A) (e : Exn) {a : A} → or_raise o e ≡ ok a → o ≡ some a
or_raise-ok none e h = cc
or_raise-ok (some b) e h = ap some (ok-injective h)

pub data Outcome {ℓ κ} (S : Type ℓ) (A : Type κ) : Type (ℓ ⊔ κ) where
  returned : A → S → Outcome S A
  raised : Exn → S → Outcome S A

module _ {ℓ κ} {S : Type ℓ} {A : Type κ} where
  -- The object after the call, whether it returned or raised.
  abbrev pub after : Outcome S A → S
  after (returned a s) = s
  after (raised e s) = s

  abbrev pub lift : Result A → S → Outcome S A
  lift (ok a) s = returned a s
  lift (err e) s = raised e s

  abbrev pub then {μ} : {B : Type μ} → Outcome S A → (A → S → Outcome S B) → Outcome S B
  then (returned a s) f = f a s
  then (raised e s) f = raised e s

  pub Outcome-cases :
      (o : Outcome S A)
      → ((a : A) × (s : S) × (o ≡ returned a s)) ⊎ ((e : Exn) × (s : S) × (o ≡ raised e s))
  Outcome-cases (returned a s) = inl (a, s, refl)
  Outcome-cases (raised e s) = inr (e, s, refl)
