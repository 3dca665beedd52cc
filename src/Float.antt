-- ===== src/Float.antt =====
-- Python's `float` as the code uses it: a type `F` with the operations of the record `Num`. What
-- the code computes is defined over any such type; what needs an order without NaN takes
-- `IsOrdered`, and what needs sums and products without rounding takes `IsExact`.
pub mod Ring
pub mod Sum
pub mod Order
pub mod Int
use hobo.Prelude.{◌≡◌, ◌↔◌, Bool, true, false, not, List, [], ◌∷◌, Result, ok, bind, if◌then◌else◌}

pub record Num (F : Type 0) : Type 0 where
  pub zero_f : F
  pub one : F
  pub add : F → F → F
  pub sub : F → F → F
  pub mul : F → F → F
  pub div : F → F → F
  pub neg : F → F
  pub ltb : F → F → Bool
  pub leb : F → F → Bool
  pub eqb : F → F → Bool

module _ {F : Type 0} ⦃n : Num F⦄ where
  infixl 65 ◌+◌ ◌-◌
  infixl 70 ◌*◌ ◌/◌
  infix 50 ◌<?◌ ◌≤?◌ ◌==◌
  abbrev pub ◌+◌ : F → F → F
  ◌+◌ = n.add

  abbrev pub ◌-◌ : F → F → F
  ◌-◌ = n.sub

  abbrev pub ◌*◌ : F → F → F
  ◌*◌ = n.mul

  -- The quotient by a divisor that is not zero. Where the code may divide by zero, the model tests
  -- it and raises.
  abbrev pub ◌/◌ : F → F → F
  ◌/◌ = n.div

  abbrev pub neg : F → F
  neg = n.neg

  abbrev pub ◌<?◌ : F → F → Bool
  ◌<?◌ = n.ltb

  abbrev pub ◌≤?◌ : F → F → Bool
  ◌≤?◌ = n.leb

  abbrev pub ◌==◌ : F → F → Bool
  ◌==◌ = n.eqb

  -- `abs`, and `max` and `min` as Python picks their result: the first argument unless the second
  -- one is strictly better.
  abbrev pub abs : F → F
  abs a = if a <? n.zero_f then neg a else a

  abbrev pub max : F → F → F
  max a b = if a <? b then b else a

  abbrev pub min : F → F → F
  min a b = if b <? a then b else a

  -- `sum(f(x) for x in xs)`: from 0, left to right. The second form is for an `f` that may raise.
  unfoldable pub sum_from {ℓ} : {A : Type ℓ} → (A → F) → F → List A → F
  sum_from f acc [] = acc
  sum_from f acc (x ∷ xs) = sum_from f (acc + f x) xs

  unfoldable pub try_sum_from {ℓ} : {A : Type ℓ} → (A → Result F) → F → List A → Result F
  try_sum_from f acc [] = ok acc
  try_sum_from f acc (x ∷ xs) = bind (f x) (λ v. try_sum_from f (acc + v) xs)

  abbrev pub sum {ℓ} : {A : Type ℓ} → (A → F) → List A → F
  sum f xs = sum_from f n.zero_f xs

  abbrev pub try_sum {ℓ} : {A : Type ℓ} → (A → Result F) → List A → Result F
  try_sum f xs = try_sum_from f n.zero_f xs

-- The comparisons order the values: there is no NaN among them.
pub record IsOrdered (F : Type 0) ⦃n : Num F⦄ : Type 0 where
  pub lt_irrefl : (a : F) → (a <? a) ≡ false
  pub lt_trans : (a b c : F) → (a <? b) ≡ true → (b <? c) ≡ true → (a <? c) ≡ true
  pub lt_total : (a b : F) → (a <? b) ≡ false → (b <? a) ≡ false → a ≡ b
  pub leb-eq-not_lt : (a b : F) → (a ≤? b) ≡ not (b <? a)
  pub eqb_iff : (a b : F) → ((a == b) ≡ true) ↔ (a ≡ b)

-- An ordered commutative ring: the operations do not round.
pub record IsExact (F : Type 0) ⦃n : Num F⦄ : Type 0 where
  pub is_ordered : IsOrdered F
  pub open is_ordered use *
  pub add_assoc : (a b c : F) → a + b + c ≡ a + (b + c)
  pub add_comm : (a b : F) → a + b ≡ b + a
  pub add-zero : (a : F) → a + n.zero_f ≡ a
  pub sub-eq-add-neg : (a b : F) → a - b ≡ a + neg b
  pub add-neg : (a : F) → a + neg a ≡ n.zero_f
  pub mul_assoc : (a b c : F) → a * b * c ≡ a * (b * c)
  pub mul_comm : (a b : F) → a * b ≡ b * a
  pub one-mul : (a : F) → n.one * a ≡ a
  pub mul-add : (a b c : F) → a * (b + c) ≡ a * b + a * c
  pub add_mono : (a b c : F) → (a <? b) ≡ true → (a + c <? b + c) ≡ true
