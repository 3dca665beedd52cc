-- ===== src/Float/Int.antt =====
-- The integers as a type of numbers whose arithmetic is exact: prices, sizes and amounts that are
-- whole numbers. They meet the laws that the theorems ask for, and run in the tests.
use Prim.Native.Nat.{◌+◌, ◌-◌, ◌*◌, ◌/◌}
use hobo.Prelude.{
  ℕ, suc, ◌≡◌, ◌↔◌, ap, Bool, true, false, not, arith, ltb, leb, ◌==◌, if◌then◌else◌,
}
use hobo.Float.{Num, IsOrdered, IsExact}

-- `negsuc n` is -(n + 1).
pub data ℤ : Type 0 where
  pos negsuc : ℕ → ℤ

abbrev pos_part : ℤ → ℕ
pos_part (pos n) = n
pos_part (negsuc n) = 0

abbrev neg_part : ℤ → ℕ
neg_part (pos n) = 0
neg_part (negsuc n) = suc n

-- a - b, as an integer.
abbrev pub sub_ℕ : ℕ → ℕ → ℤ
sub_ℕ a b = if leb b a then pos (a - b) else negsuc (b - a - 1)

infixl 65 ◌+ℤ◌
infixl 70 ◌*ℤ◌
unfoldable pub neg_ℤ : ℤ → ℤ
neg_ℤ a = sub_ℕ (neg_part a) (pos_part a)

unfoldable pub ◌+ℤ◌ : ℤ → ℤ → ℤ
a +ℤ b = sub_ℕ (pos_part a + pos_part b) (neg_part a + neg_part b)

unfoldable pub ◌-ℤ◌ : ℤ → ℤ → ℤ
◌-ℤ◌ a b = sub_ℕ (pos_part a + neg_part b) (neg_part a + pos_part b)

unfoldable pub ◌*ℤ◌ : ℤ → ℤ → ℤ
pos m *ℤ pos n = pos (m * n)
pos m *ℤ negsuc n = sub_ℕ 0 (m * suc n)
negsuc m *ℤ pos n = sub_ℕ 0 (suc m * n)
negsuc m *ℤ negsuc n = pos (suc m * suc n)

-- Rounds towards zero.
unfoldable pub div_ℤ : ℤ → ℤ → ℤ
div_ℤ (pos m) (pos n) = pos (m / n)
div_ℤ (pos m) (negsuc n) = sub_ℕ 0 (m / suc n)
div_ℤ (negsuc m) (pos n) = sub_ℕ 0 (suc m / n)
div_ℤ (negsuc m) (negsuc n) = pos (suc m / suc n)

abbrev pub ltb_ℤ : ℤ → ℤ → Bool
ltb_ℤ a b = ltb (pos_part a + neg_part b) (pos_part b + neg_part a)

abbrev pub leb_ℤ : ℤ → ℤ → Bool
leb_ℤ a b = leb (pos_part a + neg_part b) (pos_part b + neg_part a)

abbrev pub eqb_ℤ : ℤ → ℤ → Bool
eqb_ℤ a b = (pos_part a + neg_part b) == (pos_part b + neg_part a)

ext : (a b : ℤ) → pos_part a + neg_part b ≡ pos_part b + neg_part a → a ≡ b
ext a b h = ground arith

+ℤ_parts :
    (a b : ℤ)
    → pos_part (a +ℤ b) + neg_part a + neg_part b ≡ neg_part (a +ℤ b) + pos_part a + pos_part b
unfolding ◌+ℤ◌
+ℤ_parts a b = ground arith

-ℤ_parts :
    (a b : ℤ)
    → pos_part (◌-ℤ◌ a b) + neg_part a + pos_part b ≡ neg_part (◌-ℤ◌ a b) + pos_part a + neg_part b
unfolding ◌-ℤ◌
-ℤ_parts a b = ground arith

neg_ℤ_parts : (a : ℤ) → (pos_part (neg_ℤ a) ≡ neg_part a) × (neg_part (neg_ℤ a) ≡ pos_part a)
unfolding neg_ℤ
neg_ℤ_parts a = ground arith

pos_part-*ℤ : (a b : ℤ) → pos_part (a *ℤ b) ≡ pos_part a * pos_part b + neg_part a * neg_part b
unfolding ◌*ℤ◌
pos_part-*ℤ a b = ground arith

neg_part-*ℤ : (a b : ℤ) → neg_part (a *ℤ b) ≡ pos_part a * neg_part b + neg_part a * pos_part b
unfolding ◌*ℤ◌
neg_part-*ℤ a b = ground arith

ruleset products = (pos_part-*ℤ, neg_part-*ℤ)

+ℤ_comm : (a b : ℤ) → a +ℤ b ≡ b +ℤ a
+ℤ_comm a b = ext _ _ (omega (arith, +ℤ_parts))

+ℤ_assoc : (a b c : ℤ) → a +ℤ b +ℤ c ≡ a +ℤ (b +ℤ c)
+ℤ_assoc a b c = ext _ _ (omega (arith, +ℤ_parts))

+ℤ-zero : (a : ℤ) → a +ℤ pos 0 ≡ a
+ℤ-zero a = ext _ _ (omega (arith, +ℤ_parts))

-ℤ-eq-+ℤ-neg_ℤ : (a b : ℤ) → ◌-ℤ◌ a b ≡ a +ℤ neg_ℤ b
-ℤ-eq-+ℤ-neg_ℤ a b = ext _ _ (omega (arith, -ℤ_parts a b, +ℤ_parts a (neg_ℤ b), neg_ℤ_parts b))

+ℤ-neg_ℤ : (a : ℤ) → a +ℤ neg_ℤ a ≡ pos 0
+ℤ-neg_ℤ a = ext _ _ (omega (arith, +ℤ_parts a (neg_ℤ a), neg_ℤ_parts a))

*ℤ_assoc : (a b c : ℤ) → a *ℤ b *ℤ c ≡ a *ℤ (b *ℤ c)
*ℤ_assoc a b c = ext _ _ (simp products (omega arith))

*ℤ_comm : (a b : ℤ) → a *ℤ b ≡ b *ℤ a
*ℤ_comm a b = ext _ _ (simp products (omega arith))

one-*ℤ : (a : ℤ) → pos 1 *ℤ a ≡ a
one-*ℤ a = ext _ _ (simp products (omega arith))

*ℤ-+ℤ : (a b c : ℤ) → a *ℤ (b +ℤ c) ≡ a *ℤ b +ℤ a *ℤ c
*ℤ-+ℤ a b c = ext _ _ (
    simp products (
      omega (
        arith,
        simp products at (+ℤ_parts (a *ℤ b) (a *ℤ c)),
        ap (λ (t : ℕ). pos_part a * t) (+ℤ_parts b c),
        ap (λ (t : ℕ). neg_part a * t) (+ℤ_parts b c),
      )))

+ℤ_mono : (a b c : ℤ) → ltb_ℤ a b ≡ true → ltb_ℤ (a +ℤ c) (b +ℤ c) ≡ true
+ℤ_mono a b c h = ground (arith, +ℤ_parts a c, +ℤ_parts b c)

instance abbrev pub int_num : Num ℤ
int_num = record {
  zero_f = pos 0;
  one = pos 1;
  add = ◌+ℤ◌;
  sub = ◌-ℤ◌;
  mul = ◌*ℤ◌;
  div = div_ℤ;
  neg = neg_ℤ;
  ltb = ltb_ℤ;
  leb = leb_ℤ;
  eqb = eqb_ℤ;
}

lt_irrefl_ℤ : (a : ℤ) → ltb_ℤ a a ≡ false
lt_irrefl_ℤ a = ground arith

lt_trans_ℤ : (a b c : ℤ) → ltb_ℤ a b ≡ true → ltb_ℤ b c ≡ true → ltb_ℤ a c ≡ true
lt_trans_ℤ a b c h k = ground arith

lt_total_ℤ : (a b : ℤ) → ltb_ℤ a b ≡ false → ltb_ℤ b a ≡ false → a ≡ b
lt_total_ℤ a b h k = ground arith

leb-eq-not_lt_ℤ : (a b : ℤ) → leb_ℤ a b ≡ not (ltb_ℤ b a)
leb-eq-not_lt_ℤ a b = ground arith

eqb_iff_ℤ : (a b : ℤ) → (eqb_ℤ a b ≡ true) ↔ (a ≡ b)
eqb_iff_ℤ a b = ground arith

pub ℤ-IsOrdered : IsOrdered ℤ
ℤ-IsOrdered = record {
  lt_irrefl = lt_irrefl_ℤ;
  lt_trans = lt_trans_ℤ;
  lt_total = lt_total_ℤ;
  leb-eq-not_lt = leb-eq-not_lt_ℤ;
  eqb_iff = eqb_iff_ℤ;
}

pub ℤ-IsExact : IsExact ℤ
ℤ-IsExact = record {
  is_ordered = ℤ-IsOrdered;
  add_assoc = +ℤ_assoc;
  add_comm = +ℤ_comm;
  add-zero = +ℤ-zero;
  sub-eq-add-neg = -ℤ-eq-+ℤ-neg_ℤ;
  add-neg = +ℤ-neg_ℤ;
  mul_assoc = *ℤ_assoc;
  mul_comm = *ℤ_comm;
  one-mul = one-*ℤ;
  mul-add = *ℤ-+ℤ;
  add_mono = +ℤ_mono;
}
