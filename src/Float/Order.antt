-- ===== src/Float/Order.antt =====
-- Signs and absolute values in exact arithmetic.
use hobo.Prelude.{◌≡◌, sym, ap, ◌∙◌, ◌⊎◌, inl, inr, true, false, Bool-cases}
use hobo.Float.{Num, IsOrdered, IsExact, ◌+◌, ◌*◌, ◌<?◌, neg, abs}
use hobo.Float.Ring.{zero-add, neg-zero, neg-mul}

module _ {F : Type 0} ⦃n : Num F⦄ (ordered : IsOrdered F) where
  open ordered use {lt_irrefl, lt_trans, lt_total}

  pub lt_asymm : (a b : F) → (a <? b) ≡ true → (b <? a) ≡ false
  lt_asymm a b h = elim (Bool-cases (b <? a)) [
    | inl k ↦ cc (lt_trans a b a h k, lt_irrefl a)
    | inr k ↦ k
  ]

  -- A value that is not positive is negative, or zero.
  pub nonpos-cases : (a : F) → (n.zero_f <? a) ≡ false → ((a <? n.zero_f) ≡ true) ⊎ (a ≡ n.zero_f)
  nonpos-cases a h = elim (Bool-cases (a <? n.zero_f)) [
    | inl k ↦ inl k
    | inr k ↦ inr (lt_total a n.zero_f k h)
  ]

module _ {F : Type 0} ⦃n : Num F⦄ (laws : IsExact F) where
  open laws use {lt_irrefl, lt_trans, add_comm, one-mul, add_mono}

  pub abs_pos : (a : F) → (n.zero_f <? a) ≡ true → abs a ≡ a
  abs_pos a h = rw (lt_asymm laws.is_ordered n.zero_f a h)

  pub abs_nonpos : (a : F) → (n.zero_f <? a) ≡ false → abs a ≡ neg a
  abs_nonpos a h = elim (nonpos-cases laws.is_ordered a h) [
    | inl k ↦ rw k
    | inr k ↦ rw (k, lt_irrefl) (sym (neg-zero laws))
  ]

  pub add_pos :
      (a b : F) → (n.zero_f <? a) ≡ true → (n.zero_f <? b) ≡ true → (n.zero_f <? a + b) ≡ true
  add_pos a b h k =
      lt_trans n.zero_f b (a + b) k (rw (zero-add laws b) at (add_mono n.zero_f a b h))

  -- Adding a negative value to one that is not positive.
  pub add_nonpos :
      (a b : F) → (n.zero_f <? a) ≡ false → (n.zero_f <? b) ≡ false → (n.zero_f <? a + b) ≡ false
  add_nonpos a b h k = elim (Bool-cases (n.zero_f <? a + b)) [
    | inr e ↦ e
    | inl e ↦ elim (nonpos-cases laws.is_ordered a h) [
      | inr z ↦ cc (rw (z, zero-add laws b) at e, k)
      | inl z ↦
          cc (lt_trans n.zero_f (a + b) b e (rw (zero-add laws b) at (add_mono a n.zero_f b z)), k)
    ]
  ]

  pub neg_one-mul : (a : F) → neg n.one * a ≡ neg a
  neg_one-mul a = neg-mul laws n.one a ∙ ap neg (one-mul a)
