-- ===== src/Float/Ring.antt =====
-- Consequences of the laws of exact arithmetic: cancellation, signs, and a set for `simp` that
-- brings sums of products to one form.
use hobo.Prelude.{◌≡◌, sym, ap, ◌∙◌}
use hobo.Float.{Num, IsExact, ◌+◌, ◌-◌, ◌*◌, neg}

module _ {F : Type 0} ⦃n : Num F⦄ (laws : IsExact F) where
  open laws use {
    add_assoc, add_comm, add-zero, sub-eq-add-neg, add-neg, mul_assoc, mul_comm, one-mul, mul-add,
  }

  pub zero-add : (a : F) → n.zero_f + a ≡ a
  zero-add a = add_comm _ _ ∙ add-zero a

  pub add_left_comm : (a b c : F) → a + (b + c) ≡ b + (a + c)
  add_left_comm a b c = sym (add_assoc a b c) ∙ ap (λ x. x + c) (add_comm a b) ∙ add_assoc b a c

  pub mul_left_comm : (a b c : F) → a * (b * c) ≡ b * (a * c)
  mul_left_comm a b c = sym (mul_assoc a b c) ∙ ap (λ x. x * c) (mul_comm a b) ∙ mul_assoc b a c

  pub add-neg_cancel : (a b : F) → a + (neg a + b) ≡ b
  add-neg_cancel a b = rw (← add_assoc, add-neg) (zero-add b)

  pub neg-add_cancel : (a b : F) → neg a + (a + b) ≡ b
  neg-add_cancel a b = rw (← add_assoc, add_comm (neg a) a, add-neg) (zero-add b)

  pub add_left_cancel : (a b c : F) → a + b ≡ a + c → b ≡ c
  add_left_cancel a b c e = sym (neg-add_cancel a b) ∙ ap (λ x. neg a + x) e ∙ neg-add_cancel a c

  pub mul-zero : (a : F) → a * n.zero_f ≡ n.zero_f
  mul-zero a =
      add_left_cancel (a * n.zero_f) _ _
        (sym (mul-add a n.zero_f n.zero_f) ∙ ap (λ x. a * x) (add-zero n.zero_f) ∙ sym (add-zero _))

  pub zero-mul : (a : F) → n.zero_f * a ≡ n.zero_f
  zero-mul a = mul_comm _ _ ∙ mul-zero a

  pub add-mul : (a b c : F) → (a + b) * c ≡ a * c + b * c
  add-mul a b c = rw (mul_comm (a + b) c, mul_comm a c, mul_comm b c) (mul-add c a b)

  -- What is opposite to `a` is its negation.
  pub neg_unique : (a b : F) → a + b ≡ n.zero_f → b ≡ neg a
  neg_unique a b e = add_left_cancel a b (neg a) (e ∙ sym (add-neg a))

  pub neg-neg : (a : F) → neg (neg a) ≡ a
  neg-neg a = sym (neg_unique (neg a) a (add_comm _ _ ∙ add-neg a))

  pub neg-zero : neg n.zero_f ≡ n.zero_f
  neg-zero = sym (neg_unique _ _ (add-zero _))

  pub mul-neg : (a b : F) → a * neg b ≡ neg (a * b)
  mul-neg a b =
      neg_unique (a * b) _ (sym (mul-add a b (neg b)) ∙ ap (λ x. a * x) (add-neg b) ∙ mul-zero a)

  pub neg-mul : (a b : F) → neg a * b ≡ neg (a * b)
  neg-mul a b = mul_comm _ _ ∙ mul-neg b a ∙ ap neg (mul_comm b a)

  pub neg-add : (a b : F) → neg (a + b) ≡ neg a + neg b
  neg-add a b = sym (neg_unique (a + b) (neg a + neg b) sums)
    where
      sums : a + b + (neg a + neg b) ≡ n.zero_f
      sums = rw (add_assoc, add_left_comm b, add-neg_cancel) (add-neg b)

  -- A negated term moves to the other side.
  pub eq-sub : (a b c : F) → a + b ≡ c → a ≡ c - b
  eq-sub a b c e =
      add_left_cancel b a (c - b)
        (add_comm b a ∙ e ∙ sym (rw (sub-eq-add-neg, add_left_comm, add-neg) (add-zero c)))

  pub sub-eq : (a b c : F) → a ≡ c + b → a - b ≡ c
  sub-eq a b c e = sym (eq-sub c b a (sym e))

  -- Swapping one term of a sum for another.
  pub swap_term : (p x y q : F) → p + (x + q) - x + y ≡ p + (y + q)
  swap_term p x y q =
      rw (sub-eq (p + (x + q)) x (p + q) (simp (add_assoc, add_comm))) (simp (add_assoc, add_comm))
