-- ===== src/Risk/Math/Fill.antt =====
-- `simulate_fill` of hobo/risk/math.py in exact arithmetic: a fill neither makes nor loses money.
use hobo.Prelude.{◌≡◌, ◌≢◌, refl, sym, ap, ◌∙◌, inl, inr, true, false, Bool-cases}
use mathlib.Core.Path.{ap₂, ◌≡⟨◌⟩◌, ◌∎}
use hobo.Float.{Num, IsExact, ◌+◌, ◌-◌, ◌*◌, ◌/◌, ◌<?◌, ◌==◌, neg, abs}
use hobo.Float.Ring.{
  zero-add, add_left_comm, mul_left_comm, mul-zero, zero-mul, add-mul, mul-neg, neg-mul, neg-add,
  neg-neg, add_left_cancel, neg-add_cancel,
}
use hobo.Risk.Math.Signs.{Agree, same_direction-Agree, empty_fill, opposite-signs}
use hobo.Risk.Model.{Instrument, multiplier}
use hobo.Risk.Math.{unrealized_pnl, same_direction, add_fill, reduce_fill, simulate_fill}

-- The average entry price of a fill that adds to a position is a quotient without remainder.
abbrev pub AveragesExactly : {F : Type 0} ⦃n : Num F⦄ → F → F → F → F → Type 0
AveragesExactly ⦃n⦄ q e d p =
    same_direction q d ≡ true
    → q + d ≢ n.zero_f
    → (abs q * e + abs d * p) / abs (q + d) * abs (q + d) ≡ abs q * e + abs d * p

module _ {F : Type 0} ⦃n : Num F⦄ (laws : IsExact F) where
  open laws use {
    lt_irrefl, lt_total, eqb_iff, add_assoc, add_comm, add-zero, sub-eq-add-neg, add-neg, mul_assoc,
    mul_comm, one-mul, mul-add, add_mono,
  }

  -- What a fill that adds to a position costs is carried by the average price `a`.
  carried_cost :
      (q e d p a : F)
      → Agree q d
      → a * abs (q + d) ≡ abs q * e + abs d * p
      → (q + d) * a ≡ q * e + d * p
  carried_cost q e d p a (inl (aq, ad, s)) exact =
      mul_comm (q + d) a ∙ ap (λ x. a * x) (sym s) ∙ exact ∙ rw (aq, ad) refl
  carried_cost q e d p a (inr (aq, ad, s)) exact =
      (q + d) * a
      ≡⟨ sym (neg-neg laws _) ⟩ neg (neg ((q + d) * a))
      ≡⟨ ap neg (sym (neg-mul laws (q + d) a) ∙ mul_comm _ _ ∙ ap (λ x. a * x) (sym s) ∙ exact) ⟩
        neg (abs q * e + abs d * p)
      ≡⟨ rw (aq, ad) (ap neg (ap₂ ◌+◌ (neg-mul laws q e) (neg-mul laws d p))) ⟩
        neg (neg (q * e) + neg (d * p))
      ≡⟨ neg-add laws _ _ ∙ ap₂ ◌+◌ (neg-neg laws _) (neg-neg laws _) ⟩ q * e + d * p ∎

  -- PnL and cost make the value at the mark.
  pnl_and_cost :
      (x y mark : F) (i : Instrument F)
      → unrealized_pnl x y mark i + x * y * multiplier i ≡ x * multiplier i * mark
  unfolding unrealized_pnl
  pnl_and_cost x y mark i =
      let m = multiplier i in
      rw (sub-eq-add-neg, mul-add, mul-neg laws, add_assoc, add_comm (neg _))
        (ap (λ c. x * m * mark + (c + neg (x * m * y)))
            (simp (mul_assoc, mul_left_comm laws, mul_comm))
          ∙ ap (λ c. x * m * mark + c) (add-neg (x * m * y))
          ∙ add-zero _)

  -- The equation of costs on which the conservation of money rests. `r` times the multiplier is
  -- what the fill realises, and `a` is the new entry price.
  balance :
      (q e d p a r mark : F) (i : Instrument F)
      → r + (q * e + d * p) ≡ (q + d) * a
      → r * multiplier i + unrealized_pnl (q + d) a mark i
        ≡ unrealized_pnl q e mark i + unrealized_pnl d p mark i
  balance q e d p a r mark i h =
      let m = multiplier i in
      let cost = (q + d) * a * m in
      let u = unrealized_pnl (q + d) a mark i in
      let v = unrealized_pnl q e mark i in
      let w = unrealized_pnl d p mark i in
      add_left_cancel laws cost (r * m + u) (v + w) (
        cost + (r * m + u)
        ≡⟨ (simp (add_assoc, add_left_comm laws, add_comm)) ⟩ r * m + (u + cost)
        ≡⟨ ap (λ c. r * m + c) (pnl_and_cost (q + d) a mark i) ⟩ r * m + (q + d) * m * mark
        ≡⟨ ap (λ c. r * m + c) (rw (add-mul laws q d m) (add-mul laws (q * m) (d * m) mark)) ⟩
          r * m + (q * m * mark + d * m * mark)
        ≡⟨ (rw (← pnl_and_cost q e mark i, ← pnl_and_cost d p mark i) refl) ⟩
          r * m + (v + q * e * m + (w + d * p * m))
        ≡⟨ (simp (add_assoc, add_left_comm laws, add_comm)) ⟩
          r * m + (q * e * m + d * p * m) + (v + w)
        ≡⟨ ap (λ c. c + (v + w))
            (rw (← add-mul laws (q * e) (d * p) m, ← add-mul laws r _ m) (ap (λ c. c * m) h)) ⟩
          cost + (v + w) ∎)

  -- A fill that adds to a position realises nothing, and its cost is carried.
  add_fill_pnl :
      (q e d p mark : F) (i : Instrument F)
      → AveragesExactly q e d p
      → same_direction q d ≡ true
      → let r = add_fill q e d p in
        r.realized_delta + unrealized_pnl r.new_qty r.new_entry_price mark i
        ≡ unrealized_pnl q e mark i + unrealized_pnl d p mark i
  unfolding add_fill
  add_fill_pnl q e d p mark i exact h = elim (Bool-cases (q + d == n.zero_f)) [
    | inl z ↦
        let none_left = empty_fill laws q d h ((eqb_iff _ _).0 z) in
        rw z (
          carry e (
            ap (λ c. q * e + c)
              (ap (λ x. x * p) none_left
                ∙ zero-mul laws p
                ∙ sym (zero-mul laws e)
                ∙ ap (λ x. x * e) (sym none_left))
            ∙ sym (add-mul laws q d e)))
    | inr z ↦
        let entry = (abs q * e + abs d * p) / abs (q + d) in
        let cost =
          carried_cost q e d p entry (same_direction-Agree laws q d h)
            (exact h (λ s. cc ((eqb_iff (q + d) n.zero_f).1 s, z))) in
        rw z (carry entry (sym cost))
  ]
    where
      carry :
          (a : F)
          → q * e + d * p ≡ (q + d) * a
          → n.zero_f + unrealized_pnl (q + d) a mark i
            ≡ unrealized_pnl q e mark i + unrealized_pnl d p mark i
      carry a cost =
          ap (λ x. x + unrealized_pnl (q + d) a mark i) (sym (zero-mul laws (multiplier i)))
          ∙ balance q e d p a n.zero_f mark i (zero-add laws _ ∙ cost)

  gain_and_cost : (c e p : F) → c * (p - e) + c * e ≡ c * p
  gain_and_cost c e p =
      sym (mul-add c (p - e) e)
      ∙ ap (λ x. c * x) (rw (sub-eq-add-neg, add_assoc, add_comm (neg e) e, add-neg) (add-zero p))

  gain-eq-unrealized_pnl :
      (c e p : F) (i : Instrument F) → unrealized_pnl c e p i ≡ c * (p - e) * multiplier i
  unfolding unrealized_pnl
  gain-eq-unrealized_pnl c e p i = simp (mul_assoc, mul_left_comm laws, mul_comm)

  flip_cost : (q e d p : F) → q * (p - e) + (q * e + d * p) ≡ (q + d) * p
  flip_cost q e d p =
      sym (add_assoc _ _ _) ∙ ap (λ x. x + d * p) (gain_and_cost q e p) ∙ sym (add-mul laws q d p)

  close_cost : (q e d p : F) → neg d * (p - e) + (q * e + d * p) ≡ (q + d) * e
  close_cost q e d p =
      let gain = d * (p - e) in
      ap (λ x. neg d * (p - e) + (q * e + x)) (sym (gain_and_cost d e p))
      ∙ ap₂ ◌+◌ (neg-mul laws d (p - e)) (add_left_comm laws (q * e) gain (d * e))
      ∙ neg-add_cancel laws gain (q * e + d * e)
      ∙ sym (add-mul laws q d e)

  -- A fill against a position realises the gain on what it closes.
  reduce_fill_pnl :
      (q e d p mark : F) (i : Instrument F)
      → same_direction q d ≡ false
      → let r = reduce_fill q e d p i in
        r.realized_delta + unrealized_pnl r.new_qty r.new_entry_price mark i
        ≡ unrealized_pnl q e mark i + unrealized_pnl d p mark i
  unfolding reduce_fill
  reduce_fill_pnl q e d p mark i h =
      let (closed_all, closed_part) = opposite-signs laws q d h in
      elim (Bool-cases (abs q <? abs d)) [
        | inl f ↦
            rw (f, closed_all, gain-eq-unrealized_pnl)
              (balance q e d p p (q * (p - e)) mark i (flip_cost q e d p))
        | inr f ↦
            rw (f, closed_part, gain-eq-unrealized_pnl)
              (elim (Bool-cases (q + d == n.zero_f)) [
                | inl z ↦ rw z (
                    balance q e d p n.zero_f (neg d * (p - e)) mark i (
                      close_cost q e d p
                      ∙ ap (λ x. x * e) ((eqb_iff _ _).0 z)
                      ∙ zero-mul laws e
                      ∙ sym (mul-zero laws (q + d))))
                | inr z ↦ rw z (balance q e d p e (neg d * (p - e)) mark i (close_cost q e d p))
              ])
      ]

  -- In exact arithmetic, for every fill price and every mark, what the fill realises and the
  -- unrealised PnL of the new position are together the unrealised PnL of the old position and
  -- that of the filled quantity, bought or sold at the fill price. Where the fill adds to the
  -- position, the average price is taken to divide without remainder.
  pub simulate_fill_pnl :
      (q e d p mark : F) (i : Instrument F)
      → AveragesExactly q e d p
      → let r = simulate_fill q e d p i in
        r.realized_delta + unrealized_pnl r.new_qty r.new_entry_price mark i
        ≡ unrealized_pnl q e mark i + unrealized_pnl d p mark i
  unfolding simulate_fill
  simulate_fill_pnl q e d p mark i exact = elim (Bool-cases (same_direction q d)) [
    | inl h ↦ rw h (add_fill_pnl q e d p mark i exact h)
    | inr h ↦ rw h (reduce_fill_pnl q e d p mark i h)
  ]
