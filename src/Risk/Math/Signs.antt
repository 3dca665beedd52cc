-- ===== src/Risk/Math/Signs.antt =====
-- The signs of a position and of a fill, as `simulate_fill` of hobo/risk/math.py tests them.
use hobo.Prelude.{◌≡◌, sym, ap, ◌∙◌, ◌⊎◌, inl, inr, true, false, Bool-cases, if◌then◌else◌}
use hobo.Float.{Num, IsExact, ◌+◌, ◌*◌, ◌<?◌, ◌==◌, neg, abs}
use hobo.Float.Ring.{zero-add, neg-neg}
use hobo.Float.Order.{nonpos-cases, abs_pos, abs_nonpos, add_pos, add_nonpos, neg_one-mul}
use hobo.Risk.Math.{same_direction}

module _ {F : Type 0} ⦃n : Num F⦄ where
  -- All three of `q`, `d` and `q + d` are their own absolute values, or all are the negations.
  abbrev pub Agree : F → F → Type 0
  Agree q d =
      ((abs q ≡ q) × (abs d ≡ d) × (abs (q + d) ≡ q + d))
      ⊎ ((abs q ≡ neg q) × (abs d ≡ neg d) × (abs (q + d) ≡ neg (q + d)))

  -- The sign that `simulate_fill` gives to the closed amount.
  abbrev pub sign_of : F → F
  sign_of q = if n.zero_f <? q then n.one else neg n.one

module _ {F : Type 0} ⦃n : Num F⦄ (laws : IsExact F) where
  open laws use {lt_irrefl, eqb_iff, add_comm, one-mul, add_mono}

  both_pos : (q d : F) → (n.zero_f <? q) ≡ true → (n.zero_f <? d) ≡ true → Agree q d
  both_pos q d h k =
      inl (abs_pos laws q h, abs_pos laws d k, abs_pos laws (q + d) (add_pos laws q d h k))

  both_nonpos : (q d : F) → (n.zero_f <? q) ≡ false → (n.zero_f <? d) ≡ false → Agree q d
  both_nonpos q d h k =
      inr (
        abs_nonpos laws q h,
        abs_nonpos laws d k,
        abs_nonpos laws (q + d) (add_nonpos laws q d h k),
      )

  from_flat : (d : F) → Agree n.zero_f d
  from_flat d = elim (Bool-cases (n.zero_f <? d)) [
    | inl k ↦
        inl (rw (lt_irrefl n.zero_f), abs_pos laws d k, rw (zero-add laws d) (abs_pos laws d k))
    | inr k ↦ both_nonpos n.zero_f d (lt_irrefl n.zero_f) k
  ]

  pub same_direction-Agree : (q d : F) → same_direction q d ≡ true → Agree q d
  same_direction-Agree q d h = elim (Bool-cases (q == n.zero_f)) [
    | inl z ↦ rw ((eqb_iff q n.zero_f).0 z) (from_flat d)
    | inr z ↦ elim (Bool-cases (n.zero_f <? q)) [
      | inl k ↦ elim (Bool-cases (n.zero_f <? d)) [
        | inl l ↦ both_pos q d k l
        | inr l ↦ cc (rw (z, k, l) at h)
      ]
      | inr k ↦ elim (Bool-cases (n.zero_f <? d)) [
        | inl l ↦ cc (rw (z, k, l) at h)
        | inr l ↦ both_nonpos q d k l
      ]
    ]
  ]

  nonpos_sum :
      (q d : F)
      → (n.zero_f <? q) ≡ false
      → (n.zero_f <? d) ≡ false
      → q + d ≡ n.zero_f
      → d ≡ n.zero_f
  nonpos_sum q d h k s = elim (nonpos-cases laws.is_ordered d k) [
    | inr z ↦ z
    | inl z ↦ cc (rw (add_comm d q, s, zero-add laws q) at (add_mono d n.zero_f q z), h)
  ]

  pos_sum : (q d : F) → (n.zero_f <? q) ≡ true → (n.zero_f <? d) ≡ true → ¬ (q + d ≡ n.zero_f)
  pos_sum q d h k s = cc (rw s at (add_pos laws q d h k), lt_irrefl n.zero_f)

  -- A fill that adds to a position and leaves no position is empty.
  pub empty_fill : (q d : F) → same_direction q d ≡ true → q + d ≡ n.zero_f → d ≡ n.zero_f
  empty_fill q d h s = elim (Bool-cases (q == n.zero_f)) [
    | inl z ↦ sym (zero-add laws d) ∙ ap (λ x. x + d) (sym ((eqb_iff q n.zero_f).0 z)) ∙ s
    | inr z ↦ elim (Bool-cases (n.zero_f <? q)) [
      | inl k ↦ elim (Bool-cases (n.zero_f <? d)) [
        | inl l ↦ absurd (pos_sum q d k l s)
        | inr l ↦ cc (rw (z, k, l) at h)
      ]
      | inr k ↦ elim (Bool-cases (n.zero_f <? d)) [
        | inl l ↦ cc (rw (z, k, l) at h)
        | inr l ↦ nonpos_sum q d k l s
      ]
    ]
  ]

  pub opposite-signs :
      (q d : F) → same_direction q d ≡ false → (sign_of q * abs q ≡ q) × (sign_of q * abs d ≡ neg d)
  opposite-signs q d h = elim (Bool-cases (q == n.zero_f)) [
    | inl z ↦ cc (rw z at h)
    | inr z ↦ elim (Bool-cases (n.zero_f <? q)) [
      | inl k ↦ elim (Bool-cases (n.zero_f <? d)) [
        | inl l ↦ cc (rw (z, k, l) at h)
        | inr l ↦ rw k (one-mul _ ∙ abs_pos laws q k, one-mul _ ∙ abs_nonpos laws d l)
      ]
      | inr k ↦ elim (Bool-cases (n.zero_f <? d)) [
        | inl l ↦ rw k (
          neg_one-mul laws _ ∙ ap neg (abs_nonpos laws q k) ∙ neg-neg laws q,
          neg_one-mul laws _ ∙ ap neg (abs_pos laws d l),
        )
        | inr l ↦ cc (rw (z, k, l) at h)
      ]
    ]
  ]
