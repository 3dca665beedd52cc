-- ===== src/Float/Sum.antt =====
-- Sums over the entries of a dictionary, in exact arithmetic: what a sum becomes when one entry is
-- set.
use hobo.Prelude.{
  String, ◌≡◌, refl, ap, inl, inr, none, some, List, [], ◌∷◌, Bool-cases, eq_iff, str_eq, Result,
  ok, bind, Result-cases,
}
use hobo.Prelude.Dict
use hobo.Prelude.Dict.{Dict}
use hobo.Float.{Num, IsExact, ◌+◌, ◌-◌, neg, sum_from, try_sum_from}
use hobo.Float.Ring.{neg-zero, add-neg_cancel}

-- What the entry at `k` adds to the sum of `f`: nothing where there is none.
abbrev pub Contributes :
    {F : Type 0} ⦃n : Num F⦄ {V : Type 0} → (String × V → Result F) → Dict V → String → F → Type 0
Contributes ⦃n⦄ f d k a = elim (Dict.get d k) [ none ↦ a ≡ n.zero_f | some x ↦ f (k, x) ≡ ok a ]

module _ {F : Type 0} ⦃n : Num F⦄ {V : Type 0} where
  -- A sum whose terms cannot raise.
  pub try_sum_from-ok :
      (f : V → F) (acc : F) (xs : List V)
      → try_sum_from (λ x. ok (f x)) acc xs ≡ ok (sum_from f acc xs)
  unfolding sum_from try_sum_from
  try_sum_from-ok f acc [] = refl
  try_sum_from-ok f acc (x ∷ xs) = try_sum_from-ok f (acc + f x) xs

  -- Sums agree where their terms do.
  pub try_sum_from_congr :
      (f g : V → Result F)
      → ((x : V) → f x ≡ g x)
      → (acc : F) (xs : List V) → try_sum_from f acc xs ≡ try_sum_from g acc xs
  unfolding try_sum_from
  try_sum_from_congr f g h acc [] = refl
  try_sum_from_congr f g h acc (x ∷ xs) =
      rw (h x) (ap (bind (g x)) (λ i v. try_sum_from_congr f g h (acc + v) xs i))

module _ {F : Type 0} ⦃n : Num F⦄ (laws : IsExact F) {V : Type 0} (f : String × V → Result F) where
  open laws use {add_assoc, add_comm, add-zero, sub-eq-add-neg}

  -- A sum that starts higher ends higher.
  try_sum_from_shift :
      (x acc t : F) (d : Dict V)
      → try_sum_from f acc d ≡ ok t
      → try_sum_from f (acc + x) d ≡ ok (t + x)
  unfolding try_sum_from
  try_sum_from_shift x acc t [] h = cc
  try_sum_from_shift x acc t (e ∷ d) h = elim (Result-cases (f e)) [
    | inr (ex, r) ↦ cc (rw r at h)
    | inl (v, r) ↦
        rw (r, add_assoc acc x v, add_comm x v, ← add_assoc)
          (try_sum_from_shift x (acc + v) t d (rw r at h))
  ]

  swap_head :
      (acc t a b : F) (j k : String) (w y : V) (d : Dict V)
      → j ≡ k
      → f (k, w) ≡ ok a
      → f (k, y) ≡ ok b
      → try_sum_from f acc ((j, w) ∷ d) ≡ ok t
      → try_sum_from f acc ((j, y) ∷ d) ≡ ok (t - a + b)
  unfolding try_sum_from
  swap_head acc t a b j k w y d jk c e h =
      let start : try_sum_from f (acc + a) d ≡ ok t = rw (jk, c) at h in
      let moved = try_sum_from_shift (neg a + b) (acc + a) t d start in
      rw (jk, e, sub-eq-add-neg, add_assoc t) (rw (add_assoc acc a, add-neg_cancel laws) at moved)

  -- Setting the entry at `k` swaps what it contributes, `a`, for the new term, `b`.
  pub try_sum_from-set :
      (acc t a b : F) (d : Dict V) (k : String) (y : V)
      → Contributes f d k a
      → f (k, y) ≡ ok b
      → try_sum_from f acc d ≡ ok t
      → try_sum_from f acc (Dict.set d k y) ≡ ok (t - a + b)
  unfolding try_sum_from Dict.get Dict.set
  try_sum_from-set acc t a b [] k y c e h = rw (e, c, sub-eq-add-neg, neg-zero laws, add-zero) (cc)
  try_sum_from-set acc t a b ((j, w) ∷ d) k y c e h = elim (Bool-cases (str_eq j k)) [
    | inl q ↦ rw q (swap_head acc t a b j k w y d ((eq_iff j k).0 q) (rw (q, Contributes) at c) e h)
    | inr q ↦ rw q (elim (Result-cases (f (j, w))) [
      | inr (ex, r) ↦ cc (rw r at h)
      | inl (v, r) ↦
          rw r (try_sum_from-set (acc + v) t a b d k y (rw (q, Contributes) at c) e (rw r at h))
    ])
  ]
