-- ===== src/Prelude/Packing.antt =====
-- Byte strings as lists of numbers below 256: Python's slices, `ftruncate`, and the little-endian
-- integers of `struct`.
use Prim.Native.Nat.{ℕ, zero, suc, ◌+◌, ◌-◌, ◌*◌, ◌/◌, ◌%◌, ◌^◌, ◌<◌, ◌≤◌}
use mathlib.Core.Path.{◌≡◌, refl, sym, ap, ◌∙◌}
use mathlib.Core.List.{List, [], ◌∷◌, ◌++◌, append_assoc}
use native.Mathlib.Omega.{arith}
use native.Mathlib.Numerals.{unary_clauses}
use hobo.Prelude.Lists.{length, length-append}

abbrev pub Bytes : Type 0
Bytes = List ℕ

sum_suc : (m n : ℕ) → suc (m + n) ≡ suc m + n
sum_suc m n = omega arith

less_suc : (n m : ℕ) → n - m ≡ suc n - suc m
less_suc n m = omega arith

module _ {ℓ} {A : Type ℓ} where
  unfoldable pub take : ℕ → List A → List A
  take zero xs = []
  take (suc n) [] = []
  take (suc n) (x ∷ xs) = x ∷ take n xs

  unfoldable pub drop : ℕ → List A → List A
  drop zero xs = xs
  drop (suc n) [] = []
  drop (suc n) (x ∷ xs) = drop n xs

  unfoldable pub replicate : ℕ → A → List A
  replicate zero x = []
  replicate (suc n) x = x ∷ replicate n x

  pub take-append : (xs ys : List A) → take (length xs) (xs ++ ys) ≡ xs
  unfolding take
  take-append [] ys = refl
  take-append (x ∷ xs) ys = ap (λ l. x ∷ l) (take-append xs ys)

  pub drop-append : (xs ys : List A) → drop (length xs) (xs ++ ys) ≡ ys
  unfolding drop
  drop-append [] ys = refl
  drop-append (x ∷ xs) ys = drop-append xs ys

  pub take_all : (n : ℕ) (xs : List A) → length xs ≤ n → take n xs ≡ xs
  unfolding take
  take_all zero [] h = refl
  take_all zero (x ∷ xs) h = absurd (omega arith)
  take_all (suc n) [] h = refl
  take_all (suc n) (x ∷ xs) h = ap (λ l. x ∷ l) (take_all n xs (omega arith))

  -- A prefix that is kept whole.
  pub take-append_more :
      (n : ℕ) (xs ys : List A) → length xs ≤ n → take n (xs ++ ys) ≡ xs ++ take (n - length xs) ys
  unfolding take
  take-append_more n [] ys h = ap (λ k. take k ys) (omega arith)
  take-append_more zero (x ∷ xs) ys h = absurd (omega arith)
  take-append_more (suc n) (x ∷ xs) ys h =
      ap (λ l. x ∷ l)
        (take-append_more n xs ys (omega arith)
          ∙ ap (λ k. xs ++ take k ys) (less_suc n (length xs)))

  pub length-replicate : (n : ℕ) (x : A) → length (replicate n x) ≡ n
  unfolding replicate
  length-replicate zero x = refl
  length-replicate (suc n) x = ap suc (length-replicate n x)

  pub replicate_add : (m n : ℕ) (x : A) → replicate m x ++ replicate n x ≡ replicate (m + n) x
  unfolding replicate
  replicate_add zero n x = ap (λ k. replicate k x) (omega arith)
  replicate_add (suc m) n x =
      ap (λ l. x ∷ l) (replicate_add m n x) ∙ ap (λ k. replicate k x) (sum_suc m n)

  -- `xs[start:stop]`, and `xs[start : start + len(ys)] = ys`.
  abbrev pub slice : List A → ℕ → ℕ → List A
  slice xs start stop = take (stop - start) (drop start xs)

  abbrev pub splice : List A → ℕ → List A → List A
  splice xs start ys = take start xs ++ (ys ++ drop (start + length ys) xs)

  pub slice-append :
      (pre mid post : List A) (start stop : ℕ)
      → start ≡ length pre
      → stop ≡ length pre + length mid
      → slice (pre ++ (mid ++ post)) start stop ≡ mid
  slice-append pre mid post start stop e f =
      let span : stop - start ≡ length mid = omega arith in
      ap (λ n. take (stop - start) (drop n (pre ++ (mid ++ post)))) e
      ∙ ap (take (stop - start)) (drop-append pre (mid ++ post))
      ∙ ap (λ n. take n (mid ++ post)) span
      ∙ take-append mid post

  pub splice-append :
      (pre old new post : List A)
      → length old ≡ length new
      → splice (pre ++ (old ++ post)) (length pre) new ≡ pre ++ (new ++ post)
  splice-append pre old new post e =
      let behind : drop (length pre + length new) (pre ++ (old ++ post)) ≡ post =
        ap (λ n. drop n (pre ++ (old ++ post)))
          (ap (λ m. length pre + m) (sym e) ∙ sym (length-append pre old))
        ∙ ap (drop (length (pre ++ old))) (sym (append_assoc pre old post))
        ∙ drop-append (pre ++ old) post in
      ap (λ l. l ++ (new ++ drop (length pre + length new) (pre ++ (old ++ post))))
        (take-append pre (old ++ post))
      ∙ ap (λ l. pre ++ (new ++ l)) behind

pub slice_at :
    (buf pre mid post : Bytes) (start stop : ℕ)
    → buf ≡ pre ++ (mid ++ post)
    → start ≡ length pre
    → stop ≡ length pre + length mid
    → slice buf start stop ≡ mid
slice_at buf pre mid post start stop e f g =
    ap (λ b. slice b start stop) e ∙ slice-append pre mid post start stop f g

pub splice_at :
    (buf pre old new post : Bytes) (start : ℕ)
    → buf ≡ pre ++ (old ++ post)
    → start ≡ length pre
    → length old ≡ length new
    → splice buf start new ≡ pre ++ (new ++ post)
splice_at buf pre old new post start e f g =
    ap (λ b. splice b start new) e
    ∙ ap (λ n. splice (pre ++ (old ++ post)) n new) f
    ∙ splice-append pre old new post g

-- A file of `n` bytes: the end is cut off, or zeros are added.
abbrev pub ftruncate : Bytes → ℕ → Bytes
ftruncate bytes n = take n bytes ++ replicate (n - length bytes) 0

-- `struct.pack` of an unsigned integer of `w` bytes, and `struct.unpack`.
unfoldable pub pack : ℕ → ℕ → Bytes
pack zero v = []
pack (suc w) v = v % 256 ∷ pack w (v / 256)

unfoldable pub unpack : Bytes → ℕ
unpack [] = 0
unpack (b ∷ bs) = b + 256 * unpack bs

pub length-pack : (w v : ℕ) → length (pack w v) ≡ w
unfolding pack
length-pack zero v = refl
length-pack (suc w) v = ap suc (length-pack w (v / 256))

pub unpack-pack : (w v : ℕ) → v < 256 ^ w → unpack (pack w v) ≡ v
unfolding pack unpack
unpack-pack zero v h = omega arith
unpack-pack (suc w) v h =
    let bound : v < 256 ^ w * 256 = simp unary_clauses at h in
    omega (arith, unpack-pack w (v / 256) (omega arith))

pub unpack-zeros : (n : ℕ) → unpack (replicate n 0) ≡ 0
unfolding unpack replicate
unpack-zeros zero = refl
unpack-zeros (suc n) = omega (arith, unpack-zeros n)
