-- ===== src/Prelude/Decimal.antt =====
-- Python's `str` of a natural number, and the reading of its digits.
use Prim.Native.Nat.{ℕ, zero, suc, ◌+◌, ◌-◌, ◌*◌, ◌/◌, ◌%◌, ◌<◌}
use Prim.Native.Char.{Char, code}
use Prim.Native.String.{String, ◌++◌ as ◌^◌, slice}
use mathlib.Core.Path.{◌≡◌, refl, ap, ◌∙◌}
use mathlib.Core.Logic.{inl, inr}
use mathlib.Core.Bool.{Bool, true, false, ◌&&◌}
use native.Mathlib.Omega.{arith}
use text.Mathlib.Text.{◌==◌ as str_eq}
use text.Mathlib.TextEquality.{eq_iff}
use text.Mathlib.TextLemmas.{cons-append, nil-append, append_assoc}
use hobo.Prelude.Tests.{ltb, leb, ◌==◌, ==_iff, if◌then◌else◌, Bool-cases, ltb→lt, ltb_no→le}

abbrev digit_text : ℕ → String
digit_text d = slice "0123456789" d (d + 1)

-- `str(n)`, on fuel: `n` has at most `n + 1` digits.
unfoldable pub decimal_from : ℕ → ℕ → String → String
decimal_from zero v tail = tail
decimal_from (suc fuel) v tail =
    let digit = digit_text (v % 10) in
    let rest = decimal_from fuel (v / 10) (digit ^ tail) in if ltb v 10 then digit ^ tail else rest

unfoldable pub decimal : ℕ → String
decimal v = decimal_from (suc v) v ""

abbrev pub is_digit : Char → Bool
is_digit c = leb 48 (code c) && leb (code c) 57

abbrev pub digit_value : Char → ℕ
digit_value c = code c - 48

-- The number that digits at the front of a text stand for, behind the digits of `acc`, and the text
-- that follows them.
unfoldable pub read_digits : ℕ → String → ℕ × String
read_digits acc String.[] = (acc, "")
read_digits acc (String.◌∷◌ c s) =
    if is_digit c then read_digits (acc * 10 + digit_value c) s else (acc, String.◌∷◌ c s)

-- One digit, with the value `d`.
abbrev shows_digit : ℕ → String → Bool
shows_digit d String.[] = false
shows_digit d (String.◌∷◌ c s) = is_digit c && (digit_value c == d && str_eq s "")

-- The digits below `n` are what they should be.
digits_shown : ℕ → Bool
digits_shown zero = true
digits_shown (suc d) = if shows_digit d (digit_text d) then digits_shown d else false

ten_digits : digits_shown 10 ≡ true
unfolding digits_shown
ten_digits = refl

digit_shown : (n d : ℕ) → digits_shown n ≡ true → d < n → shows_digit d (digit_text d) ≡ true
unfolding digits_shown
digit_shown zero d table h = absurd (omega arith)
digit_shown (suc n) d table h = elim (Bool-cases (shows_digit n (digit_text n))) [
  | inr e ↦ cc (rw e at table)
  | inl e ↦ elim (Bool-cases (d == n)) [
    | inl same ↦ rw ((==_iff d n).0 same) e
    | inr other ↦ digit_shown n d (rw e at table) (ground arith)
  ]
]

digit_shape :
    (d : ℕ) (s : String)
    → shows_digit d s ≡ true
    → (c : Char) × (s ≡ String.◌∷◌ c "") × (is_digit c ≡ true) × (digit_value c ≡ d)
digit_shape d String.[] h = cc
digit_shape d (String.◌∷◌ c s) h = elim (Bool-cases (is_digit c)) [
  | inr e ↦ cc (rw e at h)
  | inl e ↦ elim (Bool-cases (digit_value c == d)) [
    | inr f ↦ cc (rw (e, f) at h)
    | inl f ↦ (
      c,
      ap (λ t. String.◌∷◌ c t) ((eq_iff s "").0 (rw (e, f) at h)),
      e,
      (==_iff (digit_value c) d).0 f,
    )
  ]
]

read_digits-digit :
    (acc d : ℕ) (t : String)
    → d < 10
    → read_digits acc (digit_text d ^ t) ≡ read_digits (acc * 10 + d) t
unfolding read_digits
read_digits-digit acc d t h =
    let (c, shape, digit, value) = digit_shape d (digit_text d) (digit_shown 10 d ten_digits h) in
    ap (λ s. read_digits acc (s ^ t)) shape
    ∙ ap (read_digits acc) (cons-append c "" t ∙ ap (λ s. String.◌∷◌ c s) (nil-append t))
    ∙ rw (digit, value) refl

decimal_from-append :
    (fuel v : ℕ) (s t : String) → decimal_from fuel v s ^ t ≡ decimal_from fuel v (s ^ t)
unfolding decimal_from
decimal_from-append zero v s t = refl
decimal_from-append (suc fuel) v s t =
    let last = append_assoc (digit_text (v % 10)) s t in
    elim (Bool-cases (ltb v 10)) [
      | inl e ↦ rw e last
      | inr e ↦ rw e (
          decimal_from-append fuel (v / 10) (digit_text (v % 10) ^ s) t
          ∙ ap (decimal_from fuel (v / 10)) last)
    ]

read_digits-decimal_from :
    (fuel v : ℕ) (t : String) → v < fuel → read_digits 0 (decimal_from fuel v t) ≡ read_digits v t
unfolding decimal_from
read_digits-decimal_from zero v t h = absurd (omega arith)
read_digits-decimal_from (suc fuel) v t h =
    let last : v % 10 < 10 = omega arith in
    elim (Bool-cases (ltb v 10)) [
      | inl e ↦
          let one : 0 * 10 + v % 10 ≡ v = omega (arith, ltb→lt v 10 e) in
          rw e (read_digits-digit 0 (v % 10) t last ∙ ap (λ k. read_digits k t) one)
      | inr e ↦
          let all : v / 10 * 10 + v % 10 ≡ v = omega arith in
          rw e (
            read_digits-decimal_from fuel (v / 10) (digit_text (v % 10) ^ t)
              (omega (arith, ltb_no→le v 10 e))
            ∙ read_digits-digit (v / 10) (v % 10) t last
            ∙ ap (λ k. read_digits k t) all)
    ]

-- A number is read back from its text, whatever follows it that is no digit.
pub read_digits-decimal : (v : ℕ) (t : String) → read_digits 0 (decimal v ^ t) ≡ read_digits v t
unfolding decimal
read_digits-decimal v t =
    ap (read_digits 0) (decimal_from-append (suc v) v "" t)
    ∙ ap (λ s. read_digits 0 (decimal_from (suc v) v s)) (nil-append t)
    ∙ read_digits-decimal_from (suc v) v t (omega arith)

-- The text of a number begins with a digit.
abbrev pub begins_with_digit : String → Bool
begins_with_digit String.[] = false
begins_with_digit (String.◌∷◌ c s) = is_digit c

digit_first : (d : ℕ) (t : String) → d < 10 → begins_with_digit (digit_text d ^ t) ≡ true
digit_first d t h =
    let (c, shape, digit, value) = digit_shape d (digit_text d) (digit_shown 10 d ten_digits h) in
    ap (λ s. begins_with_digit (s ^ t)) shape ∙ ap begins_with_digit (cons-append c "" t) ∙ digit

decimal_from_first :
    (fuel v : ℕ) (t : String) → v < fuel → begins_with_digit (decimal_from fuel v t) ≡ true
unfolding decimal_from
decimal_from_first zero v t h = absurd (omega arith)
decimal_from_first (suc fuel) v t h = elim (Bool-cases (ltb v 10)) [
  | inl e ↦ rw e (digit_first (v % 10) t (omega arith))
  | inr e ↦
      rw e (
        decimal_from_first fuel (v / 10) (digit_text (v % 10) ^ t)
          (omega (arith, ltb_no→le v 10 e)))
]

pub decimal_first : (v : ℕ) (t : String) → begins_with_digit (decimal v ^ t) ≡ true
unfolding decimal
decimal_first v t =
    ap begins_with_digit
      (decimal_from-append (suc v) v "" t ∙ ap (decimal_from (suc v) v) (nil-append t))
    ∙ decimal_from_first (suc v) v t (omega arith)
