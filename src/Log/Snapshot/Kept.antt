-- ===== src/Log/Snapshot/Kept.antt =====
-- How many snapshots `_prune_old_snapshots` of hobo/log/snapshot.py leaves.
use Prim.Native.Nat.{◌-◌}
use hobo.Prelude.{
  ℕ, zero, suc, String, Bool, true, false, List, [], ◌∷◌, length, take, All, ◌≡◌, refl, sym, ap,
  ◌∙◌, ◌≤◌, ◌<◌, arith, if◌then◌else◌, str_eq, eq_refl, Bool-cases, Option-cases, inl, inr,
}
use hobo.Prelude.Dict.{Dict}
use hobo.Log.Snapshot.{snapshot_seq, insert, sort, found, list_snapshots, remove, remove_all, prune}

-- The name is that of one of the entries.
abbrev named : List (ℕ × String) → String → Bool
named [] name = false
named (e ∷ es) name = if str_eq name e.1 then true else named es name

-- How many of the second entries have a name that none of the first ones has.
left : List (ℕ × String) → List (ℕ × String) → ℕ
left es [] = 0
left es (x ∷ xs) = if named es x.1 then left es xs else suc (left es xs)

left_of_nothing : (xs : List (ℕ × String)) → left [] xs ≡ length xs
unfolding left
left_of_nothing [] = refl
left_of_nothing (x ∷ xs) = ap suc (left_of_nothing xs)

left-remove :
    (e : ℕ × String) (es : List (ℕ × String)) (d : Dict String)
    → left es (found (remove d e.1)) ≡ left (e ∷ es) (found d)
unfolding left found remove
left-remove e es [] = refl
left-remove e es ((j, content) ∷ d) = elim (Option-cases (snapshot_seq j)) [
  | inl s ↦ elim (Bool-cases (str_eq j e.1)) [
    | inl q ↦ rw (q, s, found) (left-remove e es d)
    | inr q ↦ rw (q, s, found) (left-remove e es d)
  ]
  | inr (m, s) ↦ elim (Bool-cases (str_eq j e.1)) [
    | inl q ↦ rw (q, s, found, q) (left-remove e es d)
    | inr q ↦ rw (q, s, found, q) (ap (λ k. if named es j then k else suc k) (left-remove e es d))
  ]
]

length-remove_all :
    (es : List (ℕ × String)) (d : Dict String)
    → length (found (remove_all es d)) ≡ left es (found d)
unfolding remove_all
length-remove_all [] d = sym (left_of_nothing (found d))
length-remove_all (e ∷ es) d = length-remove_all es (remove d e.1) ∙ left-remove e es d

left-insert :
    (es : List (ℕ × String)) (x : ℕ × String) (xs : List (ℕ × String))
    → left es (insert x xs) ≡ left es (x ∷ xs)
unfolding left insert
left-insert es x [] = refl
left-insert es x (y ∷ ys) = ground (arith, left-insert es x ys)

left-sort : (es xs : List (ℕ × String)) → left es (sort xs) ≡ left es xs
unfolding left sort
left-sort es [] = refl
left-sort es (x ∷ xs) =
    left-insert es x (sort xs) ∙ ap (λ k. if named es x.1 then k else suc k) (left-sort es xs)

length-sort : (xs : List (ℕ × String)) → length (sort xs) ≡ length xs
length-sort xs = sym (left_of_nothing (sort xs)) ∙ left-sort [] xs ∙ left_of_nothing xs

left_of_first :
    (es : List (ℕ × String)) (m : ℕ) (xs : List (ℕ × String))
    → All (λ (x : ℕ × String). named es x.1 ≡ true) (take m xs)
    → left es xs ≤ length xs - m
unfolding left take
left_of_first es m [] h = omega arith
left_of_first es zero (x ∷ xs) h = ground (arith, left_of_first es zero xs tt)
left_of_first es (suc m) (x ∷ xs) h = rw h.0 (omega (arith, left_of_first es m xs h.1))

named-more :
    (e : ℕ × String) (es xs : List (ℕ × String))
    → All (λ (x : ℕ × String). named es x.1 ≡ true) xs
    → All (λ (x : ℕ × String). named (e ∷ es) x.1 ≡ true) xs
named-more e es [] h = tt
named-more e es (x ∷ xs) h = (ground arith, named-more e es xs h.1)

named_self : (es : List (ℕ × String)) → All (λ (x : ℕ × String). named es x.1 ≡ true) es
named_self [] = tt
named_self (e ∷ es) = (rw (eq_refl e.1) refl, named-more e es es (named_self es))

-- The directory is bounded: pruning to a positive number of snapshots leaves at most that many in
-- it, however many there were.
pub length-prune :
    (directory : Dict String) (keep_last : ℕ)
    → 0 < keep_last
    → length (list_snapshots (prune directory keep_last)) ≤ keep_last
unfolding prune list_snapshots
length-prune directory zero h = absurd (omega arith)
length-prune directory (suc k) h =
    let all = sort (found directory) in
    let old = take (length all - suc k) all in
    omega (
      arith,
      length-sort (found (remove_all old directory)),
      length-remove_all old directory,
      left-sort old (found directory),
      left_of_first old (length all - suc k) all (named_self old),
    )
