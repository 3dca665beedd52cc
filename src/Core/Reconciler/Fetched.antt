-- ===== src/Core/Reconciler/Fetched.antt =====
-- What hobo/core/fill_reconciler.py fetches, and to which book it attributes a fill.
use Prim.Native.String.{len, slice}
use mathlib.Core.Path.{subst}
use text.Mathlib.Text.{starts_with}
use hobo.Prelude.{
  ℕ, zero, suc, ◌≤◌, leb, leb→le, str_eq, String, ◌≡◌, refl, inl, inr, Bool, true, false,
  Bool-cases, Option, none, some, List, [], ◌∷◌, ◌++◌, All, All-append, eq_iff, if◌then◌else◌, ◌&&◌,
  arith,
}
use hobo.Core.Ingestor.{member, truthy}
use hobo.Core.Reconciler.{
  ExchangeFill, is_new, new_fills, any_older, last_cursor, fetch_pages, fetch_new, max_pages,
  insert_longest, longest_first, all_digits, first_owner, attribute,
}

member-no : (x : String) (ys : List String) → member x ys ≡ false → All (λ y. (y ≡ x) → ⊥) ys
member-no x [] h = tt
member-no x (y ∷ ys) h = elim (Bool-cases (str_eq y x)) [
  | inl e ↦ cc (rw e at h)
  | inr e ↦ (λ same. cc (e, (eq_iff y x).1 same), member-no x ys (rw e at h))
]

no-member : (x : String) (ys : List String) → All (λ y. (y ≡ x) → ⊥) ys → member x ys ≡ false
no-member x [] h = refl
no-member x (y ∷ ys) (other, h) = elim (Bool-cases (str_eq y x)) [
  | inl e ↦ absurd (other ((eq_iff y x).0 e))
  | inr e ↦ rw e (no-member x ys h)
]

module _ {F : Type 0} where
  -- A fill that is not older than the baseline, has a trade id, and is none of those that were seen.
  pub record IsMissing (baseline_ns : ℕ) (seen : List String) (f : ExchangeFill F) : Type 0 where
    pub recent : baseline_ns ≤ f.ts_ns
    pub named : (f.trade_id ≡ "") → ⊥
    pub unseen : All (λ t. (t ≡ f.trade_id) → ⊥) seen

  is_new-IsMissing :
      (baseline_ns : ℕ) (seen : List String) (f : ExchangeFill F)
      → is_new baseline_ns seen f ≡ true
      → IsMissing baseline_ns seen f
  is_new-IsMissing baseline_ns seen f h = record {
    recent = leb→le baseline_ns f.ts_ns (ground arith);
    named = λ same. ground (arith, (eq_iff f.trade_id "").1 same);
    unseen = member-no f.trade_id seen (ground arith);
  }

  pub IsMissing-is_new :
      (baseline_ns : ℕ) (seen : List String) (f : ExchangeFill F)
      → IsMissing baseline_ns seen f
      → is_new baseline_ns seen f ≡ true
  IsMissing-is_new baseline_ns seen f h =
      let recent : leb baseline_ns f.ts_ns ≡ true = ground (arith, h.recent) in
      elim (Bool-cases (str_eq f.trade_id "")) [
        | inl e ↦ absurd (h.named ((eq_iff f.trade_id "").0 e))
        | inr e ↦ rw (recent, e, no-member f.trade_id seen h.unseen) refl
      ]

  abbrev pub AllNew : ℕ → List String → List (ExchangeFill F) → Type 0
  AllNew baseline_ns seen = All (IsMissing baseline_ns seen)

  new_fills-AllNew :
      (baseline_ns : ℕ) (seen : List String) (page : List (ExchangeFill F))
      → AllNew baseline_ns seen (new_fills baseline_ns seen page)
  unfolding new_fills
  new_fills-AllNew baseline_ns seen [] = tt
  new_fills-AllNew baseline_ns seen (f ∷ page) = elim (Bool-cases (is_new baseline_ns seen f)) [
    | inl e ↦ rw e (is_new-IsMissing baseline_ns seen f e, new_fills-AllNew baseline_ns seen page)
    | inr e ↦ rw e (new_fills-AllNew baseline_ns seen page)
  ]

  All-if :
      (P : ExchangeFill F → Type 0) (b : Bool) (xs : List (ExchangeFill F))
      → All P xs
      → All P (if b then [] else xs) × All P (if b then xs else [])
  All-if P true xs h = (tt, h)
  All-if P false xs h = (h, tt)

  fetch_pages-AllNew :
      (pages : ℕ) (fills : Option String → List (ExchangeFill F)) (baseline_ns : ℕ)
      (seen : List String) (after_cursor : Option String)
      → AllNew baseline_ns seen (fetch_pages fills baseline_ns seen pages after_cursor)
  unfolding fetch_pages
  fetch_pages-AllNew zero fills baseline_ns seen after_cursor = tt
  fetch_pages-AllNew (suc pages) fills baseline_ns seen after_cursor =
      page_of (fills after_cursor)
        (λ cursor. fetch_pages-AllNew pages fills baseline_ns seen cursor)
    where
      page_of :
          (page : List (ExchangeFill F))
          → ((cursor : Option String)
              → AllNew baseline_ns seen (fetch_pages fills baseline_ns seen pages cursor))
          → AllNew baseline_ns seen (elim page [
            | [] ↦ []
            | f ∷ page ↦
                new_fills baseline_ns seen (f ∷ page)
                ++ (if any_older baseline_ns (f ∷ page)
                    then []
                    else if truthy (last_cursor f page)
                    then fetch_pages fills baseline_ns seen pages (some (last_cursor f page))
                    else [])
          ])
      page_of [] later = tt
      page_of (f ∷ page) later =
          let next = later (some (last_cursor f page)) in
          All-append _ (new_fills baseline_ns seen (f ∷ page)) _
            (new_fills-AllNew baseline_ns seen (f ∷ page))
            (All-if _ (any_older baseline_ns (f ∷ page)) _
              (All-if _ (truthy (last_cursor f page)) _ next).1).0

  -- Whatever pages the venue answers with, each fill that is fetched is not older than the baseline, has
  -- a trade id that is not empty, and this is none of the trade ids that were seen.
  pub fetch_new-AllNew :
      (fills : Option String → List (ExchangeFill F)) (baseline_ns : ℕ) (seen : List String)
      → AllNew baseline_ns seen (fetch_new fills baseline_ns seen)
  unfolding fetch_new
  fetch_new-AllNew fills baseline_ns seen = fetch_pages-AllNew max_pages fills baseline_ns seen none

-- The client order id is the book's id and then digits.
abbrev pub owns : String → String → Bool
owns client_order_id b =
    starts_with client_order_id b
    && (truthy (slice client_order_id (len b) (len client_order_id))
        && all_digits (slice client_order_id (len b) (len client_order_id)))

member-insert_longest :
    (x b : String) (bs : List String)
    → member x (insert_longest b bs) ≡ true
    → member x (b ∷ bs) ≡ true
unfolding insert_longest
member-insert_longest x b [] h = h
member-insert_longest x b (c ∷ cs) h = ground (arith, member-insert_longest x b cs)

member-longest_first :
    (x : String) (bs : List String) → member x (longest_first bs) ≡ true → member x bs ≡ true
unfolding longest_first
member-longest_first x [] h = h
member-longest_first x (b ∷ bs) h =
    ground (arith, member-insert_longest x b (longest_first bs) h, member-longest_first x bs)

first_owner-owns :
    (id b : String) (bs : List String)
    → first_owner id bs ≡ some b
    → (member b bs ≡ true) × (owns id b ≡ true)
unfolding first_owner
first_owner-owns id b [] h = cc
first_owner-owns id b (c ∷ bs) h = elim (Bool-cases (owns id c)) [
  | inl e ↦
      let same : c ≡ b = cc (rw e at h) in
      (rw ((eq_iff c b).1 same) refl, subst (λ x. owns id x ≡ true) same e)
  | inr e ↦ let (m, o) = first_owner-owns id b bs (rw e at h) in (ground arith, o)
]

-- A fill is attributed to a book that there is, and that owns it: its client order id is the book's
-- id with digits behind it, and at least one.
pub attribute-owns :
    (id b : String) (books : List String)
    → attribute id books ≡ some b
    → (member b books ≡ true) × (owns id b ≡ true)
unfolding attribute
attribute-owns id b books h =
    let (m, o) = first_owner-owns id b (longest_first books) h in
    (member-longest_first b books m, o)
