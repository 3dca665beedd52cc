-- ===== src/Risk/Fold/Marks.antt =====
-- `_update_high_water_marks` of hobo/risk/fold.py: what it does where every PnL is known, and what
-- it leaves alone.
use hobo.Prelude.{
  String, ◌≡◌, refl, ap, ◌∙◌, inl, inr, none, some, [], ◌∷◌, All, Result, ok, err, bind,
  Result-cases, Outcome, Outcome-cases, returned, raised, arith,
}
use hobo.Prelude.Dict
use hobo.Prelude.Dict.{Dict}
use hobo.Float.{Num, ◌+◌, try_sum_from}
use hobo.Risk.Model.{Book}
use hobo.Risk.State.{
  State, book_unrealized_pnl, book_realized_pnl, book_funding_pnl, book_fees_paid, book_notional,
  book_total_pnl, desk_total_pnl, desk_gross_notional,
}
use hobo.Risk.Fold.{
  keep_book, set_books, raise_mark, raise_book_marks, raise_desk_mark, update_high_water_marks,
}

module _ {F : Type 0} ⦃n : Num F⦄ where
  -- A book with its high-water mark at `total` at least.
  abbrev pub at_least : Book F → F → Book F
  at_least book total = record book {
    high_water_mark_usdt = raise_mark book.high_water_mark_usdt total;
  }

  abbrev pub mark_book : (Book F → Result F) → Book F → Book F
  mark_book total_of book = elim (total_of book) [ ok total ↦ at_least book total | err e ↦ book ]

  unfoldable pub mark_books : (Book F → Result F) → Dict (Book F) → Dict (Book F)
  mark_books total_of [] = []
  mark_books total_of ((id, book) ∷ books) =
      (id, mark_book total_of book) ∷ mark_books total_of books

  -- The state after `_update_high_water_marks`, for a desk whose PnL is `total`.
  abbrev pub mark_state : State F → F → State F
  mark_state s total = record s {
    desk = record s.desk {
      books = mark_books (book_total_pnl s) s.desk.books;
      high_water_mark_usdt = raise_mark s.desk.high_water_mark_usdt total;
    };
  }

  -- The PnL of every book is known.
  abbrev pub AllKnown : (Book F → Result F) → Dict (Book F) → Type 0
  AllKnown total_of = All (λ (e : String × Book F). (total : F) × (total_of e.1 ≡ ok total))

  pub AllKnown-of_sum :
      (f : Book F → Result F) (acc t : F) (d : Dict (Book F))
      → try_sum_from (λ (e : String × Book F). f e.1) acc d ≡ ok t
      → AllKnown f d
  unfolding try_sum_from
  AllKnown-of_sum f acc t [] h = tt
  AllKnown-of_sum f acc t ((id, b) ∷ d) h = elim (Result-cases (f b)) [
    | inr (e, r) ↦ cc (rw r at h)
    | inl (v, r) ↦ ((v, r), AllKnown-of_sum f (acc + v) t d (rw r at h))
  ]

  raise_book_marks-AllKnown :
      (f : Book F → Result F) (d : Dict (Book F))
      → AllKnown f d
      → raise_book_marks f d ≡ returned tt (mark_books f d)
  unfolding raise_book_marks mark_books
  raise_book_marks-AllKnown f [] h = refl
  raise_book_marks-AllKnown f ((id, b) ∷ d) ((v, r), h) =
      ground (arith, raise_book_marks-AllKnown f d h)

  keep_book-returned :
      (e : String × Book F) (o : Outcome (Dict (Book F)) (Unit {0})) (d : Dict (Book F))
      → keep_book e o ≡ returned tt d
      → (rest : Dict (Book F)) × (o ≡ returned tt rest)
  keep_book-returned e (returned tt rest) d h = (rest, refl)
  keep_book-returned e (raised x rest) d h = cc

  raise_book_marks-returned :
      (f : Book F → Result F) (d d' : Dict (Book F))
      → raise_book_marks f d ≡ returned tt d'
      → AllKnown f d
  unfolding raise_book_marks
  raise_book_marks-returned f [] d' h = tt
  raise_book_marks-returned f ((id, b) ∷ d) d' h = elim (Result-cases (f b)) [
    | inr (e, r) ↦ cc (rw (r, raise_book_marks) at h)
    | inl (v, r) ↦
        let kept = keep_book-returned _ (raise_book_marks f d) d' (rw (r, raise_book_marks) at h) in
        ((v, r), raise_book_marks-returned f d kept.0 kept.1)
  ]

  mark_book_same :
      (f g : Book F → Result F) (b : Book F)
      → ((b : Book F) (t : F) → g (at_least b t) ≡ g b)
      → g (mark_book f b) ≡ g b
  mark_book_same f g b same = elim (Result-cases (f b)) [
    | inl (t, r) ↦ rw (r, mark_book) (same b t)
    | inr (e, r) ↦ rw (r, mark_book)
  ]

  -- A quantity that does not depend on a book's mark has the same sum over the marked books.
  pub try_sum_from-mark_books :
      (f g : Book F → Result F) (acc : F) (d : Dict (Book F))
      → ((b : Book F) (t : F) → g (at_least b t) ≡ g b)
      → try_sum_from (λ (e : String × Book F). g e.1) acc (mark_books f d)
        ≡ try_sum_from (λ (e : String × Book F). g e.1) acc d
  unfolding try_sum_from mark_books
  try_sum_from-mark_books f g acc [] same = refl
  try_sum_from-mark_books f g acc ((id, b) ∷ d) same =
      rw (mark_book_same f g b same)
        (ap (bind (g b)) (λ i v. try_sum_from-mark_books f g (acc + v) d same i))

  pub get-mark_books :
      (f : Book F → Result F) (d : Dict (Book F)) (k : String)
      → Dict.get (mark_books f d) k
        ≡ elim (Dict.get d k) [ none ↦ none | some b ↦ some (mark_book f b) ]
  unfolding Dict.get mark_books
  get-mark_books f [] k = refl
  get-mark_books f ((j, b) ∷ d) k = ground (arith, get-mark_books f d k)

  pub total_of_marked :
      (s : State F) (b : Book F) (t : F) → book_total_pnl s (at_least b t) ≡ book_total_pnl s b
  unfolding book_total_pnl book_unrealized_pnl book_realized_pnl book_funding_pnl book_fees_paid
  total_of_marked s b t = refl

  pub notional_of_marked :
      (s : State F) (b : Book F) (t : F) → book_notional s (at_least b t) ≡ book_notional s b
  unfolding book_notional
  notional_of_marked s b t = refl

  desk_total_pnl-mark_books :
      (s : State F)
      → desk_total_pnl (set_books s (mark_books (book_total_pnl s) s.desk.books)) ≡ desk_total_pnl s
  unfolding desk_total_pnl book_total_pnl book_unrealized_pnl
  desk_total_pnl-mark_books s =
      try_sum_from-mark_books (book_total_pnl s) (book_total_pnl s) n.zero_f s.desk.books
        (total_of_marked s)

  pub AllKnown-of_desk :
      (s : State F) (t : F) → desk_total_pnl s ≡ ok t → AllKnown (book_total_pnl s) s.desk.books
  unfolding desk_total_pnl
  AllKnown-of_desk s t h = AllKnown-of_sum (book_total_pnl s) n.zero_f t s.desk.books h

  raise_book_marks_of_desk :
      (s : State F)
      → AllKnown (book_total_pnl s) s.desk.books
      → update_high_water_marks s
        ≡ raise_desk_mark (set_books s (mark_books (book_total_pnl s) s.desk.books))
  unfolding update_high_water_marks
  raise_book_marks_of_desk s known =
      ground (arith, raise_book_marks-AllKnown (book_total_pnl s) s.desk.books known)

  -- Where the desk's PnL is known, the marks are raised.
  pub update_high_water_marks-ok :
      (s : State F) (t : F)
      → desk_total_pnl s ≡ ok t
      → update_high_water_marks s ≡ returned tt (mark_state s t)
  unfolding raise_desk_mark
  update_high_water_marks-ok s t h =
      raise_book_marks_of_desk s (AllKnown-of_desk s t h)
      ∙ ground (arith, desk_total_pnl-mark_books s)

  known_of_returned :
      (s s' : State F)
      → update_high_water_marks s ≡ returned tt s'
      → AllKnown (book_total_pnl s) s.desk.books
  unfolding update_high_water_marks
  known_of_returned s s' h =
      elim (Outcome-cases (raise_book_marks (book_total_pnl s) s.desk.books)) [
        | inl (_, books, r) ↦ raise_book_marks-returned (book_total_pnl s) s.desk.books books r
        | inr (e, books, r) ↦ absurd (ground arith)
      ]

  -- It returns only where the desk's PnL is known.
  pub update_high_water_marks-returned :
      (s s' : State F)
      → update_high_water_marks s ≡ returned tt s'
      → (t : F) × (desk_total_pnl s ≡ ok t) × (s' ≡ mark_state s t)
  unfolding raise_desk_mark
  update_high_water_marks-returned s s' h = elim (Result-cases (desk_total_pnl s)) [
    | inl (t, e) ↦ (t, e, cc (update_high_water_marks-ok s t e))
    | inr (x, e) ↦ absurd (
        ground (
          arith,
          raise_book_marks_of_desk s (known_of_returned s s' h),
          desk_total_pnl-mark_books s,
        ))
  ]

  -- The aggregates after `_update_high_water_marks` are those before it.
  pub desk_total_pnl-mark_state :
      (s : State F) (t : F) → desk_total_pnl (mark_state s t) ≡ desk_total_pnl s
  unfolding desk_total_pnl book_total_pnl book_unrealized_pnl
  desk_total_pnl-mark_state s t = desk_total_pnl-mark_books s

  pub desk_gross_notional-mark_state :
      (s : State F) (t : F) → desk_gross_notional (mark_state s t) ≡ desk_gross_notional s
  unfolding desk_gross_notional book_notional
  desk_gross_notional-mark_state s t =
      try_sum_from-mark_books (book_total_pnl s) (book_notional s) n.zero_f s.desk.books
        (notional_of_marked s)
