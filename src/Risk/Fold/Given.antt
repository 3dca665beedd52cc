-- ===== src/Risk/Fold/Given.antt =====
-- A desk whose limits are all given, and the high-water marks of hobo/risk/fold.py on it.
use hobo.Prelude.{
  String, ◌≡◌, refl, inl, inr, Option, some, [], ◌∷◌, All, Result, Result-cases, returned, raised,
  after, Outcome, Outcome-cases,
}
use hobo.Prelude.Dict.{Dict}
use hobo.Float.{Num}
use hobo.Risk.Model.{Limit, Limits, set_limit, Book}
use hobo.Risk.State.{State, book_total_pnl, desk_total_pnl}
use hobo.Risk.Fold.{
  set_books, keep_book, raise_book_marks, raise_desk_mark, update_high_water_marks,
}

abbrev pub Given : {A : Type 0} → Option A → Type 0
Given {A} o = (v : A) × (o ≡ some v)

abbrev pub BookLimits : {F : Type 0} → Limits F → Type 0
BookLimits l = Given l.notional_limit × Given l.drawdown_limit × Given l.position_limit

abbrev pub DeskLimits : {F : Type 0} → Limits F → Type 0
DeskLimits l = Given l.notional_limit × Given l.drawdown_limit

pub set_limit-BookLimits :
    {F : Type 0} (l : Limits F) (limit : Limit) (v : F)
    → BookLimits l
    → BookLimits (set_limit l limit v)
set_limit-BookLimits l Limit.notional v h = ((v, refl), h.1, h.2)
set_limit-BookLimits l Limit.drawdown v h = (h.0, (v, refl), h.2)
set_limit-BookLimits l Limit.position v h = (h.0, h.1, (v, refl))

pub set_limit-DeskLimits :
    {F : Type 0} (l : Limits F) (limit : Limit) (v : F)
    → DeskLimits l
    → DeskLimits (set_limit l limit v)
set_limit-DeskLimits l Limit.notional v h = ((v, refl), h.1)
set_limit-DeskLimits l Limit.drawdown v h = (h.0, (v, refl))
set_limit-DeskLimits l Limit.position v h = h

module _ {F : Type 0} ⦃n : Num F⦄ where
  abbrev pub LimitedBook : Book F → Type 0
  LimitedBook b = BookLimits b.limits

  abbrev pub AllLimited : Dict (Book F) → Type 0
  AllLimited books = All (λ (e : String × Book F). LimitedBook e.1) books

  -- Every book has its three limits, and the desk its two.
  pub record IsLimited (s : State F) : Type 0 where
    pub books : AllLimited s.desk.books
    pub desk_limits : DeskLimits s.desk.limits

  pub keep_book-Limited :
      (e : String × Book F) (o : Outcome (Dict (Book F)) (Unit {0}))
      → LimitedBook e.1
      → AllLimited (after o)
      → AllLimited (after (keep_book e o))
  keep_book-Limited e (returned _ books) h k = (h, k)
  keep_book-Limited e (raised x books) h k = (h, k)

  pub raise_book_marks-Limited :
      (f : Book F → Result F) (books : Dict (Book F))
      → AllLimited books
      → AllLimited (after (raise_book_marks f books))
  unfolding raise_book_marks
  raise_book_marks-Limited f [] h = tt
  raise_book_marks-Limited f ((id, b) ∷ books) h = elim (Result-cases (f b)) [
    | inr (x, r) ↦ rw (r, raise_book_marks) h
    | inl (total, r) ↦
        rw (r, raise_book_marks)
          (keep_book-Limited _ (raise_book_marks f books) h.0
            (raise_book_marks-Limited f books h.1))
  ]

  pub raise_desk_mark-IsLimited :
      (s : State F) → IsLimited s → IsLimited (after (raise_desk_mark s))
  unfolding raise_desk_mark
  raise_desk_mark-IsLimited s h = elim (Result-cases (desk_total_pnl s)) [
    | inr (x, r) ↦ rw (r, raise_desk_mark) h
    | inl (total, r) ↦
        rw (r, raise_desk_mark) (record { books = h.books; desk_limits = h.desk_limits })
  ]

  pub marks-IsLimited : (s : State F) → IsLimited s → IsLimited (after (update_high_water_marks s))
  unfolding update_high_water_marks
  marks-IsLimited s h =
      let kept = raise_book_marks-Limited (book_total_pnl s) s.desk.books h.books in
      elim (Outcome-cases (raise_book_marks (book_total_pnl s) s.desk.books)) [
        | inr (x, books, r) ↦
            rw (r, update_high_water_marks)
              (record { books = rw r at kept; desk_limits = h.desk_limits })
        | inl (_, books, r) ↦
            rw (r, update_high_water_marks)
              (raise_desk_mark-IsLimited (set_books s books)
                (record { books = rw r at kept; desk_limits = h.desk_limits }))
      ]
  -- A state with the book `b` in place of one that has its limits.
