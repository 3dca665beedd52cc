-- ===== src/Risk/Fold/Limited.antt =====
-- The limits of a desk under the fold of hobo/risk/fold.py: they change, and never go away.
use mathlib.Core.Path.{subst}
use hobo.Prelude.{
  String, ◌≡◌, inl, inr, Bool-cases, Option-cases, [], ◌∷◌, str_eq, Result-cases, after,
  Outcome-cases, ok, ok-injective,
}
use hobo.Prelude.Dict
use hobo.Prelude.Dict.{Dict}
use hobo.Float.{Num, ◌==◌}
use hobo.Risk.Model.{Limit, Limits, limit_of, set_limit, Book, get_or_create, multiplier}
use hobo.Risk.State.{State, mark_of, instrument_of}
use hobo.Risk.Fold.{
  set_books, apply_mark, fill_book, apply_fill, fund_book, fund_books, apply_funding, change_limit,
  book_at, apply_limit_change, apply_kill_switch, handle, apply_event, or_empty,
}
use hobo.Risk.Fold.Covers.{All-set, All-get, get_of_book_at}
use hobo.Log.Event.{
  Fill, LimitChange, KillSwitch, LogEvent, mark_update, funding_update, fill, limit_change,
  kill_switch, order_request, gate_decision, reconciliation_warning, unknown, Envelope,
}
use hobo.Risk.Fold.Given.{
  BookLimits, DeskLimits, set_limit-BookLimits, set_limit-DeskLimits, LimitedBook, AllLimited,
  IsLimited, marks-IsLimited,
}

module _ {F : Type 0} ⦃n : Num F⦄ where
  set_book-IsLimited :
      (s : State F) (id : String) (b : Book F)
      → LimitedBook b
      → IsLimited s
      → IsLimited (set_books s (Dict.set s.desk.books id b))
  set_book-IsLimited s id b hb h = record {
    books = All-set LimitedBook s.desk.books id b hb h.books;
    desk_limits = h.desk_limits;
  }

  created-Limited :
      (b : Book F) (iid : String) → LimitedBook b → LimitedBook (get_or_create b iid).0
  created-Limited b iid h = elim (Option-cases (Dict.get b.positions iid)) [
    | inl e ↦ rw (e, get_or_create) h
    | inr (pos, e) ↦ rw (e, get_or_create) h
  ]

  fill_book-IsLimited :
      (s : State F) (p : Fill F) (b : Book F)
      → LimitedBook b
      → IsLimited s
      → IsLimited (after (fill_book s p b))
  unfolding fill_book
  fill_book-IsLimited s p b hb h =
      let created = created-Limited b p.instrument_id hb in
      elim (Result-cases (instrument_of s p.instrument_id)) [
        | inr (x, r) ↦ rw (r, fill_book) (set_book-IsLimited s p.book_id _ created h)
        | inl (i, r) ↦
            rw (r, fill_book) (marks-IsLimited _ (set_book-IsLimited s p.book_id _ created h))
      ]

  apply_fill-IsLimited :
      (s : State F) (p : Fill F) → IsLimited s → IsLimited (after (apply_fill s p))
  unfolding apply_fill
  apply_fill-IsLimited s p h = elim (Option-cases (Dict.get s.desk.books p.book_id)) [
    | inl e ↦ rw (e, apply_fill) h
    | inr (b, e) ↦
        rw (e, apply_fill)
          (fill_book-IsLimited s p b (All-get LimitedBook s.desk.books p.book_id b e h.books) h)
  ]

  fund_book-Limited :
      (iid : String) (mult mark rate : F) (b : Book F)
      → LimitedBook b
      → LimitedBook (fund_book iid mult mark rate b)
  unfolding fund_book
  fund_book-Limited iid mult mark rate b h = elim (Option-cases (Dict.get b.positions iid)) [
    | inl e ↦ rw (e, fund_book) h
    | inr (pos, e) ↦ elim (Bool-cases (pos.qty == n.zero_f)) [
      | inl z ↦ rw (e, fund_book, z) h
      | inr z ↦ rw (e, fund_book, z) h
    ]
  ]

  fund_books-Limited :
      (iid : String) (mult mark rate : F) (books : Dict (Book F))
      → AllLimited books
      → AllLimited (fund_books iid mult mark rate books)
  unfolding fund_books
  fund_books-Limited iid mult mark rate [] h = tt
  fund_books-Limited iid mult mark rate ((id, b) ∷ books) h =
      (fund_book-Limited iid mult mark rate b h.0, fund_books-Limited iid mult mark rate books h.1)

  apply_funding-IsLimited :
      (s : State F) (iid : String) (rate : F)
      → IsLimited s
      → IsLimited (after (apply_funding s iid rate))
  unfolding apply_funding
  apply_funding-IsLimited s iid rate h = elim (Result-cases (instrument_of s iid)) [
    | inr (x, r) ↦ rw (r, apply_funding) (record { books = h.books; desk_limits = h.desk_limits })
    | inl (i, r) ↦
        rw (r, apply_funding)
          (marks-IsLimited _ (record {
            books = fund_books-Limited iid (multiplier i) (mark_of s iid) rate s.desk.books h.books;
            desk_limits = h.desk_limits;
          }))
  ]

  change_limit-cases :
      (P : Limits F → Type 0) (l : Limits F) (p : LimitChange F)
      → ((limit : Limit) → P (set_limit l limit p.new))
      → (l' : Limits F) → change_limit l p ≡ ok l'
      → P l'
  change_limit-cases P l p h l' e = elim (Option-cases (limit_of p.field)) [
    | inl q ↦ cc (rw (q, change_limit) at e)
    | inr (limit, q) ↦ subst P (ok-injective (rw (q, change_limit) at e)) (h limit)
  ]

  apply_limit_change-IsLimited :
      (s : State F) (p : LimitChange F) → IsLimited s → IsLimited (after (apply_limit_change s p))
  unfolding apply_limit_change
  apply_limit_change-IsLimited s p h = elim (Bool-cases (str_eq p.scope "BOOK")) [
    | inl b ↦ elim (Option-cases (book_at s p.book_id)) [
      | inl e ↦ rw (b, e) h
      | inr (book, e) ↦ elim (Result-cases (change_limit book.limits p)) [
        | inr (x, r) ↦ rw (b, e, r) h
        | inl (limits, r) ↦
            let held =
              All-get LimitedBook s.desk.books (or_empty p.book_id) book
                (get_of_book_at s p.book_id book e) h.books in
            let changed =
              change_limit-cases BookLimits book.limits p
                (λ limit. set_limit-BookLimits book.limits limit p.new held) limits r in
            rw (b, e, r) (set_book-IsLimited s (or_empty p.book_id) _ changed h)
      ]
    ]
    | inr b ↦ elim (Bool-cases (str_eq p.scope "DESK")) [
      | inr d ↦ rw (b, d) h
      | inl d ↦ elim (Result-cases (change_limit s.desk.limits p)) [
        | inr (x, r) ↦ rw (b, d, r) h
        | inl (limits, r) ↦
            rw (b, d, r)
              (record {
                books = h.books;
                desk_limits =
                    change_limit-cases DeskLimits s.desk.limits p
                      (λ limit. set_limit-DeskLimits s.desk.limits limit p.new h.desk_limits) limits
                      r;
              })
      ]
    ]
  ]

  apply_kill_switch-IsLimited :
      (s : State F) (p : KillSwitch) → IsLimited s → IsLimited (after (apply_kill_switch s p))
  unfolding apply_kill_switch
  apply_kill_switch-IsLimited s p h = elim (Bool-cases (str_eq p.scope "BOOK")) [
    | inl b ↦ elim (Option-cases (Dict.get s.desk.books p.id)) [
      | inl e ↦ rw (b, e) h
      | inr (book, e) ↦
          rw (b, e)
            (set_book-IsLimited s p.id _ (All-get LimitedBook s.desk.books p.id book e h.books) h)
    ]
    | inr b ↦ elim (Bool-cases (str_eq p.scope "DESK")) [
      | inr d ↦ rw (b, d) h
      | inl d ↦ rw (b, d) (record { books = h.books; desk_limits = h.desk_limits })
    ]
  ]

  handle-IsLimited :
      (s : State F) (event : LogEvent F) → IsLimited s → IsLimited (after (handle s event))
  unfolding handle apply_mark
  handle-IsLimited s (mark_update iid price ts) h =
      marks-IsLimited _ (record { books = h.books; desk_limits = h.desk_limits })
  handle-IsLimited s (funding_update iid rate time) h = apply_funding-IsLimited s iid rate h
  handle-IsLimited s (fill p) h = apply_fill-IsLimited s p h
  handle-IsLimited s (limit_change p) h = apply_limit_change-IsLimited s p h
  handle-IsLimited s (kill_switch p) h = apply_kill_switch-IsLimited s p h
  handle-IsLimited s (order_request p) h = h
  handle-IsLimited s (gate_decision p) h = h
  handle-IsLimited s (reconciliation_warning p) h = h
  handle-IsLimited s (unknown event_type) h = h

  -- The fold takes no limit away, also where it raises.
  pub apply_event-IsLimited :
      (s : State F) (envelope : Envelope (LogEvent F))
      → IsLimited s
      → IsLimited (after (apply_event s envelope))
  unfolding apply_event
  apply_event-IsLimited s envelope h =
      let kept = handle-IsLimited s envelope.event h in
      elim (Outcome-cases (handle s envelope.event)) [
        | inr (x, t, r) ↦ rw (r, apply_event) (rw r at kept)
        | inl (_, t, r) ↦
            let held : IsLimited t = rw r at kept in
            rw (r, apply_event) (record { books = held.books; desk_limits = held.desk_limits })
      ]
