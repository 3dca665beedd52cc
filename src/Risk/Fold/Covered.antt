-- ===== src/Risk/Fold/Covered.antt =====
-- The high-water marks of hobo/risk/fold.py cover the PnL: no book and no desk stands above its
-- own mark once an event has been applied.
use mathlib.Core.Path.{subst}
use hobo.Prelude.{
  ℕ, String, ◌≡◌, refl, sym, ap, ◌∙◌, inl, inr, Bool, true, false, [], ◌∷◌, Bool-cases,
  Option-cases, str_eq, All, Result, Result-cases, Outcome-cases, returned, after,
}
use hobo.Prelude.Dict
use hobo.Prelude.Dict.{Dict}
use hobo.Float.{Num, IsOrdered, ◌<?◌, try_sum}
use hobo.Risk.Model.{Book, Desk}
use hobo.Risk.State.{State, instrument_of, book_total_pnl, desk_total_pnl}
use hobo.Risk.Fold.{
  or_empty, raise_mark, update_high_water_marks, apply_mark, fill_book, apply_fill, apply_funding,
  change_limit, book_at, apply_limit_change, apply_kill_switch, handle, apply_event,
}
use hobo.Risk.Fold.Marks.{
  at_least, mark_book, mark_books, AllKnown, AllKnown-of_desk, update_high_water_marks-returned,
  try_sum_from-mark_books, total_of_marked,
}
use hobo.Log.Event.{
  Fill, LimitChange, KillSwitch, LogEvent, mark_update, funding_update, fill, limit_change,
  kill_switch, order_request, gate_decision, reconciliation_warning, unknown, Envelope,
}
use hobo.Risk.Fold.Covers.{
  BookBelow, Covers, IsCovered, Covers-set, get_of_book_at, pnl_of_positions, pnl_of_desk,
  pnl_of_seq,
}

-- The events that change a PnL.
abbrev pub moves_pnl : {F : Type 0} → LogEvent F → Bool
moves_pnl (mark_update iid price ts) = true
moves_pnl (funding_update iid rate time) = true
moves_pnl (fill p) = true
moves_pnl _ = false

module _ {F : Type 0} ⦃n : Num F⦄ (ordered : IsOrdered F) where
  open ordered use {lt_irrefl}

  raise_mark_above : (mark total : F) → (raise_mark mark total <? total) ≡ false
  raise_mark_above mark total = elim (Bool-cases (mark <? total)) [
    | inl h ↦ rw h (lt_irrefl total)
    | inr h ↦ rw h h
  ]

  mark_books-below :
      (f : Book F → Result F) (d : Dict (Book F))
      → ((b : Book F) (t : F) → f (at_least b t) ≡ f b)
      → AllKnown f d
      → All (λ (e : String × Book F). BookBelow f e.1) (mark_books f d)
  unfolding mark_books
  mark_books-below f [] same h = tt
  mark_books-below f ((id, b) ∷ d) same ((t, e), h) = (
    rw (e, mark_book) (t, same b t ∙ e, raise_mark_above b.high_water_mark_usdt t),
    mark_books-below f d same h,
  )

  desk_total_pnl-marked :
      (s : State F)
      → try_sum
          (λ (e : String × Book F). book_total_pnl s e.1)
          (mark_books (book_total_pnl s) s.desk.books)
        ≡ desk_total_pnl s
  unfolding desk_total_pnl
  desk_total_pnl-marked s =
      try_sum_from-mark_books (book_total_pnl s) (book_total_pnl s) n.zero_f s.desk.books
        (total_of_marked s)

  -- `_update_high_water_marks` covers every PnL.
  update_high_water_marks-IsCovered :
      (s s' : State F) → update_high_water_marks s ≡ returned tt s' → IsCovered s'
  update_high_water_marks-IsCovered s s' h =
      let (t, known, e) = update_high_water_marks-returned s s' h in
      subst IsCovered (sym e) (
        rw (pnl_of_desk s) (record {
          books =
              mark_books-below (book_total_pnl s) s.desk.books (total_of_marked s)
                (AllKnown-of_desk s t known);
          desk_below =
              (t, desk_total_pnl-marked s ∙ known, raise_mark_above s.desk.high_water_mark_usdt t);
        }))

  fill-IsCovered : (s s' : State F) (p : Fill F) → apply_fill s p ≡ returned tt s' → IsCovered s'
  unfolding apply_fill fill_book
  fill-IsCovered s s' p h = elim (Option-cases (Dict.get s.desk.books p.book_id)) [
    | inl e ↦ cc (rw (e, apply_fill) at h)
    | inr (book, e) ↦ elim (Result-cases (instrument_of s p.instrument_id)) [
      | inr (x, r) ↦ cc (rw (r, fill_book) at (rw (e, apply_fill) at h))
      | inl (i, r) ↦
          update_high_water_marks-IsCovered _ s' (rw (r, fill_book) at (rw (e, apply_fill) at h))
    ]
  ]

  funding-IsCovered :
      (s s' : State F) (iid : String) (rate : F)
      → apply_funding s iid rate ≡ returned tt s'
      → IsCovered s'
  unfolding apply_funding
  funding-IsCovered s s' iid rate h = elim (Result-cases (instrument_of s iid)) [
    | inr (x, r) ↦ cc (rw (r, apply_funding) at h)
    | inl (i, r) ↦ update_high_water_marks-IsCovered _ s' (rw (r, apply_funding) at h)
  ]

  -- A desk with the books' PnL and the mark of the old one.
  desk-IsCovered :
      (s : State F) (d : Desk F) (seq : ℕ)
      → Covers (book_total_pnl s) d
      → IsCovered (record s { desk = d; last_seq = seq })
  desk-IsCovered s d seq h = rw (pnl_of_seq (record s { desk = d }) seq, pnl_of_desk s d) h

  limit-IsCovered :
      (s : State F) (p : LimitChange F) → IsCovered s → IsCovered (after (apply_limit_change s p))
  unfolding apply_limit_change
  limit-IsCovered s p c = elim (Bool-cases (str_eq p.scope "BOOK")) [
    | inl b ↦ elim (Option-cases (book_at s p.book_id)) [
      | inl e ↦ rw (b, e) c
      | inr (book, e) ↦ elim (Result-cases (change_limit book.limits p)) [
        | inr (x, r) ↦ rw (b, e, r) c
        | inl (limits, r) ↦
            rw (b, e, r)
              (desk-IsCovered s _ s.last_seq (
                Covers-set (book_total_pnl s) s.desk (or_empty p.book_id) book _
                  (get_of_book_at s p.book_id book e) (pnl_of_positions s book _ refl) refl c))
      ]
    ]
    | inr b ↦ elim (Bool-cases (str_eq p.scope "DESK")) [
      | inl d ↦ elim (Result-cases (change_limit s.desk.limits p)) [
        | inr (x, r) ↦ rw (b, d, r) c
        | inl (limits, r) ↦
            rw (b, d, r)
              (desk-IsCovered s _ s.last_seq
                (record { books = c.books; desk_below = c.desk_below }))
      ]
      | inr d ↦ rw (b, d) c
    ]
  ]

  kill-IsCovered :
      (s : State F) (p : KillSwitch) → IsCovered s → IsCovered (after (apply_kill_switch s p))
  unfolding apply_kill_switch
  kill-IsCovered s p c = elim (Bool-cases (str_eq p.scope "BOOK")) [
    | inl b ↦ elim (Option-cases (Dict.get s.desk.books p.id)) [
      | inl e ↦ rw (b, e) c
      | inr (book, e) ↦
          rw (b, e)
            (desk-IsCovered s _ s.last_seq (
              Covers-set (book_total_pnl s) s.desk p.id book _ e (pnl_of_positions s book _ refl)
                refl c))
    ]
    | inr b ↦ elim (Bool-cases (str_eq p.scope "DESK")) [
      | inl d ↦
          rw (b, d)
            (desk-IsCovered s _ s.last_seq (record { books = c.books; desk_below = c.desk_below }))
      | inr d ↦ rw (b, d) c
    ]
  ]

  handle-IsCovered :
      (s s' : State F) (event : LogEvent F)
      → handle s event ≡ returned tt s'
      → (moves_pnl event ≡ false → IsCovered s)
      → IsCovered s'
  unfolding handle apply_mark
  handle-IsCovered s s' (mark_update iid price ts) h c = update_high_water_marks-IsCovered _ s' h
  handle-IsCovered s s' (funding_update iid rate time) h c = funding-IsCovered s s' iid rate h
  handle-IsCovered s s' (fill p) h c = fill-IsCovered s s' p h
  handle-IsCovered s s' (limit_change p) h c =
      subst IsCovered (ap after h) (limit-IsCovered s p (c refl))
  handle-IsCovered s s' (kill_switch p) h c =
      subst IsCovered (ap after h) (kill-IsCovered s p (c refl))
  handle-IsCovered s s' (order_request p) h c = subst IsCovered (ap after h) (c refl)
  handle-IsCovered s s' (gate_decision p) h c = subst IsCovered (ap after h) (c refl)
  handle-IsCovered s s' (reconciliation_warning p) h c = subst IsCovered (ap after h) (c refl)
  handle-IsCovered s s' (unknown event_type) h c = cc

  -- Once `apply_event` has returned, the PnL of every book and of the desk is known, and none is
  -- above its high-water mark: after a mark, a funding payment or a fill whatever the state was,
  -- and after any other event if it was so before. (No value is NaN.)
  pub apply_event-IsCovered :
      (s s' : State F) (envelope : Envelope (LogEvent F))
      → apply_event s envelope ≡ returned tt s'
      → (moves_pnl envelope.event ≡ false → IsCovered s)
      → IsCovered s'
  unfolding apply_event
  apply_event-IsCovered s s' envelope h c = elim (Outcome-cases (handle s envelope.event)) [
    | inr (x, s₁, e) ↦ cc (rw (e, apply_event) at h)
    | inl (_, s₁, e) ↦
        subst IsCovered (ap after (rw (e, apply_event) at h))
          (desk-IsCovered s₁ s₁.desk envelope.seq (handle-IsCovered s s₁ envelope.event e c))
  ]
