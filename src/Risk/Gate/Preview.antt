-- ===== src/Risk/Gate/Preview.antt =====
-- The preview of hobo/risk/gate/context.py against the fold of hobo/risk/fold.py.
use hobo.Prelude.{eq_iff, str_eq, if◌then◌else◌, ℕ, ◌≡◌, refl, sym, ap, ◌∙◌, ok, returned}
use hobo.Prelude.Dict.{get-set}
use hobo.Float.{Num, IsExact, ◌+◌, ◌-◌, ◌*◌, neg}
use hobo.Float.Order.{neg_one-mul}
use hobo.Risk.Model.{Instrument, Order, Side, sign, buy, sell, value, Position, Book, position_in}
use hobo.Risk.Math.{unrealized_pnl, simulate_fill}
use hobo.Risk.State.{
  State, mark_of, book_notional, book_total_pnl, desk_gross_notional, desk_total_pnl,
}
use hobo.Risk.Fold.{update_high_water_marks, set_book, filled, handle, apply_event}
use hobo.Risk.Fold.Marks.{at_least, update_high_water_marks-ok}
use hobo.Risk.Fold.Swap.{
  booked, apply_fill-known, with_position, position_in-some, book_notional-with_position,
  book_total_pnl-with_position, desk_gross_notional-set_book, desk_total_pnl-set_book,
}
use hobo.Risk.Gate.{pnl_before, OrderContext, preview_fill, context_of, build_order_context}
use hobo.Execution.{paper_submit, handle_fill}
use hobo.Risk.Gate.Announced.{
  fill_at_mark, logged_fill, apply_event-returned, Built, build_order_context-Built, Announced,
  state_after, book_kept, pnl_after_marks, notional_after_marks, desk_pnl_after_marks,
  desk_notional_after_marks,
}

module _ {F : Type 0} ⦃n : Num F⦄ (laws : IsExact F) where
  open laws use {one-mul, add-zero}

  delta_of :
      (side : Side) (q : F) → (if str_eq (value side) "BUY" then q else neg q) ≡ sign side * q
  delta_of buy q = sym (one-mul q)
  delta_of sell q = sym (neg_one-mul laws q)

  -- The position after the fill at the mark.
  abbrev previewed : State F → Order F → Book F → Instrument F → Position F
  previewed s order b i =
      let pos = position_in b order.instrument_id in
      filled pos (preview_fill pos order (mark_of s order.instrument_id) i) n.zero_f

  booked_at_mark :
      (s : State F) (order : Order F) (b : Book F) (i : Instrument F)
      → booked b (fill_at_mark s order) i
        ≡ with_position b order.instrument_id (previewed s order b i)
  unfolding paper_submit handle_fill
  booked_at_mark s order b i =
      ap
        (λ d.
          let pos = position_in b order.instrument_id in
          let mark = mark_of s order.instrument_id in
          with_position b order.instrument_id
            (filled pos (simulate_fill pos.qty pos.avg_entry_price d mark i) n.zero_f))
        (delta_of order.side order.qty)

  -- The fold of the fill at the mark, from what the preview read.
  module _ (s : State F) (order : Order F) (ctx : OrderContext F) (built : Built s order ctx) where
    open built use {
      book, instrument, book_notional_before, book_pnl_before, desk_notional_before,
      desk_pnl_before, on_desk, known,
    }

    abbrev filled_book : Book F
    filled_book = with_position book order.instrument_id (previewed s order book instrument)

    abbrev new_notional : F
    new_notional =
        (context_of s order book instrument book_notional_before book_pnl_before
          desk_notional_before desk_pnl_before).new_book_notional

    abbrev new_pnl : F
    new_pnl =
        (context_of s order book instrument book_notional_before book_pnl_before
          desk_notional_before desk_pnl_before).hypothetical_book_pnl

    abbrev new_desk_pnl : F
    new_desk_pnl = desk_pnl_before - book_pnl_before + new_pnl

    abbrev after_fill : ℕ → State F
    after_fill seq = state_after s order.book_id filled_book new_desk_pnl seq

    filled_notional : book_notional s filled_book ≡ ok new_notional
    filled_notional =
        book_notional-with_position laws s order.instrument_id instrument known book
          (previewed s order book instrument) book_notional_before built.book_notional_is

    filled_pnl : book_total_pnl s filled_book ≡ ok new_pnl
    filled_pnl =
        book_total_pnl-with_position laws s order.instrument_id instrument known book
          (previewed s order book instrument) book_pnl_before built.book_pnl_is
        ∙ ap
            (λ fees.
              let p = previewed s order book instrument in
              let mark = mark_of s order.instrument_id in
              ok (
                book_pnl_before
                - pnl_before (position_in book order.instrument_id) mark instrument
                + (p.realized_pnl
                    + (p.funding_pnl - fees)
                    + unrealized_pnl p.qty p.avg_entry_price mark instrument)))
            (add-zero (position_in book order.instrument_id).fees_paid)

    -- The state before the marks are raised.
    abbrev filled_state : State F
    filled_state = set_book s order.book_id filled_book

    filled_desk_notional :
        desk_gross_notional filled_state
        ≡ ok (desk_notional_before - book_notional_before + new_notional)
    filled_desk_notional =
        desk_gross_notional-set_book laws s order.book_id book filled_book on_desk
          desk_notional_before book_notional_before new_notional built.book_notional_is
          filled_notional built.desk_notional_is

    filled_desk_pnl : desk_total_pnl filled_state ≡ ok new_desk_pnl
    filled_desk_pnl =
        desk_total_pnl-set_book laws s order.book_id book filled_book on_desk desk_pnl_before
          book_pnl_before new_pnl built.book_pnl_is filled_pnl built.desk_pnl_is

    fill_returns :
        (seq ts : ℕ) → apply_event s (logged_fill s order seq ts) ≡ returned tt (after_fill seq)
    unfolding handle paper_submit handle_fill
    fill_returns seq ts = apply_event-returned s (logged_fill s order seq ts) _ (
        apply_fill-known s (fill_at_mark s order) book instrument on_desk known
        ∙ ap (λ b. update_high_water_marks (set_book s order.book_id b))
            (booked_at_mark s order book instrument)
        ∙ update_high_water_marks-ok filled_state _ filled_desk_pnl)

    Announced-at : (seq : ℕ) → Announced s (after_fill seq) ctx
    Announced-at seq = rw built.is_context (record {
      book_before = book;
      book_after = at_least filled_book new_pnl;
      was_on_desk = on_desk;
      limits_kept = refl;
      switch_kept = refl;
      desk_limits_kept = refl;
      desk_switch_kept = refl;
      book_mark_is = refl;
      desk_mark_is = refl;
      still_on_desk = book_kept s order.book_id filled_book new_pnl new_desk_pnl seq filled_pnl;
      qty_is =
          ap (λ p. p.qty)
            (position_in-some filled_book order.instrument_id (previewed s order book instrument) (
              get-set book.positions order.instrument_id order.instrument_id _
              ∙ rw ((eq_iff order.instrument_id order.instrument_id).1 refl) refl));
      book_notional_is =
          notional_after_marks s order.book_id filled_book new_pnl new_desk_pnl seq
          ∙ filled_notional;
      book_pnl_is =
          pnl_after_marks s order.book_id filled_book new_pnl new_desk_pnl seq ∙ filled_pnl;
      desk_notional_is =
          desk_notional_after_marks s order.book_id filled_book new_desk_pnl seq
          ∙ filled_desk_notional;
      desk_pnl_is =
          desk_pnl_after_marks s order.book_id filled_book new_desk_pnl seq ∙ filled_desk_pnl;
    })

  -- The gate's preview is the fold of the fill that the paper client makes: where
  -- `build_order_context` returns a context, applying the event of a fill of the whole order at the
  -- mark, without a fee, returns, and the state it leaves holds the quantity, the notionals and the
  -- PnLs, of the book and of the desk, that the context announces. (The arithmetic is exact.)
  pub build_order_context-previews :
      (s : State F) (order : Order F) (ctx : OrderContext F) (seq ts : ℕ)
      → build_order_context s order ≡ ok ctx
      → (s' : State F) × (apply_event s (logged_fill s order seq ts) ≡ returned tt s')
        × Announced s s' ctx
  build_order_context-previews s order ctx seq ts h =
      let built = build_order_context-Built s order ctx h in
      (_, fill_returns s order ctx built seq ts, Announced-at s order ctx built seq)
