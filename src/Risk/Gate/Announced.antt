-- ===== src/Risk/Gate/Announced.antt =====
-- What build_order_context of hobo/risk/gate/context.py reads, and what its context announces of a
-- state after a fill.
use hobo.Prelude.{
  eq_iff, ℕ, String, ◌≡◌, refl, sym, ap, ◌∙◌, some, Result, ok, bind-eq-ok, ok-injective, returned,
  key_error, or_raise, or_raise-ok,
}
use hobo.Prelude.Dict
use hobo.Prelude.Dict.{Dict, set-set, get-set}
use hobo.Float.{Num}
use hobo.Risk.Model.{Instrument, Order, Book, position_in}
use hobo.Risk.State.{
  State, mark_of, instrument_of, book_notional, book_total_pnl, book_unrealized_pnl,
  book_realized_pnl, book_funding_pnl, book_fees_paid, desk_gross_notional, desk_total_pnl,
}
use hobo.Risk.Fold.{raise_mark, set_book, handle, apply_event}
use hobo.Risk.Fold.Marks.{
  at_least, mark_book, mark_state, get-mark_books, desk_total_pnl-mark_state,
  desk_gross_notional-mark_state,
}
use hobo.Risk.Gate.{OrderContext, context_of, build_order_context}
use hobo.Log.Event.{LogEvent, Fill, fill, Envelope}
use hobo.Core.Event.{fill_payload}
use hobo.Execution.{paper_submit, handle_fill}

module _ {F : Type 0} ⦃n : Num F⦄ where
  -- The fill that the paper client makes of the order at the mark, as the recorder logs it.
  abbrev pub fill_at_mark : State F → Order F → Fill F
  fill_at_mark s order =
      fill_payload (handle_fill (paper_submit order (mark_of s order.instrument_id)))

  abbrev pub logged_fill : State F → Order F → ℕ → ℕ → Envelope (LogEvent F)
  logged_fill s order seq ts = record { seq = seq; ts_ns = ts; event = fill (fill_at_mark s order) }

  pub apply_event-returned :
      (s : State F) (envelope : Envelope (LogEvent F)) (s₁ : State F)
      → handle s envelope.event ≡ returned tt s₁
      → apply_event s envelope ≡ returned tt (record s₁ { last_seq = envelope.seq })
  unfolding apply_event
  apply_event-returned s envelope s₁ h = rw (h, apply_event) refl

  -- What `build_order_context` read.
  pub record Built (s : State F) (order : Order F) (ctx : OrderContext F) : Type 0 where
    pub book : Book F
    pub instrument : Instrument F
    pub book_notional_before : F
    pub book_pnl_before : F
    pub desk_notional_before : F
    pub desk_pnl_before : F
    pub on_desk : Dict.get s.desk.books order.book_id ≡ some book
    pub known : instrument_of s order.instrument_id ≡ ok instrument
    pub book_notional_is : book_notional s book ≡ ok book_notional_before
    pub book_pnl_is : book_total_pnl s book ≡ ok book_pnl_before
    pub desk_notional_is : desk_gross_notional s ≡ ok desk_notional_before
    pub desk_pnl_is : desk_total_pnl s ≡ ok desk_pnl_before
    pub is_context :
        ctx
        ≡ context_of s order book instrument book_notional_before book_pnl_before
            desk_notional_before desk_pnl_before

  pub build_order_context-Built :
      (s : State F) (order : Order F) (ctx : OrderContext F)
      → build_order_context s order ≡ ok ctx
      → Built s order ctx
  unfolding build_order_context
  build_order_context-Built s order ctx h =
      let (b, hb, h₁) = bind-eq-ok (or_raise (Dict.get s.desk.books order.book_id) key_error) _ h in
      let (i, hi, h₂) = bind-eq-ok (instrument_of s order.instrument_id) _ h₁ in
      let (bn, hbn, h₃) = bind-eq-ok (book_notional s b) _ h₂ in
      let (bp, hbp, h₄) = bind-eq-ok (book_total_pnl s b) _ h₃ in
      let (dn, hdn, h₅) = bind-eq-ok (desk_gross_notional s) _ h₄ in
      let (dp, hdp, h₆) = bind-eq-ok (desk_total_pnl s) _ h₅ in
      record {
        book = b;
        instrument = i;
        book_notional_before = bn;
        book_pnl_before = bp;
        desk_notional_before = dn;
        desk_pnl_before = dp;
        on_desk = or_raise-ok _ key_error hb;
        known = hi;
        book_notional_is = hbn;
        book_pnl_is = hbp;
        desk_notional_is = hdn;
        desk_pnl_is = hdp;
        is_context = sym (ok-injective h₆);
      }

  pub order_of_context :
      (s : State F) (order : Order F) (ctx : OrderContext F)
      → build_order_context s order ≡ ok ctx
      → ctx.order ≡ order
  order_of_context s order ctx h =
      ap (λ c. c.order) (build_order_context-Built s order ctx h).is_context

  -- The state `s'` after a fill in `s` holds what the context announces. The limits and the kill
  -- switches are those of `s`, and the high-water marks are raised to the new PnLs.
  pub record Announced (s s' : State F) (ctx : OrderContext F) : Type 0 where
    pub book_before : Book F
    pub book_after : Book F
    pub was_on_desk : Dict.get s.desk.books ctx.order.book_id ≡ some book_before
    pub limits_kept : book_after.limits ≡ book_before.limits
    pub switch_kept : book_after.kill_switch ≡ book_before.kill_switch
    pub desk_limits_kept : s'.desk.limits ≡ s.desk.limits
    pub desk_switch_kept : s'.desk.kill_switch ≡ s.desk.kill_switch
    pub book_mark_is :
        book_after.high_water_mark_usdt
        ≡ raise_mark book_before.high_water_mark_usdt ctx.hypothetical_book_pnl
    pub desk_mark_is :
        s'.desk.high_water_mark_usdt
        ≡ raise_mark s.desk.high_water_mark_usdt ctx.hypothetical_desk_pnl
    pub still_on_desk : Dict.get s'.desk.books ctx.order.book_id ≡ some book_after
    pub qty_is : (position_in book_after ctx.order.instrument_id).qty ≡ ctx.new_qty
    pub book_notional_is : book_notional s' book_after ≡ ok ctx.new_book_notional
    pub book_pnl_is : book_total_pnl s' book_after ≡ ok ctx.hypothetical_book_pnl
    pub desk_notional_is : desk_gross_notional s' ≡ ok ctx.new_desk_gross_notional
    pub desk_pnl_is : desk_total_pnl s' ≡ ok ctx.hypothetical_desk_pnl

  -- The state after a fill of the book `b'`, for the PnL `t` of the desk.
  abbrev pub state_after : State F → String → Book F → F → ℕ → State F
  state_after s id b' t seq = record (mark_state (set_book s id b') t) { last_seq = seq }

  mark_book_known :
      (f : Book F → Result F) (b : Book F) (v : F) → f b ≡ ok v → mark_book f b ≡ at_least b v
  mark_book_known f b v h = rw (h, mark_book) refl

  pub book_kept :
      (s : State F) (id : String) (b' : Book F) (v t : F) (seq : ℕ)
      → book_total_pnl s b' ≡ ok v
      → Dict.get (state_after s id b' t seq).desk.books id ≡ some (at_least b' v)
  unfolding book_total_pnl book_unrealized_pnl
  book_kept s id b' v t seq h =
      get-mark_books (book_total_pnl (set_book s id b')) (Dict.set s.desk.books id b') id
      ∙ rw (get-set, (eq_iff id id).1 refl)
          (ap some (mark_book_known (book_total_pnl (set_book s id b')) b' v h))

  pub pnl_after_marks :
      (s : State F) (id : String) (b' : Book F) (v t : F) (seq : ℕ)
      → book_total_pnl (state_after s id b' t seq) (at_least b' v) ≡ book_total_pnl s b'
  unfolding book_total_pnl book_unrealized_pnl book_realized_pnl book_funding_pnl book_fees_paid
  pnl_after_marks s id b' v t seq = refl

  pub notional_after_marks :
      (s : State F) (id : String) (b' : Book F) (v t : F) (seq : ℕ)
      → book_notional (state_after s id b' t seq) (at_least b' v) ≡ book_notional s b'
  unfolding book_notional
  notional_after_marks s id b' v t seq = refl

  pub desk_pnl_after_marks :
      (s : State F) (id : String) (b' : Book F) (t : F) (seq : ℕ)
      → desk_total_pnl (state_after s id b' t seq) ≡ desk_total_pnl (set_book s id b')
  unfolding desk_total_pnl book_total_pnl book_unrealized_pnl
  desk_pnl_after_marks s id b' t seq = desk_total_pnl-mark_state (set_book s id b') t

  pub desk_notional_after_marks :
      (s : State F) (id : String) (b' : Book F) (t : F) (seq : ℕ)
      → desk_gross_notional (state_after s id b' t seq) ≡ desk_gross_notional (set_book s id b')
  unfolding desk_gross_notional book_notional
  desk_notional_after_marks s id b' t seq = desk_gross_notional-mark_state (set_book s id b') t
