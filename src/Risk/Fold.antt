-- ===== src/Risk/Fold.antt =====
-- hobo/risk/fold.py: `apply_event` and its handlers. An `Outcome` carries the state as the handler
-- left it, also where the handler raised half-way.
pub mod Marks
pub mod Covers
pub mod Covered
pub mod Swap
pub mod Switch
pub mod Given
pub mod Limited
use hobo.Prelude.{
  ℕ, String, Bool, true, false, Option, none, some, [], ◌∷◌, str_eq, if◌then◌else◌, Exn, key_error,
  value_error, Result, ok, err, Outcome, returned, raised, lift, then,
}
use hobo.Prelude.Dict
use hobo.Prelude.Dict.{Dict}
use hobo.Float.{Num, ◌+◌, ◌*◌, ◌<?◌, ◌==◌, neg}
use hobo.Risk.Model.{
  Instrument, multiplier, Limits, limit_of, set_limit, Position, Book, Desk, get_or_create,
}
use hobo.Risk.Math.{FillEffect, simulate_fill}
use hobo.Risk.State.{State, mark_of, instrument_of, book_total_pnl, desk_total_pnl}
use hobo.Log.Event.{
  Fill, LimitChange, KillSwitch, LogEvent, mark_update, funding_update, fill, limit_change,
  kill_switch, order_request, gate_decision, reconciliation_warning, unknown, Envelope,
}

-- `p.get("reason", "")`
abbrev pub or_empty : Option String → String
or_empty none = ""
or_empty (some s) = s

module _ {F : Type 0} ⦃n : Num F⦄ where
  abbrev pub set_books : State F → Dict (Book F) → State F
  set_books state books = record state { desk = record state.desk { books = books } }

  -- A book of the desk, as its methods left it.
  abbrev pub set_book : State F → String → Book F → State F
  set_book state id book = set_books state (Dict.set state.desk.books id book)

  abbrev pub raise_mark : F → F → F
  raise_mark mark total = if mark <? total then total else mark

  abbrev pub keep_book :
      String × Book F → Outcome (Dict (Book F)) (Unit {0}) → Outcome (Dict (Book F)) (Unit {0})
  keep_book entry (returned _ books) = returned tt (entry ∷ books)
  keep_book entry (raised e books) = raised e (entry ∷ books)

  -- The loop over the books, which stops at a book whose PnL raises.
  unfoldable pub raise_book_marks :
      (Book F → Result F) → Dict (Book F) → Outcome (Dict (Book F)) (Unit {0})
  raise_book_marks total_of [] = returned tt []
  raise_book_marks total_of ((id, book) ∷ books) = elim (total_of book) [
    | err e ↦ raised e ((id, book) ∷ books)
    | ok total ↦
        let marked = record book {
          high_water_mark_usdt = raise_mark book.high_water_mark_usdt total;
        } in
        keep_book (id, marked) (raise_book_marks total_of books)
  ]

  unfoldable pub raise_desk_mark : State F → Outcome (State F) (Unit {0})
  raise_desk_mark state = elim (desk_total_pnl state) [
    | err e ↦ raised e state
    | ok total ↦ returned tt (record state {
      desk = record state.desk {
        high_water_mark_usdt = raise_mark state.desk.high_water_mark_usdt total;
      };
    })
  ]

  unfoldable pub update_high_water_marks : State F → Outcome (State F) (Unit {0})
  update_high_water_marks state = elim (raise_book_marks (book_total_pnl state) state.desk.books) [
    | raised e books ↦ raised e (set_books state books)
    | returned _ books ↦ raise_desk_mark (set_books state books)
  ]

  -- The two writes of `_apply_mark`.
  abbrev pub with_mark : State F → String → F → ℕ → State F
  with_mark state iid price ts = record state {
    marks = Dict.set state.marks iid price;
    mark_ts_ns = Dict.set state.mark_ts_ns iid ts;
  }

  unfoldable pub apply_mark : State F → String → F → ℕ → Outcome (State F) (Unit {0})
  apply_mark state iid price ts = update_high_water_marks (with_mark state iid price ts)

  abbrev pub fill_delta : Fill F → F
  fill_delta p = if str_eq p.side "BUY" then p.qty else neg p.qty

  -- `p.get("fee", 0.0)`
  abbrev pub fee_of : Fill F → F
  fee_of p = elim p.fee [ none ↦ n.zero_f | some fee ↦ fee ]

  abbrev pub filled : Position F → FillEffect F → F → Position F
  filled pos effect fee = record pos {
    qty = effect.new_qty;
    avg_entry_price = effect.new_entry_price;
    realized_pnl = pos.realized_pnl + effect.realized_delta;
    fees_paid = pos.fees_paid + fee;
  }

  -- From `get_or_create` on: the position is stored before the instrument is looked up.
  unfoldable pub fill_book : State F → Fill F → Book F → Outcome (State F) (Unit {0})
  fill_book state p book =
      let (created, pos) = get_or_create book p.instrument_id in
      elim (instrument_of state p.instrument_id) [
        | err e ↦ raised e (set_book state p.book_id created)
        | ok instrument ↦
            let effect =
              simulate_fill pos.qty pos.avg_entry_price (fill_delta p) p.fill_price instrument in
            let after_fill = record created {
              positions = Dict.set created.positions p.instrument_id (filled pos effect (fee_of p));
            } in
            update_high_water_marks (set_book state p.book_id after_fill)
      ]

  unfoldable pub apply_fill : State F → Fill F → Outcome (State F) (Unit {0})
  apply_fill state p = elim (Dict.get state.desk.books p.book_id) [
    | none ↦ raised key_error state
    | some book ↦ fill_book state p book
  ]

  -- The body of the loop of `_apply_funding`.
  abbrev pub fund_position : F → F → F → Position F → Position F
  fund_position mult mark rate pos = record pos {
    funding_pnl = pos.funding_pnl + neg pos.qty * mult * mark * rate;
  }

  unfoldable pub fund_book : String → F → F → F → Book F → Book F
  fund_book iid mult mark rate book = elim (Dict.get book.positions iid) [
    | none ↦ book
    | some pos ↦ if pos.qty == n.zero_f then book else record book {
      positions = Dict.set book.positions iid (fund_position mult mark rate pos);
    }
  ]

  unfoldable pub fund_books : String → F → F → F → Dict (Book F) → Dict (Book F)
  fund_books iid mult mark rate [] = []
  fund_books iid mult mark rate ((id, book) ∷ books) =
      (id, fund_book iid mult mark rate book) ∷ fund_books iid mult mark rate books

  unfoldable pub apply_funding : State F → String → F → Outcome (State F) (Unit {0})
  apply_funding state iid rate =
      let rated = record state { funding_rates = Dict.set state.funding_rates iid rate } in
      elim (instrument_of state iid) [
        | err e ↦ raised e rated
        | ok instrument ↦ update_high_water_marks (
            set_books rated
              (fund_books iid (multiplier instrument) (mark_of state iid) rate state.desk.books))
      ]

  -- `limits[Limit(p["field"])] = p["new"]`
  abbrev pub change_limit : Limits F → LimitChange F → Result (Limits F)
  change_limit limits p = elim (limit_of p.field) [
    | none ↦ err value_error
    | some limit ↦ ok (set_limit limits limit p.new)
  ]

  -- `books[p["book_id"]]`, where the payload's default is `None`.
  abbrev pub book_at : State F → Option String → Option (Book F)
  book_at state none = none
  book_at state (some id) = Dict.get state.desk.books id

  unfoldable pub apply_limit_change : State F → LimitChange F → Outcome (State F) (Unit {0})
  apply_limit_change state p =
      if str_eq p.scope "BOOK"
      then elim (book_at state p.book_id) [
        | none ↦ raised key_error state
        | some book ↦ elim (change_limit book.limits p) [
          | err e ↦ raised e state
          | ok limits ↦
              returned tt (set_book state (or_empty p.book_id) (record book { limits = limits }))
        ]
      ]
      else if str_eq p.scope "DESK"
      then elim (change_limit state.desk.limits p) [
        | err e ↦ raised e state
        | ok limits ↦ returned tt (record state { desk = record state.desk { limits = limits } })
      ]
      else raised value_error state

  unfoldable pub apply_kill_switch : State F → KillSwitch → Outcome (State F) (Unit {0})
  apply_kill_switch state p =
      if str_eq p.scope "BOOK"
      then elim (Dict.get state.desk.books p.id) [
        | none ↦ raised key_error state
        | some book ↦ returned tt (set_book state p.id (record book { kill_switch = p.enabled }))
      ]
      else if str_eq p.scope "DESK"
      then returned tt (record state {
        desk = record state.desk {
          kill_switch = p.enabled;
          kill_switch_reason = or_empty p.reason;
        };
      })
      else raised value_error state

  -- `_FOLD_HANDLERS`, and the refusal of a type that it does not hold.
  unfoldable pub handle : State F → LogEvent F → Outcome (State F) (Unit {0})
  handle state (mark_update iid price ts) = apply_mark state iid price ts
  handle state (funding_update iid rate time) = apply_funding state iid rate
  handle state (fill p) = apply_fill state p
  handle state (limit_change p) = apply_limit_change state p
  handle state (kill_switch p) = apply_kill_switch state p
  handle state (order_request p) = returned tt state
  handle state (gate_decision p) = returned tt state
  handle state (reconciliation_warning p) = returned tt state
  handle state (unknown event_type) = raised value_error state

  unfoldable pub apply_event : State F → Envelope (LogEvent F) → Outcome (State F) (Unit {0})
  apply_event state envelope = elim (handle state envelope.event) [
    | raised e after_event ↦ raised e after_event
    | returned _ after_event ↦ returned tt (record after_event { last_seq = envelope.seq })
  ]
