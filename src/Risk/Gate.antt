-- ===== src/Risk/Gate.antt =====
-- hobo/risk/gate: the preview of an order (context.py), the checks (checks.py) and the engine that
-- runs them (engine.py). `State F` goes in and a verdict comes out: the state is not changed.
pub mod Within
pub mod Verdict
pub mod Announced
pub mod Preview
pub mod Safe
pub mod Answers
use hobo.Prelude.{
  String, Bool, true, false, none, some, List, [], ◌∷◌, if◌then◌else◌, Result, ok, key_error,
  or_raise, bind,
}
use hobo.Prelude.Dict
use hobo.Prelude.Dict.{Dict}
use hobo.Float.{Num, ◌+◌, ◌-◌, ◌<?◌, abs, max}
use hobo.Risk.Model.{
  Instrument, Order, signed_qty, Limits, Limit, get_limit, Position, Book, position_in,
  RejectReason, accepted, kill_switch, fat_finger, book_position_limit, book_notional_limit,
  book_drawdown_limit, desk_gross_notional_limit, desk_drawdown_limit, Value, text, number,
  GateDecision,
}
use hobo.Risk.Math.{FillEffect, notional, unrealized_pnl, simulate_fill}
use hobo.Risk.State.{
  State, mark_of, instrument_of, book_total_pnl, book_notional, desk_total_pnl, desk_gross_notional,
}

-- context.py

pub record OrderContext (F : Type 0) : Type 0 where
  pub order : Order F
  pub mark : F
  pub new_qty : F
  pub new_book_notional : F
  pub hypothetical_book_pnl : F
  pub new_desk_gross_notional : F
  pub hypothetical_desk_pnl : F

-- checks.py

pub record CheckResult (F : Type 0) : Type 0 where
  pub passed : Bool
  pub reason : RejectReason
  pub detail : Dict (Value F)

-- A class that implements `RiskCheck`, with what its constructor takes.
pub data RiskCheck (F : Type 0) : Type 0 where
  kill_switch_check book_position_check book_notional_check : RiskCheck F
  book_drawdown_check desk_gross_notional_check desk_drawdown_check : RiskCheck F
  fat_finger_check : F → RiskCheck F

module _ {F : Type 0} ⦃n : Num F⦄ where
  -- The effect that the order would have on the position at the mark.
  abbrev pub preview_fill : Position F → Order F → F → Instrument F → FillEffect F
  preview_fill pos order mark instrument =
      simulate_fill pos.qty pos.avg_entry_price (signed_qty order) mark instrument

  -- `old_pnl` and `new_pnl`.
  abbrev pub pnl_before : Position F → F → Instrument F → F
  pnl_before pos mark instrument =
      pos.realized_pnl
      + (pos.funding_pnl - pos.fees_paid)
      + unrealized_pnl pos.qty pos.avg_entry_price mark instrument

  abbrev pub pnl_after : Position F → FillEffect F → F → Instrument F → F
  pnl_after pos effect mark instrument =
      pos.realized_pnl
      + effect.realized_delta
      + (pos.funding_pnl - pos.fees_paid)
      + unrealized_pnl effect.new_qty effect.new_entry_price mark instrument

  -- The context, from the aggregates before the fill: the book's notional and PnL, then the desk's.
  abbrev pub context_of : State F → Order F → Book F → Instrument F → F → F → F → F → OrderContext F
  context_of state order book instrument book_notional book_pnl desk_notional desk_pnl =
      let mark = mark_of state order.instrument_id in
      let pos = position_in book order.instrument_id in
      let effect = preview_fill pos order mark instrument in
      let new_book_notional =
        book_notional
        - notional pos.qty mark instrument
        + notional effect.new_qty mark instrument in
      let hypothetical_book_pnl =
        book_pnl - pnl_before pos mark instrument + pnl_after pos effect mark instrument in
      record {
        order = order;
        mark = mark;
        new_qty = effect.new_qty;
        new_book_notional = new_book_notional;
        hypothetical_book_pnl = hypothetical_book_pnl;
        new_desk_gross_notional = desk_notional - book_notional + new_book_notional;
        hypothetical_desk_pnl = desk_pnl - book_pnl + hypothetical_book_pnl;
      }

  unfoldable pub build_order_context : State F → Order F → Result (OrderContext F)
  build_order_context state order =
      bind (or_raise (Dict.get state.desk.books order.book_id) key_error) λ book.
        bind (instrument_of state order.instrument_id) λ instrument.
          bind (book_notional state book) λ old_book_notional.
            bind (book_total_pnl state book) λ old_book_pnl.
              bind (desk_gross_notional state) λ old_desk_notional.
                bind (desk_total_pnl state) λ old_desk_pnl. ok (
                  context_of state order book instrument old_book_notional old_book_pnl
                    old_desk_notional old_desk_pnl)

  abbrev pub passed_check : CheckResult F
  passed_check = record { passed = true; reason = accepted; detail = [] }

  abbrev pub reject : RejectReason → Dict (Value F) → CheckResult F
  reject reason detail = record { passed = false; reason = reason; detail = detail }

  -- `state.desk.books[ctx.book_id]`
  abbrev pub book_of : State F → OrderContext F → Result (Book F)
  book_of state ctx = or_raise (Dict.get state.desk.books ctx.order.book_id) key_error

  abbrev pub limit_at : Limits F → Limit → Result F
  limit_at limits limit = or_raise (get_limit limits limit) key_error

  -- A value above its limit is rejected.
  abbrev pub check_limit : F → F → RejectReason → Dict (Value F) → CheckResult F
  check_limit value limit reason detail =
      if limit <? value then reject reason detail else passed_check

  unfoldable pub evaluate : RiskCheck F → State F → OrderContext F → Result (CheckResult F)
  evaluate kill_switch_check state ctx =
      if state.desk.kill_switch
      then ok (
          reject kill_switch
            (("scope", text "DESK") ∷ ("reason", text state.desk.kill_switch_reason) ∷ []))
      else bind (book_of state ctx) (λ book. ok (
          if book.kill_switch
          then reject kill_switch (("scope", text "BOOK") ∷ [])
          else passed_check))
  evaluate (fat_finger_check max_order_size) state ctx = ok (
      check_limit ctx.order.qty max_order_size fat_finger
        (("qty", number ctx.order.qty) ∷ ("limit", number max_order_size) ∷ []))
  evaluate book_position_check state ctx = bind (book_of state ctx) λ book.
      bind (limit_at book.limits Limit.position) λ limit. ok (
        check_limit (abs ctx.new_qty) limit book_position_limit
          (("new_qty", number ctx.new_qty) ∷ ("limit", number limit) ∷ []))
  evaluate book_notional_check state ctx = bind (book_of state ctx) λ book.
      bind (limit_at book.limits Limit.notional) λ limit. ok (
        check_limit ctx.new_book_notional limit book_notional_limit
          (("new_notional", number ctx.new_book_notional) ∷ ("limit", number limit) ∷ []))
  evaluate book_drawdown_check state ctx = bind (book_of state ctx) λ book.
      bind (limit_at book.limits Limit.drawdown) λ limit.
        let drawdown = max n.zero_f (book.high_water_mark_usdt - ctx.hypothetical_book_pnl) in
        ok (
          check_limit drawdown limit book_drawdown_limit
            (("new_drawdown", number drawdown) ∷ ("limit", number limit) ∷ []))
  evaluate desk_gross_notional_check state ctx =
      bind (limit_at state.desk.limits Limit.notional) λ limit. ok (
        check_limit ctx.new_desk_gross_notional limit desk_gross_notional_limit (
          ("desk_gross_notional", number ctx.new_desk_gross_notional)
          ∷ ("limit", number limit)
          ∷ []))
  evaluate desk_drawdown_check state ctx = bind (limit_at state.desk.limits Limit.drawdown) λ limit.
      let drawdown = max n.zero_f (state.desk.high_water_mark_usdt - ctx.hypothetical_desk_pnl) in
      ok (
        check_limit drawdown limit desk_drawdown_limit
          (("desk_drawdown", number drawdown) ∷ ("limit", number limit) ∷ []))

  -- engine.py

  abbrev pub approve : Order F → GateDecision F
  approve order = record {
    order_id = order.order_id;
    approved = true;
    reason = accepted;
    detail = [];
  }

  abbrev pub refuse : Order F → CheckResult F → GateDecision F
  refuse order result = record {
    order_id = order.order_id;
    approved = false;
    reason = result.reason;
    detail = result.detail;
  }

  -- The loop of `RiskEngine.check`: the first check that does not pass decides.
  unfoldable pub run_checks :
      List (RiskCheck F) → State F → OrderContext F → Order F → Result (GateDecision F)
  run_checks [] state ctx order = ok (approve order)
  run_checks (rule ∷ rules) state ctx order = bind (evaluate rule state ctx) λ result.
      let rest = run_checks rules state ctx order in
      if result.passed then rest else ok (refuse order result)

  unfoldable pub check : List (RiskCheck F) → State F → Order F → Result (GateDecision F)
  check checks state order =
      bind (build_order_context state order) λ ctx. run_checks checks state ctx order

  abbrev pub default_checks : F → List (RiskCheck F)
  default_checks max_order_size =
      kill_switch_check
      ∷ fat_finger_check max_order_size
      ∷ book_position_check
      ∷ book_notional_check
      ∷ book_drawdown_check
      ∷ desk_gross_notional_check
      ∷ desk_drawdown_check
      ∷ []
