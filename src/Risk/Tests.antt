-- ===== src/Risk/Tests.antt =====
-- A desk of one book that holds one instrument, in whole numbers: the theorems on hobo/risk at
-- concrete inputs.
use hobo.Prelude.{◌≡◌, refl, false, some, [], ◌∷◌, ok, after, returned, ◌↔◌, All}
use hobo.Float.{◌+◌, sum_from, try_sum_from}
use hobo.Prelude.Dict
use hobo.Float.Int.{◌+ℤ◌, ◌-ℤ◌, ◌*ℤ◌, neg_ℤ, div_ℤ, int_num, ℤ, pos, negsuc, ℤ-IsOrdered, ℤ-IsExact}
use hobo.Risk.Model.{
  ContractSpec, Instrument, Order, buy, sell, Limits, Position, Book, GateDecision,
  book_position_limit, number,
}
use hobo.Risk.Math.{notional, unrealized_pnl, simulate_fill, add_fill, reduce_fill}
use hobo.Risk.Math.Fill.{simulate_fill_pnl}
use hobo.Risk.State.{
  State, book_unrealized_pnl, book_realized_pnl, book_funding_pnl, book_fees_paid, book_notional,
  book_total_pnl, desk_total_pnl, desk_gross_notional,
}
use hobo.Risk.Fold.{
  apply_event, handle, apply_mark, update_high_water_marks, raise_book_marks, raise_desk_mark,
}
use hobo.Risk.Fold.Covers.{IsCovered}
use hobo.Risk.Fold.Covered.{apply_event-IsCovered}
use hobo.Risk.Gate.{
  OrderContext, context_of, build_order_context, approve, run_checks, evaluate, check,
  default_checks,
}
use hobo.Risk.Gate.Within.{Within}
use hobo.Risk.Gate.Verdict.{RefusedAt, check-approves_iff, check-refuses}
use hobo.Risk.Gate.Announced.{logged_fill, Announced}
use hobo.Risk.Gate.Preview.{build_order_context-previews}
use hobo.Risk.Gate.Safe.{KeepsLimits, approved-KeepsLimits}
use hobo.Log.Event.{LogEvent, Envelope, mark_update}

abbrev pub swap_spec : ContractSpec ℤ
swap_spec = record {
  instrument_id = "SWAP";
  ct_val = pos 2;
  ct_val_ccy = "BTC";
  ct_mult = pos 1;
  tick_sz = pos 1;
  lot_sz = pos 1;
  min_sz = pos 1;
  max_leverage = pos 10;
  settle_ccy = "USDT";
  contract_type = "linear";
}

abbrev pub swap : Instrument ℤ
swap = record { spec = swap_spec; maintenance_margin_rate = pos 0 }

abbrev pub limits : Limits ℤ
limits = record {
  notional_limit = some (pos 1000);
  drawdown_limit = some (pos 50);
  position_limit = some (pos 5);
}

abbrev pub long_two : Position ℤ
long_two = record {
  instrument_id = "SWAP";
  qty = pos 2;
  avg_entry_price = pos 100;
  realized_pnl = pos 3;
  funding_pnl = negsuc 0;
  fees_paid = pos 1;
}

abbrev pub alpha : Book ℤ
alpha = record {
  book_id = "ALPHA";
  limits = limits;
  positions = ("SWAP", long_two) ∷ [];
  high_water_mark_usdt = pos 41;
  kill_switch = false;
}

abbrev pub desk_state : State ℤ
desk_state = record {
  instruments = ("SWAP", swap) ∷ [];
  desk = record {
    desk_id = "DESK";
    limits = limits;
    books = ("ALPHA", alpha) ∷ [];
    high_water_mark_usdt = pos 41;
    kill_switch = false;
    kill_switch_reason = "";
  };
  marks = ("SWAP", pos 110) ∷ [];
  mark_ts_ns = ("SWAP", 7) ∷ [];
  funding_rates = [];
  last_seq = 4;
  feed_stale = false;
}

abbrev pub sell_three : Order ℤ
sell_three = record {
  order_id = "ALPHA-1";
  book_id = "ALPHA";
  instrument_id = "SWAP";
  side = sell;
  qty = pos 3;
  ts_ns = 8;
  order_type = "MARKET";
}

abbrev buy_four : Order ℤ
buy_four = record sell_three { order_id = "ALPHA-2"; side = buy; qty = pos 4 }

pnl_of_alpha : book_total_pnl desk_state alpha ≡ ok (pos 41)
unfolding book_total_pnl book_unrealized_pnl book_realized_pnl book_funding_pnl book_fees_paid
    sum_from try_sum_from ◌+ℤ◌ ◌-ℤ◌ ◌*ℤ◌ neg_ℤ unrealized_pnl Dict.get
pnl_of_alpha = refl

-- What the gate sees of an order on this desk.
abbrev seen : Order ℤ → OrderContext ℤ
seen order = context_of desk_state order alpha swap (pos 440) (pos 41) (pos 440) (pos 41)

sees :
    (order : Order ℤ)
    → order.book_id ≡ "ALPHA"
    → order.instrument_id ≡ "SWAP"
    → build_order_context desk_state order ≡ ok (seen order)
unfolding build_order_context book_notional notional desk_total_pnl desk_gross_notional
    book_total_pnl book_unrealized_pnl book_realized_pnl book_funding_pnl book_fees_paid sum_from
    try_sum_from ◌+ℤ◌ ◌-ℤ◌ ◌*ℤ◌ neg_ℤ unrealized_pnl Dict.get
sees order b i = rw (b, i) refl

approves_sell : check (default_checks (pos 5)) desk_state sell_three ≡ ok (approve sell_three)
unfolding check run_checks evaluate simulate_fill add_fill reduce_fill build_order_context
    book_notional notional desk_total_pnl desk_gross_notional book_total_pnl book_unrealized_pnl
    book_realized_pnl book_funding_pnl book_fees_paid sum_from try_sum_from ◌+ℤ◌ ◌-ℤ◌ ◌*ℤ◌ neg_ℤ
    div_ℤ unrealized_pnl Dict.get
approves_sell = refl

-- Buying four would leave six, above the limit of five.
abbrev refusal : GateDecision ℤ
refusal = record {
  order_id = "ALPHA-2";
  approved = false;
  reason = book_position_limit;
  detail = ("new_qty", number (pos 6)) ∷ ("limit", number (pos 5)) ∷ [];
}

refuses_buy : check (default_checks (pos 5)) desk_state buy_four ≡ ok refusal
unfolding check run_checks evaluate simulate_fill add_fill reduce_fill build_order_context
    book_notional notional desk_total_pnl desk_gross_notional book_total_pnl book_unrealized_pnl
    book_realized_pnl book_funding_pnl book_fees_paid sum_from try_sum_from ◌+ℤ◌ ◌-ℤ◌ ◌*ℤ◌ neg_ℤ
    div_ℤ unrealized_pnl Dict.get
refuses_buy = refl

simulate_fill_pnl_example :
    let r = simulate_fill (pos 2) (pos 100) (pos 2) (pos 110) swap in
    r.realized_delta + unrealized_pnl r.new_qty r.new_entry_price (pos 90) swap
    ≡ unrealized_pnl (pos 2) (pos 100) (pos 90) swap
      + unrealized_pnl (pos 2) (pos 110) (pos 90) swap
unfolding ◌+ℤ◌ ◌*ℤ◌ div_ℤ
simulate_fill_pnl_example =
    simulate_fill_pnl ℤ-IsExact (pos 2) (pos 100) (pos 2) (pos 110) (pos 90) swap (λ _ _. refl)

abbrev new_mark : Envelope (LogEvent ℤ)
new_mark = record { seq = 5; ts_ns = 9; event = mark_update "SWAP" (pos 120) 9 }

abbrev marked : State ℤ
marked = after (apply_event desk_state new_mark)

mark_returns : apply_event desk_state new_mark ≡ returned tt marked
unfolding apply_event handle apply_mark update_high_water_marks raise_book_marks raise_desk_mark
    desk_total_pnl book_total_pnl book_unrealized_pnl book_realized_pnl book_funding_pnl
    book_fees_paid sum_from try_sum_from ◌+ℤ◌ ◌-ℤ◌ ◌*ℤ◌ neg_ℤ unrealized_pnl Dict.get Dict.set
mark_returns = refl

apply_event-IsCovered_example : IsCovered marked
apply_event-IsCovered_example =
    apply_event-IsCovered ℤ-IsOrdered desk_state marked new_mark mark_returns (λ e. cc)

check-approves_iff_example :
    (check (default_checks (pos 5)) desk_state sell_three ≡ ok (approve sell_three))
    ↔ All (Within desk_state (seen sell_three)) (default_checks (pos 5))
check-approves_iff_example =
    check-approves_iff (default_checks (pos 5)) desk_state sell_three (seen sell_three)
      (sees sell_three refl refl)

check-refuses_example : RefusedAt desk_state (seen buy_four) (default_checks (pos 5)) refusal
check-refuses_example =
    check-refuses (default_checks (pos 5)) desk_state buy_four (seen buy_four) refusal
      (sees buy_four refl refl) refuses_buy refl

build_order_context-previews_example :
    (s' : State ℤ) × (apply_event desk_state (logged_fill desk_state sell_three 5 9)
      ≡ returned tt s')
    × Announced desk_state s' (seen sell_three)
build_order_context-previews_example =
    build_order_context-previews ℤ-IsExact desk_state sell_three (seen sell_three) 5 9
      (sees sell_three refl refl)

approved-KeepsLimits_example :
    (s' : State ℤ) × (apply_event desk_state (logged_fill desk_state sell_three 5 9)
      ≡ returned tt s')
    × KeepsLimits s' sell_three
approved-KeepsLimits_example =
    approved-KeepsLimits ℤ-IsExact (pos 5) desk_state sell_three 5 9 approves_sell
