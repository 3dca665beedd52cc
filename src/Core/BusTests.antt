-- ===== src/Core/BusTests.antt =====
-- The theorems on hobo/core/bus.py at a bus with one handler, which publishes a fill for each mark, as
-- a strategy does whose orders the paper client fills.
use Prim.Native.Nat.{◌+◌}
use hobo.Prelude.{ℕ, ◌≡◌, refl, true, some, List, [], ◌∷◌, ◌++◌, arith}
use hobo.Float.Int.{ℤ, pos}
use hobo.Core.Event.{Event, mark_event, funding_event, fill_event, order_update_event}
use hobo.Core.Bus.{
  EventBus, EventType, Handler, new_bus, offer, offer_all, run_handlers, deliver, drain, publish,
}
use hobo.Core.Bus.Fifo.{InOrder, deliver-InOrder}
use hobo.Core.Bus.Cascade.{Dwindles}
use hobo.Core.Bus.Ends.{IsIdle, publish-delivers}

abbrev one_fill : Event ℤ
one_fill = fill_event (record {
  order_id = "ALPHA-1";
  book_id = "ALPHA";
  instrument_id = "SWAP";
  side = "BUY";
  qty = pos 1;
  fill_price = pos 120;
  fee = pos 0;
  trade_id = "";
})

abbrev one_mark : Event ℤ
one_mark = mark_event "SWAP" (pos 120) 7

-- It counts its calls.
abbrev trades : Handler ℤ ℕ
trades (mark_event iid price ts_ns) calls = (calls + 1, one_fill ∷ [])
trades (funding_event iid rate time ts_ns) calls = (calls + 1, [])
trades (fill_event e) calls = (calls + 1, [])
trades (order_update_event e) calls = (calls + 1, [])

abbrev bus : EventBus ℤ ℕ
bus = record (new_bus 10 0) {
  handlers = λ t. elim t [
    | EventType.marks ↦ trades ∷ []
    | EventType.fills ↦ trades ∷ []
    | EventType.fundings ↦ []
    | EventType.order_updates ↦ []
  ];
}

abbrev weight : Event ℤ → ℕ
weight (mark_event iid price ts_ns) = 2
weight (funding_event iid rate time ts_ns) = 1
weight (fill_event e) = 1
weight (order_update_event e) = 1

bus-Dwindles : Dwindles weight bus.handlers
bus-Dwindles (mark_event iid price ts_ns) calls = omega arith
bus-Dwindles (funding_event iid rate time ts_ns) calls = omega arith
bus-Dwindles (fill_event e) calls = omega arith
bus-Dwindles (order_update_event e) calls = omega arith

bus-IsIdle : IsIdle bus
bus-IsIdle = record {
  in_order = record { fifo = refl; bounded = omega arith };
  nothing_waits = refl;
  not_draining = refl;
}

-- The fill is delivered after the mark, and both calls of the handler were made.
fill_follows :
    publish 2 bus one_mark
    ≡ some (record bus {
      world = 2;
      delivered = one_mark ∷ one_fill ∷ [];
      accepted = one_mark ∷ one_fill ∷ [];
    })
unfolding publish drain deliver run_handlers offer_all offer
fill_follows = refl

publish-delivers_example :
    (b' : EventBus ℤ ℕ) × (publish 2 bus one_mark ≡ some b')
    × IsIdle b'
    × (b'.accepted ≡ b'.delivered)
    × ((more : List (Event ℤ)) × (b'.delivered ≡ [] ++ one_mark ∷ more))
publish-delivers_example =
    publish-delivers weight 2 bus one_mark bus-IsIdle bus-Dwindles (omega arith) (omega arith)

-- A mark waits.
abbrev busy : EventBus ℤ ℕ
busy = record bus { queue = one_mark ∷ []; accepted = one_mark ∷ []; draining = true }

busy-InOrder : InOrder busy
busy-InOrder = record { fifo = refl; bounded = omega arith }

deliver-InOrder_example : InOrder (deliver (record busy { queue = [] }) one_mark)
deliver-InOrder_example = deliver-InOrder busy one_mark [] refl busy-InOrder
