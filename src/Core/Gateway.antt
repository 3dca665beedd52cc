-- ===== src/Core/Gateway.antt =====
-- hobo/core/gateway.py: the path of an order from a book's intent to the venue. `submitted` and
-- `cancelled` list the calls of the execution client; the metrics hook is left out. Each reading of the clock is an
-- argument.
pub mod Submits
use Prim.Native.Nat.{◌+◌, ◌/◌, ◌%◌}
use Prim.Native.String.{◌++◌ as ◌^◌, slice}
use hobo.Prelude.{
  ℕ, zero, suc, String, Bool, List, [], ◌∷◌, ◌++◌, ltb, map, if◌then◌else◌, ok, err, Outcome,
  returned, raised,
}
use hobo.Prelude.Decimal.{decimal}
use hobo.Float.{Num}
use hobo.Risk.Model.{
  Order, Side, value, RejectReason, accepted, kill_switch, fat_finger, book_position_limit,
  book_notional_limit, book_drawdown_limit, desk_gross_notional_limit, desk_drawdown_limit, Value,
  text, number, GateDecision,
}
use hobo.Prelude.Data
use hobo.Prelude.Data.{Data}
use hobo.Risk.State.{mark_of}
use hobo.Risk.Gate.{RiskCheck, check}
use hobo.Log.Event.{LogEvent, order_request, gate_decision}
use hobo.Log.Format.{Codec}
use hobo.Core.Store.{StateStore, record_event}

-- `RejectReason.value`
abbrev pub reason_value : RejectReason → String
reason_value accepted = "NONE"
reason_value kill_switch = "KILL_SWITCH"
reason_value fat_finger = "FAT_FINGER"
reason_value book_position_limit = "BOOK_POSITION_LIMIT"
reason_value book_notional_limit = "BOOK_NOTIONAL_LIMIT"
reason_value book_drawdown_limit = "BOOK_DRAWDOWN_LIMIT"
reason_value desk_gross_notional_limit = "DESK_GROSS_NOTIONAL_LIMIT"
reason_value desk_drawdown_limit = "DESK_DRAWDOWN_LIMIT"

pub record OrderGateway (F : Type 0) : Type 0 where
  pub store : StateStore F
  pub order_seq : ℕ
  pub submitted : List (Order F × F)
  pub cancelled : List String

-- What a caller of `place` asks for.
pub record Intent (F : Type 0) : Type 0 where
  pub book_id : String
  pub instrument_id : String
  pub side : Side
  pub qty : F
  pub order_type : String

unfoldable pub cancel : {F : Type 0} → OrderGateway F → String → OrderGateway F
cancel gateway order_id = record gateway { cancelled = gateway.cancelled ++ order_id ∷ [] }

-- `_build_order`, for the sequence number that it counts up to.
unfoldable pub build_order : {F : Type 0} → ℕ → Intent F → ℕ → Order F
build_order order_seq intent now = record {
  order_id = intent.book_id ^ ("-" ^ decimal order_seq);
  book_id = intent.book_id;
  instrument_id = intent.instrument_id;
  side = intent.side;
  qty = intent.qty;
  ts_ns = now;
  order_type = intent.order_type;
}

abbrev pub request_of : {F : Type 0} → Order F → LogEvent F
request_of order = order_request (record {
  order_id = order.order_id;
  book_id = order.book_id;
  instrument_id = order.instrument_id;
  side = value order.side;
  qty = order.qty;
  order_type = order.order_type;
})

-- A value in the verdict's detail, as it is logged.
abbrev pub value_data : {F : Type 0} → Value F → Data F
value_data (text s) = Data.text s
value_data (number x) = Data.float x

abbrev pub decision_of : {F : Type 0} → Order F → GateDecision F → LogEvent F
decision_of order decision = gate_decision (record {
  order_id = order.order_id;
  book_id = order.book_id;
  approved = decision.approved;
  reason = reason_value decision.reason;
  detail = map (λ (e : String × Value _). (e.0, value_data e.1)) decision.detail;
})

module _ {F : Type 0} ⦃n : Num F⦄ (codec : Codec (LogEvent F)) (checks : List (RiskCheck F)) where
  -- From the decision on.
  unfoldable pub conclude :
      OrderGateway F → Order F → GateDecision F → ℕ → Outcome (OrderGateway F) (GateDecision F)
  conclude g order decision now =
      elim (record_event codec g.store (decision_of order decision) now) [
        | raised e store ↦ raised e (record g { store = store })
        | returned _ store ↦
            if decision.approved
            then returned decision (record g {
              store = store;
              submitted = g.submitted ++ (order, mark_of store.state order.instrument_id) ∷ [];
            })
            else returned decision (record g { store = store })
      ]

  unfoldable pub place :
      OrderGateway F → Intent F → ℕ → ℕ → ℕ → Outcome (OrderGateway F) (GateDecision F)
  place gateway intent built_at requested_at decided_at =
      let g = record gateway { order_seq = gateway.order_seq + 1 } in
      let order = build_order g.order_seq intent built_at in
      elim (record_event codec g.store (request_of order) requested_at) [
        | raised e store ↦ raised e (record g { store = store })
        | returned _ store ↦ elim (check checks store.state order) [
          | err e ↦ raised e (record g { store = store })
          | ok decision ↦ conclude (record g { store = store }) order decision decided_at
        ]
      ]
