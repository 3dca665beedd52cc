-- ===== src/Core/Event.antt =====
-- hobo/core/events.py: the events that the bus routes and the actions of strategies.
-- `log_payload` is the dispatch table of hobo/core/recorder.py.
use hobo.Prelude.{ℕ, String, Option, none, some}
use hobo.Risk.Model.{Side}
use hobo.Log.Event.{Fill, LogEvent, mark_update, funding_update, fill}

pub record FillEvent (F : Type 0) : Type 0 where
  pub order_id : String
  pub book_id : String
  pub instrument_id : String
  pub side : String
  pub qty : F
  pub fill_price : F
  pub fee : F
  pub trade_id : String

pub record OrderUpdateEvent : Type 0 where
  pub order_id : String
  pub book_id : String
  pub state : String
  pub reason : String

pub data Event (F : Type 0) : Type 0 where
  mark_event : String → F → ℕ → Event F
  funding_event : String → F → ℕ → ℕ → Event F
  fill_event : FillEvent F → Event F
  order_update_event : OrderUpdateEvent → Event F

pub data Action (F : Type 0) : Type 0 where
  place_order : String → Side → F → String → Action F
  cancel_order : String → Action F

abbrev pub fill_payload : {F : Type 0} → FillEvent F → Fill F
fill_payload e = record {
  order_id = e.order_id;
  book_id = e.book_id;
  instrument_id = e.instrument_id;
  side = e.side;
  qty = e.qty;
  fill_price = e.fill_price;
  fee = some e.fee;
  trade_id = some e.trade_id;
}

-- `_LOG_MAPPERS`: an order update has no payload.
unfoldable pub log_payload : {F : Type 0} → Event F → Option (LogEvent F)
log_payload (mark_event iid price ts) = some (mark_update iid price ts)
log_payload (funding_event iid rate time ts) = some (funding_update iid rate time)
log_payload (fill_event e) = some (fill (fill_payload e))
log_payload (order_update_event e) = none
