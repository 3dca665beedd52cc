-- ===== src/Execution.antt =====
-- hobo/execution: the data of the execution callbacks (base.py), the paper client (paper.py) and the
-- translation of the order manager (manager.py).
use hobo.Prelude.{String}
use hobo.Float.{Num}
use hobo.Risk.Model.{Order, value}
use hobo.Core.Event.{FillEvent, OrderUpdateEvent}

pub record FillData (F : Type 0) : Type 0 where
  pub order_id : String
  pub book_id : String
  pub instrument_id : String
  pub side : String
  pub qty : F
  pub fill_price : F
  pub fee : F
  pub trade_id : String

pub record OrderUpdate : Type 0 where
  pub order_id : String
  pub book_id : String
  pub state : String
  pub reason : String

module _ {F : Type 0} ⦃n : Num F⦄ where
  -- `PaperExecutionClient.submit`: the whole order is filled at once, at the mark.
  unfoldable pub paper_submit : Order F → F → FillData F
  paper_submit order mark_price = record {
    order_id = order.order_id;
    book_id = order.book_id;
    instrument_id = order.instrument_id;
    side = value order.side;
    qty = order.qty;
    fill_price = mark_price;
    fee = n.zero_f;
    trade_id = "";
  }

-- `OrderManager._handle_fill`
unfoldable pub handle_fill : {F : Type 0} → FillData F → FillEvent F
handle_fill fill = record {
  order_id = fill.order_id;
  book_id = fill.book_id;
  instrument_id = fill.instrument_id;
  side = fill.side;
  qty = fill.qty;
  fill_price = fill.fill_price;
  fee = fill.fee;
  trade_id = fill.trade_id;
}

-- `OrderManager._handle_order_update`
unfoldable pub handle_order_update : OrderUpdate → OrderUpdateEvent
handle_order_update update = record {
  order_id = update.order_id;
  book_id = update.book_id;
  state = update.state;
  reason = update.reason;
}
