-- ===== src/Core/Views.antt =====
-- hobo/core/trade_log.py and hobo/core/exchange_reconciler.py, which only look at the engine, and the
-- patch of scripts/reconcile.py, which closes the gaps that they show.
pub mod Gaps
use Prim.Native.Nat.{◌/◌, ◌+◌}
use hobo.Prelude.{
  ℕ, String, Bool, true, false, Option, none, some, List, [], ◌∷◌, ◌++◌, map, take, if◌then◌else◌,
  str_eq,
}
use hobo.Prelude.Dict
use hobo.Prelude.Dict.{Dict}
use hobo.Float.{Num, ◌+◌ as ◌⊹◌, ◌-◌, ◌≤?◌, ◌<?◌, abs}
use hobo.Risk.Model.{Position, Book}
use hobo.Risk.State.{State, mark_of}
use hobo.Log.Event.{Fill, LogEvent, fill, Envelope}
use hobo.Core.Event.{FillEvent}

pub record Match (F : Type 0) : Type 0 where
  pub engine_qty : F
  pub exchange_qty : F
  pub diff : F
  pub matched : Bool

-- trade_log.py: the ring is a list with the newest trade first.
pub record Trade (F : Type 0) : Type 0 where
  pub ts_ms : ℕ
  pub instrument_id : String
  pub book_id : String
  pub side : String
  pub qty : F
  pub price : F
  pub fee : F
  pub order_id : String

pub record TradeLog (F : Type 0) : Type 0 where
  pub maxlen : ℕ
  pub trades : List (Trade F)

module _ {F : Type 0} ⦃n : Num F⦄ where
  -- `deque.append` with a bound: the oldest trade goes.
  abbrev pub push : TradeLog F → Trade F → TradeLog F
  push log trade = record log { trades = take log.maxlen (trade ∷ log.trades) }

  abbrev pub logged_trade : Fill F → ℕ → Trade F
  logged_trade p ts_ns = record {
    ts_ms = ts_ns / 1000000;
    instrument_id = p.instrument_id;
    book_id = p.book_id;
    side = p.side;
    qty = p.qty;
    price = p.fill_price;
    fee = elim p.fee [ none ↦ n.zero_f | some fee ↦ fee ];
    order_id = p.order_id;
  }

  abbrev pub push_logged : TradeLog F → LogEvent F → ℕ → TradeLog F
  push_logged log (fill p) ts_ns = push log (logged_trade p ts_ns)
  push_logged log _ ts_ns = log

  -- `load_history`, over what `replay` returns.
  unfoldable pub load_history : TradeLog F → List (Envelope (LogEvent F)) → TradeLog F
  load_history log [] = log
  load_history log (e ∷ es) = load_history (push_logged log e.event e.ts_ns) es

  unfoldable pub record_trade : TradeLog F → FillEvent F → ℕ → TradeLog F
  record_trade log event now_ns = push log (record {
    ts_ms = now_ns / 1000000;
    instrument_id = event.instrument_id;
    book_id = event.book_id;
    side = event.side;
    qty = event.qty;
    price = event.fill_price;
    fee = event.fee;
    order_id = event.order_id;
  })

  -- `recent`
  abbrev pub recent : TradeLog F → List (Trade F)
  recent log = log.trades

  -- exchange_reconciler.py

  -- `d.get(iid, 0.0)`
  abbrev pub quantity_of : Dict F → String → F
  quantity_of d iid = elim (Dict.get d iid) [ none ↦ n.zero_f | some q ↦ q ]

  unfoldable pub add_positions : Dict F → Dict (Position F) → Dict F
  add_positions engine [] = engine
  add_positions engine ((iid, p) ∷ positions) =
      add_positions (Dict.set engine iid (quantity_of engine iid ⊹ p.qty)) positions

  -- What the engine holds of each instrument, over all books.
  unfoldable pub engine_positions : Dict F → Dict (Book F) → Dict F
  engine_positions engine [] = engine
  engine_positions engine ((book_id, book) ∷ books) =
      engine_positions (add_positions engine book.positions) books

  -- The entry of one instrument in what `_poll` publishes.
  unfoldable pub match_of : F → Dict F → Dict F → String → Match F
  match_of tolerance engine exchange iid =
      let diff = quantity_of engine iid - quantity_of exchange iid in
      record {
        engine_qty = quantity_of engine iid;
        exchange_qty = quantity_of exchange iid;
        diff = diff;
        matched = abs diff ≤? tolerance;
      }

  -- `set(engine) | set(exchange_positions)`
  unfoldable pub all_instruments : Dict F → Dict F → List String
  all_instruments engine [] = map (λ (e : String × F). e.0) engine
  all_instruments engine ((iid, qty) ∷ exchange) =
      let rest = all_instruments engine exchange in if Dict.has engine iid then rest else iid ∷ rest

  -- `_poll`, where the client answered.
  unfoldable pub poll_positions : F → State F → Dict F → List (String × Match F)
  poll_positions tolerance state exchange =
      let engine = engine_positions [] state.desk.books in
      map (λ iid. (iid, match_of tolerance engine exchange iid)) (all_instruments engine exchange)

  -- scripts/reconcile.py: the fill that adopts what the venue holds more, at the mark and without a fee.
  unfoldable pub patch_fill : State F → String → String → String → F → Fill F
  patch_fill state order_id book_id iid diff = record {
    order_id = order_id;
    book_id = book_id;
    instrument_id = iid;
    side = if n.zero_f <? diff then "BUY" else "SELL";
    qty = abs diff;
    fill_price = mark_of state iid;
    fee = some n.zero_f;
    trade_id = some "";
  }
