-- ===== src/Obs.antt =====
-- hobo/obs/server.py: the status of the desk that the dashboard shows, and the paths of the server.
-- Sending an answer and the metrics are left out.
pub mod Tests
use hobo.Prelude.{
  ℕ, String, Bool, Option, none, some, List, [], ◌∷◌, str_eq, ◌||◌, if◌then◌else◌, Result, ok, err,
  key_error, or_raise, ◌>>=◌,
}
use hobo.Prelude.Dict
use hobo.Prelude.Dict.{Dict}
use hobo.Prelude.Data.{Data}
use hobo.Float.{Num, ◌+◌, sum}
use hobo.Risk.Model.{Position, Book, Instrument}
use hobo.Risk.Math.{notional, unrealized_pnl}
use hobo.Risk.Saved.{state_to_dict}
use hobo.Risk.State.{
  State, mark_of, instrument_of, book_notional, book_realized_pnl, book_unrealized_pnl,
  book_funding_pnl, book_fees_paid, book_total_pnl, book_drawdown, desk_total_pnl, desk_drawdown,
  desk_gross_notional,
}

-- The entries of the summary.
pub record PositionStatus (F : Type 0) : Type 0 where
  pub qty : F
  pub avg_entry_price : F
  pub mark : F
  pub notional_usdt : F
  pub unrealized_pnl : F

pub record InstrumentStatus (F : Type 0) : Type 0 where
  pub mark : F
  pub mark_ts_ns : Option ℕ
  pub funding_rate : Option F
  pub net_position : F
  pub notional_usdt : F
  pub unrealized_pnl : F

pub record BookStatus (F : Type 0) : Type 0 where
  pub positions : Dict (PositionStatus F)
  pub notional_usdt : F
  pub realized_pnl : F
  pub unrealized_pnl : F
  pub funding_pnl : F
  pub fees_paid : F
  pub total_pnl : F
  pub drawdown : F
  pub kill_switch : Bool
  pub position_limit : F
  pub notional_limit_usdt : F
  pub drawdown_limit_usdt : F

pub record DeskStatus (F : Type 0) : Type 0 where
  pub total_pnl : F
  pub realized_pnl : F
  pub unrealized_pnl : F
  pub funding_pnl : F
  pub fees_paid : F
  pub drawdown : F
  pub gross_notional_usdt : F
  pub notional_limit_usdt : F
  pub drawdown_limit_usdt : F
  pub kill_switch : Bool
  pub kill_switch_reason : String

-- `recent_trades` and `exchange` are passed on.
pub record Status (F : Type 0) : Type 0 where
  pub state : Data F
  pub instruments : Dict (InstrumentStatus F)
  pub books : Dict (BookStatus F)
  pub desk : DeskStatus F

module _ {F : Type 0} ⦃n : Num F⦄ where
  unfoldable pub empty_rolls : State F → Dict (Instrument F) → Dict (InstrumentStatus F)
  empty_rolls state [] = []
  empty_rolls state ((iid, instrument) ∷ instruments) =
      (
        iid,
        record {
          mark = mark_of state iid;
          mark_ts_ns = Dict.get state.mark_ts_ns iid;
          funding_rate = Dict.get state.funding_rates iid;
          net_position = n.zero_f;
          notional_usdt = n.zero_f;
          unrealized_pnl = n.zero_f;
        },
      )
      ∷ empty_rolls state instruments

  unfoldable pub position_status : State F → Instrument F → String → Position F → PositionStatus F
  position_status state instrument iid p =
      let mark = mark_of state iid in
      record {
        qty = p.qty;
        avg_entry_price = p.avg_entry_price;
        mark = mark;
        notional_usdt = notional p.qty mark instrument;
        unrealized_pnl = unrealized_pnl p.qty p.avg_entry_price mark instrument;
      }

  abbrev pub rolled : InstrumentStatus F → PositionStatus F → InstrumentStatus F
  rolled roll p = record roll {
    net_position = roll.net_position + p.qty;
    notional_usdt = roll.notional_usdt + p.notional_usdt;
    unrealized_pnl = roll.unrealized_pnl + p.unrealized_pnl;
  }

  -- The inner loop: the positions of a book, and the instruments with them.
  unfoldable pub roll_positions :
      State F
      → Dict (Position F)
      → Dict (InstrumentStatus F)
      → Result (Dict (PositionStatus F) × Dict (InstrumentStatus F))
  roll_positions state [] rolls = ok ([], rolls)
  roll_positions state ((iid, p) ∷ positions) rolls = do
    instrument ← instrument_of state iid
    let status = position_status state instrument iid p
    roll ← or_raise (Dict.get rolls iid) key_error
    rest ← roll_positions state positions (Dict.set rolls iid (rolled roll status))
    ok ((iid, status) ∷ rest.0, rest.1)

  unfoldable pub book_status : State F → Book F → Dict (PositionStatus F) → Result (BookStatus F)
  book_status state book positions = do
    notional_usdt ← book_notional state book
    unrealized ← book_unrealized_pnl state book
    total ← book_total_pnl state book
    drawdown ← book_drawdown state book
    position_limit ← or_raise book.limits.position_limit key_error
    notional_limit ← or_raise book.limits.notional_limit key_error
    drawdown_limit ← or_raise book.limits.drawdown_limit key_error
    ok (record {
      positions = positions;
      notional_usdt = notional_usdt;
      realized_pnl = book_realized_pnl book;
      unrealized_pnl = unrealized;
      funding_pnl = book_funding_pnl book;
      fees_paid = book_fees_paid book;
      total_pnl = total;
      drawdown = drawdown;
      kill_switch = book.kill_switch;
      position_limit = position_limit;
      notional_limit_usdt = notional_limit;
      drawdown_limit_usdt = drawdown_limit;
    })

  -- The outer loop.
  unfoldable pub roll_books :
      State F
      → Dict (Book F)
      → Dict (InstrumentStatus F)
      → Result (Dict (BookStatus F) × Dict (InstrumentStatus F))
  roll_books state [] rolls = ok ([], rolls)
  roll_books state ((book_id, book) ∷ books) rolls = do
    rolled_up ← roll_positions state book.positions rolls
    status ← book_status state book rolled_up.0
    rest ← roll_books state books rolled_up.1
    ok ((book_id, status) ∷ rest.0, rest.1)

  unfoldable pub desk_status : State F → Dict (BookStatus F) → Result (DeskStatus F)
  desk_status state books = do
    total ← desk_total_pnl state
    drawdown ← desk_drawdown state
    gross ← desk_gross_notional state
    notional_limit ← or_raise state.desk.limits.notional_limit key_error
    drawdown_limit ← or_raise state.desk.limits.drawdown_limit key_error
    ok (record {
      total_pnl = total;
      realized_pnl = sum (λ (b : String × BookStatus F). b.1.realized_pnl) books;
      unrealized_pnl = sum (λ (b : String × BookStatus F). b.1.unrealized_pnl) books;
      funding_pnl = sum (λ (b : String × BookStatus F). b.1.funding_pnl) books;
      fees_paid = sum (λ (b : String × BookStatus F). b.1.fees_paid) books;
      drawdown = drawdown;
      gross_notional_usdt = gross;
      notional_limit_usdt = notional_limit;
      drawdown_limit_usdt = drawdown_limit;
      kill_switch = state.desk.kill_switch;
      kill_switch_reason = state.desk.kill_switch_reason;
    })

  -- `_status_payload`
  unfoldable pub status_payload : State F → Result (Status F)
  status_payload state = do
    views ← roll_books state state.desk.books (empty_rolls state state.instruments)
    desk ← desk_status state views.0
    ok (record { state = state_to_dict state; instruments = views.1; books = views.0; desk = desk })

-- What `do_GET` answers to a path.
pub data Page : Type 0 where
  dashboard metrics status healthz not_found : Page

unfoldable pub do_get : String → Page
do_get path =
    if str_eq path "/" || str_eq path "/dashboard"
    then dashboard
    else if str_eq path "/metrics"
    then metrics
    else if str_eq path "/status"
    then status
    else if str_eq path "/healthz"
    then healthz
    else not_found
