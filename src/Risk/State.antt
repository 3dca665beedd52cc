-- ===== src/Risk/State.antt =====
-- hobo/risk/state.py: the materialised risk state and its read-only queries.
use hobo.Prelude.{
  ℕ, String, Bool, false, none, some, [], ◌∷◌, List, Result, ok, key_error, or_raise, bind,
}
use hobo.Prelude.Dict
use hobo.Prelude.Dict.{Dict}
use hobo.Float.{Num, ◌+◌, ◌-◌, sum, try_sum, max}
use hobo.Risk.Model.{Instrument, Limits, Position, Book, Desk, new_book}
use hobo.Risk.Math.{notional, unrealized_pnl}

pub record State (F : Type 0) : Type 0 where
  pub instruments : Dict (Instrument F)
  pub desk : Desk F
  pub marks : Dict F
  pub mark_ts_ns : Dict ℕ
  pub funding_rates : Dict F
  pub last_seq : ℕ
  pub feed_stale : Bool

module _ {F : Type 0} ⦃n : Num F⦄ where
  -- The loop of `State.initial` over the book specs.
  unfoldable pub add_books : Dict (Book F) → List (String × Limits F) → Dict (Book F)
  add_books books [] = books
  add_books books ((book_id, limits) ∷ specs) =
      add_books (Dict.set books book_id (new_book book_id limits)) specs

  unfoldable pub initial :
      Dict (Instrument F) → String → Limits F → List (String × Limits F) → State F
  initial instruments desk_id desk_limits book_specs = record {
    instruments = instruments;
    desk = record {
      desk_id = desk_id;
      limits = desk_limits;
      books = add_books [] book_specs;
      high_water_mark_usdt = n.zero_f;
      kill_switch = false;
      kill_switch_reason = "";
    };
    marks = [];
    mark_ts_ns = [];
    funding_rates = [];
    last_seq = 0;
    feed_stale = false;
  }

  abbrev pub mark_of : State F → String → F
  mark_of state iid = elim (Dict.get state.marks iid) [ none ↦ n.zero_f | some m ↦ m ]

  -- `self.instruments[iid]`
  abbrev pub instrument_of : State F → String → Result (Instrument F)
  instrument_of state iid = or_raise (Dict.get state.instruments iid) key_error

  -- The terms of the sums of `book_unrealized_pnl` and `book_notional`.
  abbrev pub unrealized_term : State F → String × Position F → Result F
  unrealized_term state (iid, p) =
      bind (instrument_of state iid)
        (λ i. ok (unrealized_pnl p.qty p.avg_entry_price (mark_of state iid) i))

  abbrev pub notional_term : State F → String × Position F → Result F
  notional_term state (iid, p) =
      bind (instrument_of state iid) (λ i. ok (notional p.qty (mark_of state iid) i))

  unfoldable pub book_unrealized_pnl : State F → Book F → Result F
  book_unrealized_pnl state book = try_sum (unrealized_term state) book.positions

  unfoldable pub book_realized_pnl : Book F → F
  book_realized_pnl book = sum (λ (e : String × Position F). e.1.realized_pnl) book.positions

  unfoldable pub book_funding_pnl : Book F → F
  book_funding_pnl book = sum (λ (e : String × Position F). e.1.funding_pnl) book.positions

  unfoldable pub book_fees_paid : Book F → F
  book_fees_paid book = sum (λ (e : String × Position F). e.1.fees_paid) book.positions

  unfoldable pub book_notional : State F → Book F → Result F
  book_notional state book = try_sum (notional_term state) book.positions

  unfoldable pub book_total_pnl : State F → Book F → Result F
  book_total_pnl state book = bind (book_unrealized_pnl state book) (λ unrealized.
      ok (book_realized_pnl book + book_funding_pnl book - book_fees_paid book + unrealized))

  unfoldable pub book_drawdown : State F → Book F → Result F
  book_drawdown state book =
      bind (book_total_pnl state book)
        (λ total. ok (max n.zero_f (book.high_water_mark_usdt - total)))

  unfoldable pub desk_total_pnl : State F → Result F
  desk_total_pnl state =
      try_sum (λ (e : String × Book F). book_total_pnl state e.1) state.desk.books

  unfoldable pub desk_gross_notional : State F → Result F
  desk_gross_notional state =
      try_sum (λ (e : String × Book F). book_notional state e.1) state.desk.books

  unfoldable pub desk_drawdown : State F → Result F
  desk_drawdown state =
      bind (desk_total_pnl state)
        (λ total. ok (max n.zero_f (state.desk.high_water_mark_usdt - total)))
