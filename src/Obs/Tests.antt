-- ===== src/Obs/Tests.antt =====
-- The status of the desk of the tests of hobo/risk, and the paths of the server (hobo/obs/server.py).
use hobo.Prelude.{String, ◌≡◌, refl, map, [], ◌∷◌, ok, ◌>>=◌}
use hobo.Prelude.Dict
use hobo.Float.{sum_from, try_sum_from}
use hobo.Float.Int.{◌+ℤ◌, ◌-ℤ◌, ◌*ℤ◌, neg_ℤ, int_num, ℤ, pos}
use hobo.Risk.Math.{notional, unrealized_pnl}
use hobo.Risk.State.{
  book_unrealized_pnl, book_realized_pnl, book_funding_pnl, book_fees_paid, book_notional,
  book_total_pnl, book_drawdown, desk_total_pnl, desk_gross_notional, desk_drawdown,
}
use hobo.Risk.Tests.{desk_state}
use hobo.Obs.{
  InstrumentStatus, empty_rolls, position_status, roll_positions, book_status, roll_books,
  desk_status, status_payload, do_get, not_found, status,
}

-- The net positions of the instruments.
abbrev net : String × InstrumentStatus ℤ → String × ℤ
net (iid, roll) = (iid, roll.net_position)

shows_net :
    status_payload desk_state >>= (λ s. ok (map net s.instruments)) ≡ ok (("SWAP", pos 2) ∷ [])
unfolding status_payload roll_books roll_positions book_status desk_status empty_rolls
    position_status book_notional notional book_unrealized_pnl unrealized_pnl book_realized_pnl
    book_funding_pnl book_fees_paid book_total_pnl book_drawdown desk_total_pnl desk_gross_notional
    desk_drawdown sum_from try_sum_from ◌+ℤ◌ ◌-ℤ◌ ◌*ℤ◌ neg_ℤ Dict.get Dict.set
shows_net = refl

paths : (do_get "/status" ≡ status) × (do_get "/orders" ≡ not_found)
unfolding do_get
paths = (refl, refl)
