-- ===== src/Core/Tests.antt =====
-- The theorems on the gateway, the health and the ingestor of hobo/core at concrete inputs.
use hobo.Prelude.{◌≤◌, ◌≡◌, ◌⊎◌, refl, true, false, none, some, [], ◌∷◌, after, returned}
use hobo.Prelude.Dict
use hobo.Float.{◌-◌, ◌≤?◌, sum_from, try_sum_from}
use hobo.Float.Int.{◌+ℤ◌, ◌-ℤ◌, ◌*ℤ◌, neg_ℤ, int_num, ℤ, pos}
use hobo.Risk.Model.{sell}
use hobo.Risk.Math.{unrealized_pnl}
use hobo.Risk.State.{
  book_unrealized_pnl, book_realized_pnl, book_funding_pnl, book_fees_paid, book_total_pnl,
  desk_total_pnl,
}
use hobo.Risk.Fold.{
  apply_event, handle, apply_mark, apply_kill_switch, update_high_water_marks, raise_book_marks,
  raise_desk_mark,
}
use hobo.Risk.Fold.Switch.{apply_event-keeps_switch}
use hobo.Risk.Gate.{default_checks}
use hobo.Risk.Tests.{desk_state}
use hobo.Log.Event.{Envelope, LogEvent, fill}
use hobo.Log.Format.{encode_frame}
use hobo.Log.Writer.{append}
use hobo.Core.Event.{FillEvent}
use hobo.Core.Store.{StateStore, record_event}
use hobo.Core.Gateway.{OrderGateway, Intent, place}
use hobo.Core.Gateway.Submits.{Held, Submission, place-submits}
use hobo.Core.Health.{
  StalenessWatchdog, FeedHealthMonitor, new_monitor, toggle, check_age, check_feed,
}
use hobo.Core.Health.Closed.{Runs, stale_stops_desk, check_feed-stops}
use hobo.Core.Ingestor.{new_ingestor, seed_from_log, submit_all}
use hobo.Core.Ingestor.Once.{times, published_at_most_once, logged_never_published}
use hobo.Recovery.{replay_tail}
use hobo.Recovery.Tests.{mark_at, marks_only, fresh_writer, unfolded_desk, snapshot}

abbrev store : StateStore ℤ
store = record { state = desk_state; writer = fresh_writer }

abbrev pub gateway : OrderGateway ℤ
gateway = record { store = store; order_seq = 0; submitted = []; cancelled = [] }

abbrev selling : Intent ℤ
selling = record {
  book_id = "ALPHA";
  instrument_id = "SWAP";
  side = sell;
  qty = pos 3;
  order_type = "MARKET";
}

place-submits_example :
    ((after (place marks_only (default_checks (pos 5)) gateway selling 7 8 9)).submitted ≡ [])
      × Held marks_only (default_checks (pos 5)) gateway selling 7 8 9
    ⊎ Submission marks_only
        (default_checks (pos 5))
        gateway
        selling
        7
        8
        9
        (after (place marks_only (default_checks (pos 5)) gateway selling 7 8 9))
place-submits_example = place-submits marks_only (default_checks (pos 5)) gateway selling 7 8 9

-- The last message is ten seconds ago, and the threshold is five.
abbrev watchdog : StalenessWatchdog ℤ
watchdog = record { threshold_s = pos 5; last_seen = some (pos 0); stale = false }

abbrev monitor : FeedHealthMonitor ℤ
monitor = new_monitor store watchdog "DESK"

abbrev tripped : FeedHealthMonitor ℤ
tripped = after (check_feed marks_only monitor (pos 10) 3)

check_trips : check_feed marks_only monitor (pos 10) 3 ≡ returned tt tripped
unfolding check_feed check_age new_monitor toggle record_event append encode_frame apply_event
    handle apply_kill_switch ◌-ℤ◌
check_trips = refl

last_is : monitor.watchdog.last_seen ≡ some (pos 0)
unfolding new_monitor
last_is = refl

silent : (monitor.watchdog.threshold_s ≤? pos 10 - pos 0) ≡ true
unfolding new_monitor ◌-ℤ◌
silent = refl

check_feed-stops_example : tripped.store.state.desk.kill_switch ≡ true
check_feed-stops_example =
    check_feed-stops marks_only store watchdog "DESK" monitor tripped (pos 0) (pos 10) 3 refl
      Runs.done last_is silent check_trips

trip_stale : tripped.watchdog.stale ≡ true
unfolding check_feed check_age new_monitor toggle record_event append encode_frame apply_event
    handle apply_kill_switch ◌-ℤ◌
trip_stale = refl

stale_stops_desk_example : tripped.store.state.desk.kill_switch ≡ true
stale_stops_desk_example =
    stale_stops_desk marks_only store watchdog "DESK" tripped refl
      (Runs.checked (pos 10) 3 check_trips Runs.done) trip_stale

abbrev trade : FillEvent ℤ
trade = record {
  order_id = "ALPHA1";
  book_id = "ALPHA";
  instrument_id = "SWAP";
  side = "SELL";
  qty = pos 1;
  fill_price = pos 110;
  fee = pos 0;
  trade_id = "T1";
}

published_at_most_once_example :
    times "T1" (submit_all (seed_from_log new_ingestor []) (trade ∷ trade ∷ [])).published ≤ 1
published_at_most_once_example = published_at_most_once [] (trade ∷ trade ∷ []) "T1" refl

abbrev logged_trade : Envelope (LogEvent ℤ)
logged_trade = record {
  seq = 1;
  ts_ns = 5;
  event = fill (record {
    order_id = "ALPHA1";
    book_id = "ALPHA";
    instrument_id = "SWAP";
    side = "SELL";
    qty = pos 1;
    fill_price = pos 110;
    fee = none;
    trade_id = some "T1";
  });
}

logged_never_published_example :
    times "T1" (submit_all (seed_from_log new_ingestor (logged_trade ∷ [])) (trade ∷ [])).published
    ≡ 0
logged_never_published_example =
    logged_never_published (logged_trade ∷ []) (trade ∷ []) "T1" refl refl

mark_folds : apply_event unfolded_desk (mark_at 1) ≡ returned tt snapshot
unfolding replay_tail apply_event handle apply_mark update_high_water_marks raise_book_marks
    raise_desk_mark desk_total_pnl book_total_pnl book_unrealized_pnl book_realized_pnl
    book_funding_pnl book_fees_paid sum_from try_sum_from ◌+ℤ◌ ◌-ℤ◌ ◌*ℤ◌ neg_ℤ unrealized_pnl
    Dict.get Dict.set
mark_folds = refl

apply_event-keeps_switch_example : snapshot.desk.kill_switch ≡ false
apply_event-keeps_switch_example =
    apply_event-keeps_switch unfolded_desk snapshot (mark_at 1) refl mark_folds
