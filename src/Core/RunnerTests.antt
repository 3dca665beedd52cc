-- ===== src/Core/RunnerTests.antt =====
-- The runner of hobo/core/strategy_runner.py with the oscillator, at a concrete desk.
use hobo.Prelude.{ℕ, List, [], ◌∷◌, Outcome, returned, after}
use hobo.Float.Int.{int_num, ℤ, pos}
use hobo.Risk.State.{State}
use hobo.Risk.Gate.{default_checks}
use hobo.Core.Event.{Event, Action, mark_event}
use hobo.Core.Runner.{StrategyRunner, handle}
use hobo.Core.Runner.Routed.{Routed, Adds, handle-Routed}
use hobo.Core.Tests.{gateway}
use hobo.Recovery.Tests.{marks_only}
use hobo.Strategies.{OscillatorStrategy, on_event}

abbrev oscillator : OscillatorStrategy ℤ
oscillator = record {
  instrument_ids = "SWAP" ∷ [];
  interval_ticks = 1;
  order_qty = pos 1;
  position_band = pos 3;
  position = [];
  ticks = [];
  last_side = [];
}

abbrev runner : StrategyRunner ℤ (OscillatorStrategy ℤ)
runner = record { gateway = gateway; strategies = ("ALPHA", oscillator) ∷ [] }

abbrev strategy_step :
    OscillatorStrategy ℤ → Event ℤ → State ℤ → Outcome (OscillatorStrategy ℤ) (List (Action ℤ))
strategy_step s event state = returned (on_event s event).0 (on_event s event).1

abbrev clock : ℕ → ℕ × ℕ × ℕ
clock k = (7, 8, 9)

abbrev mark : Event ℤ
mark = mark_event "SWAP" (pos 110) 7

handle-Routed_example :
    Adds
      (Routed (default_checks (pos 5)) mark runner.strategies)
      gateway
      (after (handle marks_only (default_checks (pos 5)) clock strategy_step runner mark)).gateway
handle-Routed_example =
    handle-Routed marks_only (default_checks (pos 5)) clock strategy_step runner mark
