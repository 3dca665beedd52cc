-- ===== src/Core/Runner.antt =====
-- hobo/core/strategy_runner.py: the events of the bus on their way to the strategies, and what they
-- want on its way to the gateway. A strategy is a state and its `on_event`, which may raise. `clock`
-- gives the three readings of the clock of an order, by its sequence number.
pub mod Routed
use Prim.Native.Nat.{◌+◌}
use hobo.Prelude.{
  ℕ, String, Bool, true, false, List, [], ◌∷◌, str_eq, not, if◌then◌else◌, Outcome, returned,
  raised,
}
use hobo.Float.{Num}
use hobo.Risk.State.{State}
use hobo.Risk.Gate.{RiskCheck}
use hobo.Log.Event.{LogEvent}
use hobo.Log.Format.{Codec}
use hobo.Core.Event.{
  Event, mark_event, funding_event, fill_event, order_update_event, Action, place_order,
  cancel_order,
}
use hobo.Core.Gateway.{OrderGateway, Intent, place, cancel}

-- `_belongs_to_other_book`
unfoldable pub belongs_to_other_book : {F : Type 0} → Event F → String → Bool
belongs_to_other_book (fill_event e) book_id = not (str_eq e.book_id book_id)
belongs_to_other_book (order_update_event e) book_id = not (str_eq e.book_id book_id)
belongs_to_other_book (mark_event iid price ts_ns) book_id = false
belongs_to_other_book (funding_event iid rate time ts_ns) book_id = false

-- The gateway, which holds the store that the strategies read, and the strategies with their books.
pub record StrategyRunner (F S : Type 0) : Type 0 where
  pub gateway : OrderGateway F
  pub strategies : List (String × S)

module _ {F S : Type 0} where
  -- A strategy that the loop has passed.
  abbrev pub behind : String × S → StrategyRunner F S → StrategyRunner F S
  behind entry runner = record runner { strategies = entry ∷ runner.strategies }

  abbrev pub with_behind :
      String × S → Outcome (StrategyRunner F S) (Unit {0}) → Outcome (StrategyRunner F S) (Unit {0})
  with_behind entry (returned _ runner) = returned tt (behind entry runner)
  with_behind entry (raised e runner) = raised e (behind entry runner)

module _ {F S : Type 0} ⦃n : Num F⦄ (codec : Codec (LogEvent F)) (checks : List (RiskCheck F))
    (clock : ℕ → ℕ × ℕ × ℕ) (on_event : S → Event F → State F → Outcome S (List (Action F))) where
  -- The inner loop of `handle`.
  unfoldable pub run_actions :
      String → List (Action F) → OrderGateway F → Outcome (OrderGateway F) (Unit {0})
  run_actions book_id [] gateway = returned tt gateway
  run_actions book_id (cancel_order order_id ∷ actions) gateway =
      run_actions book_id actions (cancel gateway order_id)
  run_actions book_id (place_order iid side qty order_type ∷ actions) gateway =
      let at = clock (gateway.order_seq + 1) in
      let intent : Intent F = record {
        book_id = book_id;
        instrument_id = iid;
        side = side;
        qty = qty;
        order_type = order_type;
      } in
      elim (place codec checks gateway intent at.0 at.1 at.2) [
        | raised e g ↦ raised e g
        | returned _ g ↦ run_actions book_id actions g
      ]

  -- The outer loop of `handle`.
  unfoldable pub handle_each :
      Event F → List (String × S) → OrderGateway F → Outcome (StrategyRunner F S) (Unit {0})
  handle_each event [] gateway = returned tt (record { gateway = gateway; strategies = [] })
  handle_each event ((book_id, strategy) ∷ rest) gateway =
      let passed = with_behind (book_id, strategy) (handle_each event rest gateway) in
      let own : Outcome (StrategyRunner F S) (Unit {0}) =
        elim (on_event strategy event gateway.store.state) [
          | raised e s ↦ raised e (record { gateway = gateway; strategies = (book_id, s) ∷ rest })
          | returned actions s ↦ elim (run_actions book_id actions gateway) [
            | raised e g ↦ raised e (record { gateway = g; strategies = (book_id, s) ∷ rest })
            | returned _ g ↦ with_behind (book_id, s) (handle_each event rest g)
          ]
        ] in
      if belongs_to_other_book event book_id then passed else own

  unfoldable pub handle : StrategyRunner F S → Event F → Outcome (StrategyRunner F S) (Unit {0})
  handle runner event = handle_each event runner.strategies runner.gateway
