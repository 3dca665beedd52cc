-- ===== src/Strategies.antt =====
-- hobo/strategies/oscillator.py.
pub mod Band
pub mod Inventory
use Prim.Native.Nat.{◌+◌, ◌%◌}
use hobo.Prelude.{
  ℕ, zero, String, Bool, true, false, Option, none, some, List, [], ◌∷◌, ◌++◌, map, str_eq, ◌==◌,
  if◌then◌else◌, not,
}
use hobo.Prelude.Dict
use hobo.Prelude.Dict.{Dict}
use hobo.Float.{Num, ◌+◌ as ◌⊹◌, ◌≤?◌, neg}
use hobo.Risk.Model.{Side, buy, sell}
use hobo.Core.Event.{
  Event, mark_event, funding_event, fill_event, order_update_event, Action, place_order,
  cancel_order,
}
use hobo.Core.Ingestor.{member}

-- oscillator.py. `%` raises where `interval_ticks` is zero; the configuration has it positive.
pub record OscillatorStrategy (F : Type 0) : Type 0 where
  pub instrument_ids : List String
  pub interval_ticks : ℕ
  pub order_qty : F
  pub position_band : F
  pub position : Dict F
  pub ticks : Dict ℕ
  pub last_side : Dict Side

abbrev pub ticks_of : Dict ℕ → String → ℕ
ticks_of ticks iid = elim (Dict.get ticks iid) [ none ↦ 0 | some t ↦ t ]

-- A buy where the last side was a sell, or there was none.
abbrev pub flip : Option Side → Side
flip none = buy
flip (some sell) = buy
flip (some buy) = sell

module _ {F : Type 0} ⦃n : Num F⦄ where
  abbrev pub position_of : Dict F → String → F
  position_of position iid = elim (Dict.get position iid) [ none ↦ n.zero_f | some p ↦ p ]

  unfoldable pub side_for : OscillatorStrategy F → String → Side
  side_for s iid =
      let pos = position_of s.position iid in
      if s.position_band ≤? pos
      then sell
      else if pos ≤? neg s.position_band
      then buy
      else flip (Dict.get s.last_side iid)

  -- A mark of an instrument that the strategy trades: an order every `interval_ticks` ticks.
  unfoldable pub on_mark : OscillatorStrategy F → String → List (Action F) × OscillatorStrategy F
  on_mark s iid =
      let count = ticks_of s.ticks iid + 1 in
      let ticked = record s { ticks = Dict.set s.ticks iid count } in
      let side = side_for s iid in
      if count % s.interval_ticks == 0
      then (
        place_order iid side s.order_qty "MARKET" ∷ [],
        record ticked { last_side = Dict.set s.last_side iid side },
      )
      else ([], ticked)

  unfoldable pub on_event : OscillatorStrategy F → Event F → List (Action F) × OscillatorStrategy F
  on_event s (fill_event e) =
      let signed = if str_eq e.side "BUY" then e.qty else neg e.qty in
      (
        [],
        record s {
          position =
              Dict.set s.position e.instrument_id (position_of s.position e.instrument_id ⊹ signed);
        },
      )
  on_event s (mark_event iid price ts_ns) =
      if member iid s.instrument_ids then on_mark s iid else ([], s)
  on_event s (funding_event iid rate time ts_ns) = ([], s)
  on_event s (order_update_event e) = ([], s)
