-- ===== src/Core/Bridge.antt =====
-- hobo/core/order_bridge.py: manual orders from the dashboard. The hop onto the engine's loop is left
-- out; an exception that comes back from it is a failure, as one of the gateway is.
pub mod Guards
use Prim.Native.Nat.{◌+◌, ◌-◌}
use Prim.Native.String.{String, [] as empty, ◌∷◌ as cons}
use Prim.Native.Char.{Char, code}
use hobo.Prelude.{
  ℕ, Bool, true, false, Option, none, some, List, leb, ◌==◌, if◌then◌else◌, ◌&&◌, Outcome, returned,
  raised,
}
use hobo.Prelude.Dict.{Dict}
use hobo.Float.{Num, ◌≤?◌}
use hobo.Risk.Model.{Side, buy, sell, Value}
use hobo.Risk.Gate.{RiskCheck}
use hobo.Log.Event.{LogEvent}
use hobo.Log.Format.{Codec}
use hobo.Core.Gateway.{OrderGateway, Intent, reason_value, place}

-- A character's number after `upper`, of ASCII.
abbrev pub upper_code : Char → ℕ
upper_code c = if leb 97 (code c) && leb (code c) 122 then code c - 32 else code c

-- `s.upper() == t`, for a `t` in upper case.
unfoldable pub is_upper_of : String → String → Bool
is_upper_of empty empty = true
is_upper_of empty (cons d t) = false
is_upper_of (cons c s) empty = false
is_upper_of (cons c s) (cons d t) = (upper_code c == code d) && is_upper_of s t

-- `Side[side.upper()]`, where `none` is the `KeyError`.
unfoldable pub side_named : String → Option Side
side_named side =
    if is_upper_of side "BUY" then some buy else if is_upper_of side "SELL" then some sell else none

pub data Refusal : Type 0 where
  engine_not_running invalid_side qty_not_positive failed : Refusal

-- What the dashboard is answered.
pub data Reply (F : Type 0) : Type 0 where
  refused : Refusal → Reply F
  decided : Bool → String → String → Dict (Value F) → Reply F

module _ {F : Type 0} ⦃n : Num F⦄ (codec : Codec (LogEvent F)) (checks : List (RiskCheck F)) where
  unfoldable pub forward :
      OrderGateway F → String → String → Side → F → ℕ → ℕ → ℕ → OrderGateway F × Reply F
  forward g book_id instrument_id side qty t₀ t₁ t₂ =
      let intent : Intent F = record {
        book_id = book_id;
        instrument_id = instrument_id;
        side = side;
        qty = qty;
        order_type = "MARKET";
      } in
      elim (place codec checks g intent t₀ t₁ t₂) [
        | raised e g' ↦ (g', refused failed)
        | returned d g' ↦ (g', decided d.approved d.order_id (reason_value d.reason) d.detail)
      ]

  -- `OrderBridge.place`; the loop is bound once the engine runs.
  unfoldable pub bridge_place :
      Bool → OrderGateway F → String → String → String → F → ℕ → ℕ → ℕ → OrderGateway F × Reply F
  bridge_place running g book_id instrument_id side qty t₀ t₁ t₂ =
      if running
      then elim (side_named side) [
        | none ↦ (g, refused invalid_side)
        | some s ↦
            if qty ≤? n.zero_f
            then (g, refused qty_not_positive)
            else forward g book_id instrument_id s qty t₀ t₁ t₂
      ]
      else (g, refused engine_not_running)
