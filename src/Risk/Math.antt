-- ===== src/Risk/Math.antt =====
-- hobo/risk/math.py
pub mod Signs
pub mod Fill
use hobo.Prelude.{
  ◌≡◌, refl, Bool, true, false, not, ◌||◌, Option, none, some, Result, ok, err, zero_division_error,
  if◌then◌else◌,
}
use hobo.Float.{Num, ◌+◌, ◌-◌, ◌*◌, ◌/◌, ◌<?◌, ◌==◌, abs, min, neg}
use hobo.Risk.Model.{Instrument, multiplier}

-- `a == b` on two booleans.
abbrev pub same : Bool → Bool → Bool
same true b = b
same false b = not b

-- What `simulate_fill` returns.
pub record FillEffect (F : Type 0) : Type 0 where
  pub new_qty : F
  pub new_entry_price : F
  pub realized_delta : F

module _ {F : Type 0} ⦃n : Num F⦄ where
  unfoldable pub notional : F → F → Instrument F → F
  notional qty mark instrument = abs qty * multiplier instrument * mark

  unfoldable pub unrealized_pnl : F → F → F → Instrument F → F
  unrealized_pnl qty entry_price mark instrument =
      qty * multiplier instrument * (mark - entry_price)

  -- `ok none` is the result `None`. The division by `max_leverage` raises if that is zero.
  unfoldable pub liquidation_price : F → F → Instrument F → Result (Option F)
  liquidation_price qty entry_price i =
      if qty == n.zero_f
      then ok none
      else let c = multiplier i in
        let r = i.maintenance_margin_rate in
        if i.max_leverage == n.zero_f
        then err zero_division_error
        else let position_margin = abs qty * c * entry_price / i.max_leverage in
          let denom = c * (qty - abs qty * r) in
          if denom == n.zero_f
          then ok none
          else ok (some ((qty * c * entry_price - position_margin) / denom))

  unfoldable pub liquidation_distance_pct : F → Option F → Option F
  liquidation_distance_pct mark none = none
  liquidation_distance_pct mark (some liq_price) =
      if mark == n.zero_f then none else some (abs (mark - liq_price) / mark)

  abbrev pub same_direction : F → F → Bool
  same_direction qty_before delta =
      qty_before == n.zero_f || same (n.zero_f <? qty_before) (n.zero_f <? delta)

  -- The fill adds to the position, or opens it.
  unfoldable pub add_fill : F → F → F → F → FillEffect F
  add_fill qty_before entry_before delta fill_price =
      let new_qty = qty_before + delta in
      record {
        new_qty = new_qty;
        new_entry_price =
            if new_qty == n.zero_f
            then entry_before
            else (abs qty_before * entry_before + abs delta * fill_price) / abs new_qty;
        realized_delta = n.zero_f;
      }

  -- The fill reduces, closes or flips the position.
  unfoldable pub reduce_fill : F → F → F → F → Instrument F → FillEffect F
  reduce_fill qty_before entry_before delta fill_price instrument =
      let new_qty = qty_before + delta in
      let closed_amount = min (abs delta) (abs qty_before) in
      let closed_signed = (if n.zero_f <? qty_before then n.one else neg n.one) * closed_amount in
      record {
        new_qty = new_qty;
        new_entry_price =
            if abs qty_before <? abs delta
            then fill_price
            else if new_qty == n.zero_f
            then n.zero_f
            else entry_before;
        realized_delta = unrealized_pnl closed_signed entry_before fill_price instrument;
      }

  unfoldable pub simulate_fill : F → F → F → F → Instrument F → FillEffect F
  simulate_fill qty_before entry_before delta fill_price instrument =
      if same_direction qty_before delta
      then add_fill qty_before entry_before delta fill_price
      else reduce_fill qty_before entry_before delta fill_price instrument
