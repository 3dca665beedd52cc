-- ===== src/Tests.antt =====
-- The strategies and the venue's client at concrete inputs.
use hobo.Prelude.{
  String, ◌≡◌, ◌≢◌, ◌⊎◌, refl, none, some, [], ◌∷◌, str_eq, if◌then◌else◌, Result, ok, err,
  key_error, value_error,
}
use hobo.Prelude.Dict
use hobo.Float.Int.{◌+ℤ◌, neg_ℤ, int_num, ℤ, ℤ-IsExact, pos}
use hobo.Risk.Model.{sell}
use hobo.Risk.Tests.{sell_three}
use hobo.Core.Reconciler.{attribute, first_owner, longest_first, insert_longest, all_digits}
use hobo.Prelude.Decimal.{decimal, decimal_from}
use hobo.Strategies.{OscillatorStrategy, position_of, side_for, on_mark, on_event}
use hobo.Strategies.Inventory.{InBand, on_event-InBand}
use hobo.Core.Event.{FillEvent, mark_event, fill_event, place_order}
use hobo.Venue
use hobo.Venue.{
  OkxExecutionClient, Entry, cl_ord_id_of, padded, zeros, fill_of, fills_in, on_order_update,
}
use hobo.Venue.Attributed.{Attributed, on_order_update-submit}

abbrev oscillator : OscillatorStrategy ℤ
oscillator = record {
  instrument_ids = "SWAP" ∷ [];
  interval_ticks = 30;
  order_qty = pos 1;
  position_band = pos 10;
  position = ("SWAP", pos 10) ∷ [];
  ticks = ("SWAP", 29) ∷ [];
  last_side = [];
}

-- The fill of the sale that the mark brings.
abbrev sold : FillEvent ℤ
sold = record {
  order_id = "ALPHA-1";
  book_id = "ALPHA";
  instrument_id = "SWAP";
  side = "SELL";
  qty = pos 1;
  fill_price = pos 110;
  fee = pos 0;
  trade_id = "";
}

sells :
    (on_event oscillator (mark_event "SWAP" (pos 110) 5)).0
    ≡ place_order "SWAP" sell (pos 1) "MARKET" ∷ []
unfolding on_event on_mark side_for Dict.get neg_ℤ
sells = refl

within : InBand (pos 10) (pos 1) (position_of oscillator.position "SWAP")
unfolding Dict.get neg_ℤ ◌+ℤ◌
within = (refl, refl)

on_event-InBand_example : InBand (pos 10) (pos 1) (
    position_of
      (on_event
        (on_event oscillator (mark_event "SWAP" (pos 110) 5)).1
        (fill_event sold)).1.position
      "SWAP")
on_event-InBand_example =
    on_event-InBand ℤ-IsExact oscillator "SWAP" (pos 110) 5
      (place_order "SWAP" sell (pos 1) "MARKET") sold refl refl within sells (refl, refl, refl)

-- The texts of this test's numbers.
abbrev to_str : ℤ → String
to_str z = "3"

abbrev to_float : String → Result ℤ
to_float s = if str_eq s "3" then ok (pos 3) else err value_error

abbrev client : OkxExecutionClient ℤ
client = record {
  td_mode = "isolated";
  inst_id_codes = [];
  orders_by_clordid = [];
  clordid_by_order_id = [];
  seq = 4;
  sent = [];
}

abbrev filled_entry : Entry
filled_entry = record {
  cl_ord_id = some "ALPHA0000000005";
  fill_sz = some "3";
  fill_px = some "3";
  fill_fee = none;
  trade_id = some "T1";
  state = some "filled";
}

-- An entry without a price raises, and so does one with a size that is no number.
raises_on_bad_entry :
    (on_order_update to_float
        (Venue.submit to_str client sell_three)
        (record filled_entry { fill_px = none })
      ≡ err key_error)
    × (on_order_update to_float
          (Venue.submit to_str client sell_three)
          (record filled_entry { fill_sz = some "x" })
        ≡ err value_error)
unfolding Venue.submit on_order_update fills_in fill_of cl_ord_id_of padded zeros decimal
    decimal_from Dict.get Dict.set
raises_on_bad_entry = (refl, refl)

on_order_update-submit_example :
    (filled_entry.cl_ord_id ≡ some (cl_ord_id_of "ALPHA" 5))
      × Attributed to_float sell_three filled_entry
          (on_order_update to_float (Venue.submit to_str client sell_three) filled_entry)
    ⊎ (filled_entry.cl_ord_id ≢ some (cl_ord_id_of "ALPHA" 5))
      × (on_order_update to_float (Venue.submit to_str client sell_three) filled_entry
          ≡ on_order_update to_float client filled_entry)
on_order_update-submit_example =
    on_order_update-submit to_float to_str client sell_three filled_entry

-- Where the name of one book is that of another with a digit behind it, an order of the shorter one
-- may be read as one of the longer: this is the first order of `ALPHA`.
attribute_ambiguous : attribute (cl_ord_id_of "ALPHA" 1) ("ALPHA" ∷ "ALPHA0" ∷ []) ≡ some "ALPHA0"
unfolding attribute first_owner longest_first insert_longest all_digits cl_ord_id_of padded zeros
    decimal decimal_from
attribute_ambiguous = refl
