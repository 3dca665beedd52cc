-- ===== src/Risk/Saved.antt =====
-- The conversions of hobo/risk/model and hobo/risk/state.py to and from the dictionaries that a
-- snapshot holds. Python stores a value whatever its type; here a value of another type than the
-- field's raises a TypeError.
pub mod Restored
use hobo.Prelude.{
  String, Bool, Option, none, some, List, [], ◌∷◌, Result, ok, err, type_error, value_error,
  or_raise, ◌>>=◌,
}
use hobo.Prelude.Dict.{Dict}
use hobo.Prelude.Data.{
  Data, int, float, text, boolean, object, Fields, end, field, find, item, get, text_of, float_of,
  int_of, boolean_of, items_of, or_default, only, fields_of, dict_of,
}
use hobo.Float.{Num}
use hobo.Risk.Model.{
  ContractSpec, Instrument, Limit, limit_of, Limits, set_limit, Position, Book, Desk,
}
use hobo.Risk.State.{State}

-- The entry of a limit that is set, in front of the others.
abbrev pub limit_field : {F : Type 0} → String → Option F → Fields F → Fields F
limit_field k none fs = fs
limit_field k (some v) fs = field k (float v) fs

-- The parameters of the two dataclasses that are called with `**d`.
abbrev instrument_fields : List String
instrument_fields =
    "instrument_id" ∷ "ct_val" ∷ "ct_val_ccy" ∷ "ct_mult" ∷ "tick_sz" ∷ "lot_sz" ∷ "min_sz"
    ∷ "max_leverage" ∷ "settle_ccy" ∷ "maintenance_margin_rate" ∷ "contract_type" ∷ []

abbrev position_fields : List String
position_fields =
    "instrument_id" ∷ "qty" ∷ "avg_entry_price" ∷ "realized_pnl" ∷ "funding_pnl" ∷ "fees_paid" ∷ []

abbrev pub no_limits : {F : Type 0} → Limits F
no_limits = record { notional_limit = none; drawdown_limit = none; position_limit = none }

module _ {F : Type 0} where
  -- A required parameter of a dataclass, called with `**d`.
  abbrev argument {ℓ} : {A : Type ℓ} → Fields F → String → (Data F → Result A) → Result A
  argument fs k read = or_raise (find fs k) type_error >>= read

  -- `_limits_to_dict`
  unfoldable pub limits_to_dict : Limits F → Fields F
  limits_to_dict l =
      limit_field "NOTIONAL" l.notional_limit
        (limit_field "DRAWDOWN" l.drawdown_limit (limit_field "POSITION" l.position_limit end))

  -- `_limits_from_dict`, from the limits of the entries before.
  unfoldable pub limits_from : Limits F → Fields F → Result (Limits F)
  limits_from limits end = ok limits
  limits_from limits (field k v fs) = do
    limit ← or_raise (limit_of k) value_error
    x ← float_of v
    limits_from (set_limit limits limit x) fs

  unfoldable pub limits_from_dict : Data F → Result (Limits F)
  unfolding items_of
  limits_from_dict d = items_of d >>= limits_from no_limits

  -- `Position.to_dict`
  unfoldable pub position_to_dict : Position F → Data F
  position_to_dict p = object (
      field "instrument_id" (text p.instrument_id) (
        field "qty" (float p.qty) (
          field "avg_entry_price" (float p.avg_entry_price) (
            field "realized_pnl" (float p.realized_pnl) (
              field "funding_pnl" (float p.funding_pnl)
                (field "fees_paid" (float p.fees_paid) end))))))

  unfoldable pub book_to_dict : Book F → Data F
  unfolding fields_of limits_to_dict
  book_to_dict b = object (
      field "book_id" (text b.book_id) (
        field "limits" (object (limits_to_dict b.limits)) (
          field "positions" (object (fields_of position_to_dict b.positions)) (
            field "high_water_mark_usdt" (float b.high_water_mark_usdt)
              (field "kill_switch" (boolean b.kill_switch) end)))))

  unfoldable pub desk_to_dict : Desk F → Data F
  unfolding fields_of limits_to_dict
  desk_to_dict d = object (
      field "desk_id" (text d.desk_id) (
        field "limits" (object (limits_to_dict d.limits)) (
          field "books" (object (fields_of book_to_dict d.books)) (
            field "high_water_mark_usdt" (float d.high_water_mark_usdt) (
              field "kill_switch" (boolean d.kill_switch)
                (field "kill_switch_reason" (text d.kill_switch_reason) end))))))

  -- `dataclasses.asdict` of an instrument.
  unfoldable pub instrument_to_dict : Instrument F → Data F
  instrument_to_dict i = object (
      field "instrument_id" (text i.instrument_id) (
        field "ct_val" (float i.ct_val) (
          field "ct_val_ccy" (text i.ct_val_ccy) (
            field "ct_mult" (float i.ct_mult) (
              field "tick_sz" (float i.tick_sz) (
                field "lot_sz" (float i.lot_sz) (
                  field "min_sz" (float i.min_sz) (
                    field "max_leverage" (float i.max_leverage) (
                      field "settle_ccy" (text i.settle_ccy) (
                        field "maintenance_margin_rate" (float i.maintenance_margin_rate)
                          (field "contract_type" (text i.contract_type) end)))))))))))

  -- `Instrument(**d)`
  unfoldable pub instrument_from_dict : Data F → Result (Instrument F)
  unfolding items_of text_of float_of
  instrument_from_dict d = do
    fs ← items_of d
    checked ← only instrument_fields fs
    instrument_id ← argument fs "instrument_id" text_of
    ct_val ← argument fs "ct_val" float_of
    ct_val_ccy ← argument fs "ct_val_ccy" text_of
    ct_mult ← argument fs "ct_mult" float_of
    tick_sz ← argument fs "tick_sz" float_of
    lot_sz ← argument fs "lot_sz" float_of
    min_sz ← argument fs "min_sz" float_of
    max_leverage ← argument fs "max_leverage" float_of
    settle_ccy ← argument fs "settle_ccy" text_of
    maintenance_margin_rate ← argument fs "maintenance_margin_rate" float_of
    contract_type ← or_default (find fs "contract_type") text_of "linear"
    ok (record {
      spec = record {
        instrument_id = instrument_id;
        ct_val = ct_val;
        ct_val_ccy = ct_val_ccy;
        ct_mult = ct_mult;
        tick_sz = tick_sz;
        lot_sz = lot_sz;
        min_sz = min_sz;
        max_leverage = max_leverage;
        settle_ccy = settle_ccy;
        contract_type = contract_type;
      };
      maintenance_margin_rate = maintenance_margin_rate;
    })

  -- `State.to_dict`
  unfoldable pub state_to_dict : State F → Data F
  unfolding fields_of
  state_to_dict s = object (
      field "instruments" (object (fields_of instrument_to_dict s.instruments)) (
        field "desk" (desk_to_dict s.desk) (
          field "marks" (object (fields_of float s.marks)) (
            field "mark_ts_ns" (object (fields_of int s.mark_ts_ns)) (
              field "funding_rates" (object (fields_of float s.funding_rates)) (
                field "last_seq" (int s.last_seq)
                  (field "feed_stale" (boolean s.feed_stale) end)))))))

module _ {F : Type 0} ⦃n : Num F⦄ where
  -- `Position.from_dict`
  unfoldable pub position_from_dict : Data F → Result (Position F)
  unfolding items_of text_of float_of
  position_from_dict d = do
    fs ← items_of d
    checked ← only position_fields fs
    instrument_id ← argument fs "instrument_id" text_of
    qty ← or_default (find fs "qty") float_of n.zero_f
    avg_entry_price ← or_default (find fs "avg_entry_price") float_of n.zero_f
    realized_pnl ← or_default (find fs "realized_pnl") float_of n.zero_f
    funding_pnl ← or_default (find fs "funding_pnl") float_of n.zero_f
    fees_paid ← or_default (find fs "fees_paid") float_of n.zero_f
    ok (record {
      instrument_id = instrument_id;
      qty = qty;
      avg_entry_price = avg_entry_price;
      realized_pnl = realized_pnl;
      funding_pnl = funding_pnl;
      fees_paid = fees_paid;
    })

  unfoldable pub book_from_dict : Data F → Result (Book F)
  unfolding item items_of text_of float_of boolean_of dict_of
  book_from_dict d = do
    book_id ← item d "book_id" >>= text_of
    limits ← item d "limits" >>= limits_from_dict
    entries ← item d "positions" >>= items_of
    positions ← dict_of position_from_dict entries
    high_water_mark_usdt ← item d "high_water_mark_usdt" >>= float_of
    kill_switch ← item d "kill_switch" >>= boolean_of
    ok (record {
      book_id = book_id;
      limits = limits;
      positions = positions;
      high_water_mark_usdt = high_water_mark_usdt;
      kill_switch = kill_switch;
    })

  unfoldable pub desk_from_dict : Data F → Result (Desk F)
  unfolding item items_of text_of float_of boolean_of dict_of
  desk_from_dict d = do
    desk_id ← item d "desk_id" >>= text_of
    limits ← item d "limits" >>= limits_from_dict
    entries ← item d "books" >>= items_of
    books ← dict_of book_from_dict entries
    high_water_mark_usdt ← item d "high_water_mark_usdt" >>= float_of
    kill_switch ← item d "kill_switch" >>= boolean_of
    kill_switch_reason ← item d "kill_switch_reason" >>= text_of
    ok (record {
      desk_id = desk_id;
      limits = limits;
      books = books;
      high_water_mark_usdt = high_water_mark_usdt;
      kill_switch = kill_switch;
      kill_switch_reason = kill_switch_reason;
    })

  -- `State.from_dict`: a snapshot without times of the marks has none.
  unfoldable pub state_from_dict : Data F → Result (State F)
  unfolding item get items_of float_of int_of boolean_of dict_of
  state_from_dict d = do
    specs ← item d "instruments" >>= items_of
    instruments ← dict_of instrument_from_dict specs
    desk ← item d "desk" >>= desk_from_dict
    marked ← item d "marks" >>= items_of
    marks ← dict_of float_of marked
    times ← get d "mark_ts_ns"
    timed ← or_default times items_of end
    mark_ts_ns ← dict_of int_of timed
    funded ← item d "funding_rates" >>= items_of
    funding_rates ← dict_of float_of funded
    last_seq ← item d "last_seq" >>= int_of
    feed_stale ← item d "feed_stale" >>= boolean_of
    ok (record {
      instruments = instruments;
      desk = desk;
      marks = marks;
      mark_ts_ns = mark_ts_ns;
      funding_rates = funding_rates;
      last_seq = last_seq;
      feed_stale = feed_stale;
    })
