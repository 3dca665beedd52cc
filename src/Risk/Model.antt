-- ===== src/Risk/Model.antt =====
-- hobo/risk/model: instruments, orders, the desk with its books and positions, and the gate's
-- verdict. A dataclass is a record, and `F` stands for Python's `float`.
use hobo.Prelude.{ℕ, String, Bool, false, Option, none, some, [], if◌then◌else◌, str_eq}
use hobo.Prelude.Dict
use hobo.Prelude.Dict.{Dict}
use hobo.Float.{Num, ◌*◌, neg}

-- instrument.py

pub record ContractSpec (F : Type 0) : Type 0 where
  pub instrument_id : String
  pub ct_val : F
  pub ct_val_ccy : String
  pub ct_mult : F
  pub tick_sz : F
  pub lot_sz : F
  pub min_sz : F
  pub max_leverage : F
  pub settle_ccy : String
  pub contract_type : String

-- The fields of the spec, and the risk parameter.
pub record Instrument (F : Type 0) : Type 0 where
  pub spec : ContractSpec F
  pub open spec use *
  pub maintenance_margin_rate : F

module _ {F : Type 0} ⦃n : Num F⦄ where
  abbrev pub multiplier : Instrument F → F
  multiplier i = i.ct_val * i.ct_mult

abbrev pub from_spec : {F : Type 0} → ContractSpec F → F → Instrument F
from_spec spec maintenance_margin_rate = record {
  spec = spec;
  maintenance_margin_rate = maintenance_margin_rate;
}

-- order.py

pub data Side : Type 0 where
  buy sell : Side

-- `Side.value`
abbrev pub value : Side → String
value buy = "BUY"
value sell = "SELL"

pub record Order (F : Type 0) : Type 0 where
  pub order_id : String
  pub book_id : String
  pub instrument_id : String
  pub side : Side
  pub qty : F
  pub ts_ns : ℕ
  pub order_type : String

module _ {F : Type 0} ⦃n : Num F⦄ where
  abbrev pub sign : Side → F
  sign buy = n.one
  sign sell = neg n.one

  abbrev pub signed_qty : Order F → F
  signed_qty o = sign o.side * o.qty

-- portfolio.py

pub data Limit : Type 0 where
  notional drawdown position : Limit

-- `Limit(k)`: the member with that value, or `ValueError`.
abbrev pub limit_of : String → Option Limit
limit_of k =
    if str_eq k "NOTIONAL"
    then some notional
    else if str_eq k "DRAWDOWN"
    then some drawdown
    else if str_eq k "POSITION"
    then some position
    else none

-- A `dict[Limit, float]`: what it holds at each of the three keys.
pub record Limits (F : Type 0) : Type 0 where
  pub notional_limit : Option F
  pub drawdown_limit : Option F
  pub position_limit : Option F

abbrev pub get_limit : {F : Type 0} → Limits F → Limit → Option F
get_limit l notional = l.notional_limit
get_limit l drawdown = l.drawdown_limit
get_limit l position = l.position_limit

abbrev pub set_limit : {F : Type 0} → Limits F → Limit → F → Limits F
set_limit l notional v = record l { notional_limit = some v }
set_limit l drawdown v = record l { drawdown_limit = some v }
set_limit l position v = record l { position_limit = some v }

pub record Position (F : Type 0) : Type 0 where
  pub instrument_id : String
  pub qty : F
  pub avg_entry_price : F
  pub realized_pnl : F
  pub funding_pnl : F
  pub fees_paid : F

module _ {F : Type 0} ⦃n : Num F⦄ where
  -- `Position(instrument_id=...)`
  abbrev pub flat : String → Position F
  flat instrument_id = record {
    instrument_id = instrument_id;
    qty = n.zero_f;
    avg_entry_price = n.zero_f;
    realized_pnl = n.zero_f;
    funding_pnl = n.zero_f;
    fees_paid = n.zero_f;
  }

pub record Book (F : Type 0) : Type 0 where
  pub book_id : String
  pub limits : Limits F
  pub positions : Dict (Position F)
  pub high_water_mark_usdt : F
  pub kill_switch : Bool

pub record Desk (F : Type 0) : Type 0 where
  pub desk_id : String
  pub limits : Limits F
  pub books : Dict (Book F)
  pub high_water_mark_usdt : F
  pub kill_switch : Bool
  pub kill_switch_reason : String

module _ {F : Type 0} ⦃n : Num F⦄ where
  -- `Book.position`: the position that is held, or a flat one that is not stored.
  abbrev pub position_in : Book F → String → Position F
  position_in book iid = elim (Dict.get book.positions iid) [ none ↦ flat iid | some p ↦ p ]

  -- `Book.get_or_create`: the book with the position stored, and the position.
  abbrev pub get_or_create : Book F → String → Book F × Position F
  get_or_create book iid = elim (Dict.get book.positions iid) [
    | none ↦ (record book { positions = Dict.set book.positions iid (flat iid) }, flat iid)
    | some p ↦ (book, p)
  ]

  abbrev pub new_book : String → Limits F → Book F
  new_book book_id limits = record {
    book_id = book_id;
    limits = limits;
    positions = [];
    high_water_mark_usdt = n.zero_f;
    kill_switch = false;
  }

-- decision.py

pub data RejectReason : Type 0 where
  accepted kill_switch fat_finger book_position_limit book_notional_limit : RejectReason
  book_drawdown_limit desk_gross_notional_limit desk_drawdown_limit : RejectReason

-- A value in the `detail` of a verdict.
pub data Value (F : Type 0) : Type 0 where
  text : String → Value F
  number : F → Value F

pub record GateDecision (F : Type 0) : Type 0 where
  pub order_id : String
  pub approved : Bool
  pub reason : RejectReason
  pub detail : Dict (Value F)
