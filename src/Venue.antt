-- ===== src/Venue.antt =====
-- hobo/adapters/okx/execution.py: orders on their way to the venue and back. `sent` lists the
-- messages that the private client is given. `str` of a number and `float` of a text are parameters.
pub mod Attributed
pub mod Socket
pub mod Parsing
pub mod Feed
pub mod Rest
pub mod SocketTests
pub mod RestTests
use Prim.Native.Nat.{ℕ, zero, suc, ◌+◌, ◌-◌}
use Prim.Native.String.{◌++◌ as ◌^◌, count}
use hobo.Prelude.{
  Result, ok, bind, ◌>>=◌, or_raise, key_error, String, Option, none, some, List, [], ◌∷◌, ◌++◌,
  str_eq, if◌then◌else◌,
}
use hobo.Prelude.Dict
use hobo.Prelude.Dict.{Dict}
use hobo.Float.{Num, ◌<?◌, neg}
use hobo.Risk.Model.{Side, buy, sell, Order, value}
use hobo.Execution.{FillData, OrderUpdate}
use hobo.Prelude.Decimal.{decimal}

-- A message of the private client.
pub data Request : Type 0 where
  place_order cancel_order : Dict String → Request

pub record OkxExecutionClient (F : Type 0) : Type 0 where
  pub td_mode : String
  pub inst_id_codes : Dict String
  pub orders_by_clordid : Dict (Order F)
  pub clordid_by_order_id : Dict String
  pub seq : ℕ
  pub sent : List Request

-- `_instrument_ref`
unfoldable pub instrument_ref : Dict String → String → Dict String
instrument_ref codes instrument_id = elim (Dict.get codes instrument_id) [
  | none ↦ ("instId", instrument_id) ∷ []
  | some inst_id_code ↦ ("instId", instrument_id) ∷ ("instIdCode", inst_id_code) ∷ []
]

-- `f"{seq:010d}"`
unfoldable pub zeros : ℕ → String
zeros zero = ""
zeros (suc k) = "0" ^ zeros k

unfoldable pub padded : ℕ → String
padded seq = zeros (10 - count (decimal seq)) ^ decimal seq

unfoldable pub cl_ord_id_of : String → ℕ → String
cl_ord_id_of book_id seq = book_id ^ padded seq

-- `side.value.lower()`
abbrev pub wire_side : Side → String
wire_side buy = "buy"
wire_side sell = "sell"

-- The fields of an entry of the orders channel that `_on_order_update` reads, each a text or absent.
-- An absent `clOrdId` is looked up as `None`, which is no key.
pub record Entry : Type 0 where
  pub cl_ord_id : Option String
  pub fill_sz : Option String
  pub fill_px : Option String
  pub fill_fee : Option String
  pub trade_id : Option String
  pub state : Option String

module _ {F : Type 0} ⦃n : Num F⦄ (to_str : F → String) where
  unfoldable pub submit : OkxExecutionClient F → Order F → OkxExecutionClient F
  submit client order =
      let seq = client.seq + 1 in
      let cl_ord_id = cl_ord_id_of order.book_id seq in
      record client {
        seq = seq;
        orders_by_clordid = Dict.set client.orders_by_clordid cl_ord_id order;
        clordid_by_order_id = Dict.set client.clordid_by_order_id order.order_id cl_ord_id;
        sent =
            client.sent
            ++ place_order (
                instrument_ref client.inst_id_codes order.instrument_id
                ++ ("side", wire_side order.side)
                  ∷ ("tdMode", client.td_mode)
                  ∷ ("ordType", "market")
                  ∷ ("sz", to_str order.qty)
                  ∷ ("clOrdId", cl_ord_id)
                  ∷ [])
              ∷ [];
      }

  -- An order that the client does not know is not cancelled.
  unfoldable pub cancel : OkxExecutionClient F → String → Result (OkxExecutionClient F)
  cancel client order_id = elim (Dict.get client.clordid_by_order_id order_id) [
    | none ↦ ok client
    | some cl_ord_id ↦
        bind (or_raise (Dict.get client.orders_by_clordid cl_ord_id) key_error) (λ order.
          ok (record client {
            sent =
                client.sent
                ++ cancel_order (
                    instrument_ref client.inst_id_codes order.instrument_id
                    ++ ("clOrdId", cl_ord_id) ∷ [])
                  ∷ [];
          }))
  ]

-- `to_float` is `float` on a text, which may raise.
module _ {F : Type 0} ⦃n : Num F⦄ (to_float : String → Result F) where
  -- `float(entry.get(...) or 0)`
  abbrev pub float_or_zero : Option String → Result F
  float_or_zero none = ok n.zero_f
  float_or_zero (some s) = if str_eq s "" then ok n.zero_f else to_float s

  -- `entry.get("tradeId", "")`
  abbrev pub trade_id_of : Entry → String
  trade_id_of entry = elim entry.trade_id [ none ↦ "" | some id ↦ id ]

  -- The `FillData` of an entry. An entry without a price raises.
  unfoldable pub fill_of : Order F → Entry → F → Result (FillData F)
  fill_of order entry fill_sz = do
    fill_px ← or_raise entry.fill_px key_error >>= to_float
    fill_fee ← float_or_zero entry.fill_fee
    ok (record {
      order_id = order.order_id;
      book_id = order.book_id;
      instrument_id = order.instrument_id;
      side = value order.side;
      qty = fill_sz;
      fill_price = fill_px;
      fee = neg fill_fee;
      trade_id = trade_id_of entry;
    })

  unfoldable pub fills_in : Order F → Entry → F → Result (List (FillData F))
  fills_in order entry fill_sz =
      if n.zero_f <? fill_sz then bind (fill_of order entry fill_sz) (λ f. ok (f ∷ [])) else ok []

  abbrev pub canceled_order : Order F → OrderUpdate
  canceled_order order = record {
    order_id = order.order_id;
    book_id = order.book_id;
    state = "CANCELED";
    reason = "";
  }

  abbrev pub updates_in : Order F → Entry → List OrderUpdate
  updates_in order entry = elim entry.state [
    | none ↦ []
    | some state ↦ if str_eq state "canceled" then canceled_order order ∷ [] else []
  ]

  abbrev pub find_order : OkxExecutionClient F → Option String → Option (Order F)
  find_order client none = none
  find_order client (some cl_ord_id) = Dict.get client.orders_by_clordid cl_ord_id

  -- `_on_order_update`: the fills and the order updates that are emitted. Where it raises, it has
  -- emitted nothing.
  unfoldable pub on_order_update :
      OkxExecutionClient F → Entry → Result (List (FillData F) × List OrderUpdate)
  on_order_update client entry = elim (find_order client entry.cl_ord_id) [
    | none ↦ ok ([], [])
    | some order ↦ do
      fill_sz ← float_or_zero entry.fill_sz
      fills ← fills_in order entry fill_sz
      ok (fills, updates_in order entry)
  ]
