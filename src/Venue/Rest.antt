-- ===== src/Venue/Rest.antt =====
-- hobo/adapters/okx/reference.py, account.py and the mark of market_data.py: what the venue's REST
-- client answers, as the engine's data. The answers are arguments.
use Prim.Native.Char.{Char, code}
use Prim.Native.Nat.{◌*◌, ◌-◌}
use hobo.Prelude.{
  ℕ, zero, suc, String, Bool, true, false, Option, none, some, List, [], ◌∷◌, leb, ◌&&◌, str_eq,
  if◌then◌else◌, Result, ok, err, key_error, value_error, type_error, attribute_error,
  reference_data_error, market_data_error, ◌>>=◌,
}
use hobo.Prelude.Dict
use hobo.Prelude.Dict.{Dict}
use hobo.Prelude.Data
use hobo.Prelude.Data.{
  Data, null, int, float, text, array, object, Items, nil, cons, end, item, text_of,
}
use hobo.Float.{Num, ◌+◌ as ◌⊹◌, neg}
use hobo.Risk.Model.{ContractSpec}
use hobo.Core.Reconciler.{ExchangeFill}
use hobo.Venue.Parsing.{Reader, first, is_text, is_false, or_default, milliseconds}

-- `except (KeyError, ValueError)`
abbrev pub malformed {ℓ} : {A : Type ℓ} → Result A → Result A → Result A
malformed failure (err key_error) = failure
malformed failure (err value_error) = failure
malformed failure r = r

-- `s.upper()`, of ASCII.
abbrev char_at : String → ℕ → Char → Char
char_at String.[] k default = default
char_at (String.◌∷◌ c s) zero default = c
char_at (String.◌∷◌ c s) (suc k) default = char_at s k default

unfoldable pub upper : String → String
upper String.[] = ""
upper (String.◌∷◌ c s) =
    let rest = upper s in
    if leb 97 (code c) && leb (code c) 122
    then String.◌∷◌ (char_at "ABCDEFGHIJKLMNOPQRSTUVWXYZ" (code c - 97) c) rest
    else String.◌∷◌ c rest

module _ {F : Type 0} where
  -- The loops over the rows: a text and a dict have elements without `get`, a number has none.
  unfoldable pub rows_of : Data F → Result (Items F)
  rows_of (array items) = ok items
  rows_of (text String.[]) = ok nil
  rows_of (text s) = err attribute_error
  rows_of (object end) = ok nil
  rows_of (object fields) = err attribute_error
  rows_of _ = err type_error

  -- `next((e for e in rows if e.get("instId") == instrument_id), None)`
  unfoldable pub matching : Items F → String → Result (Option (Data F))
  matching nil instrument_id = ok none
  matching (cons e es) instrument_id = do
    named ← Data.get e "instId"
    if is_text named instrument_id then ok (some e) else matching es instrument_id

  -- `row.get(k, default)`
  abbrev pub text_or : Data F → String → String → Result String
  text_or row k default = Data.get row k >>= λ v. elim v [ none ↦ ok default | some d ↦ text_of d ]

module _ {F : Type 0} ⦃n : Num F⦄ (reader : Reader F) where
  -- `response.get("data") or []`
  abbrev pub data_rows : Data F → Result (Items F)
  data_rows response = Data.get response "data" >>= λ d. rows_of (or_default d (array nil))

  -- The spec of an entry, in the `try`.
  unfoldable pub spec_of_entry : Data F → Result (ContractSpec F)
  spec_of_entry e = do
    instrument_id ← item e "instId" >>= text_of
    ct_val ← item e "ctVal" >>= reader.float_from
    ct_val_ccy ← item e "ctValCcy" >>= text_of
    ct_mult ← item e "ctMult" >>= reader.float_from
    tick_sz ← item e "tickSz" >>= reader.float_from
    lot_sz ← item e "lotSz" >>= reader.float_from
    min_sz ← item e "minSz" >>= reader.float_from
    max_leverage ← item e "lever" >>= reader.float_from
    settle_ccy ← item e "settleCcy" >>= text_of
    contract_type ← text_or e "ctType" "linear"
    ok (record {
      instrument_id = instrument_id;
      ct_val = ct_val;
      ct_val_ccy = ct_val_ccy;
      ct_mult = ct_mult;
      tick_sz = tick_sz;
      lot_sz = lot_sz;
      min_sz = min_sz;
      max_leverage = max_leverage;
      settle_ccy = settle_ccy;
      contract_type = contract_type;
    })

  unfoldable pub parse_contract_spec : Data F → String → Result (ContractSpec F)
  parse_contract_spec response instrument_id = do
    rows ← data_rows response
    found ← matching rows instrument_id
    elim found [
      | none ↦ err reference_data_error
      | some e ↦ malformed (err reference_data_error) (spec_of_entry e)
    ]

  unfoldable pub mark_of_entry : Data F → Result (F × ℕ)
  mark_of_entry e = do
    mark_price ← item e "markPx" >>= reader.float_from
    ts_ns ← milliseconds reader e "ts"
    ok (mark_price, ts_ns)

  unfoldable pub parse_mark_price : Data F → String → Result (F × ℕ)
  parse_mark_price response instrument_id = do
    rows ← data_rows response
    found ← matching rows instrument_id
    elim found [
      | none ↦ err market_data_error
      | some e ↦ malformed (err market_data_error) (mark_of_entry e)
    ]

  -- `row.get("pos") not in (None, "")`
  abbrev pub has_position : Option (Data F) → Bool
  has_position none = false
  has_position (some null) = false
  has_position (some (text s)) = if str_eq s "" then false else true
  has_position (some v) = true

  -- The loop of `OkxAccountData.positions`, from the positions so far.
  unfoldable pub sum_positions : Dict F → Items F → Result (Dict F)
  sum_positions positions nil = ok positions
  sum_positions positions (cons row rows) = do
    pos ← Data.get row "pos"
    let added = do
      instrument_id ← item row "instId" >>= text_of
      qty ← item row "pos" >>= reader.float_from
      let before : F = elim (Dict.get positions instrument_id) [ none ↦ n.zero_f | some q ↦ q ]
      sum_positions (Dict.set positions instrument_id (before ⊹ qty)) rows
    let passed = sum_positions positions rows
    if has_position pos then added else passed

  -- `response.get("data", [])`
  abbrev pub rows_or_none : Data F → Result (Items F)
  rows_or_none response =
      Data.get response "data" >>= λ d. elim d [ none ↦ ok nil | some v ↦ rows_of v ]

  unfoldable pub account_positions : Data F → Result (Dict F)
  account_positions response = rows_or_none response >>= sum_positions []

  -- `v or 0` of a row's field.
  abbrev pub field_or_zero {ℓ} : {A : Type ℓ} → (Data F → Result A) → A → Data F → String → Result A
  field_or_zero read default row k = do
    v ← Data.get row k
    elim v [ none ↦ ok default | some d ↦ if is_false d then ok default else read d ]

  -- `OkxAccountData.balance`: the total equity of the first row.
  unfoldable pub account_balance : Data F → Result F
  account_balance response = do
    d ← Data.get response "data"
    row ← first (or_default d (array (cons (object end) nil)))
    field_or_zero reader.float_from n.zero_f row "totalEq"

  unfoldable pub fill_of_row : Data F → Result (ExchangeFill F)
  fill_of_row row = do
    trade_id ← text_or row "tradeId" ""
    client_order_id ← text_or row "clOrdId" ""
    instrument_id ← item row "instId" >>= text_of
    side ← item row "side" >>= text_of
    qty ← item row "fillSz" >>= reader.float_from
    price ← item row "fillPx" >>= reader.float_from
    fee ← field_or_zero reader.float_from n.zero_f row "fee"
    ms ← field_or_zero reader.int_from 0 row "ts"
    cursor ← text_or row "billId" ""
    ok (record {
      trade_id = trade_id;
      client_order_id = client_order_id;
      instrument_id = instrument_id;
      side = upper side;
      qty = qty;
      price = price;
      fee = neg fee;
      ts_ns = ms * 1000000;
      cursor = cursor;
    })

  -- The loop of `OkxAccountData.fills`: a row without a size is no fill.
  unfoldable pub fills_of : Items F → Result (List (ExchangeFill F))
  fills_of nil = ok []
  fills_of (cons row rows) = do
    size ← Data.get row "fillSz"
    let own = fill_of_row row >>= λ f. fills_of rows >>= λ fs. ok (f ∷ fs)
    let passed = fills_of rows
    if is_false (or_default size null) then passed else own

  unfoldable pub account_fills : Data F → Result (List (ExchangeFill F))
  account_fills response = rows_or_none response >>= fills_of
