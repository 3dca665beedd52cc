-- ===== src/Venue/RestTests.antt =====
-- Answers of the venue's REST client (hobo/adapters/okx/account.py and reference.py), read.
use hobo.Prelude.{String, ◌≡◌, refl, [], ◌∷◌, ok, err, reference_data_error}
use hobo.Prelude.Dict
use hobo.Prelude.Data
use hobo.Prelude.Data.{
  Data, int, float, text, array, object, cons, nil, field, end, find, item, text_of, float_of,
  int_of,
}
use hobo.Float.Int.{◌+ℤ◌, neg_ℤ, int_num, ℤ, pos, negsuc}
use hobo.Venue.Rest.{
  upper, rows_of, matching, parse_contract_spec, sum_positions, account_positions, fill_of_row,
  fills_of, account_fills,
}
use hobo.Venue.SocketTests.{reader}

-- An answer with these rows.
abbrev answer : Data ℤ → Data ℤ → Data ℤ
answer a b = object (field "data" (array (cons a (cons b nil))) end)

abbrev held : String → Data ℤ → Data ℤ
held iid size = object (field "instId" (text iid) (field "pos" size end))

positions_add :
    account_positions reader (answer (held "SWAP" (float (pos 3))) (held "SWAP" (float (negsuc 0))))
    ≡ ok (("SWAP", pos 2) ∷ [])
unfolding account_positions sum_positions rows_of item find Data.get text_of float_of Dict.get
    Dict.set ◌+ℤ◌
positions_add = refl

positions_skip :
    account_positions reader (answer (held "SWAP" (text "")) (held "SPOT" (float (pos 1))))
    ≡ ok (("SPOT", pos 1) ∷ [])
unfolding account_positions sum_positions rows_of item find Data.get text_of float_of Dict.get
    Dict.set ◌+ℤ◌
positions_skip = refl

abbrev row : Data ℤ
row = object (
    field "instId" (text "SWAP") (
      field "side" (text "buy") (
        field "fillSz" (float (pos 3)) (
          field "fillPx" (float (pos 110))
            (field "fee" (float (negsuc 1)) (field "ts" (int 7) end))))))

fills_read :
    account_fills reader (answer row (object end))
    ≡ ok (
        record {
          trade_id = "";
          client_order_id = "";
          instrument_id = "SWAP";
          side = "BUY";
          qty = pos 3;
          price = pos 110;
          fee = pos 2;
          ts_ns = 7000000;
          cursor = "";
        }
        ∷ [])
unfolding account_fills fills_of fill_of_row rows_of upper item find Data.get text_of float_of
    int_of neg_ℤ
fills_read = refl

unknown_instrument : parse_contract_spec reader (answer row row) "SPOT" ≡ err reference_data_error
unfolding parse_contract_spec matching rows_of find Data.get
unknown_instrument = refl
