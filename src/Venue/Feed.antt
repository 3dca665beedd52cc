-- ===== src/Venue/Feed.antt =====
-- hobo/adapters/okx/market_data.py: the frames of the public connection as events on the bus.
pub mod Entries
pub mod Published
use hobo.Prelude.{String, Option, none, some, List, [], ◌∷◌, Result, ok, err, type_error, ◌>>=◌}
use hobo.Prelude.Dict.{Dict}
use hobo.Prelude.Data.{Data, item, text_of, float_of, int_of}
use hobo.Float.{Num}
use hobo.Core.Event.{Event, mark_event, funding_event}
use hobo.Venue.Socket.{ParsedMessage, dispatch}
use hobo.Venue.Parsing.{Reader, parse_public}

module _ {F : Type 0} where
  -- `parsed.data[k]`
  abbrev pub content_item : ParsedMessage F → String → Result (Data F)
  content_item parsed k = elim parsed.content [ none ↦ err type_error | some d ↦ item d k ]

  -- `_on_mark` and `_on_funding`: the event that is published.
  unfoldable pub on_mark : ParsedMessage F → Result (Event F)
  on_mark parsed = do
    instrument_id ← content_item parsed "instrument_id" >>= text_of
    mark_price ← content_item parsed "mark_price" >>= float_of
    ts_ns ← content_item parsed "ts_ns" >>= int_of
    ok (mark_event instrument_id mark_price ts_ns)

  unfoldable pub on_funding : ParsedMessage F → Result (Event F)
  on_funding parsed = do
    instrument_id ← content_item parsed "instrument_id" >>= text_of
    funding_rate ← content_item parsed "funding_rate" >>= float_of
    funding_time_ns ← content_item parsed "funding_time_ns" >>= int_of
    ts_ns ← content_item parsed "ts_ns" >>= int_of
    ok (funding_event instrument_id funding_rate funding_time_ns ts_ns)

  -- The handlers that `stream` registers.
  abbrev pub handlers : Dict (ParsedMessage F → Result (Event F))
  handlers = ("mark-price", on_mark) ∷ ("funding-rate", on_funding) ∷ []

  abbrev pub call :
      Option (ParsedMessage F → Result (Event F)) → ParsedMessage F → Result (List (Event F))
  call none parsed = ok []
  call (some handler) parsed = handler parsed >>= λ event. ok (event ∷ [])

-- `_dispatch` of a frame: the events that are published.
unfoldable pub receive : {F : Type 0} ⦃n : Num F⦄ → Reader F → String → Result (List (Event F))
receive reader raw = parse_public reader raw >>= λ parsed. call (dispatch handlers parsed) parsed
