-- ===== src/Venue/SocketTests.antt =====
-- The websocket clients of hobo/adapters at concrete sessions and frames.
use hobo.Prelude.{
  ℕ, true, false, none, some, List, [], ◌∷◌, ◌≡◌, refl, ◌<◌, arith, zero, suc, Result, ok, err,
  overflow_error,
}
use hobo.Prelude.Data
use hobo.Prelude.Data.{
  Data, float, int, text, array, object, cons, nil, field, end, find, item, text_of, float_of,
  int_of,
}
use hobo.Float.Int.{int_num, ℤ, pos}
use hobo.Core.Event.{Event}
use hobo.Venue.Socket.{ParsedMessage, ReconnectConfig, Session, run}
use hobo.Venue.Socket.Reconnects.{run-overflows}
use hobo.Venue.Parsing.{
  Reader, first, parse_envelope, decode_mark_price, channel_of, data_of, route_public, parse_public,
  channel_message,
}
use hobo.Venue.Feed.{receive}
use hobo.Venue.Feed.Entries.{EntryOf, Published}
use hobo.Venue.Feed.Published.{receive-Published}

abbrev unbounded : ReconnectConfig ℤ
unbounded = record {
  should_reconnect = true;
  reconnect_base_secs = pos 1;
  reconnect_max_secs = pos 30;
  reconnect_reset_after_secs = pos 60;
  max_reconnect_attempts = none;
}

abbrev short : Session ℤ
short = record { stopped_before = false; stopped_after = false; lasted = pos 2; jitter = pos 0 }

-- Floats that end at 2 ** 2.
abbrev two_to : ℕ → Result ℤ
two_to zero = ok (pos 1)
two_to (suc zero) = ok (pos 2)
two_to (suc (suc k)) = err overflow_error

two_to-below : (k : ℕ) → k < 2 → (power : ℤ) × (two_to k ≡ ok power)
two_to-below zero h = (pos 1, refl)
two_to-below (suc zero) h = (pos 2, refl)
two_to-below (suc (suc k)) h = absurd (omega arith)

run-overflows_example : run two_to unbounded 0 (short ∷ short ∷ short ∷ []) ≡ err overflow_error
run-overflows_example =
    run-overflows two_to unbounded 2 (short ∷ short ∷ short ∷ []) refl refl refl two_to-below
      ((refl, refl, refl), ((refl, refl, refl), ((refl, refl, refl), tt))) (omega arith)

abbrev frame : Data ℤ
frame = object (
    field "arg" (object (field "channel" (text "mark-price") end)) (
      field "data"
        (array (
          cons
            (object (
              field "instId" (text "SWAP")
                (field "markPx" (float (pos 110)) (field "ts" (int 7) end))))
            nil))
        end))

abbrev pub reader : Reader ℤ
reader = record { loads = λ raw. some frame; float_from = float_of; int_from = int_of }

abbrev message : ParsedMessage ℤ
message = channel_message "mark-price" (
    object (
      field "instrument_id" (text "SWAP")
        (field "mark_price" (float (pos 110)) (field "ts_ns" (int 7000000) end))))

parsed : parse_public reader "frame" ≡ ok message
unfolding parse_public parse_envelope route_public channel_of data_of first decode_mark_price find
    item Data.get text_of float_of int_of
parsed = refl

receive-Published_example :
    (es : List (Event ℤ)) × (receive reader "frame" ≡ ok es)
    × Published reader (EntryOf reader "frame") es
receive-Published_example = receive-Published reader "frame" message parsed
