-- ===== src/Domain/Tests.antt =====
-- A desk that is seeded and has seen a mark (hobo/domain/seed.py), at a concrete seed.
use hobo.Prelude.{◌≡◌, refl, none, some, List, [], ◌∷◌, ok, err, type_error}
use hobo.Prelude.Dict
use hobo.Prelude.Dict.{Dict}
use hobo.Prelude.Data.{
  Data, null, int, float, text, array, object, cons, nil, field, end, find, item, text_of,
}
use hobo.Float.{sum_from, try_sum_from}
use hobo.Float.Int.{◌+ℤ◌, ◌-ℤ◌, ◌*ℤ◌, neg_ℤ, int_num, ℤ, pos}
use hobo.Risk.Model.{Instrument, GateDecision, new_book}
use hobo.Risk.Math.{notional, unrealized_pnl}
use hobo.Risk.State.{
  State, add_books, initial, book_unrealized_pnl, book_realized_pnl, book_funding_pnl,
  book_fees_paid, book_notional, book_total_pnl, desk_total_pnl, desk_gross_notional,
}
use hobo.Risk.Fold.{
  apply_event, handle, apply_mark, update_high_water_marks, raise_book_marks, raise_desk_mark,
}
use hobo.Risk.Gate.{OrderContext, context_of, build_order_context, check, default_checks}
use hobo.Risk.Tests.{swap, limits, sell_three}
use hobo.Log.Event.{LogEvent, Envelope, mark_update}
use hobo.Domain.Seed.{
  DeskSeed, books_from, items_from, desk_from, load_desk_seed, limits_of, book_specs, fresh_state,
}
use hobo.Domain.Seed.Limited.{folded, check-seeded}

abbrev raw : Data ℤ → Data ℤ
raw position = object (
    field "desk_id" (text "DESK") (
      field "desk"
        (object (
          field "notional_limit_usdt" (float (pos 1000))
            (field "drawdown_limit_usdt" (float (pos 50)) end)))
        (field "books"
          (array (
            cons
              (object (
                field "book_id" (text "ALPHA") (
                  field "notional_limit_usdt" (float (pos 1000)) (
                    field "drawdown_limit_usdt" (float (pos 50))
                      (field "position_limit" position end)))))
              nil))
          end)))

-- A seed with the limit `position` of its one book.
abbrev seed_with : Data ℤ → DeskSeed ℤ
seed_with position = record {
  desk_id = text "DESK";
  limits = record {
    notional_limit = some (float (pos 1000));
    drawdown_limit = some (float (pos 50));
    position_limit = none;
  };
  books =
      record {
        book_id = text "ALPHA";
        limits = record {
          notional_limit = some (float (pos 1000));
          drawdown_limit = some (float (pos 50));
          position_limit = some position;
        };
      }
      ∷ [];
}

abbrev seed : DeskSeed ℤ
seed = seed_with (int 5)

seed_loaded : load_desk_seed (some (raw (int 5))) ≡ ok seed
unfolding load_desk_seed desk_from books_from items_from item find
seed_loaded = refl

-- A limit that is no number is accepted too, and only fails when the gate compares with it.
null_limit_loaded :
    (load_desk_seed (some (raw null)) ≡ ok (seed_with null))
    × (fresh_state pos [] (seed_with null) ≡ err type_error)
unfolding load_desk_seed desk_from books_from items_from item find fresh_state limits_of book_specs
    text_of
null_limit_loaded = (refl, refl)

abbrev instruments : Dict (Instrument ℤ)
instruments = ("SWAP", swap) ∷ []

abbrev fresh : State ℤ
fresh =
    initial instruments "DESK" (record limits { position_limit = none }) (("ALPHA", limits) ∷ [])

fresh_built : fresh_state pos instruments seed ≡ ok fresh
unfolding fresh_state limits_of book_specs text_of
fresh_built = refl

abbrev events : List (Envelope (LogEvent ℤ))
events = record { seq = 1; ts_ns = 7; event = mark_update "SWAP" (pos 110) 7 } ∷ []

abbrev seen : State ℤ
seen = folded fresh events

abbrev ctx : OrderContext ℤ
ctx = context_of seen sell_three (new_book "ALPHA" limits) swap (pos 0) (pos 0) (pos 0) (pos 0)

ctx_built : build_order_context seen sell_three ≡ ok ctx
unfolding initial add_books apply_event handle apply_mark update_high_water_marks raise_book_marks
    raise_desk_mark build_order_context book_notional notional desk_total_pnl desk_gross_notional
    book_total_pnl book_unrealized_pnl book_realized_pnl book_funding_pnl book_fees_paid sum_from
    try_sum_from ◌+ℤ◌ ◌-ℤ◌ ◌*ℤ◌ neg_ℤ unrealized_pnl Dict.get Dict.set
ctx_built = refl

check-seeded_example :
    (d : GateDecision ℤ) × (check (default_checks (pos 5)) seen sell_three ≡ ok d)
check-seeded_example =
    check-seeded pos (some (raw (int 5))) seed instruments fresh events (pos 5) sell_three ctx
      seed_loaded fresh_built ctx_built
