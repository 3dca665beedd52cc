-- ===== src/Risk/Saved/Restored.antt =====
-- A state that is written as a dictionary and read back (hobo/risk/state.py).
use hobo.Prelude.{◌≡◌, refl, ok, Option, none, some}
use hobo.Prelude.Data.{
  float, int, object, find, item, get, text_of, float_of, int_of, boolean_of, items_of, only,
  dict_of-fields_of,
}
use hobo.Float.{Num}
use hobo.Risk.Model.{Limits, Position, Book, Desk, Instrument}
use hobo.Risk.State.{State}
use hobo.Risk.Saved.{
  no_limits, limits_to_dict, limits_from, limits_from_dict, position_to_dict, position_from_dict,
  book_to_dict, book_from_dict, desk_to_dict, desk_from_dict, instrument_to_dict,
  instrument_from_dict, state_to_dict, state_from_dict,
}

module _ {F : Type 0} where
  limits_of :
      (a b c : Option F)
      → let l : Limits F = record { notional_limit = a; drawdown_limit = b; position_limit = c } in
        limits_from no_limits (limits_to_dict l) ≡ ok l
  unfolding limits_from limits_to_dict float_of
  limits_of none none none = refl
  limits_of none none (some c) = refl
  limits_of none (some b) none = refl
  limits_of none (some b) (some c) = refl
  limits_of (some a) none none = refl
  limits_of (some a) none (some c) = refl
  limits_of (some a) (some b) none = refl
  limits_of (some a) (some b) (some c) = refl

  limits_back : (l : Limits F) → limits_from_dict (object (limits_to_dict l)) ≡ ok l
  unfolding limits_from_dict items_of
  limits_back l = limits_of l.notional_limit l.drawdown_limit l.position_limit

  instrument_back : (i : Instrument F) → instrument_from_dict (instrument_to_dict i) ≡ ok i
  unfolding instrument_from_dict instrument_to_dict find only text_of float_of items_of
  instrument_back i = refl

module _ {F : Type 0} ⦃n : Num F⦄ where
  position_back : (p : Position F) → position_from_dict (position_to_dict p) ≡ ok p
  unfolding position_from_dict position_to_dict find only text_of float_of items_of
  position_back p = refl

  book_back : (b : Book F) → book_from_dict (book_to_dict b) ≡ ok b
  unfolding book_from_dict book_to_dict find item items_of text_of float_of boolean_of
  book_back b =
      rw
        (
          limits_back b.limits,
          dict_of-fields_of position_to_dict position_from_dict position_back b.positions,
        )
        refl

  desk_back : (d : Desk F) → desk_from_dict (desk_to_dict d) ≡ ok d
  unfolding desk_from_dict desk_to_dict find item items_of text_of float_of boolean_of
  desk_back d =
      rw (limits_back d.limits, dict_of-fields_of book_to_dict book_from_dict book_back d.books)
        refl

  -- Nothing of the state is lost in a snapshot: the state that is read from the dictionary of a
  -- state is that state, with all of its instruments, books, positions, limits and marks.
  pub state_from_dict-state_to_dict : (s : State F) → state_from_dict (state_to_dict s) ≡ ok s
  unfolding state_from_dict state_to_dict find item get items_of float_of int_of boolean_of
  state_from_dict-state_to_dict s =
      rw
        (
          dict_of-fields_of instrument_to_dict instrument_from_dict instrument_back s.instruments,
          desk_back s.desk,
          dict_of-fields_of float float_of (λ x. refl) s.marks,
          dict_of-fields_of int int_of (λ x. refl) s.mark_ts_ns,
          dict_of-fields_of float float_of (λ x. refl) s.funding_rates,
        )
        refl
