-- ===== src/Domain/Seed.antt =====
-- hobo/domain/seed.py: the desk, its books and their limits, from a JSON file. `none` stands for a
-- file that cannot be opened or is not JSON. `fresh_state` is the factory of hobo/builder.py. The seed
-- holds whatever values the file has for the ids and the limits: nothing looks at them until a check
-- of the gate compares with a limit.
pub mod Limited
use hobo.Prelude.{
  String, Option, none, some, List, [], ◌∷◌, Result, ok, err, key_error, type_error, seed_error,
  ◌>>=◌, ℕ,
}
use hobo.Prelude.Dict.{Dict}
use hobo.Prelude.Data.{Data, int, float, array, Items, nil, cons, item, text_of}
use hobo.Float.{Num}
use hobo.Risk.Model.{Limits, Instrument}
use hobo.Risk.State.{State, initial}

pub record BookSeed (F : Type 0) : Type 0 where
  pub book_id : Data F
  pub limits : Limits (Data F)

pub record DeskSeed (F : Type 0) : Type 0 where
  pub desk_id : Data F
  pub limits : Limits (Data F)
  pub books : List (BookSeed F)

-- `except (OSError, json.JSONDecodeError, KeyError, TypeError)`
abbrev pub seed_errors : {A : Type 0} → Result A → Result A
seed_errors (err key_error) = err seed_error
seed_errors (err type_error) = err seed_error
seed_errors r = r

module _ {F : Type 0} where
  -- The loop of `load_desk_seed` over the books.
  unfoldable pub books_from : Items F → Result (List (BookSeed F))
  books_from nil = ok []
  books_from (cons b bs) = do
    book_id ← item b "book_id"
    notional ← item b "notional_limit_usdt"
    drawdown ← item b "drawdown_limit_usdt"
    position ← item b "position_limit"
    books ← books_from bs
    ok (
        record {
          book_id = book_id;
          limits = record {
            notional_limit = some notional;
            drawdown_limit = some drawdown;
            position_limit = some position;
          };
        }
        ∷ books)

  -- What is no list has no books, or raises a TypeError at its first one.
  unfoldable pub items_from : Data F → Result (Items F)
  items_from (array items) = ok items
  items_from _ = err type_error

  -- The `try` block of `load_desk_seed`.
  unfoldable pub desk_from : Data F → Result (DeskSeed F)
  desk_from raw = do
    desk_id ← item raw "desk_id"
    notional ← item raw "desk" >>= λ d. item d "notional_limit_usdt"
    drawdown ← item raw "desk" >>= λ d. item d "drawdown_limit_usdt"
    items ← item raw "books" >>= items_from
    books ← books_from items
    ok (record {
      desk_id = desk_id;
      limits = record {
        notional_limit = some notional;
        drawdown_limit = some drawdown;
        position_limit = none;
      };
      books = books;
    })

  abbrev pub with_books : DeskSeed F → List (BookSeed F) → Result (DeskSeed F)
  with_books desk [] = err seed_error
  with_books desk (b ∷ bs) = ok desk

  unfoldable pub load_desk_seed : Option (Data F) → Result (DeskSeed F)
  load_desk_seed none = err seed_error
  load_desk_seed (some raw) = do desk ← seed_errors (desk_from raw); with_books desk desk.books

-- The state holds texts for ids and numbers for limits. `of_int` is the float of a JSON integer.
module _ {F : Type 0} (of_int : ℕ → F) where
  abbrev pub number_of : Data F → Result F
  number_of (int k) = ok (of_int k)
  number_of (float x) = ok x
  number_of _ = err type_error

  abbrev pub limit_number : Option (Data F) → Result (Option F)
  limit_number none = ok none
  limit_number (some d) = do x ← number_of d; ok (some x)

  unfoldable pub limits_of : Limits (Data F) → Result (Limits F)
  limits_of limits = do
    notional ← limit_number limits.notional_limit
    drawdown ← limit_number limits.drawdown_limit
    position ← limit_number limits.position_limit
    ok (record { notional_limit = notional; drawdown_limit = drawdown; position_limit = position })

  -- `book_specs` of `_recover` in hobo/builder.py.
  unfoldable pub book_specs : List (BookSeed F) → Result (List (String × Limits F))
  book_specs [] = ok []
  book_specs (b ∷ books) = do
    book_id ← text_of b.book_id
    limits ← limits_of b.limits
    specs ← book_specs books
    ok ((book_id, limits) ∷ specs)

  -- The source builds a state of any seed. It is a state of this model only where the ids are texts
  -- and the limits are numbers.
  unfoldable pub fresh_state : ⦃n : Num F⦄ → Dict (Instrument F) → DeskSeed F → Result (State F)
  fresh_state instruments seed = do
    desk_id ← text_of seed.desk_id
    limits ← limits_of seed.limits
    specs ← book_specs seed.books
    ok (initial instruments desk_id limits specs)
