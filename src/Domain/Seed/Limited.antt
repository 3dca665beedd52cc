-- ===== src/Domain/Seed/Limited.antt =====
-- A desk that is seeded by hobo/domain/seed.py has its limits.
use mathlib.Core.Path.{subst}
use hobo.Prelude.{
  ◌≡◌, refl, none, some, Option, List, [], ◌∷◌, String, ℕ, sym, All, Result, ok, err, key_error,
  type_error, bind-eq-ok, ok-injective, ◌>>=◌, after,
}
use hobo.Prelude.Dict
use hobo.Prelude.Dict.{Dict}
use hobo.Prelude.Data.{Data, Items, nil, cons, item, text_of}
use hobo.Float.{Num}
use hobo.Risk.Model.{Limits, Instrument, Book, Order, GateDecision, new_book}
use hobo.Risk.State.{State, add_books, initial}
use hobo.Risk.Fold.{apply_event}
use hobo.Risk.Fold.Covers.{All-set}
use hobo.Risk.Fold.Given.{Given, BookLimits, DeskLimits, LimitedBook, AllLimited, IsLimited}
use hobo.Risk.Fold.Limited.{apply_event-IsLimited}
use hobo.Risk.Gate.{OrderContext, build_order_context, check, default_checks}
use hobo.Risk.Gate.Answers.{check-answers}
use hobo.Log.Event.{LogEvent, Envelope}
use hobo.Domain.Seed.{
  BookSeed, DeskSeed, seed_errors, books_from, items_from, desk_from, with_books, load_desk_seed,
  number_of, limit_number, limits_of, book_specs, fresh_state,
}

seed_errors-ok : {A : Type 0} (r : Result A) (a : A) → seed_errors r ≡ ok a → r ≡ ok a
seed_errors-ok (ok b) a h = h
seed_errors-ok (err key_error) a h = cc
seed_errors-ok (err type_error) a h = cc
seed_errors-ok (err e) a h = cc

module _ {F : Type 0} where
  books_from-BookLimits :
      (items : Items F) (books : List (BookSeed F))
      → books_from items ≡ ok books
      → All (λ (b : BookSeed F). BookLimits b.limits) books
  unfolding books_from
  books_from-BookLimits nil books h =
      subst (All (λ (b : BookSeed F). BookLimits b.limits)) (ok-injective h) tt
  books_from-BookLimits (cons b bs) books h =
      let (book_id, _, h₁) = bind-eq-ok (item b "book_id") _ h in
      let (notional, _, h₂) = bind-eq-ok (item b "notional_limit_usdt") _ h₁ in
      let (drawdown, _, h₃) = bind-eq-ok (item b "drawdown_limit_usdt") _ h₂ in
      let (position, _, h₄) = bind-eq-ok (item b "position_limit") _ h₃ in
      let (rest, r, h₅) = bind-eq-ok (books_from bs) _ h₄ in
      subst (All (λ (b : BookSeed F). BookLimits b.limits)) (ok-injective h₅)
        (((notional, refl), (drawdown, refl), (position, refl)), books_from-BookLimits bs rest r)

  desk_from-limits :
      (raw : Data F) (seed : DeskSeed F)
      → desk_from raw ≡ ok seed
      → DeskLimits seed.limits × All (λ (b : BookSeed F). BookLimits b.limits) seed.books
  unfolding desk_from
  desk_from-limits raw seed h =
      let (desk_id, _, h₁) = bind-eq-ok (item raw "desk_id") _ h in
      let (notional, _, h₂) =
        bind-eq-ok (item raw "desk" >>= λ d. item d "notional_limit_usdt") _ h₁ in
      let (drawdown, _, h₃) =
        bind-eq-ok (item raw "desk" >>= λ d. item d "drawdown_limit_usdt") _ h₂ in
      let (items, _, h₄) = bind-eq-ok (item raw "books" >>= items_from) _ h₃ in
      let (books, b, h₅) = bind-eq-ok (books_from items) _ h₄ in
      let same = ok-injective h₅ in
      (
        subst (λ (s : DeskSeed F). DeskLimits s.limits) same ((notional, refl), (drawdown, refl)),
        subst (λ (s : DeskSeed F). All (λ (b : BookSeed F). BookLimits b.limits) s.books) same
            (books_from-BookLimits items books b),
      )

  with_books-same :
      (seed s : DeskSeed F) (books : List (BookSeed F)) → with_books seed books ≡ ok s → seed ≡ s
  with_books-same seed s [] h = cc
  with_books-same seed s (b ∷ bs) h = ok-injective h

  load_desk_seed-limits :
      (read : Option (Data F)) (seed : DeskSeed F)
      → load_desk_seed read ≡ ok seed
      → DeskLimits seed.limits × All (λ (b : BookSeed F). BookLimits b.limits) seed.books
  unfolding load_desk_seed
  load_desk_seed-limits none seed h = cc
  load_desk_seed-limits (some raw) seed h =
      let (desk, r, h₁) = bind-eq-ok (seed_errors (desk_from raw)) _ h in
      let (d, b) = desk_from-limits raw desk (seed_errors-ok (desk_from raw) desk r) in
      let same = with_books-same desk seed desk.books h₁ in
      (
        subst (λ (s : DeskSeed F). DeskLimits s.limits) same d,
        subst (λ (s : DeskSeed F). All (λ (b : BookSeed F). BookLimits b.limits) s.books) same b,
      )

  module _ (of_int : ℕ → F) where
    limit_number-Given :
        (l : Option (Data F)) (o : Option F) → limit_number of_int l ≡ ok o → Given l → Given o
    limit_number-Given none o h (v, e) = cc
    limit_number-Given (some d) o h (v, e) =
        let (x, _, same) = bind-eq-ok (number_of of_int d) _ h in (x, sym (ok-injective same))

    limits_of-BookLimits :
        (raw : Limits (Data F)) (l : Limits F)
        → limits_of of_int raw ≡ ok l
        → BookLimits raw
        → BookLimits l
    unfolding limits_of
    limits_of-BookLimits raw l h (a, b, c) =
        let (x, hx, h₁) = bind-eq-ok (limit_number of_int raw.notional_limit) _ h in
        let (y, hy, h₂) = bind-eq-ok (limit_number of_int raw.drawdown_limit) _ h₁ in
        let (z, hz, h₃) = bind-eq-ok (limit_number of_int raw.position_limit) _ h₂ in
        subst BookLimits (ok-injective h₃) (
          limit_number-Given raw.notional_limit x hx a,
          limit_number-Given raw.drawdown_limit y hy b,
          limit_number-Given raw.position_limit z hz c,
        )

    limits_of-DeskLimits :
        (raw : Limits (Data F)) (l : Limits F)
        → limits_of of_int raw ≡ ok l
        → DeskLimits raw
        → DeskLimits l
    unfolding limits_of
    limits_of-DeskLimits raw l h (a, b) =
        let (x, hx, h₁) = bind-eq-ok (limit_number of_int raw.notional_limit) _ h in
        let (y, hy, h₂) = bind-eq-ok (limit_number of_int raw.drawdown_limit) _ h₁ in
        let (z, hz, h₃) = bind-eq-ok (limit_number of_int raw.position_limit) _ h₂ in
        subst DeskLimits (ok-injective h₃) (
          limit_number-Given raw.notional_limit x hx a,
          limit_number-Given raw.drawdown_limit y hy b,
        )

    abbrev SpecLimits : String × Limits F → Type 0
    SpecLimits spec = BookLimits spec.1

    book_specs-BookLimits :
        (books : List (BookSeed F)) (specs : List (String × Limits F))
        → book_specs of_int books ≡ ok specs
        → All (λ (b : BookSeed F). BookLimits b.limits) books
        → All SpecLimits specs
    unfolding book_specs
    book_specs-BookLimits [] specs h hs = subst (All SpecLimits) (ok-injective h) tt
    book_specs-BookLimits (b ∷ books) specs h hs =
        let (book_id, _, h₁) = bind-eq-ok (text_of b.book_id) _ h in
        let (l, hl, h₂) = bind-eq-ok (limits_of of_int b.limits) _ h₁ in
        let (rest, r, h₃) = bind-eq-ok (book_specs of_int books) _ h₂ in
        subst (All SpecLimits) (ok-injective h₃)
          (limits_of-BookLimits b.limits l hl hs.0, book_specs-BookLimits books rest r hs.1)

module _ {F : Type 0} ⦃n : Num F⦄ where
  add_books-Limited :
      (books : Dict (Book F)) (specs : List (String × Limits F))
      → All (λ (spec : String × Limits F). BookLimits spec.1) specs
      → AllLimited books
      → AllLimited (add_books books specs)
  unfolding add_books
  add_books-Limited books [] hs h = h
  add_books-Limited books ((book_id, l) ∷ specs) hs h =
      add_books-Limited (Dict.set books book_id (new_book book_id l)) specs hs.1
        (All-set LimitedBook books book_id (new_book book_id l) hs.0 h)

  fresh_state-IsLimited :
      (of_int : ℕ → F) (read : Option (Data F)) (seed : DeskSeed F)
      (instruments : Dict (Instrument F)) (fresh : State F)
      → load_desk_seed read ≡ ok seed
      → fresh_state of_int instruments seed ≡ ok fresh
      → IsLimited fresh
  unfolding fresh_state initial
  fresh_state-IsLimited of_int read seed instruments fresh h start =
      let (d, b) = load_desk_seed-limits read seed h in
      let (desk_id, _, h₁) = bind-eq-ok (text_of seed.desk_id) _ start in
      let (l, hl, h₂) = bind-eq-ok (limits_of of_int seed.limits) _ h₁ in
      let (specs, hs, h₃) = bind-eq-ok (book_specs of_int seed.books) _ h₂ in
      subst IsLimited (ok-injective h₃) (record {
        books = add_books-Limited [] specs (book_specs-BookLimits of_int seed.books specs hs b) tt;
        desk_limits = limits_of-DeskLimits of_int seed.limits l hl d;
      })

  -- The state after events, each of which is folded or raises.
  abbrev pub folded : State F → List (Envelope (LogEvent F)) → State F
  folded s [] = s
  folded s (e ∷ es) = folded (after (apply_event s e)) es

  folded-IsLimited :
      (es : List (Envelope (LogEvent F))) (s : State F) → IsLimited s → IsLimited (folded s es)
  folded-IsLimited [] s h = h
  folded-IsLimited (e ∷ es) s h =
      folded-IsLimited es (after (apply_event s e)) (apply_event-IsLimited s e h)

  -- The gate never misses a limit: on a desk that starts from a seed which `load_desk_seed` accepts,
  -- whose ids are texts and whose limits are numbers, and after any events, folded or raising, the
  -- gate gives a verdict on each order whose context can be built; no check raises for a limit that
  -- is not there. (That the limits are numbers is left to whoever writes the seed: `load_desk_seed`
  -- does not look.)
  pub check-seeded :
      (of_int : ℕ → F) (read : Option (Data F)) (seed : DeskSeed F)
      (instruments : Dict (Instrument F)) (fresh : State F) (es : List (Envelope (LogEvent F)))
      (max : F) (order : Order F) (ctx : OrderContext F)
      → load_desk_seed read ≡ ok seed
      → fresh_state of_int instruments seed ≡ ok fresh
      → build_order_context (folded fresh es) order ≡ ok ctx
      → (d : GateDecision F) × (check (default_checks max) (folded fresh es) order ≡ ok d)
  check-seeded of_int read seed instruments fresh es max order ctx h start built =
      check-answers max (folded fresh es) order ctx
        (folded-IsLimited es fresh
          (fresh_state-IsLimited of_int read seed instruments fresh h start))
        built
