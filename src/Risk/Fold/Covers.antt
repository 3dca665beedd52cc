-- ===== src/Risk/Fold/Covers.antt =====
-- Where the high-water marks of hobo/risk/fold.py cover the PnLs, and what keeps them there.
use hobo.Prelude.{
  ℕ, String, ◌≡◌, refl, ap, ◌∙◌, inl, inr, false, Option, none, some, [], ◌∷◌, Bool-cases, str_eq,
  All, Result, ok, bind,
}
use mathlib.Core.Option.{some-injective}
use hobo.Prelude.Dict
use hobo.Prelude.Dict.{Dict}
use hobo.Float.{Num, ◌+◌, ◌<?◌, try_sum, try_sum_from}
use hobo.Risk.Model.{Book, Desk}
use hobo.Risk.State.{
  State, book_unrealized_pnl, book_realized_pnl, book_funding_pnl, book_fees_paid, book_total_pnl,
}
use hobo.Risk.Fold.{or_empty, book_at}

module _ {F : Type 0} ⦃n : Num F⦄ where
  -- The PnL `r` is known, and not above the mark.
  abbrev pub Below : F → Result F → Type 0
  Below mark r = (total : F) × (r ≡ ok total) × ((mark <? total) ≡ false)

  abbrev pub BookBelow : (Book F → Result F) → Book F → Type 0
  BookBelow f b = Below b.high_water_mark_usdt (f b)

  pub record Covers (f : Book F → Result F) (desk : Desk F) : Type 0 where
    pub books : All (λ (e : String × Book F). BookBelow f e.1) desk.books
    pub desk_below :
        Below desk.high_water_mark_usdt (try_sum (λ (e : String × Book F). f e.1) desk.books)

  abbrev pub IsCovered : State F → Type 0
  IsCovered s = Covers (book_total_pnl s) s.desk

  -- Entries of a dictionary and the sum over it, where one value is set to one like it.
  pub All-set :
      (P : Book F → Type 0) (d : Dict (Book F)) (k : String) (b : Book F)
      → P b
      → All (λ (e : String × Book F). P e.1) d
      → All (λ (e : String × Book F). P e.1) (Dict.set d k b)
  unfolding Dict.set
  All-set P [] k b pb h = (pb, tt)
  All-set P ((j, c) ∷ d) k b pb h = elim (Bool-cases (str_eq j k)) [
    | inl q ↦ rw q (pb, h.1)
    | inr q ↦ rw q (h.0, All-set P d k b pb h.1)
  ]

  pub All-get :
      (P : Book F → Type 0) (d : Dict (Book F)) (k : String) (b : Book F)
      → Dict.get d k ≡ some b
      → All (λ (e : String × Book F). P e.1) d
      → P b
  unfolding Dict.get
  All-get P [] k b e h = cc
  All-get P ((j, c) ∷ d) k b e h = elim (Bool-cases (str_eq j k)) [
    | inl q ↦ rw (some-injective _ _ (rw q at e)) at h.0
    | inr q ↦ All-get P d k b (rw q at e) h.1
  ]

  try_sum_from-set_same :
      (f : Book F → Result F) (acc : F) (d : Dict (Book F)) (k : String) (b c : Book F)
      → Dict.get d k ≡ some b
      → f c ≡ f b
      → try_sum_from (λ (e : String × Book F). f e.1) acc (Dict.set d k c)
        ≡ try_sum_from (λ (e : String × Book F). f e.1) acc d
  unfolding try_sum_from Dict.get Dict.set
  try_sum_from-set_same f acc [] k b c e same = cc
  try_sum_from-set_same f acc ((j, w) ∷ d) k b c e same = elim (Bool-cases (str_eq j k)) [
    | inl q ↦ rw (q, same, some-injective _ _ (rw q at e)) refl
    | inr q ↦
        rw q (ap (bind (f w)) (λ i v. try_sum_from-set_same f (acc + v) d k b c (rw q at e) same i))
  ]

  -- A book that is replaced by one with its PnL and its mark.
  pub Covers-set :
      (f : Book F → Result F) (desk : Desk F) (k : String) (b c : Book F)
      → Dict.get desk.books k ≡ some b
      → f c ≡ f b
      → c.high_water_mark_usdt ≡ b.high_water_mark_usdt
      → Covers f desk
      → Covers f (record desk { books = Dict.set desk.books k c })
  Covers-set f desk k b c e same mark h = record {
    books = All-set (BookBelow f) desk.books k c below h.books;
    desk_below = rw (try_sum_from-set_same f n.zero_f desk.books k b c e same) h.desk_below;
  }
    where
      below : BookBelow f c
      below =
          let (t, known, l) = All-get (BookBelow f) desk.books k b e h.books in
          (t, same ∙ known, rw mark l)

  pub get_of_book_at :
      (s : State F) (o : Option String) (b : Book F)
      → book_at s o ≡ some b
      → Dict.get s.desk.books (or_empty o) ≡ some b
  get_of_book_at s none b e = cc
  get_of_book_at s (some id) b e = e

  pub pnl_of_positions :
      (s : State F) (b c : Book F)
      → c.positions ≡ b.positions
      → book_total_pnl s c ≡ book_total_pnl s b
  unfolding book_total_pnl book_unrealized_pnl book_realized_pnl book_funding_pnl book_fees_paid
  pnl_of_positions s b c e = rw e

  -- The PnL is a matter of the instruments, the marks and the positions.
  pub pnl_of_desk :
      (s : State F) (d : Desk F) → book_total_pnl (record s { desk = d }) ≡ book_total_pnl s
  unfolding book_total_pnl book_unrealized_pnl
  pnl_of_desk s d = refl

  pub pnl_of_seq :
      (s : State F) (seq : ℕ) → book_total_pnl (record s { last_seq = seq }) ≡ book_total_pnl s
  unfolding book_total_pnl book_unrealized_pnl
  pnl_of_seq s seq = refl
