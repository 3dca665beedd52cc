-- ===== src/Recovery/Roster.antt =====
-- What `_reconcile_books` of hobo/log/recovery.py makes of the roster.
use hobo.Prelude.{
  String, ◌≡◌, refl, ap, ◌∙◌, inl, inr, true, false, Bool-cases, none, some, List, [], ◌∷◌, str_eq,
  eq_iff, arith,
}
use hobo.Prelude.Dict
use hobo.Prelude.Dict.{Dict, get-set}
use hobo.Float.{Num}
use hobo.Risk.Model.{Limits, Book, new_book}
use hobo.Risk.State.{State}
use hobo.Recovery.{onboard, in_seed, reconcile_books}

module _ {F : Type 0} ⦃n : Num F⦄ where
  has-none : (d : Dict (Book F)) (k : String) → Dict.get d k ≡ none → Dict.has d k ≡ false
  has-none d k h = rw (h, Dict.has) refl

  onboard-keeps :
      (specs : List (String × Limits F)) (books : Dict (Book F)) (id : String) (b : Book F)
      → Dict.get books id ≡ some b
      → Dict.get (onboard books specs).0 id ≡ some b
  unfolding onboard
  onboard-keeps [] books id b h = h
  onboard-keeps ((book_id, limits) ∷ specs) books id b h =
      elim (Bool-cases (Dict.has books book_id)) [
        | inl known ↦ rw known (onboard-keeps specs books id b h)
        | inr absent ↦ rw absent (
            onboard-keeps specs (Dict.set books book_id (new_book book_id limits)) id b (
              get-set books book_id id (new_book book_id limits)
              ∙ ground (arith, eq_iff book_id id)))
      ]

  -- A seed book that was not there is new: it is the one that the first spec with its id makes.
  onboard-adds :
      (specs : List (String × Limits F)) (books : Dict (Book F)) (id : String)
      → in_seed id specs ≡ true
      → Dict.get books id ≡ none
      → (limits : Limits F) × (Dict.get (onboard books specs).0 id ≡ some (new_book id limits))
  unfolding onboard
  onboard-adds [] books id seeded absent = cc
  onboard-adds ((book_id, limits) ∷ specs) books id seeded absent =
      elim (Bool-cases (str_eq book_id id)) [
        | inl same ↦
            let is_id = (eq_iff book_id id).0 same in
            let fresh = ap (Dict.has books) is_id ∙ has-none books id absent in
            (
              limits,
              rw fresh (
                  onboard-keeps specs (Dict.set books book_id (new_book book_id limits)) id
                    (new_book id limits)
                    (get-set books book_id id (new_book book_id limits)
                      ∙ rw same (ap (λ k. some (new_book k limits)) is_id))),
            )
        | inr other ↦ elim (Bool-cases (Dict.has books book_id)) [
          | inl known ↦ rw known (onboard-adds specs books id (rw other at seeded) absent)
          | inr unknown ↦ rw unknown (
              onboard-adds specs (Dict.set books book_id (new_book book_id limits)) id
                (rw other at seeded)
                (get-set books book_id id (new_book book_id limits) ∙ rw other absent))
        ]
      ]

  -- Reconciling the roster loses no book: a book of the recovered desk is still there as it was,
  -- whether or not the seed names it.
  pub reconcile_books-keeps :
      (s : State F) (specs : List (String × Limits F)) (id : String) (b : Book F)
      → Dict.get s.desk.books id ≡ some b
      → Dict.get (reconcile_books s specs).0.desk.books id ≡ some b
  unfolding reconcile_books
  reconcile_books-keeps s specs id b h = onboard-keeps specs s.desk.books id b h

  -- Reconciling the roster adds the seed's books: a book of the seed that was not on the desk is
  -- there, without a position and with no kill switch on, with limits of its own.
  pub reconcile_books-adds :
      (s : State F) (specs : List (String × Limits F)) (id : String)
      → in_seed id specs ≡ true
      → Dict.get s.desk.books id ≡ none
      → (limits : Limits F) × (Dict.get (reconcile_books s specs).0.desk.books id
          ≡ some (new_book id limits))
  unfolding reconcile_books
  reconcile_books-adds s specs id seeded absent = onboard-adds specs s.desk.books id seeded absent
