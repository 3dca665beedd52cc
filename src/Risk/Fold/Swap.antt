-- ===== src/Risk/Fold/Swap.antt =====
-- What the sums over a book and over the desk become when one position, and with it one book, is
-- replaced. The arithmetic is exact.
use hobo.Prelude.{
  String, ◌≡◌, refl, sym, ap, ◌∙◌, inl, inr, none, some, Option-cases, Result-cases, Result, ok,
  ok-injective,
}
use hobo.Prelude.Dict
use hobo.Prelude.Dict.{Dict}
use hobo.Float.{Num, IsExact, ◌+◌, ◌-◌, sum, try_sum}
use hobo.Float.Ring.{zero-mul, neg-neg, add_left_comm, neg-add}
use hobo.Float.Sum.{Contributes, try_sum_from-ok, try_sum_from-set}
use hobo.Risk.Model.{Instrument, flat, Position, position_in, get_or_create, Book}
use hobo.Risk.Math.{notional, unrealized_pnl, simulate_fill}
use hobo.Risk.State.{
  State, mark_of, instrument_of, unrealized_term, notional_term, book_unrealized_pnl,
  book_realized_pnl, book_funding_pnl, book_fees_paid, book_notional, book_total_pnl,
  desk_gross_notional, desk_total_pnl,
}
use hobo.Risk.Fold.{
  set_book, fill_delta, fee_of, filled, fill_book, apply_fill, update_high_water_marks,
}
use hobo.Log.Event.{Fill}
use hobo.Prelude.Dict.{set-set}

module _ {F : Type 0} ⦃n : Num F⦄ where
  abbrev pub with_position : Book F → String → Position F → Book F
  with_position b iid p = record b { positions = Dict.set b.positions iid p }

  position_in-none :
      (b : Book F) (iid : String) → Dict.get b.positions iid ≡ none → position_in b iid ≡ flat iid
  position_in-none b iid e = rw (e, position_in)

  pub position_in-some :
      (b : Book F) (iid : String) (p : Position F)
      → Dict.get b.positions iid ≡ some p
      → position_in b iid ≡ p
  position_in-some b iid p e = rw (e, position_in)

module _ {F : Type 0} ⦃n : Num F⦄ where
  -- The book after a fill, before its mark is raised.
  abbrev pub booked : Book F → Fill F → Instrument F → Book F
  booked b p i =
      let pos = position_in b p.instrument_id in
      let effect = simulate_fill pos.qty pos.avg_entry_price (fill_delta p) p.fill_price i in
      with_position b p.instrument_id (filled pos effect (fee_of p))

  -- A fill whose book and instrument are known is booked.
  pub apply_fill-known :
      (s : State F) (p : Fill F) (b : Book F) (i : Instrument F)
      → Dict.get s.desk.books p.book_id ≡ some b
      → instrument_of s p.instrument_id ≡ ok i
      → apply_fill s p ≡ update_high_water_marks (set_book s p.book_id (booked b p i))
  unfolding apply_fill fill_book
  apply_fill-known s p b i on_desk known =
      elim (Option-cases (Dict.get b.positions p.instrument_id)) [
        | inl e ↦
            rw (on_desk, apply_fill)
              (rw (known, fill_book) (rw (e, position_in, get_or_create) (rw set-set)))
        | inr (pos, e) ↦
            rw (on_desk, apply_fill) (rw (known, fill_book) (rw (e, position_in, get_or_create)))
      ]

module _ {F : Type 0} ⦃n : Num F⦄ (laws : IsExact F) where
  open laws use {lt_irrefl, add_assoc, add_comm, add-zero, sub-eq-add-neg, add-neg}

  notional_flat : (mark : F) (i : Instrument F) → notional n.zero_f mark i ≡ n.zero_f
  unfolding notional
  notional_flat mark i = rw (lt_irrefl, zero-mul laws) (zero-mul laws mark)

  unrealized_flat : (e mark : F) (i : Instrument F) → unrealized_pnl n.zero_f e mark i ≡ n.zero_f
  unfolding unrealized_pnl
  unrealized_flat e mark i = rw (zero-mul laws) (zero-mul laws _)

  -- What the position in an instrument adds to a sum over the book.
  position-Contributes :
      (f : String × Position F → Result F) (v : Position F → F) (b : Book F) (iid : String)
      → ((p : Position F) → f (iid, p) ≡ ok (v p))
      → v (flat iid) ≡ n.zero_f
      → Contributes f b.positions iid (v (position_in b iid))
  position-Contributes f v b iid term z = elim (Option-cases (Dict.get b.positions iid)) [
    | inl e ↦ rw (position_in-none b iid e) (rw (e, Contributes) z)
    | inr (p, e) ↦ rw (position_in-some b iid p e) (rw (e, Contributes) (term p))
  ]

  sum-set :
      (g : Position F → F) (b : Book F) (iid : String) (p : Position F)
      → g (flat iid) ≡ n.zero_f
      → sum (λ (e : String × Position F). g e.1) (Dict.set b.positions iid p)
        ≡ sum (λ (e : String × Position F). g e.1) b.positions - g (position_in b iid) + g p
  sum-set g b iid p z = ok-injective (
      sym (try_sum_from-ok (λ (e : String × Position F). g e.1) n.zero_f _)
      ∙ try_sum_from-set laws (λ e. ok (g e.1)) n.zero_f _ _ (g p) b.positions iid p
          (position-Contributes (λ e. ok (g e.1)) g b iid (λ p. refl) z) refl
          (try_sum_from-ok (λ (e : String × Position F). g e.1) n.zero_f b.positions))

  -- Old terms out and new terms in, once in each sum or all at once.
  swap_pnl :
      (rs fs es us r f e u r' f' e' u' : F)
      → rs - r + r' + (fs - f + f') - (es - e + e') + (us - u + u')
        ≡ rs + fs - es + us - (r + (f - e) + u) + (r' + (f' - e') + u')
  swap_pnl rs fs es us r f e u r' f' e' u' =
      simp (sub-eq-add-neg, neg-add laws, neg-neg laws, add_assoc, add_left_comm laws, add_comm)

  module _ (s : State F) (iid : String) (i : Instrument F)
      (known : instrument_of s iid ≡ ok i) where
    abbrev pub notional_at : Position F → F
    notional_at p = notional p.qty (mark_of s iid) i

    abbrev pub unrealized_at : Position F → F
    unrealized_at p = unrealized_pnl p.qty p.avg_entry_price (mark_of s iid) i

    notional_term-ok : (p : Position F) → notional_term s (iid, p) ≡ ok (notional_at p)
    notional_term-ok p = rw known

    unrealized_term-ok : (p : Position F) → unrealized_term s (iid, p) ≡ ok (unrealized_at p)
    unrealized_term-ok p = rw known

    pub book_notional-with_position :
        (b : Book F) (p : Position F) (total : F)
        → book_notional s b ≡ ok total
        → book_notional s (with_position b iid p)
          ≡ ok (total - notional_at (position_in b iid) + notional_at p)
    unfolding book_notional
    book_notional-with_position b p total h =
        try_sum_from-set laws (notional_term s) n.zero_f total _ _ b.positions iid p
          (position-Contributes (notional_term s) notional_at b iid notional_term-ok
            (notional_flat (mark_of s iid) i))
          (notional_term-ok p) h

    book_unrealized_pnl-with_position :
        (b : Book F) (p : Position F) (total : F)
        → book_unrealized_pnl s b ≡ ok total
        → book_unrealized_pnl s (with_position b iid p)
          ≡ ok (total - unrealized_at (position_in b iid) + unrealized_at p)
    unfolding book_unrealized_pnl
    book_unrealized_pnl-with_position b p total h =
        try_sum_from-set laws (unrealized_term s) n.zero_f total _ _ b.positions iid p
          (position-Contributes (unrealized_term s) unrealized_at b iid unrealized_term-ok
            (unrealized_flat n.zero_f (mark_of s iid) i))
          (unrealized_term-ok p) h

    -- The PnL of one position.
    abbrev pub pnl_at : Position F → F
    pnl_at p = p.realized_pnl + (p.funding_pnl - p.fees_paid) + unrealized_at p

    pub book_total_pnl-with_position :
        (b : Book F) (p : Position F) (total : F)
        → book_total_pnl s b ≡ ok total
        → book_total_pnl s (with_position b iid p)
          ≡ ok (total - pnl_at (position_in b iid) + pnl_at p)
    unfolding book_total_pnl book_realized_pnl book_funding_pnl book_fees_paid
    book_total_pnl-with_position b p total h = elim (Result-cases (book_unrealized_pnl s b)) [
      | inr (x, e) ↦ cc (rw (e, book_total_pnl) at h)
      | inl (u, e) ↦
          rw
            (
              book_unrealized_pnl-with_position b p u e,
              sum-set (λ p. p.realized_pnl) b iid p refl,
              sum-set (λ p. p.funding_pnl) b iid p refl,
              sum-set (λ p. p.fees_paid) b iid p refl,
            )
            (ap ok (
              swap_pnl _ _ _ u _ _ _ _ _ _ _ _
              ∙ ap (λ t. t - pnl_at (position_in b iid) + pnl_at p)
                  (ok-injective (rw (e, book_total_pnl) at h))))
    ]

  -- A sum over the desk, where one book is replaced.
  desk_sum-set :
      (f : Book F → Result F) (books : Dict (Book F)) (id : String) (b c : Book F) (total a v : F)
      → Dict.get books id ≡ some b
      → f b ≡ ok a
      → f c ≡ ok v
      → try_sum (λ (e : String × Book F). f e.1) books ≡ ok total
      → try_sum (λ (e : String × Book F). f e.1) (Dict.set books id c) ≡ ok (total - a + v)
  desk_sum-set f books id b c total a v e old new h =
      try_sum_from-set laws (λ (e : String × Book F). f e.1) n.zero_f total a v books id c
        (rw (e, Contributes) old) new h

  module _ (s : State F) (id : String) (b c : Book F)
      (on_desk : Dict.get s.desk.books id ≡ some b) where
    pub desk_gross_notional-set_book :
        (total a v : F)
        → book_notional s b ≡ ok a
        → book_notional s c ≡ ok v
        → desk_gross_notional s ≡ ok total
        → desk_gross_notional (set_book s id c) ≡ ok (total - a + v)
    unfolding desk_gross_notional book_notional
    desk_gross_notional-set_book total a v old new h =
        desk_sum-set (book_notional s) s.desk.books id b c total a v on_desk old new h

    pub desk_total_pnl-set_book :
        (total a v : F)
        → book_total_pnl s b ≡ ok a
        → book_total_pnl s c ≡ ok v
        → desk_total_pnl s ≡ ok total
        → desk_total_pnl (set_book s id c) ≡ ok (total - a + v)
    unfolding desk_total_pnl book_total_pnl book_unrealized_pnl
    desk_total_pnl-set_book total a v old new h =
        desk_sum-set (book_total_pnl s) s.desk.books id b c total a v on_desk old new h
