-- ===== src/Core/Views/Gaps.antt =====
-- The patch of scripts/reconcile.py closes the gap between the engine and the venue.
use hobo.Prelude.{ℕ, String, ◌≡◌, refl, ap, ◌∙◌, inl, inr, Bool-cases, some, ok, returned, eq_iff}
use hobo.Prelude.Dict
use hobo.Prelude.Dict.{get-set}
use hobo.Float.{Num, IsExact, ◌+◌, ◌-◌, ◌<?◌, neg}
use hobo.Float.Ring.{neg-neg}
use hobo.Float.Order.{abs_pos, abs_nonpos}
use hobo.Risk.Model.{Instrument, Position, Book, position_in}
use hobo.Risk.Math.{simulate_fill, add_fill, reduce_fill, same_direction}
use hobo.Risk.State.{State, instrument_of, book_total_pnl, desk_total_pnl}
use hobo.Risk.Fold.{fill_delta, fee_of, filled, set_book, handle, apply_event}
use hobo.Risk.Fold.Marks.{at_least, update_high_water_marks-ok}
use hobo.Risk.Fold.Swap.{
  booked, pnl_at, apply_fill-known, position_in-some, book_total_pnl-with_position,
  desk_total_pnl-set_book,
}
use hobo.Risk.Gate.Announced.{apply_event-returned, state_after, book_kept}
use hobo.Log.Event.{LogEvent, Fill, fill, Envelope}
use hobo.Core.Views.{patch_fill}

module _ {F : Type 0} ⦃n : Num F⦄ where
  -- The patch's fill, as it is logged.
  abbrev pub logged_patch : State F → String → String → String → F → ℕ → ℕ → Envelope (LogEvent F)
  logged_patch s order_id book_id iid diff seq ts = record {
    seq = seq;
    ts_ns = ts;
    event = fill (patch_fill s order_id book_id iid diff);
  }

  -- In both of its branches a fill adds its signed quantity to the position's.
  new_qty_of : (q e d p : F) (i : Instrument F) → (simulate_fill q e d p i).new_qty ≡ q + d
  unfolding simulate_fill add_fill reduce_fill
  new_qty_of q e d p i = elim (Bool-cases (same_direction q d)) [
    | inl adds ↦ rw (adds, simulate_fill) refl
    | inr reduces ↦ rw (reduces, simulate_fill) refl
  ]

module _ {F : Type 0} ⦃n : Num F⦄ (laws : IsExact F) where
  -- The signed quantity that the fold reads from the patch's fill is the difference it adopts.
  fill_delta-patch_fill :
      (s : State F) (order_id book_id iid : String) (diff : F)
      → fill_delta (patch_fill s order_id book_id iid diff) ≡ diff
  unfolding patch_fill
  fill_delta-patch_fill s order_id book_id iid diff = elim (Bool-cases (n.zero_f <? diff)) [
    | inl more ↦ rw more (abs_pos laws diff more)
    | inr less ↦ rw less (ap neg (abs_nonpos laws diff less) ∙ neg-neg laws diff)
  ]

  module _ (s : State F) (p : Fill F) (b : Book F) (i : Instrument F) (book_pnl desk_pnl : F)
      (on_desk : Dict.get s.desk.books p.book_id ≡ some b)
      (known : instrument_of s p.instrument_id ≡ ok i)
      (book_pnl_is : book_total_pnl s b ≡ ok book_pnl)
      (desk_pnl_is : desk_total_pnl s ≡ ok desk_pnl) where
    abbrev pos_before : Position F
    pos_before = position_in b p.instrument_id

    abbrev pos_after : Position F
    pos_after =
        let pos = pos_before in
        filled pos (simulate_fill pos.qty pos.avg_entry_price (fill_delta p) p.fill_price i)
          (fee_of p)

    abbrev pnl_after : F
    pnl_after =
        let pnl = pnl_at laws s p.instrument_id i known in book_pnl - pnl pos_before + pnl pos_after

    new_book_pnl : book_total_pnl s (booked b p i) ≡ ok pnl_after
    new_book_pnl =
        book_total_pnl-with_position laws s p.instrument_id i known b pos_after book_pnl book_pnl_is

    new_desk_pnl :
        desk_total_pnl (set_book s p.book_id (booked b p i)) ≡ ok (desk_pnl - book_pnl + pnl_after)
    new_desk_pnl =
        desk_total_pnl-set_book laws s p.book_id b (booked b p i) on_desk desk_pnl book_pnl
          pnl_after book_pnl_is new_book_pnl desk_pnl_is

    qty_moved : (position_in (booked b p i) p.instrument_id).qty ≡ pos_before.qty + fill_delta p
    qty_moved =
        ap (λ p. p.qty)
          (position_in-some (booked b p i) p.instrument_id pos_after (
            get-set b.positions p.instrument_id p.instrument_id _
            ∙ rw ((eq_iff p.instrument_id p.instrument_id).1 refl) refl))
        ∙ new_qty_of pos_before.qty pos_before.avg_entry_price (fill_delta p) p.fill_price i

    -- A fill of a known book and instrument returns, and moves the position by its quantity.
    apply_event-fill :
        (seq ts : ℕ)
        → (s' : State F) × (b' : Book F) × (apply_event s
              (record { seq = seq; ts_ns = ts; event = fill p })
            ≡ returned tt s')
          × (Dict.get s'.desk.books p.book_id ≡ some b')
          × ((position_in b' p.instrument_id).qty ≡ pos_before.qty + fill_delta p)
    unfolding handle
    apply_event-fill seq ts = (
      state_after s p.book_id (booked b p i) (desk_pnl - book_pnl + pnl_after) seq,
      at_least (booked b p i) pnl_after,
      apply_event-returned s (record { seq = seq; ts_ns = ts; event = fill p }) _
          (apply_fill-known s p b i on_desk known
            ∙ update_high_water_marks-ok (set_book s p.book_id (booked b p i)) _ new_desk_pnl),
      book_kept s p.book_id (booked b p i) pnl_after (desk_pnl - book_pnl + pnl_after) seq
          new_book_pnl,
      qty_moved,
    )

  -- The fold moves the position by the gap: where the patch's book is on the desk, its instrument is
  -- known, and the PnLs of the book and of the desk can be computed, applying the event of the
  -- patch's fill returns, the book is still on the desk, and its position in the instrument has
  -- changed by the difference that the patch adopts, be it positive, negative or zero. (The
  -- arithmetic is exact.)
  pub apply_event-patch_fill :
      (s : State F) (order_id book_id iid : String) (diff : F) (seq ts : ℕ) (b : Book F)
      (i : Instrument F) (book_pnl desk_pnl : F)
      → Dict.get s.desk.books book_id ≡ some b
      → instrument_of s iid ≡ ok i
      → book_total_pnl s b ≡ ok book_pnl
      → desk_total_pnl s ≡ ok desk_pnl
      → (s' : State F) × (b' : Book F) × (apply_event s
            (logged_patch s order_id book_id iid diff seq ts)
          ≡ returned tt s')
        × (Dict.get s'.desk.books book_id ≡ some b')
        × ((position_in b' iid).qty ≡ (position_in b iid).qty + diff)
  unfolding patch_fill
  apply_event-patch_fill s order_id book_id iid diff seq ts b i book_pnl desk_pnl h k p d =
      let (s', b', applied, kept, moved) =
        apply_event-fill s (patch_fill s order_id book_id iid diff) b i book_pnl desk_pnl h k p d
          seq ts in
      (
        s',
        b',
        applied,
        kept,
        moved
            ∙ ap (λ x. (position_in b iid).qty + x)
                (fill_delta-patch_fill s order_id book_id iid diff),
      )
