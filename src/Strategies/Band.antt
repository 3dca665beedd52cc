-- ===== src/Strategies/Band.antt =====
-- The orders of hobo/strategies/oscillator.py bring the position back into its band.
use hobo.Prelude.{ℕ, String, ◌≡◌, refl, ◌⊎◌, inl, inr, true, Bool-cases, [], ◌∷◌, ◌==◌}
use Prim.Native.Nat.{◌+◌, ◌%◌}
use hobo.Float.{Num, ◌≤?◌}
use hobo.Risk.Model.{sell}
use hobo.Core.Event.{mark_event, place_order}
use hobo.Core.Ingestor.{member}
use hobo.Strategies.{OscillatorStrategy, ticks_of, position_of, side_for, on_mark, on_event}

module _ {F : Type 0} ⦃n : Num F⦄ where
  pub on_mark-cases :
      (s : OscillatorStrategy F) (iid : String)
      → ((on_mark s iid).0 ≡ [])
        ⊎ ((on_mark s iid).0 ≡ place_order iid (side_for s iid) s.order_qty "MARKET" ∷ [])
  unfolding on_mark
  on_mark-cases s iid = elim (Bool-cases ((ticks_of s.ticks iid + 1) % s.interval_ticks == 0)) [
    | inl due ↦ inr (rw due refl)
    | inr early ↦ inl (rw early refl)
  ]

  -- Above its band the strategy only sells: where the position in an instrument has reached the band,
  -- a mark of the instrument brings no order, or one that sells.
  pub on_event-sells_above :
      (s : OscillatorStrategy F) (iid : String) (price : F) (ts_ns : ℕ)
      → (s.position_band ≤? position_of s.position iid) ≡ true
      → ((on_event s (mark_event iid price ts_ns)).0 ≡ [])
        ⊎ ((on_event s (mark_event iid price ts_ns)).0
            ≡ place_order iid sell s.order_qty "MARKET" ∷ [])
  unfolding on_event side_for
  on_event-sells_above s iid price ts_ns above = elim (Bool-cases (member iid s.instrument_ids)) [
    | inr foreign ↦ inl (rw foreign refl)
    | inl own ↦ elim (on_mark-cases s iid) [
      | inl e ↦ inl (rw own e)
      | inr e ↦ inr (rw own (rw above at e))
    ]
  ]
