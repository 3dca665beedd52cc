-- ===== src/Strategies/Inventory.antt =====
-- The inventory of hobo/strategies/oscillator.py stays in its band, give or take one order.
use Prim.Native.Nat.{◌+◌ as ◌⊹◌, ◌%◌}
use mathlib.Core.Path.{subst}
use hobo.Prelude.{
  ℕ, String, ◌≡◌, refl, sym, ap, ◌∙◌, inl, inr, false, Bool-cases, [], ◌∷◌, ◌==◌, str_eq, eq_refl,
  if◌then◌else◌, none, some, Option,
}
use hobo.Prelude.Dict
use hobo.Prelude.Dict.{Dict, get-set}
use hobo.Float.{Num, IsExact, ◌+◌, ◌<?◌, neg}
use hobo.Float.Ring.{neg-add, zero-add}
use hobo.Float.Order.{lt_asymm}
use hobo.Risk.Model.{Side, buy, sell, value}
use hobo.Core.Event.{FillEvent, Action, place_order, cancel_order, mark_event, fill_event}
use hobo.Core.Ingestor.{member}
use hobo.Strategies.{OscillatorStrategy, ticks_of, position_of, side_for, on_mark, on_event}
use hobo.Strategies.Band.{on_mark-cases}

module _ {F : Type 0} ⦃n : Num F⦄ where
  -- a ≤ b
  abbrev pub AtMost : F → F → Type 0
  AtMost a b = (b <? a) ≡ false

  -- Between -(band + qty) and band + qty.
  abbrev pub InBand : F → F → F → Type 0
  InBand band qty p = AtMost p (band + qty) × AtMost (neg (band + qty)) p

  -- The fill, in one piece, of what the strategy wants.
  abbrev pub FillOf : Action F → FillEvent F → Type 0
  FillOf (place_order iid side qty order_type) e =
      (e.instrument_id ≡ iid) × (e.side ≡ value side) × (e.qty ≡ qty)
  FillOf (cancel_order order_id) e = ⊥

module _ {F : Type 0} ⦃n : Num F⦄ (laws : IsExact F) where
  open laws use {
    lt_irrefl, lt_trans, lt_total, leb-eq-not_lt, add_comm, add_assoc, add-zero, add-neg, add_mono,
  }

  AtMost-trans : (a b c : F) → AtMost a b → AtMost b c → AtMost a c
  AtMost-trans a b c h k = elim (Bool-cases (c <? a)) [
    | inr e ↦ e
    | inl e ↦ elim (Bool-cases (a <? b)) [
      | inl l ↦ cc (lt_trans c a b e l, k)
      | inr l ↦ cc (lt_total a b l h, e, k)
    ]
  ]

  add-neg_right : (a c : F) → a + c + neg c ≡ a
  add-neg_right a c = add_assoc a c (neg c) ∙ ap (λ x. a + x) (add-neg c) ∙ add-zero a

  add-AtMost : (a b c : F) → AtMost a b → AtMost (a + c) (b + c)
  add-AtMost a b c h = elim (Bool-cases (b + c <? a + c)) [
    | inr e ↦ e
    | inl e ↦
        cc (rw (add-neg_right b c, add-neg_right a c) at (add_mono (b + c) (a + c) (neg c) e), h)
  ]

  neg-AtMost : (a : F) → AtMost n.zero_f a → AtMost (neg a) n.zero_f
  neg-AtMost a h = rw (zero-add laws (neg a), add-neg a) at (add-AtMost n.zero_f a (neg a) h)

  -- One more order in the direction of the band.
  buys-InBand :
      (band qty p : F)
      → AtMost n.zero_f qty
      → AtMost p band
      → InBand band qty p
      → InBand band qty (p + qty)
  buys-InBand band qty p positive below (upper, lower) = (
    add-AtMost p band qty below,
    AtMost-trans (neg (band + qty)) p (p + qty) lower
        (rw (zero-add laws p, add_comm qty p) at (add-AtMost n.zero_f qty p positive)),
  )

  sells-InBand :
      (band qty p : F)
      → AtMost n.zero_f qty
      → AtMost (neg band) p
      → InBand band qty p
      → InBand band qty (p + neg qty)
  sells-InBand band qty p positive above (upper, lower) = (
    AtMost-trans (p + neg qty) p (band + qty)
        (rw (zero-add laws p, add_comm (neg qty) p) at
          (add-AtMost (neg qty) n.zero_f p (neg-AtMost qty positive)))
        upper,
    rw (neg-add laws band qty) (add-AtMost (neg band) p (neg qty) above),
  )

  -- Which way the order goes.
  side_for-buys :
      (s : OscillatorStrategy F) (iid : String)
      → side_for s iid ≡ buy
      → AtMost (position_of s.position iid) s.position_band
  unfolding side_for
  side_for-buys s iid h =
      let p = position_of s.position iid in
      elim (Bool-cases (p <? s.position_band)) [
        | inl e ↦ lt_asymm laws.is_ordered p s.position_band e
        | inr e ↦ cc (rw (leb-eq-not_lt s.position_band p, e) at h)
      ]

  side_for-sells :
      (s : OscillatorStrategy F) (iid : String)
      → AtMost n.zero_f s.position_band
      → side_for s iid ≡ sell
      → AtMost (neg s.position_band) (position_of s.position iid)
  unfolding side_for
  side_for-sells s iid positive h =
      let p = position_of s.position iid in
      let b = s.position_band in
      elim (Bool-cases (p <? b)) [
        | inr e ↦
            AtMost-trans (neg b) n.zero_f p (neg-AtMost b positive)
              (AtMost-trans n.zero_f b p positive e)
        | inl e ↦ elim (Bool-cases (neg b <? p)) [
          | inl l ↦ lt_asymm laws.is_ordered (neg b) p l
          | inr l ↦ cc (rw (leb-eq-not_lt b p, e, leb-eq-not_lt p (neg b), l) at h)
        ]
      ]

  position_of-set : (d : Dict F) (iid : String) (p : F) → position_of (Dict.set d iid p) iid ≡ p
  position_of-set d iid p =
      let found : Dict.get (Dict.set d iid p) iid ≡ some p =
        get-set d iid iid p ∙ rw (eq_refl iid) refl in
      ap (λ (o : Option F). elim o [ none ↦ n.zero_f | some q ↦ q ]) found

  -- What a fill leaves of the position of its instrument.
  fill-position :
      (s : OscillatorStrategy F) (e : FillEvent F)
      → position_of (on_event s (fill_event e)).1.position e.instrument_id
        ≡ position_of s.position e.instrument_id
          + (if str_eq e.side "BUY" then e.qty else neg e.qty)
  unfolding on_event
  fill-position s e =
      position_of-set s.position e.instrument_id (
        position_of s.position e.instrument_id + (if str_eq e.side "BUY" then e.qty else neg e.qty))

  -- A mark does not move the position.
  mark_keeps :
      (s : OscillatorStrategy F) (iid : String) (price : F) (ts_ns : ℕ)
      → (on_event s (mark_event iid price ts_ns)).1.position ≡ s.position
  unfolding on_event on_mark
  mark_keeps s iid price ts_ns = elim (Bool-cases (member iid s.instrument_ids)) [
    | inr foreign ↦ rw foreign refl
    | inl own ↦ elim (Bool-cases ((ticks_of s.ticks iid ⊹ 1) % s.interval_ticks == 0)) [
      | inl due ↦ rw own (rw due refl)
      | inr early ↦ rw own (rw early refl)
    ]
  ]

  -- What a mark makes the strategy want.
  wants :
      (s : OscillatorStrategy F) (iid : String) (price : F) (ts_ns : ℕ) (a : Action F)
      → (on_event s (mark_event iid price ts_ns)).0 ≡ a ∷ []
      → place_order iid (side_for s iid) s.order_qty "MARKET" ≡ a
  unfolding on_event
  wants s iid price ts_ns a h = elim (Bool-cases (member iid s.instrument_ids)) [
    | inr foreign ↦ cc (rw foreign at h)
    | inl own ↦ elim (on_mark-cases s iid) [
      | inl e ↦ cc (sym e ∙ rw own at h)
      | inr e ↦ cc (sym e ∙ rw own at h)
    ]
  ]

  traded-InBand :
      (s : OscillatorStrategy F) (iid : String) (side : Side)
      → AtMost n.zero_f s.order_qty
      → AtMost n.zero_f s.position_band
      → side_for s iid ≡ side
      → InBand s.position_band s.order_qty (position_of s.position iid)
      → InBand s.position_band s.order_qty (
          position_of s.position iid
          + (if str_eq (value side) "BUY" then s.order_qty else neg s.order_qty))
  traded-InBand s iid buy positive band side within =
      buys-InBand s.position_band s.order_qty (position_of s.position iid) positive
        (side_for-buys s iid side) within
  traded-InBand s iid sell positive band side within =
      sells-InBand s.position_band s.order_qty (position_of s.position iid) positive
        (side_for-sells s iid band side) within

  -- The inventory is bounded: in exact arithmetic, where the band and the size of an order are not
  -- negative and the position in an instrument is at most the band and one order away from flat, it
  -- still is after a mark of the instrument and the fill of the order that the mark brought.
  pub on_event-InBand :
      (s : OscillatorStrategy F) (iid : String) (price : F) (ts_ns : ℕ) (a : Action F)
      (e : FillEvent F)
      → AtMost n.zero_f s.order_qty
      → AtMost n.zero_f s.position_band
      → InBand s.position_band s.order_qty (position_of s.position iid)
      → (on_event s (mark_event iid price ts_ns)).0 ≡ a ∷ []
      → FillOf a e
      → InBand s.position_band s.order_qty (
          position_of
            (on_event (on_event s (mark_event iid price ts_ns)).1 (fill_event e)).1.position
            iid)
  on_event-InBand s iid price ts_ns a e positive band within wanted filled =
      let s' = (on_event s (mark_event iid price ts_ns)).1 in
      let (named, side, qty) =
        subst (λ c. FillOf c e) (sym (wants s iid price ts_ns a wanted)) filled in
      let after_it = (on_event s' (fill_event e)).1.position in
      let trade = if str_eq (value (side_for s iid)) "BUY" then s.order_qty else neg s.order_qty in
      let moved : position_of after_it e.instrument_id
          ≡ position_of s.position e.instrument_id + trade =
        fill-position s' e ∙ λ j.
        position_of (mark_keeps s iid price ts_ns j) e.instrument_id
        + (if str_eq (side j) "BUY" then qty j else neg (qty j)) in
      subst (InBand s.position_band s.order_qty)
        (sym (subst (λ i. position_of after_it i ≡ position_of s.position i + trade) named moved))
        (traded-InBand s iid (side_for s iid) positive band refl within)
