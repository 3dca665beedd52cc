-- ===== src/Venue/Attributed.antt =====
-- What the venue reports of an order finds that order, and no other (hobo/adapters/okx/execution.py).
use Prim.Native.Nat.{◌+◌}
use hobo.Prelude.{
  String, ◌≡◌, ◌≢◌, ◌⊎◌, refl, sym, ap, ◌∙◌, inl, inr, Bool-cases, true, false, none, some, List,
  [], ◌∷◌, str_eq, if◌then◌else◌, eq_iff, Exn, or_raise, key_error, Result, ok, err, bind, ◌>>=◌,
  Result-cases, Option-cases,
}
use hobo.Prelude.Dict.{get-set}
use hobo.Float.{Num, ◌<?◌, neg}
use hobo.Risk.Model.{Order, value}
use hobo.Execution.{FillData, OrderUpdate}
use hobo.Venue.{
  OkxExecutionClient, Entry, cl_ord_id_of, submit, float_or_zero, trade_id_of, fill_of, fills_in,
  updates_in, find_order, on_order_update,
}

module _ {F : Type 0} ⦃n : Num F⦄ (to_float : String → Result F) where
  -- What may come of an entry that belongs to `order`. Where the size is positive, the one fill has
  -- the order's id, book, instrument and side; a size, price or fee that cannot be read raises.
  pub data Attributed (order : Order F) (entry : Entry)
      : Result (List (FillData F) × List OrderUpdate) → Type 0 where
    unsized :
        (x : Exn) → float_or_zero to_float entry.fill_sz ≡ err x → Attributed order entry (err x)
    unfilled :
        (qty : F)
        → float_or_zero to_float entry.fill_sz ≡ ok qty
        → (n.zero_f <? qty) ≡ false
        → Attributed order entry (ok ([], updates_in to_float order entry))
    unpriced :
        (qty : F)
        → float_or_zero to_float entry.fill_sz ≡ ok qty
        → (n.zero_f <? qty) ≡ true
        → entry.fill_px ≡ none
        → Attributed order entry (err key_error)
    misread :
        (qty : F) (px : String) (x : Exn)
        → float_or_zero to_float entry.fill_sz ≡ ok qty
        → (n.zero_f <? qty) ≡ true
        → entry.fill_px ≡ some px
        → (to_float px ≡ err x)
          ⊎ (price : F) × (to_float px ≡ ok price) × (float_or_zero to_float entry.fill_fee ≡ err x)
        → Attributed order entry (err x)
    filled :
        (qty price fee : F) (px : String)
        → float_or_zero to_float entry.fill_sz ≡ ok qty
        → (n.zero_f <? qty) ≡ true
        → entry.fill_px ≡ some px
        → to_float px ≡ ok price
        → float_or_zero to_float entry.fill_fee ≡ ok fee
        → Attributed order entry (
            ok (
              record {
                order_id = order.order_id;
                book_id = order.book_id;
                instrument_id = order.instrument_id;
                side = value order.side;
                qty = qty;
                fill_price = price;
                fee = neg fee;
                trade_id = trade_id_of to_float entry;
              }
                  ∷ [],
              updates_in to_float order entry,
            ))

  -- What is emitted once the size is read.
  abbrev emitted : Order F → Entry → F → Result (List (FillData F) × List OrderUpdate)
  emitted order entry qty =
      bind (fills_in to_float order entry qty)
        (λ fills. ok (fills, updates_in to_float order entry))

  abbrev price_of : Entry → Result F
  price_of entry = or_raise entry.fill_px key_error >>= to_float

  price_given :
      (entry : Entry) (px : String) (r : Result F)
      → entry.fill_px ≡ some px
      → to_float px ≡ r
      → price_of entry ≡ r
  price_given entry px r given e = ap (λ p. or_raise p key_error >>= to_float) given ∙ e

  fills_in-positive :
      (order : Order F) (entry : Entry) (qty : F)
      → (n.zero_f <? qty) ≡ true
      → fills_in to_float order entry qty
        ≡ bind (fill_of to_float order entry qty) (λ f. ok (f ∷ []))
  unfolding fills_in
  fills_in-positive order entry qty positive = rw (positive, fills_in) refl

  fill_of-unpriced :
      (order : Order F) (entry : Entry) (qty : F) (x : Exn)
      → price_of entry ≡ err x
      → fill_of to_float order entry qty ≡ err x
  unfolding fill_of
  fill_of-unpriced order entry qty x e = rw e refl

  priced-Attributed :
      (order : Order F) (entry : Entry) (qty : F) (px : String)
      → float_or_zero to_float entry.fill_sz ≡ ok qty
      → (n.zero_f <? qty) ≡ true
      → entry.fill_px ≡ some px
      → Attributed order entry (emitted order entry qty)
  unfolding fill_of
  priced-Attributed order entry qty px sized positive given = elim (Result-cases (to_float px)) [
    | inr (x, e) ↦
        rw
          (
            fills_in-positive order entry qty positive,
            fill_of-unpriced order entry qty x (price_given entry px (err x) given e),
          )
          (misread qty px x sized positive given (inl e))
    | inl (price, e) ↦ elim (Result-cases (float_or_zero to_float entry.fill_fee)) [
      | inr (x, r) ↦
          rw
            (fills_in-positive order entry qty positive, price_given entry px (ok price) given e, r)
            (misread qty px x sized positive given (inr (price, e, r)))
      | inl (fee, r) ↦
          rw
            (fills_in-positive order entry qty positive, price_given entry px (ok price) given e, r)
            (filled qty price fee px sized positive given e r)
    ]
  ]

  sized-Attributed :
      (order : Order F) (entry : Entry) (qty : F)
      → float_or_zero to_float entry.fill_sz ≡ ok qty
      → Attributed order entry (emitted order entry qty)
  unfolding fills_in
  sized-Attributed order entry qty sized = elim (Bool-cases (n.zero_f <? qty)) [
    | inr small ↦ rw (small, fills_in) (unfilled qty sized small)
    | inl positive ↦ elim (Option-cases entry.fill_px) [
      | inl absent ↦
          rw
            (
              fills_in-positive order entry qty positive,
              fill_of-unpriced order entry qty key_error
                  (ap (λ p. or_raise p key_error >>= to_float) absent),
            )
            (unpriced qty sized positive absent)
      | inr (px, given) ↦ priced-Attributed order entry qty px sized positive given
    ]
  ]

  on_order_update-Attributed :
      (client : OkxExecutionClient F) (order : Order F) (entry : Entry)
      → find_order to_float client entry.cl_ord_id ≡ some order
      → Attributed order entry (on_order_update to_float client entry)
  unfolding on_order_update
  on_order_update-Attributed client order entry found =
      elim (Result-cases (float_or_zero to_float entry.fill_sz)) [
        | inr (x, e) ↦ rw (found, on_order_update) (rw e (unsized x e))
        | inl (qty, e) ↦ rw (found, on_order_update) (rw e (sized-Attributed order entry qty e))
      ]

  -- The client matters only by the order it finds.
  on_order_update_same :
      (client client' : OkxExecutionClient F) (entry : Entry)
      → find_order to_float client' entry.cl_ord_id ≡ find_order to_float client entry.cl_ord_id
      → on_order_update to_float client' entry ≡ on_order_update to_float client entry
  unfolding on_order_update
  on_order_update_same client client' entry same =
      elim (Option-cases (find_order to_float client entry.cl_ord_id)) [
        | inl e ↦ rw (same ∙ e, e, on_order_update) refl
        | inr (order, e) ↦ rw (same ∙ e, e, on_order_update) refl
      ]

  module _ (to_str : F → String) (client : OkxExecutionClient F) (order : Order F) where
    abbrev submitted_id : String
    submitted_id = cl_ord_id_of order.book_id (client.seq + 1)

    find_order-submit :
        (id : String)
        → find_order to_float (submit to_str client order) (some id)
          ≡ (if str_eq submitted_id id then some order else find_order to_float client (some id))
    unfolding submit
    find_order-submit id = get-set client.orders_by_clordid submitted_id id order

    -- A fill finds its order: an update that the venue sends after an order is submitted either has
    -- the new client order id, and then emits what the entry says of this order, one fill with the
    -- order's id, book, instrument and side if its size is positive, or raises where its size, price
    -- or fee cannot be read; or it has another id or none, and is treated as before the order, so
    -- that no earlier order is forgotten.
    pub on_order_update-submit :
        (entry : Entry)
        → (entry.cl_ord_id ≡ some submitted_id)
            × Attributed order entry (on_order_update to_float (submit to_str client order) entry)
          ⊎ (entry.cl_ord_id ≢ some submitted_id)
            × (on_order_update to_float (submit to_str client order) entry
                ≡ on_order_update to_float client entry)
    on_order_update-submit entry = elim (Option-cases entry.cl_ord_id) [
      | inl absent ↦ inr (
        λ e. cc,
        on_order_update_same client (submit to_str client order) entry (
            ap (find_order to_float (submit to_str client order)) absent
            ∙ sym (ap (find_order to_float client) absent)),
      )
      | inr (id, given) ↦ elim (Bool-cases (str_eq submitted_id id)) [
        | inl this ↦ inl (
          given ∙ ap some (sym ((eq_iff submitted_id id).0 this)),
          on_order_update-Attributed (submit to_str client order) order entry (
              ap (find_order to_float (submit to_str client order)) given
              ∙ find_order-submit id
              ∙ rw this refl),
        )
        | inr other ↦ inr (
          λ e. let this : submitted_id ≡ id = cc in cc ((eq_iff submitted_id id).1 this),
          on_order_update_same client (submit to_str client order) entry (
              ap (find_order to_float (submit to_str client order)) given
              ∙ find_order-submit id
              ∙ rw other (sym (ap (find_order to_float client) given))),
        )
      ]
    ]
