-- ===== src/Core/Bus/Fifo.antt =====
-- The order in which hobo/core/bus.py delivers events, and how many it holds.
use mathlib.Core.List.{append_assoc}
use hobo.Prelude.{
  List, [], ◌∷◌, ◌++◌, length, length-append, ◌≡◌, sym, ap, ◌∙◌, ◌≤◌, arith, Bool-cases, inl, inr,
}
use hobo.Core.Event.{Event}
use hobo.Core.Bus.{EventBus, Handler, type_of, is_full, offer, offer_all, run_handlers, deliver}

module _ {F S : Type 0} where
  -- What was accepted has been delivered or waits in the queue, in this order, and no more waits than
  -- the bus may hold.
  pub record InOrder (bus : EventBus F S) : Type 0 where
    pub fifo : bus.accepted ≡ bus.delivered ++ bus.queue
    pub bounded : length bus.queue ≤ bus.max_queue_size

  offer-InOrder : (bus : EventBus F S) (e : Event F) → InOrder bus → InOrder (offer bus e)
  unfolding offer
  offer-InOrder bus e h = elim (Bool-cases (is_full bus)) [
    | inl full ↦ rw full (record { fifo = h.fifo; bounded = h.bounded })
    | inr room ↦ rw room (record {
      fifo = ap (λ l. l ++ e ∷ []) h.fifo ∙ append_assoc bus.delivered bus.queue (e ∷ []);
      bounded = ground (arith, length-append bus.queue (e ∷ []));
    })
  ]

  offer_all-InOrder :
      (bus : EventBus F S) (es : List (Event F)) → InOrder bus → InOrder (offer_all bus es)
  unfolding offer_all
  offer_all-InOrder bus [] h = h
  offer_all-InOrder bus (e ∷ es) h = offer_all-InOrder (offer bus e) es (offer-InOrder bus e h)

  run_handlers-InOrder :
      (hs : List (Handler F S)) (e : Event F) (bus : EventBus F S)
      → InOrder bus
      → InOrder (run_handlers hs e bus)
  unfolding run_handlers
  run_handlers-InOrder [] e bus h = h
  run_handlers-InOrder (f ∷ hs) e bus h =
      let (world, events) = f e bus.world in
      run_handlers-InOrder hs e (offer_all (record bus { world = world }) events) (
        offer_all-InOrder (record bus { world = world }) events
          (record { fifo = h.fifo; bounded = h.bounded }))

  -- One round of the loop of `publish`, with `queue` behind the event that is taken, keeps the bus in
  -- order, whatever the handlers publish: what was accepted is what was delivered and then what is in
  -- the queue, each event once, and the queue is not longer than `max_queue_size`.
  pub deliver-InOrder :
      (bus : EventBus F S) (event : Event F) (queue : List (Event F))
      → bus.queue ≡ event ∷ queue
      → InOrder bus
      → InOrder (deliver (record bus { queue = queue }) event)
  unfolding deliver
  deliver-InOrder bus event queue q h =
      run_handlers-InOrder (bus.handlers (type_of event)) event _ (record {
        fifo =
            h.fifo
            ∙ ap (λ l. bus.delivered ++ l) q
            ∙ sym (append_assoc bus.delivered (event ∷ []) queue);
        bounded = omega (arith, ap length q, h.bounded);
      })
