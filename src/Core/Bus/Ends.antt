-- ===== src/Core/Bus/Ends.antt =====
-- The drain of hobo/core/bus.py ends where the cascade of events that the handlers publish does.
use mathlib.Core.List.{append_assoc, append-nil}
use mathlib.Core.Path.{subst}
use hobo.Prelude.{
  ℕ, zero, suc, true, false, some, List, [], ◌∷◌, ◌++◌, length, ◌≡◌, refl, sym, ap, ◌∙◌, ◌≤◌, ◌<◌,
  arith, inl, inr, ◌⊎◌,
}
use hobo.Core.Event.{Event}
use hobo.Core.Bus.{EventBus, is_full, offer, deliver, drain, finished, publish}
use hobo.Core.Bus.Fifo.{InOrder, deliver-InOrder}
use hobo.Core.Bus.Cascade.{weigh, Dwindles, Later, Later-refl, Later-trans, deliver-Later}

module _ {F : Type 0} where
  List-cases :
      (l : List (Event F)) → (l ≡ []) ⊎ ((e : Event F) × (q : List (Event F)) × (l ≡ e ∷ q))
  List-cases [] = inl refl
  List-cases (e ∷ q) = inr (e, q, refl)

module _ {F S : Type 0} where
  module _ (weight : Event F → ℕ) where
    -- A bus with an empty queue that comes from `b`.
    abbrev Drained : EventBus F S → EventBus F S → Type 0
    Drained b b' = Later b b' × InOrder b' × (b'.queue ≡ [])

    drain-ends :
        (fuel : ℕ) (b : EventBus F S)
        → InOrder b
        → Dwindles weight b.handlers
        → weigh weight b.queue ≤ fuel
        → (b' : EventBus F S) × (drain fuel b ≡ some b') × Drained b b'
    unfolding drain
    drain-ends zero b h dwindles few = elim (List-cases b.queue) [
      | inl e ↦ (b, simp (e, drain), (Later-refl b, h, e))
      | inr (e, q, eq) ↦
          let smaller = (deliver-Later weight b e q eq dwindles).1 in absurd (omega arith)
    ]
    drain-ends (suc fuel) b h dwindles few = elim (List-cases b.queue) [
      | inl e ↦ (b, simp (e, drain), (Later-refl b, h, e))
      | inr (e, q, eq) ↦
          let next = deliver (record b { queue = q }) e in
          let (l, smaller) = deliver-Later weight b e q eq dwindles in
          let (b', runs, (l', ordered, empty)) =
            drain-ends fuel next (deliver-InOrder b e q eq h)
              (subst (Dwindles weight) (sym l.same_handlers) dwindles) (omega arith) in
          (b', rw (eq, drain) runs, (Later-trans b next b' l l', ordered, empty))
    ]

  -- The bus between two calls of `publish`: in order, with nothing in the queue, and not draining.
  pub record IsIdle (b : EventBus F S) : Type 0 where
    pub in_order : InOrder b
    pub nothing_waits : b.queue ≡ []
    pub not_draining : b.draining ≡ false

  offer_with_room :
      (b : EventBus F S) (e : Event F)
      → is_full b ≡ false
      → offer b e ≡ record b { queue = b.queue ++ e ∷ []; accepted = b.accepted ++ e ∷ [] }
  unfolding offer
  offer_with_room b e room = rw room refl

  publish_idle :
      (fuel : ℕ) (b : EventBus F S) (e : Event F)
      → is_full b ≡ false
      → b.draining ≡ false
      → publish fuel b e ≡ finished (drain fuel (record (offer b e) { draining = true }))
  unfolding publish
  publish_idle fuel b e room idle = rw (room, idle) refl

  -- A drain ends, and delivers everything: on an idle bus with room, where each event outweighs what
  -- its handlers publish, `publish` returns for all fuel from the event's weight on. Then the bus is
  -- idle again, and what it delivered are the events before, the event, and those that were accepted
  -- while the handlers ran, in the order in which they were accepted.
  pub publish-delivers :
      (weight : Event F → ℕ) (fuel : ℕ) (b : EventBus F S) (e : Event F)
      → IsIdle b
      → Dwindles weight b.handlers
      → 0 < b.max_queue_size
      → weight e ≤ fuel
      → (b' : EventBus F S) × (publish fuel b e ≡ some b')
        × IsIdle b'
        × (b'.accepted ≡ b'.delivered)
        × ((more : List (Event F)) × (b'.delivered ≡ b.delivered ++ e ∷ more))
  publish-delivers weight fuel b e idle dwindles positive enough =
      let room : is_full b ≡ false = ground (arith, ap (length {A = Event F}) idle.nothing_waits) in
      let start = record b {
        queue = b.queue ++ e ∷ [];
        accepted = b.accepted ++ e ∷ [];
        draining = true;
      } in
      let started : record (offer b e) { draining = true } ≡ start =
        ap (λ (c : EventBus F S). record c { draining = true }) (offer_with_room b e room) in
      let ordered : InOrder start = record {
        fifo = ap (λ l. l ++ e ∷ []) idle.in_order.fifo ∙ append_assoc b.delivered b.queue (e ∷ []);
        bounded = omega (arith, ap (λ l. length (l ++ e ∷ [])) idle.nothing_waits);
      } in
      let light : weigh weight start.queue ≤ fuel =
        omega (arith, ap (λ l. weigh weight (l ++ e ∷ [])) idle.nothing_waits) in
      let (b', runs, (later, ordered', empty)) =
        drain-ends weight fuel start ordered dwindles light in
      let everything : b'.accepted ≡ b'.delivered =
        ordered'.fifo ∙ ap (λ l. b'.delivered ++ l) empty ∙ append-nil b'.delivered in
      let before : b.accepted ≡ b.delivered =
        idle.in_order.fifo
        ∙ ap (λ l. b.delivered ++ l) idle.nothing_waits
        ∙ append-nil b.delivered in
      (
        record b' { draining = false },
        publish_idle fuel b e room idle.not_draining
            ∙ ap (λ c. finished (drain fuel c)) started
            ∙ ap finished runs,
        record {
          in_order = record { fifo = ordered'.fifo; bounded = ordered'.bounded };
          nothing_waits = empty;
          not_draining = refl;
        },
        everything,
        (
          later.more,
          sym everything
              ∙ later.accepts
              ∙ ap (λ l. (l ++ e ∷ []) ++ later.more) before
              ∙ append_assoc b.delivered (e ∷ []) later.more,
        ),
      )
