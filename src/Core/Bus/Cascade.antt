-- ===== src/Core/Bus/Cascade.antt =====
-- What one event leads to on the bus of hobo/core/bus.py: the events that its handlers publish.
use Prim.Native.Nat.{◌+◌}
use mathlib.Core.List.{append_assoc, append-nil}
use hobo.Prelude.{
  ℕ, List, [], ◌∷◌, ◌++◌, ◌≡◌, refl, sym, ap, ◌∙◌, ◌≤◌, ◌<◌, arith, Bool-cases, inl, inr,
}
use hobo.Core.Event.{Event}
use hobo.Core.Bus.{
  EventBus, EventType, Handler, type_of, is_full, offer, offer_all, run_handlers, deliver,
}

module _ {F : Type 0} where
  abbrev pub weigh : (Event F → ℕ) → List (Event F) → ℕ
  weigh weight [] = 0
  weigh weight (e ∷ es) = weight e + weigh weight es

  weigh-append :
      (weight : Event F → ℕ) (xs ys : List (Event F))
      → weigh weight (xs ++ ys) ≡ weigh weight xs + weigh weight ys
  weigh-append weight [] ys = omega arith
  weigh-append weight (x ∷ xs) ys = omega (arith, weigh-append weight xs ys)

module _ {F S : Type 0} where
  -- What the handlers of an event publish, one after the other.
  abbrev pub published_by : List (Handler F S) → Event F → S → List (Event F)
  published_by [] e w = []
  published_by (f ∷ hs) e w = (f e w).1 ++ published_by hs e (f e w).0

  -- The events that an event leads to weigh less than it, so that each cascade ends.
  abbrev pub Dwindles : (Event F → ℕ) → (EventType → List (Handler F S)) → Type 0
  Dwindles weight handlers =
      (e : Event F) (w : S) → weigh weight (published_by (handlers (type_of e)) e w) < weight e

  -- What a bus `b'` that comes from `b` keeps, with the events that it accepted on the way.
  pub record Later (b b' : EventBus F S) : Type 0 where
    pub more : List (Event F)
    pub accepts : b'.accepted ≡ b.accepted ++ more
    pub same_handlers : b'.handlers ≡ b.handlers

  pub Later-refl : (b : EventBus F S) → Later b b
  Later-refl b = record { more = []; accepts = sym (append-nil b.accepted); same_handlers = refl }

  pub Later-trans : (a b c : EventBus F S) → Later a b → Later b c → Later a c
  Later-trans a b c h k = record {
    more = h.more ++ k.more;
    accepts = k.accepts ∙ ap (λ l. l ++ k.more) h.accepts ∙ append_assoc a.accepted h.more k.more;
    same_handlers = k.same_handlers ∙ h.same_handlers;
  }

  module _ (weight : Event F → ℕ) where
    -- A bus after an offer: later, and heavier by the event at most.
    abbrev Offered : EventBus F S → EventBus F S → ℕ → Type 0
    Offered b b' k =
        Later b b' × (weigh weight b'.queue ≤ weigh weight b.queue + k) × (b'.world ≡ b.world)

    offer-Offered : (b : EventBus F S) (e : Event F) → Offered b (offer b e) (weight e)
    unfolding offer
    offer-Offered b e = elim (Bool-cases (is_full b)) [
      | inl full ↦ rw full (
        record { more = []; accepts = sym (append-nil b.accepted); same_handlers = refl },
        omega arith,
        refl,
      )
      | inr room ↦ rw room (
        record { more = e ∷ []; accepts = refl; same_handlers = refl },
        omega (arith, weigh-append weight b.queue (e ∷ [])),
        refl,
      )
    ]

    offer_all-Offered :
        (b : EventBus F S) (es : List (Event F)) → Offered b (offer_all b es) (weigh weight es)
    unfolding offer_all
    offer_all-Offered b [] = (Later-refl b, omega arith, refl)
    offer_all-Offered b (e ∷ es) =
        let (l, n, w) = offer-Offered b e in
        let (l', n', w') = offer_all-Offered (offer b e) es in
        (Later-trans b (offer b e) (offer_all (offer b e) es) l l', omega arith, w' ∙ w)

    run_handlers-Later :
        (hs : List (Handler F S)) (e : Event F) (b : EventBus F S)
        → Later b (run_handlers hs e b)
          × (weigh weight (run_handlers hs e b).queue
              ≤ weigh weight b.queue + weigh weight (published_by hs e b.world))
    unfolding run_handlers
    run_handlers-Later [] e b = (Later-refl b, omega arith)
    run_handlers-Later (f ∷ hs) e b =
        let moved = record b { world = (f e b.world).0 } in
        let offered = offer_all moved (f e b.world).1 in
        let (l, n, w) = offer_all-Offered moved (f e b.world).1 in
        let (l', n') = run_handlers-Later hs e offered in
        (
          Later-trans b offered (run_handlers hs e offered)
              (record { more = l.more; accepts = l.accepts; same_handlers = l.same_handlers }) l',
          omega (
            arith,
            ap (λ v. weigh weight (published_by hs e v)) w,
            weigh-append weight (f e b.world).1 (published_by hs e (f e b.world).0),
          ),
        )

    pub deliver-Later :
        (b : EventBus F S) (e : Event F) (q : List (Event F))
        → b.queue ≡ e ∷ q
        → Dwindles weight b.handlers
        → Later b (deliver (record b { queue = q }) e)
          × (weigh weight (deliver (record b { queue = q }) e).queue < weigh weight b.queue)
    unfolding deliver
    deliver-Later b e q h dwindles =
        let taken = record b { queue = q; delivered = b.delivered ++ e ∷ [] } in
        let (l, n) = run_handlers-Later (b.handlers (type_of e)) e taken in
        (
          record { more = l.more; accepts = l.accepts; same_handlers = l.same_handlers },
          omega (arith, ap (weigh weight) h, dwindles e b.world),
        )
