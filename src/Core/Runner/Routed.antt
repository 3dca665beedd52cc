-- ===== src/Core/Runner/Routed.antt =====
-- Which orders reach the venue while the strategies handle an event.
use Prim.Native.Nat.{◌+◌}
use mathlib.Core.List.{append_assoc, append-nil, Mem, mem-cons_self, mem-cons_of_mem}
use hobo.Prelude.{
  ℕ, String, true, false, Bool-cases, List, [], map, ◌∷◌, ◌++◌, ◌≡◌, refl, sym, ◌∙◌, ap, inl, inr,
  All, All-append, ok, Outcome, Outcome-cases, returned, raised, after,
}
use hobo.Float.{Num}
use hobo.Risk.Model.{Order, GateDecision}
use hobo.Risk.State.{State, mark_of}
use hobo.Risk.Gate.{RiskCheck, check}
use hobo.Log.Event.{LogEvent}
use hobo.Log.Format.{Codec}
use hobo.Core.Event.{Event, Action, place_order, cancel_order}
use hobo.Core.Gateway.{OrderGateway, Intent, build_order, place, cancel}
use hobo.Core.Gateway.Submits.{place-submits}
use hobo.Core.Runner.{
  StrategyRunner, belongs_to_other_book, with_behind, run_actions, handle_each, handle,
}

abbrev pub books : {S : Type 0} → List (String × S) → List String
books strategies = map (λ entry. entry.0) strategies

module _ {F S : Type 0} ⦃n : Num F⦄ (checks : List (RiskCheck F)) where
  -- An order of the book of a strategy that the event is for, which the gate approved.
  pub record Routed (event : Event F) (strategies : List (String × S)) (sent : Order F × F)
      : Type 0 where
    pub has_book : Mem sent.0.book_id (books strategies)
    pub own_event : belongs_to_other_book event sent.0.book_id ≡ false
    pub seen : State F
    pub decision : GateDecision F
    pub gate_approves : check checks seen sent.0 ≡ ok decision
    pub approved : decision.approved ≡ true

module _ {F : Type 0} where
  -- The orders that were submitted between two gateways have the property.
  abbrev pub Adds : (Order F × F → Type 0) → OrderGateway F → OrderGateway F → Type 0
  Adds P g g' = (more : List (Order F × F)) × (g'.submitted ≡ g.submitted ++ more) × All P more

  nothing-Adds :
      (P : Order F × F → Type 0) (g g' : OrderGateway F) → g'.submitted ≡ g.submitted → Adds P g g'
  nothing-Adds P g g' e = ([], e ∙ sym (append-nil g.submitted), tt)

  Adds-trans :
      (P : Order F × F → Type 0) (g g' g'' : OrderGateway F)
      → Adds P g g'
      → Adds P g' g''
      → Adds P g g''
  Adds-trans P g g' g'' (more, e, all) (more', e', all') = (
    more ++ more',
    e' ∙ ap (λ l. l ++ more') e ∙ append_assoc g.submitted more more',
    All-append P more more' all all',
  )

module _ {F S : Type 0} ⦃n : Num F⦄ (codec : Codec (LogEvent F)) (checks : List (RiskCheck F))
    (clock : ℕ → ℕ × ℕ × ℕ) (on_event : S → Event F → State F → Outcome S (List (Action F))) where
  place-Adds :
      (event : Event F) (strategies : List (String × S)) (g : OrderGateway F) (intent : Intent F)
      (t₀ t₁ t₂ : ℕ)
      → Mem intent.book_id (books strategies)
      → belongs_to_other_book event intent.book_id ≡ false
      → Adds (Routed checks event strategies) g (after (place codec checks g intent t₀ t₁ t₂))
  unfolding build_order
  place-Adds event strategies g intent t₀ t₁ t₂ has own =
      let g' = after (place codec checks g intent t₀ t₁ t₂) in
      elim (place-submits codec checks g intent t₀ t₁ t₂) [
        | inl e ↦ nothing-Adds (Routed checks event strategies) g g' e.0
        | inr s ↦ (
          (build_order (g.order_seq + 1) intent t₀, mark_of s.decided.state intent.instrument_id)
              ∷ [],
          s.one_more,
          (
            record {
              has_book = has;
              own_event = own;
              seen = s.requested.state;
              decision = s.decision;
              gate_approves = s.gate_approves;
              approved = s.approved;
            },
            tt,
          ),
        )
      ]

  run_actions-Adds :
      (event : Event F) (strategies : List (String × S)) (book_id : String)
      (actions : List (Action F)) (g : OrderGateway F)
      → Mem book_id (books strategies)
      → belongs_to_other_book event book_id ≡ false
      → Adds
          (Routed checks event strategies)
          g
          (after (run_actions codec checks clock on_event book_id actions g))
  unfolding run_actions cancel
  run_actions-Adds event strategies book_id [] g has own =
      nothing-Adds (Routed checks event strategies) g g refl
  run_actions-Adds event strategies book_id (cancel_order order_id ∷ actions) g has own =
      run_actions-Adds event strategies book_id actions (cancel g order_id) has own
  run_actions-Adds event strategies book_id (place_order iid side qty order_type ∷ actions) g has
        own =
      let at = clock (g.order_seq + 1) in
      let intent : Intent F = record {
        book_id = book_id;
        instrument_id = iid;
        side = side;
        qty = qty;
        order_type = order_type;
      } in
      let placed = place-Adds event strategies g intent at.0 at.1 at.2 has own in
      elim (Outcome-cases (place codec checks g intent at.0 at.1 at.2)) [
        | inr (e, g', f) ↦ rw (f, run_actions) (rw f at placed)
        | inl (d, g', f) ↦
            rw (f, run_actions)
              (Adds-trans (Routed checks event strategies) g g'
                (after (run_actions codec checks clock on_event book_id actions g'))
                (rw f at placed) (run_actions-Adds event strategies book_id actions g' has own))
      ]

  behind-Adds :
      (P : Order F × F → Type 0) (g : OrderGateway F) (entry : String × S)
      (o : Outcome (StrategyRunner F S) (Unit {0}))
      → Adds P g (after o).gateway
      → Adds P g (after (with_behind entry o)).gateway
  behind-Adds P g entry (returned _ runner) h = h
  behind-Adds P g entry (raised e runner) h = h

  handle_each-Adds :
      (event : Event F) (all strategies : List (String × S)) (g : OrderGateway F)
      → ((b : String) → Mem b (books strategies) → Mem b (books all))
      → Adds
          (Routed checks event all)
          g
          (after (handle_each codec checks clock on_event event strategies g)).gateway
  unfolding handle_each
  handle_each-Adds event all [] g within = nothing-Adds (Routed checks event all) g g refl
  handle_each-Adds event all ((book_id, s) ∷ rest) g within =
      let P = Routed checks event all in
      let later = λ (g' : OrderGateway F).
        handle_each-Adds event all rest g' (λ b m. within b (mem-cons_of_mem book_id m)) in
      let has = within book_id mem-cons_self in
      elim (Bool-cases (belongs_to_other_book event book_id)) [
        | inl other ↦ rw other (
            behind-Adds P g (book_id, s) (handle_each codec checks clock on_event event rest g)
              (later g))
        | inr own ↦ rw own (elim (Outcome-cases (on_event s event g.store.state)) [
          | inr (e, s', f) ↦ rw f (nothing-Adds P g g refl)
          | inl (actions, s', f) ↦
              let ran = run_actions-Adds event all book_id actions g has own in
              elim (Outcome-cases (run_actions codec checks clock on_event book_id actions g)) [
                | inr (e, g', r) ↦ rw f (rw r (rw r at ran))
                | inl (_, g', r) ↦
                    let others = handle_each codec checks clock on_event event rest g' in
                    rw f (
                      rw r (
                        Adds-trans P g g' (after (with_behind (book_id, s') others)).gateway
                          (rw r at ran) (behind-Adds P g' (book_id, s') others (later g'))))
              ]
        ])
      ]

  -- Orders stay with their books: while the strategies handle an event, whether that returns or
  -- raises, the orders that come to the venue are of the book of a strategy; where the event is a fill
  -- or an order update they are of the book of that event; and the gate approved each of them.
  pub handle-Routed :
      (runner : StrategyRunner F S) (event : Event F)
      → Adds
          (Routed checks event runner.strategies)
          runner.gateway
          (after (handle codec checks clock on_event runner event)).gateway
  unfolding handle
  handle-Routed runner event =
      handle_each-Adds event runner.strategies runner.strategies runner.gateway (λ b m. m)
