-- ===== src/Core/Gateway/Submits.antt =====
-- What reaches the venue through `OrderGateway.place`.
use Prim.Native.Nat.{◌+◌}
use hobo.Prelude.{
  ℕ, ◌≡◌, refl, ◌⊎◌, inl, inr, true, Bool-cases, List, [], ◌∷◌, ◌++◌, ok, Result-cases, after,
  returned, raised, false, err, Exn, Outcome-cases,
}
use hobo.Float.{Num}
use hobo.Risk.Model.{GateDecision}
use hobo.Risk.State.{mark_of}
use hobo.Risk.Gate.{RiskCheck, check}
use hobo.Log.Event.{LogEvent, Envelope}
use hobo.Log.Format.{Codec}
use hobo.Core.Store.{StateStore, record_event}
use hobo.Core.Gateway.{OrderGateway, Intent, build_order, request_of, decision_of, conclude, place}

module _ {F : Type 0} ⦃n : Num F⦄ (codec : Codec (LogEvent F)) (checks : List (RiskCheck F)) where
  -- How an order came to the venue: the store recorded it without an exception, the gate approved it
  -- in the state after that, and the store recorded the verdict without an exception.
  pub record Submission (g : OrderGateway F) (intent : Intent F) (t₀ t₁ t₂ : ℕ)
      (g' : OrderGateway F) : Type 0 where
    pub requested : StateStore F
    pub decided : StateStore F
    pub decision : GateDecision F
    pub request : Envelope (LogEvent F)
    pub verdict : Envelope (LogEvent F)
    pub order_logged :
        record_event codec g.store (request_of (build_order (g.order_seq + 1) intent t₀)) t₁
        ≡ returned request requested
    pub gate_approves :
        check checks requested.state (build_order (g.order_seq + 1) intent t₀) ≡ ok decision
    pub approved : decision.approved ≡ true
    pub verdict_logged :
        record_event codec requested
          (decision_of (build_order (g.order_seq + 1) intent t₀) decision)
          t₂
        ≡ returned verdict decided
    pub store_is : g'.store ≡ decided
    pub one_more :
        g'.submitted
        ≡ g.submitted
          ++ (build_order (g.order_seq + 1) intent t₀, mark_of decided.state intent.instrument_id)
            ∷ []

  -- Why an order did not come to the venue: the request or the verdict was not recorded, the gate
  -- raised, or it refused.
  pub data Held (g : OrderGateway F) (intent : Intent F) (t₀ t₁ t₂ : ℕ) : Type 0 where
    unrequested :
        (x : Exn) (s : StateStore F)
        → record_event codec g.store (request_of (build_order (g.order_seq + 1) intent t₀)) t₁
          ≡ raised x s
        → Held g intent t₀ t₁ t₂
    unchecked :
        (e : Envelope (LogEvent F)) (s : StateStore F) (x : Exn)
        → record_event codec g.store (request_of (build_order (g.order_seq + 1) intent t₀)) t₁
          ≡ returned e s
        → check checks s.state (build_order (g.order_seq + 1) intent t₀) ≡ err x
        → Held g intent t₀ t₁ t₂
    refused :
        (e : Envelope (LogEvent F)) (s : StateStore F) (d : GateDecision F)
        → record_event codec g.store (request_of (build_order (g.order_seq + 1) intent t₀)) t₁
          ≡ returned e s
        → check checks s.state (build_order (g.order_seq + 1) intent t₀) ≡ ok d
        → d.approved ≡ false
        → Held g intent t₀ t₁ t₂
    unconcluded :
        (e : Envelope (LogEvent F)) (s : StateStore F) (d : GateDecision F) (x : Exn)
        (s' : StateStore F)
        → record_event codec g.store (request_of (build_order (g.order_seq + 1) intent t₀)) t₁
          ≡ returned e s
        → check checks s.state (build_order (g.order_seq + 1) intent t₀) ≡ ok d
        → record_event codec s (decision_of (build_order (g.order_seq + 1) intent t₀) d) t₂
          ≡ raised x s'
        → Held g intent t₀ t₁ t₂

  -- Nothing reaches the venue past the gate: after `place`, whether it returned or raised, the
  -- orders that were submitted are those from before, and then `record` or the gate raised, or the
  -- gate refused the order; or one more was submitted: the order that was built, at
  -- the current mark, and then `record` returned for the request, the gate approved the order in the
  -- state after that, and `record` returned for the verdict before the submission.
  pub place-submits :
      (g : OrderGateway F) (intent : Intent F) (t₀ t₁ t₂ : ℕ)
      → ((after (place codec checks g intent t₀ t₁ t₂)).submitted ≡ g.submitted)
          × Held g intent t₀ t₁ t₂
        ⊎ Submission g intent t₀ t₁ t₂ (after (place codec checks g intent t₀ t₁ t₂))
  unfolding place conclude build_order
  place-submits g intent t₀ t₁ t₂ =
      let order = build_order (g.order_seq + 1) intent t₀ in
      elim (Outcome-cases (record_event codec g.store (request_of order) t₁)) [
        | inr (x, s, e) ↦ inl (rw (e, place) refl, unrequested x s e)
        | inl (logged, s, e) ↦ elim (Result-cases (check checks s.state order)) [
          | inr (x, r) ↦ inl (rw (e, place) (rw r refl), unchecked logged s x e r)
          | inl (d, r) ↦ elim (Outcome-cases (record_event codec s (decision_of order d) t₂)) [
            | inr (x, s', e') ↦
                inl (
                  rw (e, place) (rw r (rw (e', conclude) refl)),
                  unconcluded logged s d x s' e r e',
                )
            | inl (concluded, s', e') ↦ elim (Bool-cases d.approved) [
              | inr denied ↦ inl (
                rw (e, place) (rw r (rw (e', conclude) (rw denied refl))),
                refused logged s d e r denied,
              )
              | inl agreed ↦ inr (
                  rw (e, place)
                    (rw r (
                      rw (e', conclude)
                        (rw agreed (record {
                          requested = s;
                          decided = s';
                          decision = d;
                          request = logged;
                          verdict = concluded;
                          order_logged = e;
                          gate_approves = r;
                          approved = agreed;
                          verdict_logged = e';
                          store_is = refl;
                          one_more = refl;
                        })))))
            ]
          ]
        ]
      ]
