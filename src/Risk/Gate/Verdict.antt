-- ===== src/Risk/Gate/Verdict.antt =====
-- What a verdict of hobo/risk/gate/engine.py says: the limits that hold where an order is approved,
-- and the first one that does not where it is refused.
use hobo.Prelude.{
  ap, ◌≡◌, refl, ◌↔◌, ◌⊎◌, inl, inr, false, List, [], ◌∷◌, ◌++◌, All, arith, ok, Result-cases,
}
use hobo.Float.{Num}
use hobo.Risk.Model.{Order, GateDecision}
use hobo.Risk.State.{State}
use hobo.Risk.Gate.Within.{reason_of, Within, evaluate-Tells, Within-passes}
use hobo.Risk.Gate.{
  OrderContext, RiskCheck, build_order_context, evaluate, approve, run_checks, check,
}

module _ {F : Type 0} ⦃n : Num F⦄ where
  run_checks-approves :
      (rules : List (RiskCheck F)) (s : State F) (ctx : OrderContext F) (order : Order F)
      → All (Within s ctx) rules
      → run_checks rules s ctx order ≡ ok (approve order)
  unfolding run_checks
  run_checks-approves [] s ctx order h = refl
  run_checks-approves (rule ∷ rules) s ctx order (h, hs) =
      rw (Within-passes s ctx rule h) (run_checks-approves rules s ctx order hs)

  -- The verdict `d` refuses the order for the first check of `rules` that does not hold.
  pub record RefusedAt (s : State F) (ctx : OrderContext F) (rules : List (RiskCheck F))
      (d : GateDecision F) : Type 0 where
    pub before : List (RiskCheck F)
    pub rule : RiskCheck F
    pub later : List (RiskCheck F)
    pub split : rules ≡ before ++ rule ∷ later
    pub all_before : All (Within s ctx) before
    pub not_within : ¬ Within s ctx rule
    pub reason_given : d.reason ≡ reason_of rule
    pub not_approved : d.approved ≡ false

  run_checks-verdict :
      (rules : List (RiskCheck F)) (s : State F) (ctx : OrderContext F) (order : Order F)
      (d : GateDecision F)
      → run_checks rules s ctx order ≡ ok d
      → (d ≡ approve order) × All (Within s ctx) rules ⊎ RefusedAt s ctx rules d
  unfolding run_checks
  run_checks-verdict [] s ctx order d h = inl (ground arith, tt)
  run_checks-verdict (rule ∷ rules) s ctx order d h = elim (Result-cases (evaluate rule s ctx)) [
    | inr (x, r) ↦ cc (rw (r, run_checks) at h)
    | inl (result, r) ↦ elim (evaluate-Tells s ctx rule result r) [
      | inr (failed, why, not_within) ↦
          let e = rw (r, run_checks, failed) at h in
          inr (record {
            before = [];
            rule = rule;
            later = rules;
            split = refl;
            all_before = tt;
            not_within = not_within;
            reason_given = ground arith;
            not_approved = ground arith;
          })
      | inl (passed, within) ↦
          elim (run_checks-verdict rules s ctx order d (rw (r, run_checks, passed) at h)) [
            | inl (e, hs) ↦ inl (e, (within, hs))
            | inr at_later ↦ inr (record {
              before = rule ∷ at_later.before;
              rule = at_later.rule;
              later = at_later.later;
              split = ap (λ l. rule ∷ l) at_later.split;
              all_before = (within, at_later.all_before);
              not_within = at_later.not_within;
              reason_given = at_later.reason_given;
              not_approved = at_later.not_approved;
            })
          ]
    ]
  ]

  -- The gate approves an order exactly when every check holds of the previewed fill: it returns
  -- then, and the verdict is the approval.
  pub check-approves_iff :
      (checks : List (RiskCheck F)) (s : State F) (order : Order F) (ctx : OrderContext F)
      → build_order_context s order ≡ ok ctx
      → (check checks s order ≡ ok (approve order)) ↔ All (Within s ctx) checks
  unfolding check
  check-approves_iff checks s order ctx h = (
    λ e. elim (run_checks-verdict checks s ctx order (approve order) (rw h at e)) [
      | inl (_, hs) ↦ hs
      | inr refused ↦ absurd (ground (arith, refused.not_approved))
    ],
    λ hs. rw h (run_checks-approves checks s ctx order hs),
  )

  -- A verdict that is not the approval refuses the order for the first check, in the order in which
  -- the engine holds them, that does not hold of the previewed fill, and gives that check's reason.
  pub check-refuses :
      (checks : List (RiskCheck F)) (s : State F) (order : Order F) (ctx : OrderContext F)
      (d : GateDecision F)
      → build_order_context s order ≡ ok ctx
      → check checks s order ≡ ok d
      → d.approved ≡ false
      → RefusedAt s ctx checks d
  unfolding check
  check-refuses checks s order ctx d h e refused =
      elim (run_checks-verdict checks s ctx order d (rw h at e)) [
        | inl (a, _) ↦ absurd (ground arith)
        | inr at_rule ↦ at_rule
      ]
