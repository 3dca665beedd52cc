-- ===== src/Risk/Gate/Answers.antt =====
-- The gate of hobo/risk/gate on a desk that has its limits: no check raises.
use hobo.Prelude.{
  ◌≡◌, refl, ap, ◌∙◌, inl, inr, Bool-cases, some, List, [], ◌∷◌, All, Result, ok, err,
}
use hobo.Prelude.Dict
use hobo.Prelude.Dict.{Dict}
use hobo.Float.{Num}
use hobo.Risk.Model.{Order, GateDecision, Book}
use hobo.Risk.State.{State}
use hobo.Risk.Gate.{
  RiskCheck, OrderContext, evaluate, run_checks, check, default_checks, build_order_context,
  kill_switch_check,
}
use hobo.Risk.Gate.Announced.{build_order_context-Built, order_of_context}
use hobo.Risk.Fold.Covers.{All-get}
use hobo.Risk.Fold.Given.{LimitedBook, IsLimited}

abbrev Returns : {A : Type 0} → Result A → Type 0
Returns (ok a) = Unit
Returns (err e) = ⊥

value_of : {A : Type 0} (r : Result A) → Returns r → (a : A) × (r ≡ ok a)
value_of (ok a) h = (a, refl)
value_of (err e) h = absurd h

module _ {F : Type 0} ⦃n : Num F⦄ where
  abbrev Evaluates : State F → OrderContext F → RiskCheck F → Type 0
  Evaluates s ctx rule = Returns (evaluate rule s ctx)

  kill_switch_answers :
      (s : State F) (ctx : OrderContext F) (b : Book F)
      → Dict.get s.desk.books ctx.order.book_id ≡ some b
      → Evaluates s ctx kill_switch_check
  unfolding evaluate
  kill_switch_answers s ctx b e = elim (Bool-cases s.desk.kill_switch) [
    | inl k ↦ rw k tt
    | inr k ↦ rw k (rw e tt)
  ]

  default_checks-Evaluates :
      (max : F) (s : State F) (ctx : OrderContext F) (b : Book F)
      → IsLimited s
      → Dict.get s.desk.books ctx.order.book_id ≡ some b
      → All (Evaluates s ctx) (default_checks max)
  unfolding evaluate
  default_checks-Evaluates max s ctx b h e =
      let book = All-get LimitedBook s.desk.books ctx.order.book_id b e h.books in
      let (notional, np) = book.0 in
      let (drawdown, dp) = book.1 in
      let (position, pp) = book.2 in
      let (desk_notional, dnp) = h.desk_limits.0 in
      let (desk_drawdown, ddp) = h.desk_limits.1 in
      (
        kill_switch_answers s ctx b e,
        (tt, (rw e (rw pp tt), (rw e (rw np tt), (rw e (rw dp tt), (rw dnp tt, (rw ddp tt, tt)))))),
      )

  run_checks-answers :
      (rules : List (RiskCheck F)) (s : State F) (ctx : OrderContext F) (order : Order F)
      → All (Evaluates s ctx) rules
      → Returns (run_checks rules s ctx order)
  unfolding run_checks
  run_checks-answers [] s ctx order h = tt
  run_checks-answers (rule ∷ rules) s ctx order h =
      let (result, r) = value_of (evaluate rule s ctx) h.0 in
      let rest = run_checks-answers rules s ctx order h.1 in
      elim (Bool-cases result.passed) [ inl e ↦ rw (r, e) rest | inr e ↦ rw (r, e) tt ]

  -- The gate answers: on a desk with its limits the checks raise for no order whose context could be
  -- built.
  pub check-answers :
      (max : F) (s : State F) (order : Order F) (ctx : OrderContext F)
      → IsLimited s
      → build_order_context s order ≡ ok ctx
      → (d : GateDecision F) × (check (default_checks max) s order ≡ ok d)
  unfolding check
  check-answers max s order ctx h built =
      let b = build_order_context-Built s order ctx built in
      let here =
        ap (λ (o : Order F). Dict.get s.desk.books o.book_id) (order_of_context s order ctx built)
        ∙ b.on_desk in
      let (d, runs) = value_of (run_checks (default_checks max) s ctx order) (
        run_checks-answers (default_checks max) s ctx order
          (default_checks-Evaluates max s ctx b.book h here)) in
      (d, rw built runs)
