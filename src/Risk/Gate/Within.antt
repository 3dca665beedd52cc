-- ===== src/Risk/Gate/Within.antt =====
-- What each check of hobo/risk/gate/checks.py stands for, and that it passes exactly when this
-- holds.
use hobo.Prelude.{
  ◌≡◌, refl, sym, ◌∙◌, ◌⊎◌, inl, inr, true, false, Option, none, some, Bool-cases, Option-cases,
  arith, Result, ok, key_error, or_raise, bind,
}
use mathlib.Core.Path.{subst}
use mathlib.Core.Option.{some-injective}
use hobo.Prelude.Dict
use hobo.Prelude.Dict.{Dict}
use hobo.Float.{Num, ◌-◌, ◌<?◌, abs, max}
use hobo.Risk.Model.{
  Book, RejectReason, kill_switch, fat_finger, book_position_limit, book_notional_limit,
  book_drawdown_limit, desk_gross_notional_limit, desk_drawdown_limit, Value,
}
use hobo.Risk.State.{State}
use hobo.Risk.Gate.{
  OrderContext, CheckResult, RiskCheck, kill_switch_check, fat_finger_check, book_position_check,
  book_notional_check, book_drawdown_check, desk_gross_notional_check, desk_drawdown_check,
  evaluate, book_of, check_limit, passed_check,
}

-- The reason that a check gives.
abbrev pub reason_of : {F : Type 0} → RiskCheck F → RejectReason
reason_of kill_switch_check = kill_switch
reason_of (fat_finger_check max_order_size) = fat_finger
reason_of book_position_check = book_position_limit
reason_of book_notional_check = book_notional_limit
reason_of book_drawdown_check = book_drawdown_limit
reason_of desk_gross_notional_check = desk_gross_notional_limit
reason_of desk_drawdown_check = desk_drawdown_limit

module _ {F : Type 0} ⦃n : Num F⦄ where
  -- The limit is set, and the value is not above it.
  abbrev pub UnderLimit : F → Option F → Type 0
  UnderLimit value limit = (l : F) × (limit ≡ some l) × ((l <? value) ≡ false)

  -- The order's book is on the desk, and `P` holds of it.
  abbrev pub InBook : State F → OrderContext F → (Book F → Type 0) → Type 0
  InBook s ctx P = (b : Book F) × (Dict.get s.desk.books ctx.order.book_id ≡ some b) × P b

  -- What each check stands for, after the previewed fill.
  abbrev pub Within : State F → OrderContext F → RiskCheck F → Type 0
  Within s ctx kill_switch_check =
      (s.desk.kill_switch ≡ false) × InBook s ctx (λ b. b.kill_switch ≡ false)
  Within s ctx (fat_finger_check max_order_size) = (max_order_size <? ctx.order.qty) ≡ false
  Within s ctx book_position_check =
      InBook s ctx (λ b. UnderLimit (abs ctx.new_qty) b.limits.position_limit)
  Within s ctx book_notional_check =
      InBook s ctx (λ b. UnderLimit ctx.new_book_notional b.limits.notional_limit)
  Within s ctx book_drawdown_check = InBook s ctx λ b.
      UnderLimit (max n.zero_f (b.high_water_mark_usdt - ctx.hypothetical_book_pnl))
        b.limits.drawdown_limit
  Within s ctx desk_gross_notional_check =
      UnderLimit ctx.new_desk_gross_notional s.desk.limits.notional_limit
  Within s ctx desk_drawdown_check =
      UnderLimit (max n.zero_f (s.desk.high_water_mark_usdt - ctx.hypothetical_desk_pnl))
        s.desk.limits.drawdown_limit

  -- A check that returns says whether what it stands for, `P`, holds.
  abbrev pub Tells : RejectReason → Type 0 → CheckResult F → Type 0
  Tells reason P result =
      (result.passed ≡ true) × P ⊎ (result.passed ≡ false) × (result.reason ≡ reason) × (¬ P)

  limit-Tells :
      (value : F) (limit : Option F) (reason : RejectReason) (detail : F → Dict (Value F))
      (result : CheckResult F)
      → bind (or_raise limit key_error) (λ l. ok (check_limit value l reason (detail l)))
        ≡ ok result
      → Tells reason (UnderLimit value limit) result
  limit-Tells value none reason detail result h = cc
  limit-Tells value (some l) reason detail result h = elim (Bool-cases (l <? value)) [
    | inl above ↦
        let e = rw above at h in inr (ground arith, ground arith, λ (l', eq, below). ground arith)
    | inr below ↦ inl (ground arith, (l, refl, below))
  ]

  book-Tells :
      (s : State F) (ctx : OrderContext F) (P : Book F → Type 0) (reason : RejectReason)
      (f : Book F → Result (CheckResult F)) (result : CheckResult F)
      → ((b : Book F) → f b ≡ ok result → Tells reason (P b) result)
      → bind (book_of s ctx) f ≡ ok result
      → Tells reason (InBook s ctx P) result
  book-Tells s ctx P reason f result tells h =
      elim (Option-cases (Dict.get s.desk.books ctx.order.book_id)) [
        | inl e ↦ cc (rw e at h)
        | inr (b, e) ↦ elim (tells b (rw e at h)) [
          | inl (passed, p) ↦ inl (passed, (b, e, p))
          | inr (failed, why, not_p) ↦
              inr (failed, why, λ (c, e', p). not_p (subst P (some-injective _ _ (sym e' ∙ e)) p))
        ]
      ]

  killed-Tells :
      (s : State F) (ctx : OrderContext F) (result : CheckResult F)
      → evaluate kill_switch_check s ctx ≡ ok result
      → Tells kill_switch (Within s ctx kill_switch_check) result
  unfolding evaluate
  killed-Tells s ctx result h = elim (Bool-cases s.desk.kill_switch) [
    | inl k ↦ ground arith
    | inr k ↦
        elim (book-Tells s ctx (λ b. b.kill_switch ≡ false) kill_switch _ result
          (λ b e. ground arith) (rw (k, evaluate) at h)) [
            | inl (passed, p) ↦ inl (passed, (k, p))
            | inr (failed, why, not_p) ↦ inr (failed, why, λ (_, p). not_p p)
          ]
  ]

  pub evaluate-Tells :
      (s : State F) (ctx : OrderContext F) (rule : RiskCheck F) (result : CheckResult F)
      → evaluate rule s ctx ≡ ok result
      → Tells (reason_of rule) (Within s ctx rule) result
  unfolding evaluate
  evaluate-Tells s ctx kill_switch_check result h = killed-Tells s ctx result h
  evaluate-Tells s ctx (fat_finger_check m) result h = ground arith
  evaluate-Tells s ctx book_position_check result h =
      book-Tells s ctx _ _ _ result
        (λ b. limit-Tells (abs ctx.new_qty) b.limits.position_limit _ _ result) h
  evaluate-Tells s ctx book_notional_check result h =
      book-Tells s ctx _ _ _ result
        (λ b. limit-Tells ctx.new_book_notional b.limits.notional_limit _ _ result) h
  evaluate-Tells s ctx book_drawdown_check result h =
      book-Tells s ctx _ _ _ result
        (λ b.
          limit-Tells (max n.zero_f (b.high_water_mark_usdt - ctx.hypothetical_book_pnl))
            b.limits.drawdown_limit _ _ result)
        h
  evaluate-Tells s ctx desk_gross_notional_check result h =
      limit-Tells ctx.new_desk_gross_notional s.desk.limits.notional_limit _ _ result h
  evaluate-Tells s ctx desk_drawdown_check result h =
      limit-Tells (max n.zero_f (s.desk.high_water_mark_usdt - ctx.hypothetical_desk_pnl))
        s.desk.limits.drawdown_limit _ _ result h

  UnderLimit-passes :
      (value : F) (limit : Option F) (reason : RejectReason) (detail : F → Dict (Value F))
      → UnderLimit value limit
      → bind (or_raise limit key_error) (λ l. ok (check_limit value l reason (detail l)))
        ≡ ok passed_check
  UnderLimit-passes value limit reason detail (l, e, below) = rw (e, below)

  -- Where what it stands for holds, a check returns and passes.
  pub Within-passes :
      (s : State F) (ctx : OrderContext F) (rule : RiskCheck F)
      → Within s ctx rule
      → evaluate rule s ctx ≡ ok passed_check
  unfolding evaluate
  Within-passes s ctx kill_switch_check (k, (b, e, k')) = rw (k, e, k')
  Within-passes s ctx (fat_finger_check m) h = rw h
  Within-passes s ctx book_position_check (b, e, h) =
      rw e (UnderLimit-passes (abs ctx.new_qty) b.limits.position_limit _ _ h)
  Within-passes s ctx book_notional_check (b, e, h) =
      rw e (UnderLimit-passes ctx.new_book_notional b.limits.notional_limit _ _ h)
  Within-passes s ctx book_drawdown_check (b, e, h) =
      rw e (UnderLimit-passes _ b.limits.drawdown_limit _ _ h)
  Within-passes s ctx desk_gross_notional_check h = UnderLimit-passes _ _ _ _ h
  Within-passes s ctx desk_drawdown_check h = UnderLimit-passes _ _ _ _ h
