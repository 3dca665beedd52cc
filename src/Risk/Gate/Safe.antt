-- ===== src/Risk/Gate/Safe.antt =====
-- What the gate protects: the limits after an approved order is filled at the mark.
use hobo.Prelude.{
  ℕ, ◌≡◌, refl, ap, ◌∙◌, inl, inr, true, false, some, ok, bind-eq-ok, returned, Bool-cases, All,
}
use mathlib.Core.Path.{subst}
use hobo.Prelude.Dict
use hobo.Float.{Num, IsExact, ◌-◌, ◌<?◌, neg, abs, max}
use hobo.Float.Order.{lt_asymm}
use hobo.Risk.Model.{Order, Book, position_in}
use hobo.Risk.State.{
  State, book_notional, book_total_pnl, book_drawdown, desk_gross_notional, desk_total_pnl,
  desk_drawdown,
}
use hobo.Risk.Fold.{raise_mark, apply_event}
use hobo.Risk.Gate.{OrderContext, build_order_context, approve, check, default_checks}
use hobo.Risk.Gate.Within.{InBook, UnderLimit, Within}
use hobo.Risk.Gate.Verdict.{check-approves_iff}
use hobo.Risk.Gate.Announced.{order_of_context, logged_fill, Announced}
use hobo.Risk.Gate.Preview.{build_order_context-previews}

module _ {F : Type 0} ⦃n : Num F⦄ where
  -- Book `b` keeps its limits in the state `s`, and the desk keeps its own. No kill switch is on.
  pub record KeepsLimits (s : State F) (order : Order F) : Type 0 where
    pub book : Book F
    pub on_desk : Dict.get s.desk.books order.book_id ≡ some book
    pub book_trades : book.kill_switch ≡ false
    pub desk_trades : s.desk.kill_switch ≡ false
    pub position_kept :
        UnderLimit (abs (position_in book order.instrument_id).qty) book.limits.position_limit
    pub book_notional_kept :
        (v : F) × (book_notional s book ≡ ok v) × UnderLimit v book.limits.notional_limit
    pub book_drawdown_kept :
        (v : F) × (book_drawdown s book ≡ ok v) × UnderLimit v book.limits.drawdown_limit
    pub desk_notional_kept :
        (v : F) × (desk_gross_notional s ≡ ok v) × UnderLimit v s.desk.limits.notional_limit
    pub desk_drawdown_kept :
        (v : F) × (desk_drawdown s ≡ ok v) × UnderLimit v s.desk.limits.drawdown_limit

module _ {F : Type 0} ⦃n : Num F⦄ (laws : IsExact F) where
  open laws use {lt_irrefl, add_mono, sub-eq-add-neg, add-neg}

  sub_self : (a : F) → a - a ≡ n.zero_f
  sub_self a = sub-eq-add-neg a a ∙ add-neg a

  sub_neg : (a b : F) → (a <? b) ≡ true → (a - b <? n.zero_f) ≡ true
  sub_neg a b h = rw sub-eq-add-neg (rw add-neg at (add_mono a b (neg b) h))

  -- The drawdown does not depend on whether the mark is raised first.
  drawdown_raised :
      (mark pnl : F) → max n.zero_f (raise_mark mark pnl - pnl) ≡ max n.zero_f (mark - pnl)
  drawdown_raised mark pnl = elim (Bool-cases (mark <? pnl)) [
    | inr e ↦ rw e refl
    | inl e ↦ rw (e, sub_self, lt_irrefl, lt_asymm laws.is_ordered _ _ (sub_neg mark pnl e)) refl
  ]

  -- What holds of the order's book holds of the book that was found.
  at_book :
      (s : State F) (ctx : OrderContext F) (P : Book F → Type 0) (b : Book F)
      → Dict.get s.desk.books ctx.order.book_id ≡ some b
      → InBook s ctx P
      → P b
  at_book s ctx P b e (c, h, p) = subst P (cc (h, e)) p

  book_drawdown-raised :
      (s : State F) (b : Book F) (mark pnl : F)
      → b.high_water_mark_usdt ≡ raise_mark mark pnl
      → book_total_pnl s b ≡ ok pnl
      → book_drawdown s b ≡ ok (max n.zero_f (mark - pnl))
  unfolding book_drawdown
  book_drawdown-raised s b mark pnl e h =
      rw (h, book_drawdown, e) (ap ok (drawdown_raised mark pnl))

  desk_drawdown-raised :
      (s : State F) (mark pnl : F)
      → s.desk.high_water_mark_usdt ≡ raise_mark mark pnl
      → desk_total_pnl s ≡ ok pnl
      → desk_drawdown s ≡ ok (max n.zero_f (mark - pnl))
  unfolding desk_drawdown
  desk_drawdown-raised s mark pnl e h = rw (h, desk_drawdown, e) (ap ok (drawdown_raised mark pnl))

  keeps_limits :
      (max_order_size : F) (s s' : State F) (ctx : OrderContext F)
      → Announced s s' ctx
      → All (Within s ctx) (default_checks max_order_size)
      → KeepsLimits s' ctx.order
  keeps_limits max_order_size s s' ctx a
        (
          (desk_on, book_on),
          (_, (in_position, (in_notional, (in_drawdown, (in_desk, (in_desk_drawdown, _)))))),
        ) =
      let at : (P : Book F → Type 0) → InBook s ctx P → P a.book_before =
        λ P h. at_book s ctx P a.book_before a.was_on_desk h in
      record {
        book = a.book_after;
        on_desk = a.still_on_desk;
        book_trades = a.switch_kept ∙ at _ book_on;
        desk_trades = a.desk_switch_kept ∙ desk_on;
        position_kept = rw (a.limits_kept, a.qty_is) (at _ in_position);
        book_notional_kept = (_, a.book_notional_is, rw a.limits_kept (at _ in_notional));
        book_drawdown_kept = (
          _,
          book_drawdown-raised s' a.book_after _ _ a.book_mark_is a.book_pnl_is,
          rw a.limits_kept (at _ in_drawdown),
        );
        desk_notional_kept = (_, a.desk_notional_is, rw a.desk_limits_kept in_desk);
        desk_drawdown_kept = (
          _,
          desk_drawdown-raised s' _ _ a.desk_mark_is a.desk_pnl_is,
          rw a.desk_limits_kept in_desk_drawdown,
        );
      }

  -- The gate is sound: where the default checks approve an order, applying the event of a fill of
  -- the whole order at the mark, without a fee, returns a state in which no kill switch is on for
  -- the order, and the position, the notionals and the drawdowns of the book and of the desk are
  -- all known and none is above its limit. (The arithmetic is exact.)
  pub approved-KeepsLimits :
      (max_order_size : F) (s : State F) (order : Order F) (seq ts : ℕ)
      → check (default_checks max_order_size) s order ≡ ok (approve order)
      → (s' : State F) × (apply_event s (logged_fill s order seq ts) ≡ returned tt s')
        × KeepsLimits s' order
  unfolding check
  approved-KeepsLimits max_order_size s order seq ts h =
      let (ctx, built, _) = bind-eq-ok (build_order_context s order) _ h in
      let (s', folds, a) = build_order_context-previews laws s order ctx seq ts built in
      let within = (check-approves_iff (default_checks max_order_size) s order ctx built).0 h in
      (
        s',
        folds,
        subst (KeepsLimits s') (order_of_context s order ctx built)
            (keeps_limits max_order_size s s' ctx a within),
      )
