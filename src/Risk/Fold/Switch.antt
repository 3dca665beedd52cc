-- ===== src/Risk/Fold/Switch.antt =====
-- The desk kill switch of hobo/risk/fold.py is changed by its own event only.
use hobo.Prelude.{
  String, ◌≡◌, refl, sym, ap, ◌∙◌, inl, inr, Bool, true, false, Bool-cases, Option-cases, str_eq,
  Result-cases, returned, after, Outcome, Outcome-cases,
}
use hobo.Prelude.Dict
use hobo.Float.{Num}
use hobo.Risk.State.{State, instrument_of}
use hobo.Risk.Fold.{
  book_at, change_limit, update_high_water_marks, apply_mark, fill_book, apply_fill, apply_funding,
  apply_limit_change, handle, apply_event,
}
use hobo.Risk.Fold.Marks.{update_high_water_marks-returned}
use hobo.Log.Event.{
  Fill, LimitChange, LogEvent, mark_update, funding_update, fill, limit_change, kill_switch,
  order_request, gate_decision, reconciliation_warning, unknown, Envelope,
}

abbrev pub is_switch : {F : Type 0} → LogEvent F → Bool
is_switch (kill_switch p) = true
is_switch (mark_update iid price ts) = false
is_switch (funding_update iid rate time) = false
is_switch (fill p) = false
is_switch (limit_change p) = false
is_switch (order_request p) = false
is_switch (gate_decision p) = false
is_switch (reconciliation_warning p) = false
is_switch (unknown event_type) = false

module _ {F : Type 0} ⦃n : Num F⦄ where
  marks-kept :
      (s s' : State F)
      → update_high_water_marks s ≡ returned tt s'
      → s'.desk.kill_switch ≡ s.desk.kill_switch
  marks-kept s s' h =
      ap (λ (s : State F). s.desk.kill_switch) (update_high_water_marks-returned s s' h).2

  fill-kept :
      (s s' : State F) (p : Fill F)
      → apply_fill s p ≡ returned tt s'
      → s'.desk.kill_switch ≡ s.desk.kill_switch
  unfolding apply_fill fill_book
  fill-kept s s' p h = elim (Option-cases (Dict.get s.desk.books p.book_id)) [
    | inl e ↦ cc (rw (e, apply_fill) at h)
    | inr (book, e) ↦ elim (Result-cases (instrument_of s p.instrument_id)) [
      | inr (x, r) ↦ cc (rw (r, fill_book) at (rw (e, apply_fill) at h))
      | inl (i, r) ↦ marks-kept _ s' (rw (r, fill_book) at (rw (e, apply_fill) at h))
    ]
  ]

  funding-kept :
      (s s' : State F) (iid : String) (rate : F)
      → apply_funding s iid rate ≡ returned tt s'
      → s'.desk.kill_switch ≡ s.desk.kill_switch
  unfolding apply_funding
  funding-kept s s' iid rate h = elim (Result-cases (instrument_of s iid)) [
    | inr (x, r) ↦ cc (rw (r, apply_funding) at h)
    | inl (i, r) ↦ marks-kept _ s' (rw (r, apply_funding) at h)
  ]

  limit-kept :
      (s : State F) (p : LimitChange F)
      → (after (apply_limit_change s p)).desk.kill_switch ≡ s.desk.kill_switch
  unfolding apply_limit_change
  limit-kept s p = elim (Bool-cases (str_eq p.scope "BOOK")) [
    | inl b ↦ elim (Option-cases (book_at s p.book_id)) [
      | inl e ↦ rw (b, e) refl
      | inr (book, e) ↦ elim (Result-cases (change_limit book.limits p)) [
        | inr (x, r) ↦ rw (b, e, r) refl
        | inl (limits, r) ↦ rw (b, e, r) refl
      ]
    ]
    | inr b ↦ elim (Bool-cases (str_eq p.scope "DESK")) [
      | inl d ↦ elim (Result-cases (change_limit s.desk.limits p)) [
        | inr (x, r) ↦ rw (b, d, r) refl
        | inl (limits, r) ↦ rw (b, d, r) refl
      ]
      | inr d ↦ rw (b, d) refl
    ]
  ]

  handle-kept :
      (s s' : State F) (event : LogEvent F)
      → is_switch event ≡ false
      → handle s event ≡ returned tt s'
      → s'.desk.kill_switch ≡ s.desk.kill_switch
  unfolding handle apply_mark
  handle-kept s s' (mark_update iid price ts) c h = marks-kept _ s' h
  handle-kept s s' (funding_update iid rate time) c h = funding-kept s s' iid rate h
  handle-kept s s' (fill p) c h = fill-kept s s' p h
  handle-kept s s' (limit_change p) c h =
      sym (ap (λ (o : Outcome (State F) (Unit {0})). (after o).desk.kill_switch) h) ∙ limit-kept s p
  handle-kept s s' (kill_switch p) c h = cc
  handle-kept s s' (order_request p) c h =
      ap (λ (o : Outcome (State F) (Unit {0})). (after o).desk.kill_switch) (sym h)
  handle-kept s s' (gate_decision p) c h =
      ap (λ (o : Outcome (State F) (Unit {0})). (after o).desk.kill_switch) (sym h)
  handle-kept s s' (reconciliation_warning p) c h =
      ap (λ (o : Outcome (State F) (Unit {0})). (after o).desk.kill_switch) (sym h)
  handle-kept s s' (unknown event_type) c h = cc

  -- An event that `apply_event` folds and that is no kill-switch event leaves the desk's kill switch as it was.
  pub apply_event-keeps_switch :
      (s s' : State F) (envelope : Envelope (LogEvent F))
      → is_switch envelope.event ≡ false
      → apply_event s envelope ≡ returned tt s'
      → s'.desk.kill_switch ≡ s.desk.kill_switch
  unfolding apply_event
  apply_event-keeps_switch s s' envelope c h = elim (Outcome-cases (handle s envelope.event)) [
    | inr (x, s₁, e) ↦ cc (rw (e, apply_event) at h)
    | inl (_, s₁, e) ↦
        sym (
          ap (λ (o : Outcome (State F) (Unit {0})). (after o).desk.kill_switch)
            (rw (e, apply_event) at h))
        ∙ handle-kept s s₁ envelope.event c e
  ]
