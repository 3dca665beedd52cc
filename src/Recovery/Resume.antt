-- ===== src/Recovery/Resume.antt =====
-- Where a snapshot is used does not matter: the state after a recovery is that of the whole log.
use Prim.Native.Nat.{◌+◌, ◌^◌}
use hobo.Prelude.{
  Option, Bytes, ℕ, ◌<◌, ◌≤◌, ◌≡◌, refl, sym, ap, ◌∙◌, inl, inr, true, ltb, ltb_no, lt→ltb,
  Bool-cases, none, some, List, [], ◌∷◌, ◌++◌, length, Outcome, returned, raised, after,
  Outcome-cases, ok, arith,
}
use hobo.Float.{Num}
use hobo.Risk.State.{State}
use hobo.Risk.Fold.{handle, apply_event}
use hobo.Log.Event.{LogEvent, Envelope}
use hobo.Log.Format.{Codec, replay}
use hobo.Log.Writer.{LogWriter}
use hobo.Log.Writer.Written.{Numbered, Written}
use hobo.Log.Writer.Recovered.{replay-Written}
use hobo.Recovery.{replay_tail, recover_state, start_state}

pub Numbered-first :
    {E : Type 0} (n : ℕ) (xs ys : List (Envelope E)) → Numbered n (xs ++ ys) → Numbered n xs
Numbered-first n [] ys h = tt
Numbered-first n (x ∷ xs) ys (e, h) = (e, Numbered-first (n + 1) xs ys h)

module _ {F : Type 0} ⦃n : Num F⦄ where
  pub apply_event-last_seq :
      (s s' : State F) (e : Envelope (LogEvent F))
      → apply_event s e ≡ returned tt s'
      → s'.last_seq ≡ e.seq
  unfolding apply_event
  apply_event-last_seq s s' e h = elim (Outcome-cases (handle s e.event)) [
    | inr (x, s₁, r) ↦ cc (rw (r, apply_event) at h)
    | inl (_, s₁, r) ↦
        sym
          (ap (λ (o : Outcome (State F) (Unit {0})). (after o).last_seq) (rw (r, apply_event) at h))
  ]

  -- The outcome without the number of events.
  abbrev pub without_count : Outcome (State F) ℕ → Outcome (State F) (Unit {0})
  without_count (returned k s) = returned tt s
  without_count (raised e s) = raised e s

  count-irrelevant :
      (es : List (Envelope (LogEvent F))) (s : State F) (k l : ℕ)
      → without_count (replay_tail s k es) ≡ without_count (replay_tail s l es)
  unfolding replay_tail
  count-irrelevant [] s k l = refl
  count-irrelevant (e ∷ es) s k l = elim (Bool-cases (ltb s.last_seq e.seq)) [
    | inr old ↦ rw old (count-irrelevant es s k l)
    | inl newer ↦ elim (Outcome-cases (apply_event s e)) [
      | inr (x, s₁, r) ↦ rw newer (rw r refl)
      | inl (_, s₁, r) ↦ rw newer (rw r (count-irrelevant es s₁ (k + 1) (l + 1)))
    ]
  ]

  -- Envelopes that the state holds are passed over.
  replay_tail-old :
      (xs ys : List (Envelope (LogEvent F))) (s : State F) (m k : ℕ)
      → Numbered m xs
      → m + length xs ≤ s.last_seq
      → replay_tail s k (xs ++ ys) ≡ replay_tail s k ys
  unfolding replay_tail
  replay_tail-old [] ys s m k h held = refl
  replay_tail-old (x ∷ xs) ys s m k (e, h) held =
      rw (ltb_no s.last_seq x.seq (omega (arith, e)))
        (replay_tail-old xs ys s (m + 1) k h (omega arith))

  -- What was replayed, and then the rest.
  pub record Replayed (m : ℕ) (xs ys : List (Envelope (LogEvent F))) (s : State F) (k : ℕ)
      (s' : State F) : Type 0 where
    pub reached : s'.last_seq ≡ m + length xs
    pub onwards : without_count (replay_tail s k (xs ++ ys)) ≡ without_count (replay_tail s' k ys)

  pub replay_tail-Replayed :
      (xs ys : List (Envelope (LogEvent F))) (s s' : State F) (m k l : ℕ)
      → Numbered m xs
      → s.last_seq ≡ m
      → replay_tail s k xs ≡ returned l s'
      → Replayed m xs ys s k s'
  unfolding replay_tail
  replay_tail-Replayed [] ys s s' m k l h at r =
      let same : s ≡ s' = ap after r in
      record {
        reached = ap (λ (t : State F). t.last_seq) (sym same) ∙ at ∙ omega arith;
        onwards = ap (λ t. without_count (replay_tail t k ys)) same;
      }
  replay_tail-Replayed (x ∷ xs) ys s s' m k l (e, h) at r =
      let newer : ltb s.last_seq x.seq ≡ true = lt→ltb s.last_seq x.seq (omega (arith, e)) in
      elim (Outcome-cases (apply_event s x)) [
        | inr (x, s₁, q) ↦ cc (rw q at (rw newer at r))
        | inl (_, s₁, q) ↦
            let next = apply_event-last_seq s s₁ x q ∙ e in
            let rest =
              replay_tail-Replayed xs ys s₁ s' (m + 1) (k + 1) l h next (rw q at (rw newer at r)) in
            record {
              reached = rest.reached ∙ omega arith;
              onwards = rw newer (rw q (rest.onwards ∙ count-irrelevant ys s' (k + 1) k));
            }
      ]

  pub recover_state-replayed :
      (codec : Codec (LogEvent F)) (from : Option (State F)) (fresh : State F) (file : Bytes)
      (es : List (Envelope (LogEvent F)))
      → replay codec file ≡ ok es
      → recover_state codec from fresh file ≡ replay_tail (start_state from fresh) 0 es
  unfolding recover_state
  recover_state-replayed codec from fresh file es h = rw (h, recover_state) refl

  -- Recovery does not depend on the snapshot: let the events of the committed log be `xs` and then
  -- `ys`, and let a snapshot be the state that replaying `xs` from the fresh state gave. Then recovery
  -- from the snapshot and the log gives the state, or raises the exception in the state, that recovery
  -- from the log alone does. The log is one that the writer wrote, of less than 2^63 bytes, and the
  -- fresh state has folded no event.
  pub recover_state-snapshot :
      (codec : Codec (LogEvent F)) (w : LogWriter) (xs ys ps : List (Envelope (LogEvent F)))
      (fresh snapshot : State F) (l : ℕ)
      → Written codec w (xs ++ ys) ps
      → w.capacity < 2 ^ 63
      → fresh.last_seq ≡ 0
      → replay_tail fresh 0 xs ≡ returned l snapshot
      → without_count (recover_state codec (some snapshot) fresh w.mm)
        ≡ without_count (recover_state codec none fresh w.mm)
  recover_state-snapshot codec w xs ys ps fresh snapshot l h small start taken =
      let numbered = Numbered-first 0 xs ys (Numbered-first 0 (xs ++ ys) ps h.numbered) in
      let r = replay_tail-Replayed xs ys fresh snapshot 0 0 l numbered start taken in
      let read = replay-Written codec w (xs ++ ys) ps h small in
      ap without_count (recover_state-replayed codec (some snapshot) fresh w.mm (xs ++ ys) read)
      ∙ ap without_count (replay_tail-old xs ys snapshot 0 0 numbered (omega (arith, r.reached)))
      ∙ sym r.onwards
      ∙ ap without_count (sym (recover_state-replayed codec none fresh w.mm (xs ++ ys) read))
