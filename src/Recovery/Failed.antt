-- ===== src/Recovery/Failed.antt =====
-- A log with an event whose fold raises (hobo/core/state_store.py, hobo/log/recovery.py): the process
-- works on, and the replay still ends at that event.
use Prim.Native.Nat.{◌+◌}
use mathlib.Core.List.{append_assoc, append-nil}
use mathlib.Core.Path.{subst}
use hobo.Prelude.{
  ℕ, ◌≡◌, sym, ap, ◌∙◌, inl, inr, Bool-cases, ltb, List, [], ◌∷◌, ◌++◌, Exn, raised, after,
  Outcome-cases,
}
use hobo.Float.{Num}
use hobo.Risk.State.{State}
use hobo.Risk.Fold.{apply_event}
use hobo.Log.Event.{LogEvent, Envelope}
use hobo.Log.Format.{Codec, Fits}
use hobo.Log.Writer.{commit}
use hobo.Log.Writer.Steps.{next_envelope, append-Written, commit-Written}
use hobo.Log.Writer.Written.{Written}
use hobo.Core.Store.{StateStore, record_event}
use hobo.Recovery.{replay_tail}
use hobo.Recovery.Resume.{without_count}
use hobo.Recovery.History.{Logs}

module _ {F : Type 0} ⦃n : Num F⦄ where
  -- A replay that raises does not reach what is behind.
  replay_tail-raised :
      (es more : List (Envelope (LogEvent F))) (s t : State F) (k : ℕ) (x : Exn)
      → without_count (replay_tail s k es) ≡ raised x t
      → without_count (replay_tail s k (es ++ more)) ≡ raised x t
  unfolding replay_tail
  replay_tail-raised [] more s t k x h = cc h
  replay_tail-raised (e ∷ es) more s t k x h = elim (Bool-cases (ltb s.last_seq e.seq)) [
    | inr old ↦ rw old (replay_tail-raised es more s t k x (rw old at h))
    | inl newer ↦ elim (Outcome-cases (apply_event s e)) [
      | inr (y, s₁, r) ↦ rw newer (rw r (rw (newer, r) at h))
      | inl (_, s₁, r) ↦
          rw newer (rw r (replay_tail-raised es more s₁ t (k + 1) x (rw (newer, r) at h)))
    ]
  ]

module _ {F : Type 0} ⦃n : Num F⦄ (codec : Codec (LogEvent F)) where
  -- The process works on, as `Operates`, but a fold may raise: the bus goes on after an exception of a
  -- handler.
  pub data Continues : StateStore F → StateStore F → Type 0 where
    done : {s : StateStore F} → Continues s s
    recorded :
        {s s'' : StateStore F} (event : LogEvent F) (now : ℕ)
        → Fits codec (next_envelope s.writer event now)
        → Continues (after (record_event codec s event now)) s''
        → Continues s s''
    committed :
        {s s'' : StateStore F}
        → Continues (record s { writer = (commit s.writer).1 }) s''
        → Continues s s''

  record_event-Written :
      (s : StateStore F) (cs ps : List (Envelope (LogEvent F))) (event : LogEvent F) (now : ℕ)
      → Written codec s.writer cs ps
      → Fits codec (next_envelope s.writer event now)
      → Written codec
          (after (record_event codec s event now)).writer
          cs
          (ps ++ next_envelope s.writer event now ∷ [])
  unfolding record_event
  record_event-Written s cs ps event now h fit =
      let e = next_envelope s.writer event now in
      let (w, appended, written) = append-Written codec s.writer cs ps event now h fit in
      elim (Outcome-cases (apply_event s.state e)) [
        | inl (_, t, r) ↦ rw (appended, record_event) (rw r written)
        | inr (x, t, r) ↦ rw (appended, record_event) (rw r written)
      ]

  -- The log grows at its end, and the replay goes on to raise where it did.
  pub Continues-Logs :
      (fresh : State F) (s s' : StateStore F) (history : List (Envelope (LogEvent F))) (x : Exn)
      (t : State F)
      → Continues s s'
      → Logs codec fresh s.writer (raised x t) history
      → (more : List (Envelope (LogEvent F))) × Logs codec fresh s'.writer
          (raised x t)
          (history ++ more)
  Continues-Logs fresh s s' history x t done h =
      ([], subst (Logs codec fresh s.writer (raised x t)) (sym (append-nil history)) h)
  Continues-Logs fresh s s'' history x t (recorded event now fit rest) h =
      let e = next_envelope s.writer event now in
      let s' = after (record_event codec s event now) in
      let logged : Logs codec fresh s'.writer (raised x t) (history ++ e ∷ []) = record {
        cs = h.cs;
        ps = h.ps ++ e ∷ [];
        is_history = sym (append_assoc h.cs h.ps (e ∷ [])) ∙ ap (λ l. l ++ e ∷ []) h.is_history;
        written = record_event-Written s h.cs h.ps event now h.written fit;
        folded = replay_tail-raised history (e ∷ []) fresh t 0 x h.folded;
      } in
      let (more, k) = Continues-Logs fresh s' s'' (history ++ e ∷ []) x t rest logged in
      (
        e ∷ more,
        subst (Logs codec fresh s''.writer (raised x t)) (append_assoc history (e ∷ []) more) k,
      )
  Continues-Logs fresh s s'' history x t (committed rest) h =
      Continues-Logs fresh (record s { writer = (commit s.writer).1 }) s'' history x t rest
        (record {
          cs = h.cs ++ h.ps;
          ps = [];
          is_history = append-nil (h.cs ++ h.ps) ∙ h.is_history;
          written = commit-Written codec s.writer h.cs h.ps h.written;
          folded = h.folded;
        })
