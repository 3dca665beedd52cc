-- ===== src/Recovery/History.antt =====
-- The log and the state as a history of envelopes: what the process does with a store
-- (hobo/core/state_store.py, hobo/log/writer.py) keeps them one.
use Prim.Native.Nat.{◌+◌}
use mathlib.Core.List.{append_assoc, append-nil}
use mathlib.Core.Path.{subst}
use hobo.Prelude.{
  ℕ, ◌≡◌, sym, ap, ◌∙◌, inl, inr, List, [], ◌∷◌, ◌++◌, length, lt→ltb, Outcome, returned, raised,
  after, Outcome-cases, arith,
}
use hobo.Float.{Num}
use hobo.Risk.State.{State}
use hobo.Risk.Fold.{apply_event}
use hobo.Log.Event.{LogEvent, Envelope}
use hobo.Log.Format.{Codec, Fits}
use hobo.Log.Writer.{LogWriter, commit}
use hobo.Log.Writer.Steps.{next_envelope, append-Written, commit-Written}
use hobo.Log.Writer.Written.{Numbered, Written}
use hobo.Core.Store.{StateStore, record_event}
use hobo.Recovery.{replay_tail}
use hobo.Recovery.Resume.{without_count, replay_tail-Replayed}

module _ {F : Type 0} ⦃n : Num F⦄ (codec : Codec (LogEvent F)) where
  -- What the process does with a store: events are recorded, and the log is committed now and then.
  pub data Operates : StateStore F → StateStore F → Type 0 where
    done : {s : StateStore F} → Operates s s
    recorded :
        {s s' s'' : StateStore F} (event : LogEvent F) (now : ℕ)
        → Fits codec (next_envelope s.writer event now)
        → record_event codec s event now ≡ returned (next_envelope s.writer event now) s'
        → Operates s' s''
        → Operates s s''
    committed :
        {s s'' : StateStore F}
        → Operates (record s { writer = (commit s.writer).1 }) s''
        → Operates s s''

  abbrev pub state_of :
      Outcome (StateStore F) (Envelope (LogEvent F)) → Outcome (State F) (Unit {0})
  state_of (returned e s) = returned tt s.state
  state_of (raised x s) = raised x s.state

  -- The log is the abstract one, a history of envelopes: the file holds them, and folding them into
  -- the fresh state has the outcome.
  pub record Logs (fresh : State F) (writer : LogWriter) (outcome : Outcome (State F) (Unit {0}))
      (history : List (Envelope (LogEvent F))) : Type 0 where
    pub cs : List (Envelope (LogEvent F))
    pub ps : List (Envelope (LogEvent F))
    pub is_history : cs ++ ps ≡ history
    pub written : Written codec writer cs ps
    pub folded : without_count (replay_tail fresh 0 history) ≡ outcome

  -- The store is the abstract one, its state that of the history.
  abbrev pub Implements : State F → StateStore F → List (Envelope (LogEvent F)) → Type 0
  Implements fresh store history = Logs fresh store.writer (returned tt store.state) history

  pub with_count :
      (o : Outcome (State F) ℕ) (s : State F)
      → without_count o ≡ returned tt s
      → (k : ℕ) × (o ≡ returned k s)
  with_count (returned k t) s h =
      (k, ap (λ (o : Outcome (State F) (Unit {0})). returned k (after o)) h)
  with_count (raised e t) s h = cc h

  -- One more envelope.
  replay_tail-snoc :
      (fresh s : State F) (o : Outcome (State F) (Unit {0}))
      (history : List (Envelope (LogEvent F))) (e : Envelope (LogEvent F))
      → fresh.last_seq ≡ 0
      → Numbered 0 history
      → without_count (replay_tail fresh 0 history) ≡ returned tt s
      → e.seq ≡ length history + 1
      → apply_event s e ≡ o
      → without_count (replay_tail fresh 0 (history ++ e ∷ [])) ≡ o
  unfolding replay_tail
  replay_tail-snoc fresh s o history e start numbered folded next applied =
      let (l, f) = with_count (replay_tail fresh 0 history) s folded in
      let replayed = replay_tail-Replayed history (e ∷ []) fresh s 0 0 l numbered start f in
      let newer = lt→ltb s.last_seq e.seq (omega (arith, replayed.reached, next)) in
      elim (Outcome-cases (apply_event s e)) [
        | inl (_, t, r) ↦ replayed.onwards ∙ rw newer (rw r (sym r ∙ applied))
        | inr (x, t, r) ↦ replayed.onwards ∙ rw newer (rw r (sym r ∙ applied))
      ]

  -- The event is in the log, whether its fold returns or raises.
  pub record_event-Logs :
      (fresh : State F) (s : StateStore F) (history : List (Envelope (LogEvent F)))
      (event : LogEvent F) (now : ℕ)
      → fresh.last_seq ≡ 0
      → Implements fresh s history
      → Fits codec (next_envelope s.writer event now)
      → Logs fresh
          (after (record_event codec s event now)).writer
          (state_of (record_event codec s event now))
          (history ++ next_envelope s.writer event now ∷ [])
  unfolding record_event
  record_event-Logs fresh s history event now start h fit =
      let e = next_envelope s.writer event now in
      let (w, appended, written) =
        append-Written codec s.writer h.cs h.ps event now h.written fit in
      let folds = λ (o : Outcome (State F) (Unit {0})) (r : apply_event s.state e ≡ o).
        replay_tail-snoc fresh s.state o history e start
          (subst (Numbered 0) h.is_history h.written.numbered) h.folded
          (omega (arith, h.written.seq_is, ap length h.is_history)) r in
      let is_history = sym (append_assoc h.cs h.ps (e ∷ [])) ∙ ap (λ l. l ++ e ∷ []) h.is_history in
      elim (Outcome-cases (apply_event s.state e)) [
        | inl (_, t, r) ↦
            rw (appended, record_event)
              (rw r (record {
                cs = h.cs;
                ps = h.ps ++ e ∷ [];
                is_history = is_history;
                written = written;
                folded = folds (returned tt t) r;
              }))
        | inr (x, t, r) ↦
            rw (appended, record_event)
              (rw r (record {
                cs = h.cs;
                ps = h.ps ++ e ∷ [];
                is_history = is_history;
                written = written;
                folded = folds (raised x t) r;
              }))
      ]

  commit-Implements :
      (fresh : State F) (s : StateStore F) (history : List (Envelope (LogEvent F)))
      → Implements fresh s history
      → Implements fresh (record s { writer = (commit s.writer).1 }) history
  commit-Implements fresh s history h = record {
    cs = h.cs ++ h.ps;
    ps = [];
    is_history = append-nil (h.cs ++ h.ps) ∙ h.is_history;
    written = commit-Written codec s.writer h.cs h.ps h.written;
    folded = h.folded;
  }

  -- The history grows at its end.
  pub Operates-Implements :
      (fresh : State F) (s s' : StateStore F) (history : List (Envelope (LogEvent F)))
      → fresh.last_seq ≡ 0
      → Operates s s'
      → Implements fresh s history
      → (more : List (Envelope (LogEvent F))) × Implements fresh s' (history ++ more)
  Operates-Implements fresh s s' history start done h =
      ([], subst (Implements fresh s) (sym (append-nil history)) h)
  Operates-Implements fresh s s'' history start (recorded {s' = s'} event now fit r rest) h =
      let e = next_envelope s.writer event now in
      let (more, k) = Operates-Implements fresh s' s'' (history ++ e ∷ []) start rest (
        subst
          (λ (o : Outcome (StateStore F) (Envelope (LogEvent F))).
            Logs fresh (after o).writer (state_of o) (history ++ e ∷ []))
          r (record_event-Logs fresh s history event now start h fit)) in
      (e ∷ more, subst (Implements fresh s'') (append_assoc history (e ∷ []) more) k)
  Operates-Implements fresh s s'' history start (committed rest) h =
      Operates-Implements fresh (record s { writer = (commit s.writer).1 }) s'' history start rest
        (commit-Implements fresh s history h)
