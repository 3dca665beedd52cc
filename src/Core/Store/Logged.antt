-- ===== src/Core/Store/Logged.antt =====
-- What `StateStore.record` of hobo/core/state_store.py has done when it returns.
use hobo.Prelude.{ℕ, ◌≡◌, inl, inr, returned, Outcome-cases}
use hobo.Float.{Num}
use hobo.Risk.Fold.{apply_event}
use hobo.Log.Event.{LogEvent, Envelope}
use hobo.Log.Format.{Codec}
use hobo.Log.Writer.{append}
use hobo.Log.Writer.Steps.{next_envelope, append-next_envelope}
use hobo.Core.Store.{StateStore, record_event}

module _ {F : Type 0} ⦃n : Num F⦄ (codec : Codec (LogEvent F)) where
  pub record_event-returned :
      (store store' : StateStore F) (event : LogEvent F) (now : ℕ) (e : Envelope (LogEvent F))
      → record_event codec store event now ≡ returned e store'
      → (append codec store.writer event now
          ≡ returned (next_envelope store.writer event now) store'.writer)
        × (apply_event store.state (next_envelope store.writer event now)
            ≡ returned tt store'.state)
  unfolding record_event
  record_event-returned store store' event now e h =
      elim (Outcome-cases (append codec store.writer event now)) [
        | inr (x, w, r) ↦ cc (rw (r, record_event) at h)
        | inl (e₁, w, r) ↦
            let is_next = append-next_envelope codec store.writer w event now e₁ r in
            elim (Outcome-cases (apply_event store.state e₁)) [
              | inr (x, s, q) ↦ cc (rw (q, record_event) at (rw (r, record_event) at h))
              | inl (_, s, q) ↦
                  let done = rw (q, record_event) at (rw (r, record_event) at h) in
                  (cc (r, is_next, done), cc (q, is_next, done))
            ]
      ]
