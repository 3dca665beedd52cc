-- ===== src/Core/Store.antt =====
-- hobo/core/state_store.py: the risk state and the log, and hobo/core/recorder.py, which feeds it.
pub mod Logged
use hobo.Prelude.{ℕ, String, Option, none, some, Outcome, returned, raised}
use hobo.Float.{Num}
use hobo.Risk.State.{State}
use hobo.Risk.Fold.{apply_event}
use hobo.Log.Event.{LogEvent, Envelope}
use hobo.Log.Format.{Codec}
use hobo.Log.Writer.{LogWriter, append}
use hobo.Core.Event.{Event, log_payload}

pub record StateStore (F : Type 0) : Type 0 where
  pub state : State F
  pub writer : LogWriter

module _ {F : Type 0} ⦃n : Num F⦄ (codec : Codec (LogEvent F)) where
  -- `StateStore.record`: the event is in the log before it is folded.
  unfoldable pub record_event :
      StateStore F → LogEvent F → ℕ → Outcome (StateStore F) (Envelope (LogEvent F))
  record_event store event now = elim (append codec store.writer event now) [
    | raised e writer ↦ raised e (record store { writer = writer })
    | returned envelope writer ↦ elim (apply_event store.state envelope) [
      | raised e state ↦ raised e (record { state = state; writer = writer })
      | returned _ state ↦ returned envelope (record { state = state; writer = writer })
    ]
  ]

  -- `Recorder.record`: an event without a payload is not logged.
  unfoldable pub record_bus_event :
      StateStore F → Event F → ℕ → Outcome (StateStore F) (Option (Envelope (LogEvent F)))
  record_bus_event store event now = elim (log_payload event) [
    | none ↦ returned none store
    | some payload ↦ elim (record_event store payload now) [
      | raised e s ↦ raised e s
      | returned envelope s ↦ returned (some envelope) s
    ]
  ]
