-- ===== src/Core/Health.antt =====
-- hobo/risk/staleness.py and hobo/core/health.py: the watchdog over the market data, and the desk
-- kill switch that it trips. Each reading of the clock is an argument.
pub mod Closed
use hobo.Prelude.{
  ℕ, String, ◌≡◌, refl, sym, ap, ◌∙◌, inl, inr, Bool, true, false, Bool-cases, Option, none, some,
  Option-cases, str_eq, if◌then◌else◌, ◌&&◌, Outcome, returned, raised, Outcome-cases, after, arith,
}
use hobo.Float.{Num, ◌-◌, ◌≤?◌}
use hobo.Risk.State.{State}
use hobo.Risk.Fold.{handle, apply_event, apply_kill_switch}
use hobo.Log.Event.{LogEvent, kill_switch, Envelope}
use hobo.Log.Format.{Codec}
use hobo.Log.Writer.{append}
use hobo.Core.Store.{StateStore, record_event}
use hobo.Core.Store.Logged.{record_event-returned}

pub record StalenessWatchdog (F : Type 0) : Type 0 where
  pub threshold_s : F
  pub last_seen : Option F
  pub stale : Bool

module _ {F : Type 0} ⦃n : Num F⦄ where
  -- `record_message`: whether a stale state ended, and the watchdog.
  abbrev pub record_message : StalenessWatchdog F → F → Bool × StalenessWatchdog F
  record_message w now = (w.stale, record w { last_seen = some now; stale = false })

  -- `StalenessWatchdog.check`
  unfoldable pub check_age : StalenessWatchdog F → F → Bool × StalenessWatchdog F
  check_age w now = elim w.last_seen [
    | none ↦ (false, w)
    | some seen ↦
        if w.stale
        then (false, w)
        else if w.threshold_s ≤? now - seen
        then (true, record w { stale = true })
        else (false, w)
  ]

  abbrev pub age : StalenessWatchdog F → F → Option F
  age w now = elim w.last_seen [ none ↦ none | some seen ↦ some (now - seen) ]

abbrev pub feed_stale_reason : String
feed_stale_reason = "feed stale"

pub record FeedHealthMonitor (F : Type 0) : Type 0 where
  pub store : StateStore F
  pub watchdog : StalenessWatchdog F
  pub desk_id : String

-- `__init__`: a switch that a dead feed set before a restart is taken over.
unfoldable pub new_monitor :
    {F : Type 0} → StateStore F → StalenessWatchdog F → String → FeedHealthMonitor F
new_monitor store watchdog desk_id =
    let desk = store.state.desk in
    record {
      store = store;
      watchdog =
          if desk.kill_switch && str_eq desk.kill_switch_reason feed_stale_reason
          then record watchdog { stale = true }
          else watchdog;
      desk_id = desk_id;
    }

module _ {F : Type 0} ⦃n : Num F⦄ (codec : Codec (LogEvent F)) where
  unfoldable pub toggle :
      FeedHealthMonitor F → Bool → String → ℕ → Outcome (FeedHealthMonitor F) (Unit {0})
  toggle m enabled reason now =
      let event =
        kill_switch
          (record { scope = "DESK"; id = m.desk_id; enabled = enabled; reason = some reason }) in
      elim (record_event codec m.store event now) [
        | raised e store ↦ raised e (record m { store = store })
        | returned _ store ↦ returned tt (record m { store = store })
      ]

  -- `seen` is the monotonic clock, and `now` the time of the log.
  unfoldable pub on_message : FeedHealthMonitor F → F → ℕ → Outcome (FeedHealthMonitor F) (Unit {0})
  on_message m seen now =
      let m' = record m { watchdog = (record_message m.watchdog seen).1 } in
      let cleared = toggle m' false "" now in
      if (record_message m.watchdog seen).0 then cleared else returned tt m'

  unfoldable pub check_feed : FeedHealthMonitor F → F → ℕ → Outcome (FeedHealthMonitor F) (Unit {0})
  check_feed m seen now =
      let m' = record m { watchdog = (check_age m.watchdog seen).1 } in
      let tripped = toggle m' true feed_stale_reason now in
      if (check_age m.watchdog seen).0 then tripped else returned tt m'
