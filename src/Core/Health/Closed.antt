-- ===== src/Core/Health/Closed.antt =====
-- The feed monitor of hobo/core/health.py fails closed.
use hobo.Prelude.{
  ℕ, String, ◌≡◌, refl, sym, ap, ◌∙◌, inl, inr, Bool, true, false, Bool-cases, some, Outcome,
  returned, Outcome-cases, after, arith,
}
use hobo.Float.{Num, ◌-◌, ◌≤?◌}
use hobo.Risk.State.{State}
use hobo.Risk.Fold.{handle, apply_event, apply_kill_switch}
use hobo.Risk.Fold.Switch.{is_switch, apply_event-keeps_switch}
use hobo.Log.Event.{LogEvent, kill_switch, Envelope}
use hobo.Log.Format.{Codec}
use hobo.Core.Store.{StateStore, record_event}
use hobo.Core.Store.Logged.{record_event-returned}
use hobo.Core.Health.{
  StalenessWatchdog, check_age, feed_stale_reason, FeedHealthMonitor, new_monitor, toggle,
  on_message, check_feed,
}

-- Where the feed is stale, the desk does not trade.
abbrev pub FailsClosed : {F : Type 0} → FeedHealthMonitor F → Type 0
FailsClosed m = m.watchdog.stale ≡ true → m.store.state.desk.kill_switch ≡ true

module _ {F : Type 0} ⦃n : Num F⦄ (codec : Codec (LogEvent F)) where
  kill-folds :
      (s : State F) (desk_id : String) (enabled : Bool) (reason : String) (seq ts : ℕ)
      → (after (
          apply_event s (record {
            seq = seq;
            ts_ns = ts;
            event =
                kill_switch (record {
                  scope = "DESK";
                  id = desk_id;
                  enabled = enabled;
                  reason = some reason;
                });
          }))).desk.kill_switch
        ≡ enabled
  unfolding apply_event handle apply_kill_switch
  kill-folds s desk_id enabled reason seq ts = refl

  toggle-returns :
      (m m' : FeedHealthMonitor F) (enabled : Bool) (reason : String) (now : ℕ)
      → toggle codec m enabled reason now ≡ returned tt m'
      → (m'.store.state.desk.kill_switch ≡ enabled) × (m'.watchdog ≡ m.watchdog)
  unfolding toggle
  toggle-returns m m' enabled reason now h =
      let event =
        kill_switch
          (record { scope = "DESK"; id = m.desk_id; enabled = enabled; reason = some reason }) in
      elim (Outcome-cases (record_event codec m.store event now)) [
        | inr (x, s, e) ↦ cc (rw (e, toggle) at h)
        | inl (envelope, s, e) ↦
            let done = rw (e, toggle) at h in
            let folded = (record_event-returned codec m.store s event now envelope e).1 in
            (
              ap
                    (λ (o : Outcome (FeedHealthMonitor F) (Unit {0})).
                      (after o).store.state.desk.kill_switch)
                    (sym done)
                  ∙ ap (λ (o : Outcome (State F) (Unit {0})). (after o).desk.kill_switch)
                      (sym folded)
                  ∙ kill-folds m.store.state m.desk_id enabled reason _ _,
              ap (λ (o : Outcome (FeedHealthMonitor F) (Unit {0})). (after o).watchdog) (sym done),
            )
      ]

  check_age-fresh :
      (w : StalenessWatchdog F) (now : F) → (check_age w now).0 ≡ false → (check_age w now).1 ≡ w
  unfolding check_age
  check_age-fresh w now h = ground arith

  check_age-again :
      (w : StalenessWatchdog F) (seen now : F)
      → w.last_seen ≡ some seen
      → w.stale ≡ true
      → (check_age w now).0 ≡ false
  unfolding check_age
  check_age-again w seen now e old = rw (e, check_age) (rw old refl)

  check_age-silent :
      (w : StalenessWatchdog F) (seen now : F)
      → w.last_seen ≡ some seen
      → (w.threshold_s ≤? now - seen) ≡ true
      → w.stale ≡ false
      → (check_age w now).0 ≡ true
  unfolding check_age
  check_age-silent w seen now e long fresh = rw (e, check_age) (rw (fresh, long) refl)

  message-FailsClosed :
      (m m' : FeedHealthMonitor F) (seen : F) (now : ℕ)
      → on_message codec m seen now ≡ returned tt m'
      → FailsClosed m'
  unfolding on_message
  message-FailsClosed m m' seen now h = elim (Bool-cases m.watchdog.stale) [
    | inl e ↦
        let (_, kept) = toggle-returns _ m' false "" now (rw e at h) in
        λ is_stale. cc (kept, is_stale)
    | inr e ↦
        let done =
          ap (λ (o : Outcome (FeedHealthMonitor F) (Unit {0})). (after o).watchdog.stale)
            (rw e at h) in
        λ is_stale. cc (done, is_stale)
  ]

  check-FailsClosed :
      (m m' : FeedHealthMonitor F) (seen : F) (now : ℕ)
      → check_feed codec m seen now ≡ returned tt m'
      → FailsClosed m
      → FailsClosed m'
  unfolding check_feed
  check-FailsClosed m m' seen now h closed = elim (Bool-cases (check_age m.watchdog seen).0) [
    | inl e ↦
        let (switch_is, _) = toggle-returns _ m' true feed_stale_reason now (rw e at h) in
        λ _. switch_is
    | inr e ↦
        let fresh =
          ap (λ (o : Outcome (FeedHealthMonitor F) (Unit {0})). (after o).watchdog.stale)
            (rw e at h) in
        let same =
          ap
            (λ (o : Outcome (FeedHealthMonitor F) (Unit {0})).
              (after o).store.state.desk.kill_switch)
            (rw e at h) in
        let kept = ap (λ (w : StalenessWatchdog F). w.stale) (check_age-fresh m.watchdog seen e) in
        λ is_stale. sym same ∙ closed (sym kept ∙ fresh ∙ is_stale)
  ]

  event-FailsClosed :
      (m : FeedHealthMonitor F) (store : StateStore F) (event : LogEvent F) (now : ℕ)
      (e : Envelope (LogEvent F))
      → is_switch event ≡ false
      → record_event codec m.store event now ≡ returned e store
      → FailsClosed m
      → FailsClosed (record m { store = store })
  event-FailsClosed m store event now e no_switch h closed =
      let folded = (record_event-returned codec m.store store event now e h).1 in
      λ is_stale.
        apply_event-keeps_switch m.store.state store.state _ no_switch folded ∙ closed is_stale

  -- The life of a monitor, of steps that returned: a message, a check, and any other event that is recorded in the
  -- store that it shares.
  pub data Runs : FeedHealthMonitor F → FeedHealthMonitor F → Type 0 where
    done : {m : FeedHealthMonitor F} → Runs m m
    message :
        {m m₁ m₂ : FeedHealthMonitor F} (seen : F) (now : ℕ)
        → on_message codec m seen now ≡ returned tt m₁
        → Runs m₁ m₂
        → Runs m m₂
    checked :
        {m m₁ m₂ : FeedHealthMonitor F} (seen : F) (now : ℕ)
        → check_feed codec m seen now ≡ returned tt m₁
        → Runs m₁ m₂
        → Runs m m₂
    event :
        {m m₂ : FeedHealthMonitor F} (store : StateStore F) (e : LogEvent F) (now : ℕ)
        (envelope : Envelope (LogEvent F))
        → is_switch e ≡ false
        → record_event codec m.store e now ≡ returned envelope store
        → Runs (record m { store = store }) m₂
        → Runs m m₂

  Runs-FailsClosed : {m m' : FeedHealthMonitor F} → Runs m m' → FailsClosed m → FailsClosed m'
  Runs-FailsClosed done h = h
  Runs-FailsClosed (message {m} {m₁} seen now e r) h =
      Runs-FailsClosed r (message-FailsClosed m m₁ seen now e)
  Runs-FailsClosed (checked {m} {m₁} seen now e r) h =
      Runs-FailsClosed r (check-FailsClosed m m₁ seen now e h)
  Runs-FailsClosed (event {m} store ev now envelope c e r) h =
      Runs-FailsClosed r (event-FailsClosed m store ev now envelope c e h)

  new_monitor-FailsClosed :
      (store : StateStore F) (w : StalenessWatchdog F) (desk_id : String)
      → w.stale ≡ false
      → FailsClosed (new_monitor store w desk_id)
  unfolding new_monitor
  new_monitor-FailsClosed store w desk_id fresh = elim (Bool-cases store.state.desk.kill_switch) [
    | inl on ↦ λ _. on
    | inr off ↦ λ is_stale. cc (rw off at is_stale, fresh)
  ]

  -- The desk fails closed: from the start of a monitor, and after any steps that returned (messages of
  -- the feed, checks, and other events recorded in the shared store, in any order), the desk kill
  -- switch is on while the watchdog holds the feed for stale. The watchdog starts fresh, and no other
  -- event sets a kill switch.
  pub stale_stops_desk :
      (store : StateStore F) (w : StalenessWatchdog F) (desk_id : String) (m : FeedHealthMonitor F)
      → w.stale ≡ false
      → Runs (new_monitor store w desk_id) m
      → m.watchdog.stale ≡ true
      → m.store.state.desk.kill_switch ≡ true
  stale_stops_desk store w desk_id m fresh r is_stale =
      Runs-FailsClosed r (new_monitor-FailsClosed store w desk_id fresh) is_stale

  -- A silent feed stops the desk: where the last message is the threshold or more ago, the kill switch
  -- of the desk is on after a check that returned, in the life of a monitor whose watchdog started fresh.
  pub check_feed-stops :
      (store : StateStore F) (w : StalenessWatchdog F) (desk_id : String)
      (m m' : FeedHealthMonitor F) (last seen : F) (now : ℕ)
      → w.stale ≡ false
      → Runs (new_monitor store w desk_id) m
      → m.watchdog.last_seen ≡ some last
      → (m.watchdog.threshold_s ≤? seen - last) ≡ true
      → check_feed codec m seen now ≡ returned tt m'
      → m'.store.state.desk.kill_switch ≡ true
  unfolding check_feed
  check_feed-stops store w desk_id m m' last seen now start runs e long h =
      elim (Bool-cases m.watchdog.stale) [
        | inr fresh ↦
            let trips = check_age-silent m.watchdog last seen e long fresh in
            (toggle-returns _ m' true feed_stale_reason now (rw trips at h)).0
        | inl is_stale ↦
            let quiet : (check_age m.watchdog seen).0 ≡ false =
              check_age-again m.watchdog last seen e is_stale in
            let same =
              ap
                (λ (o : Outcome (FeedHealthMonitor F) (Unit {0})).
                  (after o).store.state.desk.kill_switch)
                (rw quiet at h) in
            sym same ∙ stale_stops_desk store w desk_id m start runs is_stale
      ]
