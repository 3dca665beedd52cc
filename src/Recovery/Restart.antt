-- ===== src/Recovery/Restart.antt =====
-- The process as a whole: a store that works on a log (hobo/core/state_store.py), and the state after
-- the process has died and hobo/builder.py has opened the log and recovered from it.
use Prim.Native.Nat.{◌^◌}
use mathlib.Core.List.{append_assoc}
use mathlib.Core.Path.{subst}
use hobo.Prelude.{
  Option, ℕ, ◌<◌, ◌≤◌, ◌≡◌, refl, sym, ap, ◌∙◌, none, some, List, [], ◌∷◌, ◌++◌, Outcome, returned,
  raised, after, ok-injective, Exn, ok,
}
use hobo.Float.{Num}
use hobo.Risk.State.{State}
use hobo.Log.Event.{LogEvent, Envelope}
use hobo.Log.Format.{Codec, Fits}
use hobo.Log.Writer.{LogWriter, open_log}
use hobo.Log.Writer.Steps.{next_envelope}
use hobo.Log.Writer.Written.{Written}
use hobo.Log.Writer.Recovered.{replay-Written, open_log-Written, new_file-Written}
use hobo.Core.Store.{StateStore, record_event}
use hobo.Recovery.{replay_tail, recover_state}
use hobo.Recovery.History.{
  Operates, Logs, Implements, state_of, with_count, record_event-Logs, Operates-Implements,
}
use hobo.Recovery.Failed.{Continues, Continues-Logs}
use hobo.Recovery.Resume.{without_count, recover_state-replayed, recover_state-snapshot}

module _ {F : Type 0} ⦃n : Num F⦄ (codec : Codec (LogEvent F)) where
  -- After the process has died, the log opens, and recovery has the outcome; the writer goes on from
  -- the sequence number that it had.
  pub record Restarts (fresh : State F) (snapshot : Option (State F)) (dead : LogWriter)
      (initial_capacity growth_factor : ℕ) (outcome : Outcome (State F) (Unit {0})) : Type 0 where
    pub writer : LogWriter
    pub opens : open_log codec initial_capacity growth_factor dead.mm ≡ ok writer
    pub recovers : without_count (recover_state codec snapshot fresh writer.mm) ≡ outcome
    pub goes_on : writer.last_seq ≡ dead.last_seq

  Logs-Restarts :
      (fresh : State F) (w : LogWriter) (o : Outcome (State F) (Unit {0})) (snapshot : State F)
      (xs ys : List (Envelope (LogEvent F))) (initial_capacity growth_factor : ℕ)
      → fresh.last_seq ≡ 0
      → 2 ≤ growth_factor
      → w.capacity < 2 ^ 63
      → without_count (replay_tail fresh 0 xs) ≡ returned tt snapshot
      → Logs codec fresh w o (xs ++ ys)
      → Restarts fresh none w initial_capacity growth_factor o
        × Restarts fresh (some snapshot) w initial_capacity growth_factor o
  Logs-Restarts fresh w o snapshot xs ys initial_capacity growth_factor start factor small taken h =
      let (v, opens, kept, _, _, last, capacity) =
        open_log-Written codec w h.cs h.ps initial_capacity growth_factor h.written small factor in
      let written = subst (λ es. Written codec v es []) h.is_history kept in
      let within : v.capacity < 2 ^ 63 = subst (λ c. c < 2 ^ 63) (sym capacity) small in
      let read = replay-Written codec v (xs ++ ys) [] written within in
      let whole : without_count (recover_state codec none fresh v.mm) ≡ o =
        ap without_count (recover_state-replayed codec none fresh v.mm (xs ++ ys) read)
        ∙ h.folded in
      let (l, t) = with_count codec (replay_tail fresh 0 xs) snapshot taken in
      let tail = recover_state-snapshot codec v xs ys [] fresh snapshot l written within start t in
      (
        record { writer = v; opens = opens; recovers = whole; goes_on = last },
        record { writer = v; opens = opens; recovers = tail ∙ whole; goes_on = last },
      )

  -- A process that began with a new log, has worked, and works on.
  record Lives (fresh : State F) (earlier store : StateStore F) : Type 0 where
    xs : List (Envelope (LogEvent F))
    ys : List (Envelope (LogEvent F))
    before : Implements codec fresh earlier xs
    now : Implements codec fresh store (xs ++ ys)

  Operates-Lives :
      (fresh : State F) (initial_capacity growth_factor : ℕ) (w : LogWriter)
      (earlier store : StateStore F)
      → fresh.last_seq ≡ 0
      → 0 < initial_capacity
      → initial_capacity < 2 ^ 63
      → 2 ≤ growth_factor
      → open_log codec initial_capacity growth_factor [] ≡ ok w
      → Operates codec (record { state = fresh; writer = w }) earlier
      → Operates codec earlier store
      → Lives fresh earlier store
  unfolding replay_tail
  Operates-Lives fresh initial_capacity growth_factor w earlier store start positive bounded factor
        opened before after_it =
      let (v, opens, empty, _) =
        new_file-Written codec initial_capacity growth_factor positive bounded factor in
      let nothing : Implements codec fresh (record { state = fresh; writer = w }) [] = record {
        cs = [];
        ps = [];
        is_history = refl;
        written = subst (λ u. Written codec u [] []) (ok-injective (sym opens ∙ opened)) empty;
        folded = refl;
      } in
      let (xs, then) = Operates-Implements codec fresh _ earlier [] start before nothing in
      let (ys, now) = Operates-Implements codec fresh earlier store xs start after_it then in
      record { xs = xs; ys = ys; before = then; now = now }

  -- A restart restores the desk: a process that started with a new log and a fresh state, and has
  -- recorded events and committed the log in whatever order, may die at any point. Then the log can
  -- be opened again, the next event gets the next sequence number, and recovery gives exactly the
  -- state that the process had, whether it starts from the fresh state or from a snapshot that was
  -- taken at any earlier point. No record has raised, the texts of the events fit into the log, and
  -- the log is below 2^63 bytes. (What was written to the map outlives the process. What recovery
  -- then asks the venue and the seed for is not part of this.)
  pub recover_state-Restarts :
      (fresh : State F) (initial_capacity growth_factor : ℕ) (w : LogWriter)
      (earlier store : StateStore F)
      → fresh.last_seq ≡ 0
      → 0 < initial_capacity
      → initial_capacity < 2 ^ 63
      → 2 ≤ growth_factor
      → open_log codec initial_capacity growth_factor [] ≡ ok w
      → Operates codec (record { state = fresh; writer = w }) earlier
      → Operates codec earlier store
      → store.writer.capacity < 2 ^ 63
      → Restarts fresh none store.writer initial_capacity growth_factor (returned tt store.state)
        × Restarts fresh
            (some earlier.state)
            store.writer
            initial_capacity
            growth_factor
            (returned tt store.state)
  recover_state-Restarts fresh initial_capacity growth_factor w earlier store start positive bounded
        factor opened before after_it small =
      let l =
        Operates-Lives fresh initial_capacity growth_factor w earlier store start positive bounded
          factor opened before after_it in
      Logs-Restarts fresh store.writer (returned tt store.state) earlier.state l.xs l.ys
        initial_capacity growth_factor start factor small l.before.folded l.now

  -- A restart meets a failing event again: where a process as above records an event that the log
  -- takes, and whose fold raises, and then works on in whatever way, with later events that the log
  -- takes and that are folded or raise in their turn, and the log is below 2^63 bytes, then a restart raises the same exception out of the recovery, at the
  -- state that the fold of that event left, whether it starts from the fresh state or from a snapshot
  -- that was taken before the event. (A snapshot that is taken after a later event was folded is not
  -- covered: it stands behind the failing event, and recovery passes that over.)
  pub recover_state-raises :
      (fresh : State F) (initial_capacity growth_factor : ℕ) (w : LogWriter)
      (earlier store : StateStore F) (event : LogEvent F) (now : ℕ) (x : Exn)
      (left later : StateStore F)
      → fresh.last_seq ≡ 0
      → 0 < initial_capacity
      → initial_capacity < 2 ^ 63
      → 2 ≤ growth_factor
      → open_log codec initial_capacity growth_factor [] ≡ ok w
      → Operates codec (record { state = fresh; writer = w }) earlier
      → Operates codec earlier store
      → Fits codec (next_envelope store.writer event now)
      → record_event codec store event now ≡ raised x left
      → Continues codec left later
      → later.writer.capacity < 2 ^ 63
      → Restarts fresh none later.writer initial_capacity growth_factor (raised x left.state)
        × Restarts fresh
            (some earlier.state)
            later.writer
            initial_capacity
            growth_factor
            (raised x left.state)
  recover_state-raises fresh initial_capacity growth_factor w earlier store event now x left later
        start positive bounded factor opened before after_it fit failed onwards small =
      let l =
        Operates-Lives fresh initial_capacity growth_factor w earlier store start positive bounded
          factor opened before after_it in
      let e = next_envelope store.writer event now in
      let logged : Logs codec fresh left.writer (raised x left.state) ((l.xs ++ l.ys) ++ e ∷ []) =
        subst
          (λ (o : Outcome (StateStore F) (Envelope (LogEvent F))).
            Logs codec fresh (after o).writer (state_of codec o) ((l.xs ++ l.ys) ++ e ∷ []))
          failed (record_event-Logs codec fresh store (l.xs ++ l.ys) event now start l.now fit) in
      let (more, longer) =
        Continues-Logs codec fresh left later ((l.xs ++ l.ys) ++ e ∷ []) x left.state onwards
          logged in
      Logs-Restarts fresh later.writer (raised x left.state) earlier.state l.xs
        ((l.ys ++ e ∷ []) ++ more) initial_capacity growth_factor start factor small l.before.folded
        (subst (Logs codec fresh later.writer (raised x left.state))
          (ap (λ h. h ++ more) (append_assoc l.xs l.ys (e ∷ []))
            ∙ append_assoc l.xs (l.ys ++ e ∷ []) more)
          longer)
