-- ===== src/Venue/Socket.antt =====
-- hobo/adapters/transport/ws_base.py: the routing of messages to handlers, and the loop that connects
-- again after a session. What a session was like is an argument: tasks and the socket are left out.
pub mod Reconnects
use Prim.Native.Nat.{◌+◌}
use hobo.Prelude.{
  ℕ, String, Bool, true, false, Option, none, some, List, [], ◌∷◌, leb, not, ◌||◌, if◌then◌else◌,
  Result, ok, err, ◌>>=◌,
}
use hobo.Prelude.Dict
use hobo.Prelude.Dict.{Dict}
use hobo.Prelude.Data.{Data}
use hobo.Float.{Num, ◌+◌ as ◌⊹◌, ◌*◌, ◌≤?◌, max, min}

pub record ParsedMessage (F : Type 0) : Type 0 where
  pub key : String
  pub content : Option (Data F)
  pub is_heartbeat : Bool
  pub is_control : Bool
  pub is_error : Bool

-- `_dispatch`, for what `parse_message` returned: the handler that is called, if one is.
unfoldable pub dispatch : {F H : Type 0} → Dict H → ParsedMessage F → Option H
dispatch handlers message =
    if message.is_error
    then none
    else if message.is_heartbeat || message.is_control
    then none
    else Dict.get handlers message.key

pub record ReconnectConfig (F : Type 0) : Type 0 where
  pub should_reconnect : Bool
  pub reconnect_base_secs : F
  pub reconnect_max_secs : F
  pub reconnect_reset_after_secs : F
  pub max_reconnect_attempts : Option ℕ

-- One round of the loop: whether `stop_event` was set before the session and after it, how long the
-- session lasted, and the `random.uniform(-0.2, 0.2)` of the delay behind it.
pub record Session (F : Type 0) : Type 0 where
  pub stopped_before : Bool
  pub stopped_after : Bool
  pub lasted : F
  pub jitter : F

-- How the loop came to its end; `waiting` is no end, but that of the sessions that are given.
pub data Ended : Type 0 where
  stopped gave_up waiting : Ended

abbrev pub reached : Option ℕ → ℕ → Bool
reached none attempt = false
reached (some most) attempt = leb most attempt

module _ {F : Type 0} ⦃n : Num F⦄ (two_to : ℕ → Result F) where
  -- `_reconnect_delay`, where `two_to` gives the `float` of `2**attempt`, or raises.
  unfoldable pub reconnect_delay : ReconnectConfig F → ℕ → F → Result F
  reconnect_delay config attempt jitter = do
    power ← two_to attempt
    ok (
        max n.zero_f
          (min (config.reconnect_base_secs * power) config.reconnect_max_secs * (n.one ⊹ jitter)))

  -- The loop of `run`: the delays that were slept, and the end.
  unfoldable pub run : ReconnectConfig F → ℕ → List (Session F) → Result (List F × Ended)
  run config attempt [] = ok ([], waiting)
  run config attempt (session ∷ sessions) =
      let again = if config.reconnect_reset_after_secs ≤? session.lasted then 0 else attempt in
      let later = run config (again + 1) sessions in
      let on : Result (List F × Ended) = reconnect_delay config again session.jitter >>= λ delay.
      later >>= λ rest. ok (delay ∷ rest.0, rest.1) in
      if session.stopped_before
      then ok ([], stopped)
      else if session.stopped_after || not config.should_reconnect
      then ok ([], stopped)
      else if reached config.max_reconnect_attempts attempt
      then ok ([], gave_up)
      else on
