-- ===== src/Venue/Socket/Reconnects.antt =====
-- How long the loop of hobo/adapters/transport/ws_base.py goes on.
use Prim.Native.Nat.{◌+◌}
use hobo.Prelude.{
  ℕ, true, false, none, List, [], ◌∷◌, length, All, ◌≡◌, refl, ◌<◌, ◌≤◌, arith, Result, ok, err,
  overflow_error, inl, inr, Bool-cases, leb, leb→le,
}
use hobo.Float.{Num, ◌≤?◌}
use hobo.Venue.Socket.{ReconnectConfig, Session, reconnect_delay, run}

module _ {F : Type 0} ⦃n : Num F⦄ (two_to : ℕ → Result F) (config : ReconnectConfig F) where
  -- A session that fails before the attempts are counted anew, and that nobody stops.
  abbrev pub IsShort : Session F → Type 0
  IsShort s =
      (s.stopped_before ≡ false)
      × (s.stopped_after ≡ false)
      × ((config.reconnect_reset_after_secs ≤? s.lasted) ≡ false)

  run-overflow_from :
      (limit attempt : ℕ) (sessions : List (Session F))
      → config.should_reconnect ≡ true
      → config.max_reconnect_attempts ≡ none
      → two_to limit ≡ err overflow_error
      → ((k : ℕ) → k < limit → (power : F) × (two_to k ≡ ok power))
      → All IsShort sessions
      → attempt ≤ limit
      → limit < attempt + length sessions
      → run two_to config attempt sessions ≡ err overflow_error
  unfolding run reconnect_delay
  run-overflow_from limit attempt [] again unbounded over under short h k = absurd (omega arith)
  run-overflow_from limit attempt (s ∷ ss) again unbounded over under short h k =
      elim (Bool-cases (leb limit attempt)) [
        | inl at ↦
            let same : attempt ≡ limit = omega (arith, leb→le limit attempt at) in
            rw (short.0.0, short.0.1, again, unbounded, short.0.2) (rw (same, over) refl)
        | inr below ↦
            let (power, p) = under attempt (ground arith) in
            let rest =
              run-overflow_from limit (attempt + 1) ss again unbounded over under short.1
                (ground arith) (omega arith) in
            rw (short.0.0, short.0.1, again, unbounded, short.0.2) (rw p (rw rest refl))
      ]

  -- A long outage ends the loop: a client that is to connect again, with no bound on its attempts,
  -- raises an OverflowError out of `run` once more sessions in a row were short than the exponent
  -- `limit` from which on `2**attempt` is no float. (Below `limit` it is one.) Nobody stopped it.
  pub run-overflows :
      (limit : ℕ) (sessions : List (Session F))
      → config.should_reconnect ≡ true
      → config.max_reconnect_attempts ≡ none
      → two_to limit ≡ err overflow_error
      → ((k : ℕ) → k < limit → (power : F) × (two_to k ≡ ok power))
      → All IsShort sessions
      → limit < length sessions
      → run two_to config 0 sessions ≡ err overflow_error
  run-overflows limit sessions again unbounded over under short h =
      run-overflow_from limit 0 sessions again unbounded over under short (omega arith)
        (omega arith)
