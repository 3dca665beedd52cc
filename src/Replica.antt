-- ===== src/Replica.antt =====
-- hobo/replica/tail.py: the shadow replica, which follows the log's committed events. The file that
-- is mapped is the argument of a poll; `mapped` is how many of its bytes the replica's map covers.
pub mod Follows
use Prim.Native.Nat.{◌+◌, ◌-◌}
use hobo.Prelude.{
  ℕ, List, [], ◌∷◌, length, ltb, leb, if◌then◌else◌, Bytes, take, Result, ok, err, Outcome,
  returned, raised,
}
use hobo.Float.{Num}
use hobo.Risk.State.{State}
use hobo.Risk.Fold.{apply_event}
use hobo.Log.Event.{LogEvent, Envelope}
use hobo.Log.Format.{Codec, HeaderFields, header_size, unpack_header, replay_range}

pub record ReplicaTail (F : Type 0) : Type 0 where
  pub state : State F
  pub mapped : ℕ
  pub folded_offset : ℕ

module _ {F : Type 0} ⦃n : Num F⦄ where
  -- `for envelope in new_events: apply_event(...)`
  unfoldable pub fold_all : State F → List (Envelope (LogEvent F)) → Outcome (State F) (Unit {0})
  fold_all state [] = returned tt state
  fold_all state (envelope ∷ envelopes) = elim (apply_event state envelope) [
    | raised e s ↦ raised e s
    | returned _ s ↦ fold_all s envelopes
  ]

  -- From `required_size` on: the map is renewed where it is too short.
  unfoldable pub fold_new :
      Codec (LogEvent F) → ReplicaTail F → Bytes → ℕ → Outcome (ReplicaTail F) ℕ
  fold_new codec replica file committed_offset =
      let mapped =
        if ltb replica.mapped (header_size + committed_offset)
        then length file
        else replica.mapped in
      elim (replay_range codec (take mapped file) replica.folded_offset committed_offset) [
        | err e ↦ raised e (record replica { mapped = mapped })
        | ok new_events ↦ elim (fold_all replica.state new_events) [
          | raised e state ↦ raised e (record replica { state = state; mapped = mapped })
          | returned _ state ↦
              returned (length new_events)
                (record { state = state; mapped = mapped; folded_offset = committed_offset })
        ]
      ]

  unfoldable pub poll_once : Codec (LogEvent F) → ReplicaTail F → Bytes → Outcome (ReplicaTail F) ℕ
  poll_once codec replica file = elim (unpack_header (take replica.mapped file)) [
    | err e ↦ raised e replica
    | ok header ↦
        if leb header.committed_offset replica.folded_offset
        then returned 0 replica
        else fold_new codec replica file header.committed_offset
  ]

  -- `lag_bytes`, which is not below zero: the replica is not ahead of the log.
  unfoldable pub lag_bytes : ReplicaTail F → Bytes → Result ℕ
  lag_bytes replica file = elim (unpack_header (take replica.mapped file)) [
    | err e ↦ err e
    | ok header ↦ ok (header.committed_offset - replica.folded_offset)
  ]
