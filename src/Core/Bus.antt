-- ===== src/Core/Bus.antt =====
-- hobo/core/bus.py: typed events in a queue with one consumer. A handler takes the state of what it is
-- bound to, and returns it with the events that it published, in order; a handler that raises leaves
-- what it had done until then, since the bus goes on. `delivered` lists the calls of `_deliver`,
-- `accepted` what was appended to the queue, and `rejected` the calls of `on_dropped`. The latency
-- hook is left out.
pub mod Fifo
pub mod Cascade
pub mod Ends
use Prim.Native.Nat.{◌+◌}
use hobo.Prelude.{
  ℕ, zero, suc, Bool, true, false, Option, none, some, List, [], ◌∷◌, ◌++◌, length, leb,
  if◌then◌else◌,
}
use hobo.Core.Event.{Event, mark_event, funding_event, fill_event, order_update_event}

-- `type(event)`
pub data EventType : Type 0 where
  marks fundings fills order_updates : EventType

abbrev pub type_of : {F : Type 0} → Event F → EventType
type_of (mark_event iid price ts_ns) = EventType.marks
type_of (funding_event iid rate time ts_ns) = EventType.fundings
type_of (fill_event e) = EventType.fills
type_of (order_update_event e) = EventType.order_updates

abbrev same_type : EventType → EventType → Bool
same_type EventType.marks EventType.marks = true
same_type EventType.fundings EventType.fundings = true
same_type EventType.fills EventType.fills = true
same_type EventType.order_updates EventType.order_updates = true
same_type _ _ = false

abbrev pub Handler : Type 0 → Type 0 → Type 0
Handler F S = Event F → S → S × List (Event F)

pub record EventBus (F S : Type 0) : Type 0 where
  pub handlers : EventType → List (Handler F S)
  pub queue : List (Event F)
  pub draining : Bool
  pub max_queue_size : ℕ
  pub dropped : ℕ
  pub world : S
  pub delivered : List (Event F)
  pub accepted : List (Event F)
  pub rejected : List EventType

module _ {F S : Type 0} where
  abbrev pub new_bus : ℕ → S → EventBus F S
  new_bus max_queue_size world = record {
    handlers = λ t. [];
    queue = [];
    draining = false;
    max_queue_size = max_queue_size;
    dropped = 0;
    world = world;
    delivered = [];
    accepted = [];
    rejected = [];
  }

  unfoldable pub subscribe : EventBus F S → EventType → Handler F S → EventBus F S
  subscribe bus event_type handler = record bus {
    handlers =
        λ t. if same_type t event_type then bus.handlers t ++ handler ∷ [] else bus.handlers t;
  }

  abbrev pub is_full : EventBus F S → Bool
  is_full bus = leb bus.max_queue_size (length bus.queue)

  -- `publish` up to the drain.
  unfoldable pub offer : EventBus F S → Event F → EventBus F S
  offer bus event =
      if is_full bus
      then record bus { dropped = bus.dropped + 1; rejected = bus.rejected ++ type_of event ∷ [] }
      else record bus { queue = bus.queue ++ event ∷ []; accepted = bus.accepted ++ event ∷ [] }

  unfoldable pub offer_all : EventBus F S → List (Event F) → EventBus F S
  offer_all bus [] = bus
  offer_all bus (event ∷ events) = offer_all (offer bus event) events

  -- The loop of `_deliver`. What a handler publishes is queued, as the bus is draining.
  unfoldable pub run_handlers : List (Handler F S) → Event F → EventBus F S → EventBus F S
  run_handlers [] event bus = bus
  run_handlers (handler ∷ handlers) event bus =
      let (world, events) = handler event bus.world in
      run_handlers handlers event (offer_all (record bus { world = world }) events)

  unfoldable pub deliver : EventBus F S → Event F → EventBus F S
  deliver bus event =
      run_handlers (bus.handlers (type_of event)) event
        (record bus { delivered = bus.delivered ++ event ∷ [] })

  -- `while self._queue`, on fuel for the events that are delivered.
  unfoldable pub drain : ℕ → EventBus F S → Option (EventBus F S)
  drain zero bus = elim bus.queue [ [] ↦ some bus | event ∷ queue ↦ none ]
  drain (suc fuel) bus = elim bus.queue [
    | [] ↦ some bus
    | event ∷ queue ↦ drain fuel (deliver (record bus { queue = queue }) event)
  ]

  abbrev pub finished : Option (EventBus F S) → Option (EventBus F S)
  finished none = none
  finished (some bus) = some (record bus { draining = false })

  unfoldable pub publish : ℕ → EventBus F S → Event F → Option (EventBus F S)
  publish fuel bus event =
      if is_full bus
      then some (offer bus event)
      else if bus.draining
      then some (offer bus event)
      else finished (drain fuel (record (offer bus event) { draining = true }))
