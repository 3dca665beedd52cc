-- ===== src/Lib.antt =====
-- hobo is a risk engine for a trading desk: it prices a desk of books against a market feed, checks
-- every order before it reaches the venue, and keeps its state in an append-only event log. This
-- library models its core and proves what the desk relies on. Paths are from the repository's root.
--
-- The parts, and how they interact. `StateStore.record` (hobo/core/state_store.py) is the one way to
-- change the risk state: it appends an event to the log (hobo/log/writer.py) and folds it into the
-- state (hobo/risk/fold.py). The gateway (hobo/core/gateway.py) logs an order, asks the gate
-- (hobo/risk/gate), logs the verdict and submits what was approved. The feed monitor
-- (hobo/core/health.py) trips the desk kill switch through the same store. Fills from every source
-- pass the ingestor (hobo/core/fill_ingestor.py). After a restart the state is rebuilt from a snapshot
-- and the log (hobo/log/recovery.py).
--
-- Prelude: Python's dictionaries, byte strings, exceptions and Boolean tests.
-- Float: Python's `float` as a type with operations. The definitions work over any such type. A
--   theorem that needs an order without NaN takes `IsOrdered`, and one that needs arithmetic without
--   rounding takes `IsExact`; integers are the example that has both.
-- Risk: hobo/risk. Model has the dataclasses of hobo/risk/model, Math hobo/risk/math.py, State
--   hobo/risk/state.py with `State` as a record, Fold hobo/risk/fold.py with one function per handler,
--   Gate hobo/risk/gate. A method that mutates returns the state; one that may raise returns it with
--   the exception too (`Outcome`), as the caller is left with it.
-- Log: hobo/log. Event has events.py, with Payload for the dictionaries of its events, Format
--   format.py and reader.py over the bytes of the file, Writer writer.py with the mapped file as a
--   field. The text of an envelope (json) is the parameter `Codec`, and `Fits` what the log relies on
--   of it. Snapshot has snapshot.py over a directory of texts, and Risk.Saved the dictionaries of a
--   state that it holds.
-- Core: hobo/core. Event has events.py, Bus bus.py, Store state_store.py and recorder.py, Gateway
--   gateway.py, Health health.py and hobo/risk/staleness.py, Ingestor fill_ingestor.py, Reconciler
--   fill_reconciler.py, Runner strategy_runner.py, Bridge order_bridge.py, Views trade_log.py,
--   exchange_reconciler.py and the patch of scripts/reconcile.py. Callbacks of other parts are lists
--   of the calls made.
-- Execution: hobo/execution, with the paper client. Venue: hobo/adapters/okx/execution.py, with
--   Parsing for parsing.py, Feed for market_data.py, Rest for the answers that reference.py,
--   account.py and market_data.py read, and Socket for the loop of hobo/adapters/transport/ws_base.py
--   over the sessions that it is given.
-- Config: hobo/config.py, over what `tomllib` reads. Domain: hobo/domain/seed.py and the fresh state of
--   hobo/builder.py. Both keep the values that a file gives, of whatever type, as the code does; a
--   state is made of a seed where its ids are texts and its limits numbers. `json.loads`, `int` and
--   `float` are parameters.
-- Strategies: hobo/strategies/oscillator.py.
-- Recovery: hobo/log/recovery.py. Replica: hobo/replica/tail.py.
-- Obs: the status of hobo/obs/server.py.
-- Tests, and the modules below whose names end in Tests: the definitions and the theorems at concrete
--   inputs.
--
-- Loops: those over lists and dictionaries are structural. `iter_frames_with_offsets` has fuel for one
-- more frame than there are bytes, and a frame takes five bytes at least; `_ensure_capacity` has fuel
-- for every byte that may be missing, and each round adds one at least, for a growth factor of two.
-- The reconciler's loop has the source's own bound of ten pages. The drain of the bus has fuel for the
-- events that it delivers; it ends where each event outweighs what its handlers publish.
--
-- Numbers: sizes and times are natural numbers; the fields of the log's header are below 2^63.
--
-- Not modelled: threads, asyncio and sockets, the venue's REST client, HTTP, metrics and the
-- assembly of the application; power loss between two writes.
pub mod Prelude
pub mod Float
pub mod Risk
pub mod Log
pub mod Config
pub mod Domain
pub mod Core
pub mod Execution
pub mod Strategies
pub mod Venue
pub mod Replica
pub mod Recovery
pub mod Obs
pub mod Tests
