-- ===== src/Core.antt =====
-- hobo/core: the runtime events, the recorder and the services around the event bus.
pub mod Event
pub mod Bus
pub mod Store
pub mod Gateway
pub mod Health
pub mod Ingestor
pub mod Reconciler
pub mod Bridge
pub mod Views
pub mod Runner
pub mod Tests
pub mod BookTests
pub mod BusTests
pub mod RunnerTests
