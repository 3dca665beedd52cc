-- ===== src/Risk.antt =====
-- hobo/risk: the model, the state with its queries, the fold of events and the pre-trade gate.
pub mod Model
pub mod Math
pub mod State
pub mod Saved
pub mod Fold
pub mod Gate
pub mod Tests
