-- ===== src/Bridge.antt =====
-- wavemaker_controller/src/wavemaker_bridge.cpp: the node between the operator's topics and the
-- action server of the wavemaker.
pub mod Types
pub mod Reports
pub mod Goals
pub mod Lifecycle
pub mod Events
pub mod Sound
pub mod Answers
pub mod Phases
pub mod Holding
pub mod Invariant
pub mod Safety
pub mod Replies
pub mod Tests
