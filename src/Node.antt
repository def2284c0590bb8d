-- ===== src/Node.antt =====
-- wavemaker_controller/src/wavemaker_node.cpp: the lifecycle node that runs the wavemaker.
pub mod Types
pub mod Config
pub mod Goals
pub mod Execute
pub mod Upright
pub mod Workers
pub mod Lifecycle
pub mod Valid
pub mod Preparation
pub mod Acceptance
pub mod Clamping
pub mod Release
pub mod Endings
pub mod Returning
pub mod Activity
pub mod Claims
pub mod Tests
