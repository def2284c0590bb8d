-- ===== src/Drive.antt =====
-- drivers/mgate5101_driver/src/indradrive.cpp and include/mgate/indradrive.h: the IndraDrive on
-- top of the gateway driver.
pub mod Types
pub mod Status
pub mod Control
pub mod Commands
pub mod Ready
pub mod Safety
pub mod Waiting
pub mod Enabling
pub mod Races
pub mod Samples
pub mod Tests
