-- ===== src/Driver.antt =====
-- drivers/mgate5101_driver/src/mgate_driver.cpp and include/mgate/mgate_driver.h: the cyclic
-- exchange with the gateway over cached process images.
pub mod State
pub mod Registry
pub mod Staging
pub mod Transfer
pub mod Exchange
pub mod Words
pub mod Patch
pub mod Sync
pub mod Flush
pub mod LostWrite
pub mod Keep
pub mod ReadBack
pub mod Samples
pub mod Tests
