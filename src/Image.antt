-- ===== src/Image.antt =====
-- drivers/mgate5101_driver/src/process_image.cpp and include/mgate/process_image.h: the
-- byte-addressed view of the gateway's PROFIBUS buffers.
pub mod Order
pub mod Types
pub mod Access
pub mod Tags
pub mod Registers
pub mod Bounds
pub mod Involution
pub mod Words
pub mod RoundTrip
pub mod TagTrip
pub mod RegisterTrip
pub mod Scaled
pub mod Frame
pub mod Samples
pub mod Tests
