-- ===== src/Modbus.antt =====
-- drivers/mgate5101_driver/src/modbus_tcp.cpp and include/mgate/modbus_tcp.h: the Modbus/TCP
-- client over a blocking socket.
pub mod Names
pub mod Wire
pub mod Socket
pub mod Client
pub mod Stream
pub mod Requests
pub mod Transact
pub mod Link
pub mod Port
pub mod Samples
pub mod Tests
