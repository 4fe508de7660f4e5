-- ===== src/Utils.antt =====
-- agent/server/impl/Utils.h and Utils.cpp, one child for each group of functions.
pub mod Paths
pub mod Hex
pub mod Uuid
pub mod Crc
pub mod Response
pub mod Process
pub mod Semaphore
