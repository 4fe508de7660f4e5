-- ===== src/Agent.antt =====
-- agent/server/impl/Agent.h and Agent.cpp, one child for each group of methods.
pub mod Disk
pub mod Move
pub mod Pairs
pub mod World
pub mod Members
pub mod Status
pub mod Handlers
pub mod Served
pub mod Query
pub mod Send
pub mod Retrieve
