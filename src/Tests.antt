-- ===== src/Tests.antt =====
-- Runs on small inputs, and the theorems at concrete data.
mod Moves
mod Texts
pub mod Sums
mod Ages
pub mod Handlers
mod Retrieval
mod Services
mod Feeds
mod Routes
mod Threads
mod Starts
mod Cleaning
mod Requests
