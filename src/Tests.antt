-- ===== src/Tests.antt =====
-- Concrete runs of the modelled operations.
pub mod Motion
pub mod Requests
pub mod Nodes
pub mod Plugin
pub mod Stops
pub mod Stages
pub mod Timer
pub mod Cycle
pub mod Session
pub mod Reporters
pub mod Reactivations
pub mod Starts
pub mod Threads
pub mod Plant
