-- ===== src/Tests/Nodes.antt =====
-- Concrete histories and recoveries of the three vendor nodes.
pub mod Ur
pub mod Fanuc
pub mod Khi
