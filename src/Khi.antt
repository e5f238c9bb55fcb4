-- ===== src/Khi.antt =====
-- icon_hwm_controller_examples/khi_ros2_icon_hwm: the node that watches a Kawasaki driver, publishes
-- the operational status, and resets errors.
pub mod Status
pub mod Node
pub mod Setup
