-- ===== src/Fanuc.antt =====
-- icon_hwm_controller_examples/fanuc_ros2_icon_hwm: the node that watches a FANUC driver, publishes
-- the operational status, and runs the alarm recovery.
pub mod Status
pub mod Node
pub mod Setup
pub mod Recovery
