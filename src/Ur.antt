-- ===== src/Ur.antt =====
-- icon_hwm_controller_examples/ur_ros2_icon_hwm: the node that watches a Universal Robots driver,
-- publishes the operational status, and clears faults.
pub mod Status
pub mod Node
pub mod Setup
pub mod Recovery
