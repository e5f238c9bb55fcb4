-- ===== src/Hwm.antt =====
-- icon_hwm_controller/src/ros2_hwm_impl.cpp and its header: the hardware module that the ICON
-- runtime drives.
pub mod Params
pub mod Services
pub mod Transitions
pub mod Interfaces
pub mod Strides
pub mod Read
pub mod Apply
