-- ===== src/Controller.antt =====
-- `IconHwmController`, the ros2_control plugin: its parameters, the messages it publishes, and its
-- lifecycle callbacks.
pub mod Casts
pub mod Logger
pub mod Params
pub mod Message
pub mod Lifecycle
