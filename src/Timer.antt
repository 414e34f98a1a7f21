-- ===== src/Timer.antt =====
-- src/system_time/driver.rs: the driver of the system timer, for the `embassy_time_driver` crate.
mod Tests
pub mod Defs
pub mod Clock
pub mod Alarm
pub mod Ring
pub mod Calls
pub mod Registered
pub mod Runs
