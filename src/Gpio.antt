-- ===== src/Gpio.antt =====
-- The GPIO driver, src/gpio.rs and src/gpio/state.rs: the definitions by part, then the proofs.
mod Tests
pub mod State
pub mod Ones
pub mod Defs
pub mod Detect
pub mod Locks
pub mod Levels
pub mod Ownership
