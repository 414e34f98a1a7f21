-- ===== src/Interrupt.antt =====
-- src/interrupt.rs: the sources of interrupts, their enabling, the dispatch to the handlers; and
-- `first_stage` of src/lib.rs.
pub mod Defs
pub mod Enabled
pub mod Dispatch
pub mod Wakes
pub mod Transfers
pub mod Alarms
pub mod Boot
mod Tests
