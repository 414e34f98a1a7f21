-- ===== src/Processor.antt =====
-- The processor's interrupt mask: `enable` and `disable` of src/interrupt.rs, the critical sections
-- of src/critical_section_impl.rs, and the executor of src/executor.rs.
pub mod Mask
pub mod Executor
mod Tests
