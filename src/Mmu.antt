-- ===== src/Mmu.antt =====
-- src/mmu.rs: section descriptors and the translation table.
mod Tests
mod Defs
pub mod Fields
pub mod Walk
pub use Defs.*
