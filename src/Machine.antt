-- ===== src/Machine.antt =====
-- The machine that the drivers run on: the state with its operations, and the registers that
-- keep what is written to them.
pub mod Defs
pub mod Log
pub mod Registers
unfoldable pub use Defs.*
unfoldable pub use Registers.*
unfoldable pub use Log.*
