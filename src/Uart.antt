-- ===== src/Uart.antt =====
-- The Mini UART driver, src/aux/uart.rs and src/aux/uart/.
mod Tests
pub mod Defs
pub mod Locks
pub mod Baud
pub mod Reader
pub mod Writer
pub mod Handler
pub mod Served
pub mod Wire
pub mod Loopback
