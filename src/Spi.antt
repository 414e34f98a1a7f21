-- ===== src/Spi.antt =====
-- src/aux/spi.rs and src/aux/spi/: the auxiliary SPI master.
pub mod Defs
pub mod Entry
pub mod Packing
pub mod Bus
pub mod Async
pub mod Duplex
pub mod Queue
pub mod Slices
pub mod Lock
pub mod Sending
pub mod Calls
pub mod Polled
pub mod Transfers
pub mod Originals
pub mod Life
pub mod Replies
pub mod Waits
pub mod Device
pub mod Exchange
pub mod Echo
pub mod Lengths
pub mod Written
pub mod Flushed
pub mod Ongoing
pub mod Delivered
mod Tests
