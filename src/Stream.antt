-- ===== src/Stream.antt =====
-- The routines that move a whole buffer or a line over a byte stream: `writen`, `readn` and
-- `readline`, in their two forms, with an unsigned and with a signed result of the system call.
pub mod Kernel
pub mod Memory
pub mod Writen
pub mod Delivery
pub mod Errors
pub mod Readn
pub mod Gather
pub mod Readline
pub mod ByteStream
pub mod LineCut
pub mod Copy
mod Tests
