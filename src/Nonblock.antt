-- ===== src/Nonblock.antt =====
-- The client of 16chp/strclinonb.c, which copies in both directions without ever blocking in `read`
-- or `write`.
pub mod Buffer
pub mod Client
pub mod Handlers
pub mod Copying
pub mod Ending
mod Tests
