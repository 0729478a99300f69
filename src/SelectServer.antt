-- ===== src/SelectServer.antt =====
-- The echo server of 6chp/tcpservselect01.c, one process that waits for all its clients with
-- `select`.
pub mod Table
pub mod Early
pub mod Watch
pub mod Reach
mod Tests
