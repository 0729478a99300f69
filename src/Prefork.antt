-- ===== src/Prefork.antt =====
-- The preforked server of 30chp/serv03.c: child processes that take turns in `accept` by a lock on a
-- file. 30chp/lock_fcntl.c holds the same lock.
pub mod Forking
pub mod Lock
pub mod System
pub mod Exclusion
pub mod Shutdown
mod Tests
