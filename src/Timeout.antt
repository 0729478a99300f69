-- ===== src/Timeout.antt =====
-- A `connect` that gives up after some seconds: 14chp/connect_timeo.c.
pub mod Connect
pub mod Restored
