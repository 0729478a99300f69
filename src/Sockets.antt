-- ===== src/Sockets.antt =====
-- How the programs open their sockets: `tcp_listen` of 30chp/serv08.c, `tcp_connect` of
-- 30chp/client.c, and `create_and_bind` of the servers under highperformenceserver.
pub mod Open
pub mod Leak
pub mod First
mod Tests
