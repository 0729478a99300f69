-- ===== src/Epoll.antt =====
-- The servers over epoll: highperformenceserver/epoll (level-triggered, edge-triggered, one-shot)
-- and epoll/epoll-example-server.c.
pub mod Calls
pub mod Level
pub mod Edge
pub mod Oneshot
pub mod Example
pub mod Burst
pub mod Drain
pub mod Taking
mod Tests
