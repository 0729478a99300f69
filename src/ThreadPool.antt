-- ===== src/ThreadPool.antt =====
-- 30chp/serv08.c (and 30chp/pthread08.c): the queue of accepted connections between the main
-- thread and the pool's threads.
pub mod Queue
pub mod Fifo
pub mod Refine
pub mod System
pub mod Invariant
pub mod Safety
mod Tests
