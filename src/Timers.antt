-- ===== src/Timers.antt =====
-- Three containers of timers, and a server over one of them, of highperformenceserver/examples/11.
pub mod Wheel
pub mod Heap
pub mod Sorted
