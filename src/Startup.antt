-- ===== src/Startup.antt =====
-- What the servers under highperformenceserver and epoll do before their loops, and the loop of
-- highperformenceserver/select_poll/poll.c.
pub mod Mains
pub mod Checked
pub mod Poll
pub mod Printed
mod Tests
