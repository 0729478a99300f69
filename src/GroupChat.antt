-- ===== src/GroupChat.antt =====
-- highperformenceserver/group_chat/server_poll.c: a chat server over `poll`, which sends what a
-- client says to all the others.
pub mod Server
pub mod Invariant
pub mod Budget
pub mod Loop
pub mod Messages
pub mod Client
pub mod Deaf
mod Tests
