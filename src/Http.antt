-- ===== src/Http.antt =====
-- The server of highperformenceserver/examples/8/8-3httpparser.cpp, which parses one request in
-- whatever pieces it arrives.
pub mod Text
pub mod Line
pub mod Request
pub mod Content
pub mod Feed
pub mod Scan
pub mod Follow
pub mod Answer
pub mod Printing
pub mod Tests
