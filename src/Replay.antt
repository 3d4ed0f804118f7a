-- ===== src/Replay.antt =====
-- replay/payload.go and replay/title.go: the lines of a file of requests, and the requests in them.
pub mod Title
pub mod Payload
pub mod Lines
pub mod Whole
pub mod Threads
pub mod Client
pub mod Serve
pub mod GlobPath
pub mod Files
mod Tests
