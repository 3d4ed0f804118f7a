-- ===== src/Web.antt =====
-- sse.go: the events that the web page shows, and what its handler serves.
pub mod Event
pub mod Page
mod Tests
