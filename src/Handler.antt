-- ===== src/Handler.antt =====
-- handler/handler_base.go: what is read from the two streams of a connection, and what is sent on.
pub mod Pairs
pub mod Format
pub mod Base
pub mod Loop
pub mod Flow
pub mod Beans
pub mod Std
pub mod Fast
pub mod Sample
mod Tests
