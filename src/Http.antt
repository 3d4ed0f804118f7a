-- ===== src/Http.antt =====
-- util/http.go: what the program reads of an HTTP/1 message before it parses it.
pub mod Std
pub mod Title
pub mod Header
pub mod Payload
mod Tests
