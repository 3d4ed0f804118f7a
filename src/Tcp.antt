-- ===== src/Tcp.antt =====
-- handler/tcp_assembly.go
pub mod Packet
pub mod Seq
pub mod Window
pub mod Queue
pub mod Stream
pub mod Connection
pub mod Label
pub mod Assembler
mod Tests
