-- ===== src/Capture.antt =====
-- The filter of a capture: util/ip.go and setDeviceFilter of util/pcap.go.
pub mod Address
pub mod Device
pub mod Ranges
pub mod Interfaces
pub mod Merge
pub mod Tool
mod Tests
