-- ===== src/Dispatch.antt =====
-- plugin-dispatch-kata/cpp: protocol handlers, the scans that select one, the tables that replace
-- them, and the plugin boundary.
pub mod Packet
pub mod Handler
pub mod Scan
pub mod Table
pub mod Generated
pub mod Mechanism
pub mod Abi
pub mod Host
pub mod Plugin
pub mod Tests
