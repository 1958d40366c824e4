-- ===== src/Tap.antt =====
-- Package tap: pkg/tap.
pub mod IpPool
pub mod Framing
pub mod Switch
pub mod Wiring
pub mod Link
