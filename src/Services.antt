-- ===== src/Services.antt =====
-- The services of the gateway: pkg/services.
pub mod Dhcp
pub mod Dns
pub mod Forwarder
