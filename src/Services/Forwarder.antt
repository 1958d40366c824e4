-- ===== src/Services/Forwarder.antt =====
-- Package forwarder: pkg/services/forwarder.
pub mod Address
pub mod Gateway
pub mod Ports
pub mod Endpoints
pub mod UdpProxy
