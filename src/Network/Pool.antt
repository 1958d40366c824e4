-- ===== src/Network/Pool.antt =====
-- New of pkg/virtualnetwork/virtualnetwork.go: the pool of addresses with the gateway and the static
-- leases, which the DHCP server then leases from.
pub mod Leases
use gvisor_tap_vsock.Base.{List, [], ◌∷◌, Text, GoMap}
use gvisor_tap_vsock.GoNet.{GoNet, IpNet}
use gvisor_tap_vsock.Tap.IpPool.{IpPool, new_ip_pool, reserve}

-- types.Configuration, as far as the pool reads it
pub record Configuration : Type 0 where
  pub gateway_ip : Text
  pub gateway_mac_address : Text
  pub dhcp_static_leases : GoMap Text Text

-- for ip, mac := range configuration.DHCPStaticLeases
unfoldable pub reserve_all : GoNet → GoMap Text Text → IpPool → IpPool
reserve_all net [] pool = pool
reserve_all net ((ip, mac) ∷ leases) pool =
    reserve_all net leases (reserve net pool (net.parse_ip ip) mac)

-- The pool that New makes of the network of the configuration
unfoldable pub new_pool : GoNet → Configuration → IpNet → IpPool
unfolding reserve_all
new_pool net configuration subnet = reserve_all net configuration.dhcp_static_leases (
    reserve net (new_ip_pool net subnet) (net.parse_ip configuration.gateway_ip)
      configuration.gateway_mac_address)
