-- ===== src/Network/Tests.antt =====
-- Two forwards: DNS over UDP and SSH over TCP.
use gvisor_tap_vsock.Base.{
  ◌≡◌, refl, true, none, [], ◌∷◌, Text, codes, text_eq, GoMap, lookup, insert,
}
use gvisor_tap_vsock.Services.Forwarder.Address.{tcpip_address, atoi, digits_value}
use gvisor_tap_vsock.Services.Forwarder.Ports.{
  PortsEnv, done, start, expose, expose_protocol, expose_tcp, expose_udp, key,
}
use gvisor_tap_vsock.Network.{forward_host_vm}
use gvisor_tap_vsock.Base.{◌++◌, some, replicate}
use gvisor_tap_vsock.GoNet.{GoNet, IpNet, HostsAreAddresses}
use gvisor_tap_vsock.Tap.IpPool.{find_ip}
use gvisor_tap_vsock.Network.Pool
use gvisor_tap_vsock.Network.Pool.{new_pool}
use gvisor_tap_vsock.Network.Pool.Leases.{Fresh, configured}
use gvisor_tap_vsock.Network.Vpnkit
use gvisor_tap_vsock.Network.Vpnkit.{VpnkitEnv, mac_addr, response, vpnkit_handshake}
use gvisor_tap_vsock.Network.Vpnkit.Machine.{vpnkit_handshake_lem, GivesMac}
use gvisor_tap_vsock.Network.Conn.{ConnEnv, dial, address}

abbrev env : PortsEnv
env = record {
  parse_url = λ t. none;
  parse_ip4 = λ t. 192 ∷ 168 ∷ 127 ∷ 2 ∷ [];
  resolves_udp = λ t. true;
  starts = λ opened protocol local_address. true;
  closes = λ handle. true;
}

abbrev forwards : GoMap Text Text
forwards =
    (codes "udp::53", codes "192.168.127.2:53") ∷ (codes ":2222", codes "192.168.127.2:22") ∷ []

forwarded : (forward_host_vm env forwards).0 ≡ done
unfolding forward_host_vm expose expose_protocol expose_tcp expose_udp start lookup insert key
    tcpip_address atoi
forwarded = refl

-- A network whose addresses are printed as they are: the host 2 is leased to a machine for good.
abbrev plain_net : GoNet
plain_net = record {
  ip_string = λ ip. ip;
  parse_ip = λ t. t;
  mask_ones = λ mask. 8;
  address_count = λ base. 4;
  host = λ base i. some (i ∷ base.ip);
}

abbrev subnet : IpNet
subnet = record { ip = 0 ∷ 10 ∷ []; mask = 255 ∷ 0 ∷ [] }

abbrev pool_configuration : Pool.Configuration
pool_configuration = record {
  gateway_ip = 1 ∷ 0 ∷ 10 ∷ [];
  gateway_mac_address = codes "gw";
  dhcp_static_leases = (2 ∷ 0 ∷ 10 ∷ [], codes "vm") ∷ [];
}

hosts : HostsAreAddresses plain_net subnet
hosts = λ i ip e. (refl, λ empty. cc)

fresh : Fresh plain_net (configured pool_configuration) []
unfolding lookup insert find_ip
fresh = ((refl, λ e. cc), refl, refl, ((refl, λ e. cc), refl, refl, tt))

found : lookup (2 ∷ 0 ∷ 10 ∷ []) (configured pool_configuration) ≡ some (codes "vm")
unfolding lookup
found = refl

abbrev uuid : Text
uuid = codes "c3d68012-0208-11ea-9fd7-f2189899ab08"

abbrev vpnkit_configuration : Vpnkit.Configuration
vpnkit_configuration = record {
  mtu = 1500;
  vpnkit_uuid_mac_addresses = (uuid, codes "5a:94:ef:e4:0c:ee") ∷ [];
}

abbrev vpnkit_env : VpnkitEnv
vpnkit_env = record {
  parse_mac = λ t. some (90 ∷ 148 ∷ 239 ∷ 228 ∷ 12 ∷ 238 ∷ []);
  random = λ n. none;
  echoes = true;
  answers = true;
}

configured_mac :
    mac_addr vpnkit_env vpnkit_configuration uuid ≡ some (90 ∷ 148 ∷ 239 ∷ 228 ∷ 12 ∷ 238 ∷ [])
unfolding mac_addr lookup
configured_mac = refl

abbrev init : Text
init = replicate 49 86

vpnkit_handshake_lem_example :
    (resp : Text) × (vpnkit_handshake vpnkit_env vpnkit_configuration
        (init ++ ((1 ∷ (uuid ++ replicate 4 0)) ++ 4 ∷ 0 ∷ []))
      ≡ record { error = none; written = init ++ resp; unread = 4 ∷ 0 ∷ [] })
    × GivesMac 1500 (90 ∷ 148 ∷ 239 ∷ 228 ∷ 12 ∷ 238 ∷ []) resp
vpnkit_handshake_lem_example =
    vpnkit_handshake_lem vpnkit_env vpnkit_configuration init uuid (replicate 4 0) (4 ∷ 0 ∷ []) 1
      refl refl refl (90 ∷ 148 ∷ 239 ∷ 228 ∷ 12 ∷ 238 ∷ []) refl refl configured_mac refl

abbrev conn_env : ConnEnv
conn_env = record {
  split_host_port = λ t. some (codes "vm", t);
  parse_ip = λ t. some (10 ∷ 0 ∷ 0 ∷ 2 ∷ []);
  to4 = λ ip. some ip;
}

dialled :
    dial conn_env (codes "tcp") (codes "65535")
    ≡ address (record { nic = 1; addr = 10 ∷ 0 ∷ 0 ∷ 2 ∷ []; port = 65535 })
unfolding dial digits_value
dialled = refl
