-- ===== src/Gvproxy/Config.antt =====
-- The configuration of the virtual network that main of cmd/gvproxy/main.go makes of its options.
pub mod Addresses
use gvisor_tap_vsock.Base.{Bool, Option, none, List, [], ◌∷◌, ◌++◌, Text, codes, GoMap}
use gvisor_tap_vsock.GoNet.{GoNet}
use gvisor_tap_vsock.Services.Dns.{Zone, Record}
use gvisor_tap_vsock.Gvproxy.Options.{ℤ, Strconv, Options}
use gvisor_tap_vsock.Gvproxy.Main.{capture_file}

abbrev pub gateway_ip : Text
gateway_ip = codes "192.168.127.1"

abbrev pub ssh_host_port : Text
ssh_host_port = codes "192.168.127.2:22"

abbrev pub host_ip : Text
host_ip = codes "192.168.127.254"

-- types.Configuration
pub record Configuration : Type 0 where
  pub debug : Bool
  pub capture_file : Text
  pub mtu : ℤ
  pub subnet : Text
  pub gateway_ip : Text
  pub gateway_mac_address : Text
  pub dhcp_static_leases : GoMap Text Text
  pub dns : List Zone
  pub dns_search_domains : Option (List Text)
  pub forwards : GoMap Text Text
  pub nat : GoMap Text Text
  pub gateway_virtual_ips : List Text
  pub vpnkit_uuid_mac_addresses : GoMap Text Text
  pub protocol : Text

-- The records of a zone. Its default address is nil.
abbrev pub zone : GoNet → Text → Zone
zone net name = record {
  name = name;
  records =
      record { name = codes "gateway"; ip = net.parse_ip gateway_ip; regexp = none }
      ∷ record { name = codes "host"; ip = net.parse_ip host_ip; regexp = none }
      ∷ [];
  default_ip = [];
}

-- config := types.Configuration{...}
unfoldable pub config : Strconv → GoNet → Options → Text → Option (List Text) → Configuration
config lib net o protocol domains = record {
  debug = o.debug;
  capture_file = capture_file o.debug;
  mtu = o.mtu;
  subnet = codes "192.168.127.0/24";
  gateway_ip = gateway_ip;
  gateway_mac_address = codes "5a:94:ef:e4:0c:dd";
  dhcp_static_leases = (codes "192.168.127.2", codes "5a:94:ef:e4:0c:ee") ∷ [];
  dns = zone net (codes "containers.internal.") ∷ zone net (codes "docker.internal.") ∷ [];
  dns_search_domains = domains;
  forwards = (codes "127.0.0.1:" ++ lib.itoa o.ssh_port, ssh_host_port) ∷ [];
  nat = (host_ip, codes "127.0.0.1") ∷ [];
  gateway_virtual_ips = host_ip ∷ [];
  vpnkit_uuid_mac_addresses =
      (codes "c3d68012-0208-11ea-9fd7-f2189899ab08", codes "5a:94:ef:e4:0c:ee") ∷ [];
  protocol = protocol;
}
