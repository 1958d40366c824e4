-- ===== src/Network/New/Tests.antt =====
-- A network with one static lease and one forward, and the theorems at instances.
use gvisor_tap_vsock.Base.{
  ◌≡◌, refl, ◌≢◌, false, true, none, some, List, [], ◌∷◌, Text, codes, text_eq, GoMap, lookup,
  insert,
}
use gvisor_tap_vsock.GoNet.{GoNet, IpNet, HostsAreAddresses}
use gvisor_tap_vsock.Tap.IpPool.{get_or_assign, find_ip}
use gvisor_tap_vsock.Tap.IpPool.History.{assigns, releases}
use gvisor_tap_vsock.Tap.Link.{new_link_endpoint}
use gvisor_tap_vsock.Tap.Switch.{new_switch}
use gvisor_tap_vsock.Services.Forwarder.Address.{tcpip_address, atoi}
use gvisor_tap_vsock.Services.Forwarder.Gateway.{parse_nat_table, add_translations}
use gvisor_tap_vsock.Services.Forwarder.Ports.{PortsEnv, start, expose, expose_protocol, expose_tcp}
use gvisor_tap_vsock.Services.Forwarder.Ports.Handles.{IsValid}
use gvisor_tap_vsock.Gvproxy.Options.{pos}
use gvisor_tap_vsock.Gvproxy.Config.{Configuration}
use gvisor_tap_vsock.Network.{forward_host_vm}
use gvisor_tap_vsock.Network.Pool.{new_pool}
use gvisor_tap_vsock.Network.Pool.Leases.{Fresh, configured}
use gvisor_tap_vsock.Network.New.{
  NewEnv, made, pool_configuration, create_stack, dns_server, dhcp_server, add_services,
  open_capture, new,
}
use gvisor_tap_vsock.Network.New.Created.{Follows, plan, IsNew, new-Follows, new-IsNew}
use gvisor_tap_vsock.Network.New.Leases.{new-after}
use gvisor_tap_vsock.Http.Server.Events.{Event, requests, guests, calls, after}
use gvisor_tap_vsock.Http.{HttpRequest}
use gvisor_tap_vsock.Http.Server.{Network, HttpEnv}

-- Addresses are printed as they are.
abbrev plain_net : GoNet
plain_net = record {
  ip_string = λ ip. ip;
  parse_ip = λ t. t;
  mask_ones = λ mask. 8;
  address_count = λ base. 4;
  host = λ base i. some (i ∷ base.ip);
}

abbrev subnet : IpNet
subnet = record { ip = 0 ∷ 10 ∷ []; mask = 255 ∷ 0 ∷ [] }

abbrev ports : PortsEnv
ports = record {
  parse_url = λ t. none;
  parse_ip4 = λ t. 192 ∷ 168 ∷ 127 ∷ 2 ∷ [];
  resolves_udp = λ t. true;
  starts = λ opened protocol local_address. true;
  closes = λ handle. true;
}

abbrev env : NewEnv
env = record {
  net = plain_net;
  link = record {
    parse_mac = λ t. some t;
    encode_ethernet = λ protocol source destination. source;
    arp_is_valid = λ h. false;
    arp_is_reply = λ h. false;
    arp_sender = λ h. h;
    address_string = λ address. address;
  };
  ports = ports;
  parse_cidr = λ t. some subnet;
  parse_ip4 = λ t. some t;
  creates_file = λ file. true;
  sniffs = true;
  creates_nic = true;
  adds_address = λ address. true;
  new_subnet = λ s. true;
  dials_udp = λ address. true;
  listens_tcp = λ address. true;
  new_endpoint = true;
  binds = true;
  new_dhcp_server = true;
}

abbrev configuration : Configuration
configuration = record {
  debug = true;
  capture_file = codes "capture.pcap";
  mtu = pos 1500;
  subnet = codes "10.0.0.0/8";
  gateway_ip = 1 ∷ 0 ∷ 10 ∷ [];
  gateway_mac_address = codes "gw";
  dhcp_static_leases = (2 ∷ 0 ∷ 10 ∷ [], codes "vm") ∷ [];
  dns = [];
  dns_search_domains = none;
  forwards = (codes ":2222", codes "192.168.127.2:22") ∷ [];
  nat = (codes "outside", codes "inside") ∷ [];
  gateway_virtual_ips = [];
  vpnkit_uuid_mac_addresses = [];
  protocol = codes "hyperkit";
}

new-Follows_example : Follows (new env configuration) (plan configuration)
new-Follows_example = new-Follows env configuration

abbrev network : Network
network = record {
  forwarder = (forward_host_vm ports configuration.forwards).1;
  zones = [];
  pool = new_pool plain_net (pool_configuration configuration) subnet;
  switch = new_switch;
}

abbrev translations : GoMap Text Text
translations = (codes "outside", codes "inside") ∷ []

created : (new env configuration).0 ≡ made (network, translations)
unfolding new create_stack dns_server dhcp_server add_services open_capture new_link_endpoint
    parse_nat_table add_translations insert forward_host_vm expose expose_protocol expose_tcp start
    lookup tcpip_address atoi
created = refl

hosts : HostsAreAddresses plain_net subnet
hosts = λ i ip e. (refl, λ empty. cc)

fresh : Fresh plain_net (configured (pool_configuration configuration)) []
unfolding lookup insert find_ip
fresh = ((refl, λ e. cc), refl, refl, ((refl, λ e. cc), refl, refl, tt))

new-IsNew_example : IsNew env configuration network translations
new-IsNew_example = new-IsNew env configuration fresh network translations created

found : lookup (2 ∷ 0 ∷ 10 ∷ []) (configured (pool_configuration configuration)) ≡ some (codes "vm")
unfolding lookup
found = refl

abbrev http : HttpEnv
http = record {
  json = record {
    encode_proxies = λ ps. [];
    encode_zones = λ zones. [];
    encode_leases = λ leases. [];
    encode_cam = λ cam. [];
    encode_stats = λ sent received. [];
    decode_expose = λ t. none;
    decode_unexpose = λ t. some (record { local_address = codes ":2222"; protocol = codes "tcp" });
    decode_zone = λ t. none;
  };
  ports = ports;
  split_host_port = λ t. none;
  error_text = λ req n. [];
  switch_env = record {
    destination_address = λ t. none;
    source_address = λ t. none;
    ethernet_type = λ t. none;
    broadcast = 255 ∷ [];
    ethernet_minimum_size = 3;
    gateway_address = 1 ∷ [];
    accepts = λ log id bytes. true;
  };
  address_string = λ address. address;
  conn = record { split_host_port = λ t. none; parse_ip = λ t. none; to4 = λ t. none };
  hijack = λ req. record { hijacker = true; hijacks = true; flushes = true; writes = true };
  incoming = λ req. record { bytes = []; datagrams = [] };
  rounds = λ req. 3;
  protocol = codes "hyperkit";
}

abbrev unexpose : HttpRequest
unexpose = record {
  method = codes "POST";
  path = codes "/services/forwarder/unexpose";
  query = λ k. [];
  body = [];
  remote_addr = [];
}

abbrev events : List Event
events =
    calls (assigns (codes "x"))
    ∷ guests unexpose
    ∷ calls (releases (codes "x"))
    ∷ requests (record unexpose { path = codes "/connect" })
    ∷ []

new-after_example :
    ((get_or_assign plain_net
        (after plain_net http true (λ req. none) events network).pool
        (codes "vm")).0
      ≡ some (2 ∷ 0 ∷ 10 ∷ []))
    × ((get_or_assign plain_net
          (after plain_net http true (λ req. none) events network).pool
          (codes "x")).0
        ≢ some (2 ∷ 0 ∷ 10 ∷ []))
    × IsValid (after plain_net http true (λ req. none) events network).forwarder
new-after_example =
    new-after env configuration network translations subnet created refl hosts fresh http true
      (λ req. none) events (2 ∷ 0 ∷ 10 ∷ []) (codes "vm") (codes "x") (2 ∷ 0 ∷ 10 ∷ []) found
      ((λ e. cc), ((λ e. cc), tt)) (λ e. cc) refl
