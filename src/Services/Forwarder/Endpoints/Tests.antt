-- ===== src/Services/Forwarder/Endpoints/Tests.antt =====
-- The theorems on the endpoints at instances.
use gvisor_tap_vsock.Base.{
  ◌≡◌, refl, true, Option, none, some, [], ◌∷◌, Text, codes, text_eq, nat_eq, lookup,
}
use gvisor_tap_vsock.Services.Forwarder.Address.{tcpip_address, atoi}
use gvisor_tap_vsock.Services.Forwarder.Ports.{
  udp, tcp, Proxy, PortsEnv, PortsForwarder, new_ports_forwarder, start, expose_protocol,
  expose_tcp, expose,
}
use gvisor_tap_vsock.Services.Forwarder.Ports.Exposing.{new_proxy, started}
use gvisor_tap_vsock.Services.Forwarder.Ports.Handles.{IsValid, started-IsValid}
use gvisor_tap_vsock.Services.Forwarder.Ports.Calls.{new_ports_forwarder-IsValid}
use gvisor_tap_vsock.Services.Forwarder.Endpoints.{
  ExposeRequest, Response, status_ok, remote_of, expose_endpoint,
}

abbrev env : PortsEnv
env = record {
  parse_url = λ t. none;
  parse_ip4 = λ t. 192 ∷ 168 ∷ 127 ∷ 2 ∷ [];
  resolves_udp = λ t. true;
  starts = λ opened protocol local_address. true;
  closes = λ handle. true;
}

abbrev split_host_port : Text → Option (Text × Text)
split_host_port t = some (codes "vm", codes "80")

abbrev asked : ExposeRequest
asked = record { local_address = codes ":6443"; remote_address = codes "vm:80"; protocol = [] }

abbrev caller : Text
caller = codes "192.168.127.2:40000"

abbrev exposing : PortsForwarder → Response × PortsForwarder
exposing = expose_endpoint env split_host_port true (some asked) caller

answered : (exposing new_ports_forwarder).0 ≡ status_ok
unfolding expose_endpoint remote_of expose expose_protocol expose_tcp start lookup tcpip_address
    atoi
answered = refl

abbrev dns : Text
dns = codes "192.168.127.1:53"

abbrev one : PortsForwarder
one = started tcp (codes ":53") dns new_ports_forwarder

abbrev two : PortsForwarder
two = started udp (codes ":53") dns one

abbrev tcp_proxy : Proxy
tcp_proxy = new_proxy tcp (codes ":53") dns 0

abbrev udp_proxy : Proxy
udp_proxy = new_proxy udp (codes ":53") dns 1

two-IsValid : IsValid two
two-IsValid =
    started-IsValid udp (codes ":53") dns one
      (started-IsValid tcp (codes ":53") dns new_ports_forwarder new_ports_forwarder-IsValid)
