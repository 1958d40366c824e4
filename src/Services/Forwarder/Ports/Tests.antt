-- ===== src/Services/Forwarder/Ports/Tests.antt =====
-- The forwarder with listeners that always start, as those of sockets do, whose file is removed
-- first, and the theorems at instances.
use gvisor_tap_vsock.Base.{
  ℕ, ◌≡◌, refl, ◌≢◌, true, some, [], ◌∷◌, Text, codes, text_eq, nat_eq, lookup, insert, All,
}
use gvisor_tap_vsock.Services.Forwarder.Address.{tcpip_address, atoi}
use gvisor_tap_vsock.Services.Forwarder.Ports.{
  unix, Url, PortsEnv, done, new_ports_forwarder, key, start, expose_socket, expose_protocol,
  expose,
}
use gvisor_tap_vsock.Services.Forwarder.Ports.Exposing.{new_proxy}
use gvisor_tap_vsock.Services.Forwarder.Ports.Handles.{IsValid, Holds}
use gvisor_tap_vsock.Services.Forwarder.Ports.Calls.{
  exposes, unexposes, run, run_holds, new_ports_forwarder-IsValid, expose_twice, expose-expose,
}

abbrev sock : Text
sock = codes "vm.sock"

abbrev remote : Text
remote = codes "tcp://192.168.127.2:22"

abbrev host_of : Url
host_of = record {
  scheme = codes "tcp";
  hostname = codes "vm";
  port = codes "22";
  path = [];
  query = λ k. [];
}

-- Listeners always start, as those of sockets do, whose file is removed first.
abbrev env : PortsEnv
env = record {
  parse_url = λ t. some host_of;
  parse_ip4 = λ t. 192 ∷ 168 ∷ 127 ∷ 2 ∷ [];
  resolves_udp = λ t. true;
  starts = λ opened protocol local_address. true;
  closes = λ handle. true;
}

run_holds_example :
    IsValid (run env new_ports_forwarder (exposes unix sock remote ∷ unexposes unix sock ∷ []))
run_holds_example = run_holds env (exposes unix sock remote ∷ unexposes unix sock ∷ [])

sock_lacks : All (λ c. c ≢ b'/') sock
sock_lacks =
    ((λ e. cc), ((λ e. cc), ((λ e. cc), ((λ e. cc), ((λ e. cc), ((λ e. cc), ((λ e. cc), tt)))))))

exposes_sock : (expose env unix sock remote new_ports_forwarder).0 ≡ done
unfolding expose expose_protocol expose_socket start lookup tcpip_address atoi
exposes_sock = refl

abbrev first_handle : ℕ
first_handle = 0

exposes_again : (expose_twice env unix sock remote remote new_ports_forwarder).0 ≡ done
unfolding expose expose_protocol expose_socket start lookup insert key tcpip_address atoi
exposes_again = refl

expose-expose_example :
    Holds
      (new_proxy unix sock remote 0)
      (expose_twice env unix sock remote remote new_ports_forwarder).1.open_listeners
    × (1 ≢ first_handle)
unfolding expose expose_protocol expose_socket start lookup insert key tcpip_address atoi
expose-expose_example =
    expose-expose env unix sock remote new_ports_forwarder new_ports_forwarder-IsValid remote
      (key unix sock) (new_proxy unix sock remote 1) exposes_sock exposes_again refl
