-- ===== src/Services/Forwarder/Gateway.antt =====
-- pkg/services/forwarder/tcp.go and udp.go, the connections from the machines to the outside, and
-- parseNATTable of pkg/virtualnetwork/services.go, which says where some of them go.
pub mod Translation
mod Tests
use gvisor_tap_vsock.Base.{
  ℕ, ◌+◌, Bool, true, false, Option, none, some, List, [], ◌∷◌, Text, text_eq, ◌==◌, if◌then◌else◌,
  ◌||◌, GoMap, lookup, insert,
}

-- linkLocal().Contains; header.IPv4Broadcast; net.Dial to an address and a port, none on an error; and
-- whether CreateEndpoint succeeds
pub record GatewayEnv : Type 0 where
  pub link_local : Text → Bool
  pub broadcast : Text
  pub dials : Text → ℕ → Option ℕ
  pub creates_endpoint : Bool

-- The local address and port of a request's ID
pub record Request : Type 0 where
  pub local_address : Text
  pub local_port : ℕ

-- if replaced, ok := nat[localAddress]; ok
abbrev pub replaced_or : Text → Option Text → Text
replaced_or local_address none = local_address
replaced_or local_address (some replaced) = replaced

unfoldable pub translate : GoMap Text Text → Text → Text
translate nat local_address = replaced_or local_address (lookup local_address nat)

-- How the handler of tcp.go leaves a request: reset by Complete(true), completed without an endpoint,
-- or relayed over the outbound connection
pub data TcpOutcome : Type 0 where
  reset no_endpoint : TcpOutcome
  relayed : ℕ → TcpOutcome

abbrev pub with_outbound : GatewayEnv → Option ℕ → TcpOutcome
with_outbound env none = reset
with_outbound env (some outbound) = if env.creates_endpoint then relayed outbound else no_endpoint

abbrev pub opened_by : Option ℕ → List ℕ
opened_by none = []
opened_by (some outbound) = outbound ∷ []

-- The handler of TCP: the outcome, and the outbound connections that it has opened and not handed to
-- the relay, which closes its own
abbrev pub left_open : TcpOutcome → List ℕ → List ℕ
left_open (relayed outbound) opened = []
left_open _ opened = opened

unfoldable pub tcp_handler : GatewayEnv → GoMap Text Text → Request → TcpOutcome × List ℕ
unfolding translate
tcp_handler env nat r =
    if env.link_local r.local_address
    then (reset, [])
    else let outbound = env.dials (translate nat r.local_address) r.local_port in
      let outcome = with_outbound env outbound in (outcome, left_open outcome (opened_by outbound))

-- How the handler of udp.go leaves a request: ignored, or with a UdpProxy whose dialer dials this
-- address and port
pub data UdpOutcome : Type 0 where
  ignored failed : UdpOutcome
  proxied : Text → ℕ → UdpOutcome

-- The handler of UDP
unfoldable pub udp_handler : GatewayEnv → GoMap Text Text → Request → UdpOutcome
unfolding translate
udp_handler env nat r =
    if env.link_local r.local_address || (r.local_address == env.broadcast)
    then ignored
    else if env.creates_endpoint
    then proxied (translate nat r.local_address) r.local_port
    else failed

-- The loop of parseNATTable over configuration.NAT: net.ParseIP(..).To4() gives none for a text that is
-- no IPv4 address, on which tcpip.AddrFrom4Slice panics.
unfoldable pub add_translations :
    (Text → Option Text) → GoMap Text Text → GoMap Text Text → Option (GoMap Text Text)
add_translations parse_ip4 [] translation = some translation
add_translations parse_ip4 ((source, destination) ∷ nat) translation = elim (parse_ip4 source) [
  | none ↦ none
  | some a ↦ elim (parse_ip4 destination) [
    | none ↦ none
    | some b ↦ add_translations parse_ip4 nat (insert a b translation)
  ]
]

-- parseNATTable; none is a panic
unfoldable pub parse_nat_table : (Text → Option Text) → GoMap Text Text → Option (GoMap Text Text)
parse_nat_table parse_ip4 nat = add_translations parse_ip4 nat []
