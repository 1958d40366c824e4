-- ===== src/Network/New.antt =====
-- New and createStack of pkg/virtualnetwork/virtualnetwork.go, and addServices of services.go with the
-- servers that it starts: what a virtual network is made of, in which order, and what is left when a
-- step fails.
pub mod Created
pub mod Leases
mod Tests
use gvisor_tap_vsock.Base.{
  ℕ, ◌-◌, ◌^◌, Bool, Option, none, some, List, [], ◌∷◌, ◌++◌, Text, text_eq, nat_eq, ◌==◌,
  if◌then◌else◌, GoMap,
}
use gvisor_tap_vsock.GoNet.{GoNet, IpNet}
use gvisor_tap_vsock.Gvproxy.Options.{ℤ, pos, negsuc}
use gvisor_tap_vsock.Gvproxy.Config.{Configuration}
use gvisor_tap_vsock.Tap.Link.{LinkEnv, LinkEndpoint, new_link_endpoint}
use gvisor_tap_vsock.Tap.Switch.{new_switch}
use gvisor_tap_vsock.Services.Forwarder.Ports.{
  Opened, PortsEnv, PortsForwarder, Error, Result, done, panics as expose_panics,
  fails as expose_fails,
}
use gvisor_tap_vsock.Services.Forwarder.Gateway.{parse_nat_table}
use gvisor_tap_vsock.Network.{forward_host_vm}
use gvisor_tap_vsock.Network.Pool
use gvisor_tap_vsock.Network.Pool.{new_pool}
use gvisor_tap_vsock.Http.Server.{Network}

-- What New calls outside: net.ParseCIDR; net.ParseIP(..).To4(), none for nil; and whether os.Create,
-- the sniffer, the calls of gVisor's stack, and those of insomniacslk/dhcp succeed.
pub record NewEnv : Type 0 where
  pub net : GoNet
  pub link : LinkEnv
  pub ports : PortsEnv
  pub parse_cidr : Text → Option IpNet
  pub parse_ip4 : Text → Option Text
  pub creates_file : Text → Bool
  pub sniffs : Bool
  pub creates_nic : Bool
  pub adds_address : Text → Bool
  pub new_subnet : IpNet → Bool
  pub dials_udp : Text → Bool
  pub listens_tcp : Text → Bool
  pub new_endpoint : Bool
  pub binds : Bool
  pub new_dhcp_server : Bool

pub data Fault : Type 0 where
  bad_subnet bad_link no_capture_file no_sniffer no_nic no_address bad_route no_dns_socket
        no_dns_listener no_dhcp_socket no_dhcp_server :
      Fault
  -- with the listeners of the forwards before it, which stay open
  no_forward : Error → List Opened → Fault

-- What is open and what runs: an endpoint that cannot be bound is closed again.
pub data Held : Type 0 where
  capture : Text → Held
  dns_udp dns_tcp dhcp_socket : Held
  serves_dns_udp serves_dns_tcp serves_dhcp : Held

pub data Made (A : Type 0) : Type 0 where
  made : A → Made A
  fails : Fault → Made A
  panics : Made A

-- A result with what has been opened and started for it, oldest first
abbrev pub Making : Type 0 → Type 0
Making A = Made A × List Held

-- The result of a step that only succeeds or fails
abbrev pub Nothing : Type 0
Nothing = Unit {0}

infixl 5 ◌>>=◌ ◌>>◌
abbrev pub ◌>>=◌ : {A B : Type 0} → Making A → (A → Making B) → Making B
(made a, held) >>= k = let (r, later) = k a in (r, held ++ later)
(fails e, held) >>= k = (fails e, held)
(panics, held) >>= k = (panics, held)

abbrev pub ◌>>◌ : {A B : Type 0} → Making A → Making B → Making B
m >> k = m >>= λ _. k

-- if err != nil { return nil, err }, after which this is open or runs
abbrev pub holds_if : Bool → Fault → List Held → Making Nothing
holds_if ok e held = if ok then (made tt, held) else (fails e, [])

abbrev pub or_fails : {A : Type 0} → Option A → Fault → Making A
or_fails none e = (fails e, [])
or_fails (some a) e = (made a, [])

-- tcpip.AddrFrom4Slice
abbrev pub or_panics : {A : Type 0} → Option A → Making A
or_panics none = (panics, [])
or_panics (some a) = (made a, [])

-- An int of 64 bits, as the word that a conversion reads
abbrev pub word : ℤ → ℕ
word (pos n) = n
word (negsuc n) = 2 ^ 64 - 1 - n

-- createStack
unfoldable pub create_stack : NewEnv → Configuration → Making Nothing
create_stack env c = do
  holds_if env.creates_nic no_nic []
  address ← or_panics (env.parse_ip4 c.gateway_ip)
  holds_if (env.adds_address address) no_address []
  subnet ← or_fails (env.parse_cidr c.subnet) bad_route
  holds_if (env.new_subnet subnet) bad_route []

-- dnsServer; New of dns.go gives no error
unfoldable pub dns_server : NewEnv → Configuration → Making Nothing
dns_server env c = do
  address ← or_panics (env.parse_ip4 c.gateway_ip)
  holds_if (env.dials_udp address) no_dns_socket (dns_udp ∷ [])
  holds_if (env.listens_tcp address) no_dns_listener (dns_tcp ∷ [])
  (made tt, serves_dns_udp ∷ serves_dns_tcp ∷ [])

-- dhcpServer, with New and dial of dhcp.go
unfoldable pub dhcp_server : NewEnv → Making Nothing
dhcp_server env = do
  holds_if env.new_endpoint no_dhcp_socket []
  holds_if env.binds no_dhcp_socket (dhcp_socket ∷ [])
  holds_if env.new_dhcp_server no_dhcp_server (serves_dhcp ∷ [])

-- forwarderMux, err := forwardHostVM(configuration, s)
abbrev pub forwarding : Result × PortsForwarder → Making PortsForwarder
forwarding (done, f) = (made f, [])
forwarding (expose_fails e, f) = (fails (no_forward e f.open_listeners), [])
forwarding (expose_panics, f) = (panics, [])

-- addServices: the table of translations of the two forwarders, and the forwarder of ports
unfoldable pub add_services : NewEnv → Configuration → Making (PortsForwarder × GoMap Text Text)
unfolding dns_server dhcp_server
add_services env c = do
  translation ← or_panics (parse_nat_table env.parse_ip4 c.nat)
  dns_server env c
  dhcp_server env
  forwarder ← forwarding (forward_host_vm env.ports c.forwards)
  (made (forwarder, translation), [])

abbrev pub pool_configuration : Configuration → Pool.Configuration
pool_configuration c = record {
  gateway_ip = c.gateway_ip;
  gateway_mac_address = c.gateway_mac_address;
  dhcp_static_leases = c.dhcp_static_leases;
}

-- if configuration.CaptureFile != ""
unfoldable pub open_capture : NewEnv → Text → Making Nothing
open_capture env file = if file == [] then (made tt, []) else (do
  holds_if (env.creates_file file) no_capture_file (capture file ∷ [])
  holds_if env.sniffs no_sniffer [])

-- tapEndpoint, err := tap.NewLinkEndpoint(...)
abbrev pub tap_endpoint : NewEnv → Configuration → Option LinkEndpoint
tap_endpoint env c =
    new_link_endpoint env.link (word c.mtu) c.gateway_mac_address c.gateway_ip c.gateway_virtual_ips

-- New, with the table of translations that it gives to the forwarders of TCP and UDP
unfoldable pub new : NewEnv → Configuration → Making (Network × GoMap Text Text)
unfolding create_stack add_services open_capture
new env c = do
  subnet ← or_fails (env.parse_cidr c.subnet) bad_subnet
  endpoint ← or_fails (tap_endpoint env c) bad_link
  open_capture env c.capture_file
  create_stack env c
  services ← add_services env c
  (
    made (
      record {
        forwarder = services.0;
        zones = c.dns;
        pool = new_pool env.net (pool_configuration c) subnet;
        switch = new_switch;
      },
      services.1,
    ),
    [],
  )
