-- ===== src/Services/Dhcp.antt =====
-- pkg/services/dhcp/dhcp.go: the DHCP server of the gateway, on the pool of addresses. What it reads
-- from its socket is a sequence of messages, handled one after the other.
pub mod Leases
mod Tests
use gvisor_tap_vsock.Base.{
  ℕ, ◌%◌, ◌^◌, Option, none, some, List, [], ◌∷◌, Text, nat_eq, ◌==◌, if◌then◌else◌,
}
use gvisor_tap_vsock.GoNet.{GoNet, Ip}
use gvisor_tap_vsock.Tap.IpPool.{IpPool, get_or_assign}

-- The fields of types.Configuration that the handler reads
pub record Configuration : Type 0 where
  pub subnet : Text
  pub gateway_ip : Text
  pub mtu : ℕ
  pub dns_search_domains : List Text

-- The options that the handler sets
pub data DhcpOption : Type 0 where
  server_identifier : Ip → DhcpOption
  lease_time : ℕ → DhcpOption
  subnet_mask : Text → DhcpOption
  router : Ip → DhcpOption
  domain_name_server : List Ip → DhcpOption
  interface_mtu : ℕ → DhcpOption
  dns_domain_search_list : List Text → DhcpOption
  message_type : ℕ → DhcpOption

-- What the handler reads of a message: the print of its hardware address and its type; and the
-- message as a whole, for NewReplyFromRequest.
pub record Message : Type 0 where
  pub client_hw_addr : Text
  pub mtype : ℕ
  pub bytes : Text

-- A reply: its header, the address that the code assigns to its field, and its options
pub record Reply : Type 0 where
  pub header : Text
  pub your_ip_addr : Ip
  pub options : List DhcpOption

-- The calls of insomniacslk/dhcp, and net.ParseCIDR with the mask of the network that it returns;
-- none on an error
pub record DhcpLib : Type 0 where
  pub new_reply_from_request : Message → Option Reply
  pub update_option : DhcpOption → List DhcpOption → List DhcpOption
  pub parse_cidr : Text → Option Text

-- The message types that the handler names
abbrev pub discover : ℕ
discover = 1

abbrev pub offer : ℕ
offer = 2

abbrev pub request : ℕ
request = 3

abbrev pub ack : ℕ
ack = 5

-- switch mt := m.MessageType(); none is its default
abbrev pub answer_type : ℕ → Option ℕ
answer_type mtype =
    if mtype == discover then some offer else if mtype == request then some ack else none

abbrev pub update : DhcpLib → DhcpOption → Reply → Reply
update lib option reply = record reply { options = lib.update_option option reply.options }

-- From reply.YourIPAddr = ip to the search list; Uint16 takes the MTU modulo 2 ^ 16.
unfoldable pub fill : GoNet → DhcpLib → Configuration → Text → Ip → Reply → Reply
fill net lib config mask ip reply =
    let gateway = net.parse_ip config.gateway_ip in
    let addressed = record reply { your_ip_addr = ip } in
    let identified = update lib (server_identifier gateway) addressed in
    let timed = update lib (lease_time 3600) identified in
    let masked = update lib (subnet_mask mask) timed in
    let routed = update lib (router gateway) masked in
    let named = update lib (domain_name_server (gateway ∷ [])) routed in
    let sized = update lib (interface_mtu (config.mtu % 2 ^ 16)) named in
    update lib (dns_domain_search_list config.dns_search_domains) sized

-- The handler from the result of GetOrAssign on: the reply that is written, if one is
unfoldable pub reply_to : GoNet → DhcpLib → Configuration → ℕ → Reply → Option Ip → Option Reply
reply_to net lib config mtype reply none = none
reply_to net lib config mtype reply (some ip) = elim (lib.parse_cidr config.subnet) [
  | none ↦ none
  | some mask ↦ elim (answer_type mtype) [
    | none ↦ none
    | some t ↦ some (update lib (message_type t) (fill net lib config mask ip reply))
  ]
]

-- handler: the reply that is written, if one is, and the pool
unfoldable pub handler : GoNet → DhcpLib → Configuration → Message → IpPool → Option Reply × IpPool
handler net lib config m p = elim (lib.new_reply_from_request m) [
  | none ↦ (none, p)
  | some reply ↦
      let (ip, p') = get_or_assign net p m.client_hw_addr in
      (reply_to net lib config m.mtype reply ip, p')
]

-- The pool after a sequence of messages
unfoldable pub serve : GoNet → DhcpLib → Configuration → List Message → IpPool → IpPool
unfolding handler
serve net lib config [] p = p
serve net lib config (m ∷ messages) p = serve net lib config messages (handler net lib config m p).1
