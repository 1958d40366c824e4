-- ===== src/Tap/Link.antt =====
-- pkg/tap/link.go: the endpoint by which gvisor's network stack, the gateway, sends to the switch.
-- The methods that return a constant of the interface (ParseHeader, AddHeader, Wait,
-- WriteRawPacket, ARPHardwareType, Capabilities, MaxHeaderLength) are left out.
pub mod Spoofing
mod Tests
use gvisor_tap_vsock.Base.{
  ℕ, suc, ◌+◌, ◌%◌, ◌^◌, Bool, true, false, Option, none, some, List, [], ◌∷◌, ◌++◌, Text, text_eq,
  ◌==◌, if◌then◌else◌, not, ◌||◌, ◌&&◌,
}

-- What the endpoint takes from outside: net.ParseMAC, header.Ethernet.Encode of a type, a source and
-- a destination, the accessors of header.ARP, and the text of an address.
pub record LinkEnv : Type 0 where
  pub parse_mac : Text → Option Text
  pub encode_ethernet : ℕ → Text → Text → Text
  pub arp_is_valid : Text → Bool
  pub arp_is_reply : Text → Bool
  pub arp_sender : Text → Text
  pub address_string : Text → Text

pub record LinkEndpoint : Type 0 where
  pub mtu : ℕ
  pub mac : Text
  pub ip : Text
  pub virtual_ips : List Text

-- NewLinkEndpoint; none is the error of net.ParseMAC
unfoldable pub new_link_endpoint : LinkEnv → ℕ → Text → Text → List Text → Option LinkEndpoint
new_link_endpoint env mtu mac_address ip virtual_ips = elim (env.parse_mac mac_address) [
  | none ↦ none
  | some link_addr ↦
      some (record { mtu = mtu; mac = link_addr; ip = ip; virtual_ips = virtual_ips })
]

-- MTU: a conversion to uint32
unfoldable pub link_mtu : LinkEndpoint → ℕ
link_mtu e = e.mtu % 2 ^ 32

-- A packet of the stack: the protocol number, the two link addresses of its route, its network
-- header and what follows.
pub record Packet : Type 0 where
  pub protocol : ℕ
  pub local_link_address : Text
  pub remote_link_address : Text
  pub network_header : Text
  pub payload : Text

-- What is handed to the switch: the protocol number and the three parts of the packet.
pub record Framed : Type 0 where
  pub protocol : ℕ
  pub link_header : Text
  pub network_header : Text
  pub payload : Text

-- _, ok := e.virtualIPs[ip]
unfoldable pub contains : Text → List Text → Bool
contains ip [] = false
contains ip (virtual ∷ rest) = virtual == ip || contains ip rest

-- An ARP reply about an address that is not the gateway's
unfoldable pub spoofs : LinkEnv → LinkEndpoint → Text → Bool
unfolding contains
spoofs env e h =
    env.arp_is_valid h
    && env.arp_is_reply h
    && (let ip = env.address_string (env.arp_sender h) in
        not (ip == e.ip) && not (contains ip e.virtual_ips))

-- The Ethernet header and the packet
unfoldable pub framed : LinkEnv → LinkEndpoint → Packet → Framed
framed env e pkt = record {
  protocol = pkt.protocol;
  link_header =
      env.encode_ethernet pkt.protocol
        (if pkt.local_link_address == [] then e.mac else pkt.local_link_address)
        pkt.remote_link_address;
  network_header = pkt.network_header;
  payload = pkt.payload;
}

-- writePacket, with what has been handed to the switch; it always returns nil
unfoldable pub write_packet : LinkEnv → LinkEndpoint → Packet → List Framed → List Framed
write_packet env e pkt out =
    if spoofs env e pkt.network_header then out else out ++ framed env e pkt ∷ []

-- WritePackets: the number written, and what has been handed to the switch
unfoldable pub write_packets :
    LinkEnv → LinkEndpoint → List Packet → ℕ → List Framed → ℕ × List Framed
write_packets env e [] n out = (n, out)
write_packets env e (pkt ∷ pkts) n out =
    write_packets env e pkts (n + 1) (write_packet env e pkt out)
