-- ===== src/Tap/Wiring.antt =====
-- The pointers between the link endpoint of pkg/tap/link.go, the switch of pkg/tap/switch.go and the
-- stack, and the small methods of the endpoint. A delivery over a pointer that is not set panics.
use gvisor_tap_vsock.Base.{
  ℕ, ◌%◌, ◌^◌, ◌≡◌, refl, Bool, true, false, [], ◌∷◌, Text, text_eq, GoMap, insert, if◌then◌else◌,
}
use gvisor_tap_vsock.Tap.Link.{LinkEndpoint}

-- The two pointers of the endpoint and the one of the switch
pub record Wiring : Type 0 where
  pub network_switch : Bool
  pub dispatcher : Bool
  pub gateway : Bool

abbrev pub unwired : Wiring
unwired = record { network_switch = false; dispatcher = false; gateway = false }

-- LinkEndpoint.Connect
unfoldable pub connect_endpoint : Wiring → Wiring
connect_endpoint w = record w { network_switch = true }

-- Switch.Connect
unfoldable pub connect_switch : Wiring → Wiring
connect_switch w = record w { gateway = true }

-- Attach, which CreateNIC of the stack calls
unfoldable pub attach : Wiring → Wiring
attach w = record w { dispatcher = true }

-- IsAttached
unfoldable pub is_attached : Wiring → Bool
is_attached w = w.dispatcher

-- LinkAddress and IP
abbrev pub link_address : LinkEndpoint → Text
link_address e = e.mac

abbrev pub endpoint_ip : LinkEndpoint → Text
endpoint_ip e = e.ip

-- ParseHeader, and what MaxHeaderLength makes of the size of an Ethernet header
abbrev pub parse_header : Bool
parse_header = true

abbrev pub max_header_length : ℕ → ℕ
max_header_length ethernet_minimum_size = ethernet_minimum_size % 2 ^ 16

pub data Delivered (A : Type 0) : Type 0 where
  panics : Delivered A
  delivered : A → Delivered A

-- The call of the switch in writePacket
unfoldable pub to_switch : {A : Type 0} → Wiring → A → Delivered A
to_switch w pkt = if w.network_switch then delivered pkt else panics

-- The calls of the gateway in rxBuf: its LinkAddress, and DeliverNetworkPacket, which passes the packet
-- on to the stack
unfoldable pub to_gateway : {A : Type 0} → Wiring → A → Delivered A
to_gateway w pkt = if w.gateway then (if w.dispatcher then delivered pkt else panics) else panics

-- What New does: the two Connects, then createStack
unfoldable pub wire : Wiring → Wiring
unfolding connect_endpoint connect_switch attach
wire w = attach (connect_switch (connect_endpoint w))

-- In a network that New returns, no delivery between the switch and the gateway meets a pointer that
-- is not set.
pub wire_delivers :
    {A : Type 0} (w : Wiring) (pkt : A)
    → (to_switch (wire w) pkt ≡ delivered pkt)
      × (to_gateway (wire w) pkt ≡ delivered pkt)
      × (is_attached (wire w) ≡ true)
unfolding wire to_switch to_gateway is_attached
wire_delivers w pkt = (refl, refl, refl)

-- CAM of the switch: a copy of the map under the prints of the addresses
unfoldable pub cam_copy : (Text → Text) → GoMap Text ℕ → GoMap Text ℕ → GoMap Text ℕ
cam_copy address_string [] ret = ret
cam_copy address_string ((address, port) ∷ cam) ret =
    cam_copy address_string cam (insert (address_string address) port ret)
