-- ===== src/Tap/Switch.antt =====
-- pkg/tap/switch.go: the Ethernet switch between the virtual machines and the gateway.
-- A method that takes locks is one step; `Switch/Traces.antt` puts the steps of concurrent
-- goroutines in sequence. Logging and the debug print of packets change no state and are left out.
pub mod Rx
pub mod Learning
pub mod Traces
mod Tests
pub mod Invariant
pub mod Panics
pub mod Forwarding
use gvisor_tap_vsock.Base.{
  ℕ, suc, ◌+◌, ◌%◌, ◌^◌, Bool, true, false, Option, none, some, List, [], ◌∷◌, ◌++◌, Text, text_eq,
  nat_eq, ◌==◌, if◌then◌else◌, length, drop, GoMap, lookup, insert, delete, not, ◌||◌,
}
use gvisor_tap_vsock.Tap.Framing.{ProtocolImpl, wire_frame}

-- What the switch takes from outside: the accessors of gvisor's header.Ethernet, none where they
-- panic because the frame is too short (of a datagram that is too short they may read what the buffer
-- held before, which counts as short here); its broadcast address and header size; the link address
-- of the gateway; and whether the write to a connection succeeds, which may depend on all the writes
-- before it.
pub record Env : Type 0 where
  pub destination_address : Text → Option Text
  pub source_address : Text → Option Text
  pub ethernet_type : Text → Option ℕ
  pub broadcast : Text
  pub ethernet_minimum_size : ℕ
  pub gateway_address : Text
  pub accepts : List (ℕ × Text) → ℕ → Text → Bool

-- The fields of the struct, with the implementation of each connection's protocol for the
-- connection, and below them what has happened outside: the writes that succeeded, oldest first,
-- the connections closed, and the packets handed to the gateway.
pub record Switch : Type 0 where
  pub sent : ℕ
  pub received : ℕ
  pub next_conn_id : ℕ
  pub conns : GoMap ℕ ProtocolImpl
  pub cam : GoMap Text ℕ
  pub written : List (ℕ × Text)
  pub closed : List ℕ
  pub delivered : List (ℕ × Text)

-- `failed` is an error of a write. `panics` unwinds to Accept, whose deferred disconnect runs before the
-- program ends; `hangs` is a panic while camLock is held, for which that disconnect waits for ever.
pub data Outcome : Type 0 where
  ok failed panics hangs : Outcome

-- NewSwitch
abbrev pub new_switch : Switch
new_switch = record {
  sent = 0;
  received = 0;
  next_conn_id = 0;
  conns = [];
  cam = [];
  written = [];
  closed = [];
  delivered = [];
}

-- connect
unfoldable pub connect : ProtocolImpl → Switch → ℕ × Switch
connect impl sw = (
  sw.next_conn_id,
  record sw { next_conn_id = sw.next_conn_id + 1; conns = insert sw.next_conn_id impl sw.conns },
)

-- for address, targetConn := range e.cam { if targetConn == id { delete(e.cam, address) } }
unfoldable pub forget : ℕ → GoMap Text ℕ → GoMap Text ℕ
forget id [] = []
forget id ((address, target) ∷ cam) =
    let rest = forget id cam in if target == id then rest else (address, target) ∷ rest

-- disconnect
unfoldable pub disconnect : ℕ → Switch → Switch
disconnect id sw = record sw {
  conns = delete id sw.conns;
  cam = forget id sw.cam;
  closed = sw.closed ++ id ∷ [];
}

-- atomic.AddUint64(&e.Sent, uint64(pkt.Size()))
abbrev pub count_sent : ℕ → Switch → Switch
count_sent size sw = record sw { sent = (sw.sent + size) % 2 ^ 64 }

-- txBuf
unfoldable pub tx_buf : Env → ℕ → ProtocolImpl → Text → Switch → Outcome × Switch
tx_buf env id impl buf sw =
    if env.accepts sw.written id (wire_frame impl buf)
    then (ok, record sw { written = sw.written ++ (id, wire_frame impl buf) ∷ [] })
    else (failed, disconnect id sw)

-- if err != nil { return err }
abbrev pub and_then : Outcome × Switch → (Switch → Outcome × Switch) → Outcome × Switch
and_then (ok, sw) f = f sw
and_then (failed, sw) f = (failed, sw)
and_then (panics, sw) f = (panics, sw)
and_then (hangs, sw) f = (hangs, sw)

-- The loop over the connections for a broadcast; srcID is -1, here none, for an unknown source.
abbrev pub is_source : Option ℕ → ℕ → Bool
is_source none id = false
is_source (some src_id) id = id == src_id

unfoldable pub tx_all : Env → Option ℕ → Text → List (ℕ × ProtocolImpl) → Switch → Outcome × Switch
tx_all env src_id buf [] sw = (ok, sw)
tx_all env src_id buf ((id, impl) ∷ conns) sw = elim (is_source src_id id) [
  | true ↦ tx_all env src_id buf conns sw
  | false ↦
      and_then (tx_buf env id impl buf sw)
        λ sw'. tx_all env src_id buf conns (count_sent (length buf) sw')
]

-- The unicast half of txPkt: the connection of an id that is not in the map is the zero value,
-- whose protocol is nil.
unfoldable pub tx_one : Env → Text → Text → Switch → Outcome × Switch
tx_one env dst buf sw = elim (lookup dst sw.cam) [
  | none ↦ (ok, sw)
  | some id ↦ elim (lookup id sw.conns) [
    | none ↦ (panics, sw)
    | some impl ↦ and_then (tx_buf env id impl buf sw) λ sw'. (ok, count_sent (length buf) sw')
  ]
]

-- txPkt
unfoldable pub tx_pkt : Env → Text → Switch → Outcome × Switch
tx_pkt env buf sw = elim (env.destination_address buf) [
  | none ↦ (panics, sw)
  | some dst ↦ elim (env.source_address buf) [
    | none ↦ (panics, sw)
    | some src ↦
        if dst == env.broadcast
        then tx_all env (lookup src sw.cam) buf sw.conns sw
        else tx_one env dst buf sw
  ]
]

-- The parts of rxBuf: e.cam[eth.SourceAddress()] = id
unfoldable pub learn : Text → ℕ → Switch → Switch
learn src id sw = record sw { cam = insert src id sw.cam }

-- A frame that is not for the gateway goes to the other connections; an error is only logged.
unfoldable pub transmit : Env → Text → Text → Switch → Outcome × Switch
transmit env dst buf sw = if dst == env.gateway_address then (ok, sw) else tx_pkt env buf sw

-- data.TrimFront(header.EthernetMinimumSize), gateway.DeliverNetworkPacket(eth.Type(), pkt)
unfoldable pub deliver : Env → Text → Text → Switch → Outcome × Switch
deliver env dst buf sw =
    if dst == env.gateway_address || dst == env.broadcast
    then elim (env.ethernet_type buf) [
      | none ↦ (panics, sw)
      | some protocol ↦ (
        ok,
        record sw {
          delivered = sw.delivered ++ (protocol, drop env.ethernet_minimum_size buf) ∷ [];
        },
      )
    ]
    else (ok, sw)

-- atomic.AddUint64(&e.Received, uint64(len(buf)))
abbrev pub count_received : ℕ → Switch → Switch
count_received size sw = record sw { received = (sw.received + size) % 2 ^ 64 }

-- The next part runs unless the one before it panicked.
abbrev pub unless_panics : Outcome × Switch → (Switch → Outcome × Switch) → Outcome × Switch
unless_panics (ok, sw) f = f sw
unless_panics (failed, sw) f = f sw
unless_panics (panics, sw) f = (panics, sw)
unless_panics (hangs, sw) f = (hangs, sw)

-- rxBuf. The source address is taken between camLock.Lock() and camLock.Unlock(), which is not
-- deferred.
unfoldable pub rx_buf : Env → ℕ → Text → Switch → Outcome × Switch
rx_buf env id buf sw = elim (env.source_address buf) [
  | none ↦ (hangs, sw)
  | some src ↦ elim (env.destination_address buf) [
    | none ↦ (panics, learn src id sw)
    | some dst ↦ unless_panics (transmit env dst buf (learn src id sw)) λ transmitted.
        unless_panics (deliver env dst buf transmitted)
          λ done. (ok, count_received (length buf) done)
  ]
]
