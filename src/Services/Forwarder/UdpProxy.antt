-- ===== src/Services/Forwarder/UdpProxy.antt =====
-- pkg/services/forwarder/udp_proxy.go: datagrams of many clients, each client with a connection of
-- its own to the backend, and the replies on it. Deadlines are left out: when a reply loop ends is
-- open, as it may end at any time.
pub mod Keys
pub mod Table
pub mod Replies
mod Tests
use gvisor_tap_vsock.Base.{
  ℕ, ◌+◌, ◌*◌, Bool, true, false, Option, none, some, List, [], ◌∷◌, ◌++◌, Text, nat_eq, Comparable,
  ◌==◌, ==_iff, if◌then◌else◌, ◌&&◌, length, take, drop, ltb, GoMap, lookup, insert, delete, arith,
  ◌↔◌, ◌≡◌,
}
use gvisor_tap_vsock.GoNet.{Ip}

-- net.UDPAddr
pub record UdpAddr : Type 0 where
  pub ip : Ip
  pub port : ℕ

-- connTrackKey: IPHigh, IPLow and Port
abbrev pub ConnTrackKey : Type 0
ConnTrackKey = (ℕ × ℕ) × ℕ

abbrev pub key_equals : ConnTrackKey → ConnTrackKey → Bool
key_equals ((h, l), p) ((h', l'), p') = h == h' && (l == l' && p == p')

pub key_equals_iff : (k k' : ConnTrackKey) → (key_equals k k' ≡ true) ↔ (k ≡ k')
key_equals_iff ((h, l), p) ((h', l'), p') = ground (arith, ==_iff h h', ==_iff l l', ==_iff p p')

instance abbrev pub key_eq : Comparable ConnTrackKey
key_eq = record { equals = key_equals; equals_iff = key_equals_iff }

-- binary.BigEndian.Uint32 and Uint64 of 4 and 8 bytes, behind the bytes that make up `n`
unfoldable pub big_endian : ℕ → Text → ℕ
big_endian n [] = n
big_endian n (b ∷ bytes) = big_endian (n * 256 + b) bytes

-- newConnTrackKey; none is the panic of a slice that is too short
unfoldable pub new_conn_track_key : UdpAddr → Option ConnTrackKey
unfolding big_endian
new_conn_track_key addr =
    if length addr.ip == 4
    then some ((0, big_endian 0 addr.ip), addr.port)
    else if ltb (length addr.ip) 16
    then none
    else some ((big_endian 0 (take 8 addr.ip), big_endian 0 (take 8 (drop 8 addr.ip))), addr.port)

-- The table of the struct, and below it the connections that have been dialled, by number: the reply
-- loops that run, each with the arguments of its call; what has been written to connections and, for
-- replies, to clients; and what has been closed.
pub record UdpProxy : Type 0 where
  pub conn_track_table : GoMap ConnTrackKey ℕ
  pub next_conn : ℕ
  pub reply_loops : GoMap ℕ (ConnTrackKey × UdpAddr)
  pub forwarded : List (ℕ × Text)
  pub replied : List (UdpAddr × Text)
  pub closed : List ℕ

-- NewUDPProxy
abbrev pub new_udp_proxy : UdpProxy
new_udp_proxy = record {
  conn_track_table = [];
  next_conn = 0;
  reply_loops = [];
  forwarded = [];
  replied = [];
  closed = [];
}

-- for i := 0; i != read; { written, err := Write(readBuf[i:read]); ... i += written }: the bytes
-- written, given what each Write returns, none for an error
unfoldable pub write_all : List (Option ℕ) → Text → Text
write_all results [] = []
write_all [] (b ∷ buf) = []
write_all (none ∷ results) (b ∷ buf) = []
write_all (some written ∷ results) (b ∷ buf) =
    take written (b ∷ buf) ++ write_all results (drop written (b ∷ buf))

abbrev pub forward : ℕ → Text → UdpProxy → UdpProxy
forward conn buf p = record p { forwarded = p.forwarded ++ (conn, buf) ∷ [] }

-- proxy.connTrackTable[*fromKey] = proxyConn; go proxy.replyLoop(proxyConn, from, fromKey)
abbrev pub track : ConnTrackKey → UdpAddr → UdpProxy → UdpProxy
track key from p = record p {
  conn_track_table = insert key p.next_conn p.conn_track_table;
  next_conn = p.next_conn + 1;
  reply_loops = insert p.next_conn (key, from) p.reply_loops;
}

-- A round of Run for a datagram with a key: whether the dialer succeeds, and what the writes return
unfoldable pub run_round :
    Bool → List (Option ℕ) → ConnTrackKey → UdpAddr → Text → UdpProxy → UdpProxy
unfolding write_all
run_round dials results key from buf p = elim (lookup key p.conn_track_table) [
  | some conn ↦ forward conn (write_all results buf) p
  | none ↦ if dials then forward p.next_conn (write_all results buf) (track key from p) else p
]

-- A round of replyLoop for a datagram read on the connection
unfoldable pub reply_round : List (Option ℕ) → ℕ → Text → UdpProxy → UdpProxy
unfolding write_all
reply_round results conn buf p = elim (lookup conn p.reply_loops) [
  | none ↦ p
  | some (key, client_addr) ↦ record p {
    replied = p.replied ++ (client_addr, write_all results buf) ∷ [];
  }
]

-- The deferred function of replyLoop
unfoldable pub end_reply_loop : ℕ → UdpProxy → UdpProxy
end_reply_loop conn p = elim (lookup conn p.reply_loops) [
  | none ↦ p
  | some (key, client_addr) ↦ record p {
    conn_track_table = delete key p.conn_track_table;
    reply_loops = delete conn p.reply_loops;
    closed = p.closed ++ conn ∷ [];
  }
]

-- Close, of the connections; the table is left as it is
unfoldable pub tracked : GoMap ConnTrackKey ℕ → List ℕ
tracked [] = []
tracked ((key, conn) ∷ table) = conn ∷ tracked table

unfoldable pub close : UdpProxy → UdpProxy
unfolding tracked
close p = record p { closed = p.closed ++ tracked p.conn_track_table }
