-- ===== src/Tap/Switch/Tests.antt =====
-- The switch on concrete frames, and the theorems at instances.
use gvisor_tap_vsock.Base.{
  ℕ, ◌≡◌, refl, ◌≢◌, true, false, arith, Option, none, some, [], ◌∷◌, Text, text_eq, nat_eq,
  if◌then◌else◌, ltb, lookup, insert, codes,
}
use gvisor_tap_vsock.Tap.Framing.{
  hyperkit, qemu, bess, wire_frame, protocol_implementation, size_error,
}
use gvisor_tap_vsock.Tap.Switch.{
  Env, Switch, ok, panics, new_switch, connect, tx_buf, tx_all, tx_pkt, learn, transmit, deliver,
  rx_buf,
}
use gvisor_tap_vsock.Tap.Switch.Invariant.{HasHeader}
use gvisor_tap_vsock.Tap.Switch.Rx.{Incoming, hung, read_failed, rx_non_stream, accept, rx}
use gvisor_tap_vsock.Tap.Switch.Learning.{rx_buf_broadcast}
use gvisor_tap_vsock.Tap.Switch.Traces.{Reach, start, next, connects, learns, Reach-tx_pkt}

-- Addresses of one byte: a frame is its destination, its source, its type and the payload.
abbrev first_byte : Text → Option Text
first_byte [] = none
first_byte (a ∷ rest) = some (a ∷ [])

abbrev second_byte : Text → Option Text
second_byte (a ∷ b ∷ rest) = some (b ∷ [])
second_byte _ = none

abbrev third_byte : Text → Option ℕ
third_byte (a ∷ b ∷ c ∷ rest) = some c
third_byte _ = none

-- Connection 7 refuses every write.
abbrev small : Env
small = record {
  destination_address = first_byte;
  source_address = second_byte;
  ethernet_type = third_byte;
  broadcast = 255 ∷ [];
  ethernet_minimum_size = 3;
  gateway_address = 1 ∷ [];
  accepts = λ log id bytes. if ltb id 7 then true else false;
}

-- Two machines, whose addresses 10 and 11 have been learned.
abbrev two : Switch
two = record new_switch {
  next_conn_id = 2;
  conns = (0, hyperkit) ∷ (1, qemu) ∷ [];
  cam = (10 ∷ [], 0) ∷ (11 ∷ [], 1) ∷ [];
}

abbrev hello : Text
hello = 11 ∷ 10 ∷ 8 ∷ codes "hello"

abbrev shout : Text
shout = 255 ∷ 10 ∷ 8 ∷ codes "hello"

two_reached : Reach small two
unfolding connect learn insert lookup
two_reached =
    next
      (next (next (next start (connects hyperkit)) (connects qemu))
        (learns (10 ∷ []) 0 (λ e. ground arith)))
      (learns (11 ∷ []) 1 (λ e. ground arith))

hello-HasHeader : HasHeader small hello
hello-HasHeader = record { destination = λ e. cc; source = λ e. cc; protocol = λ e. cc }

Reach-tx_pkt_example : (tx_pkt small hello two).0 ≢ panics
Reach-tx_pkt_example = Reach-tx_pkt small hello two_reached hello-HasHeader

not_one : (n m : ℕ) → n ≢ m → ◌≢◌ {A = Text} (n ∷ []) (m ∷ [])
not_one n m h e = h (ground arith)

-- Connection 7 is dropped, and connection 1 behind it gets nothing.
abbrev three : Switch
three = record two { conns = (0, hyperkit) ∷ (7, bess) ∷ (1, qemu) ∷ [] }

rx_buf_broadcast_example : rx_buf small 0 shout two ≡ (
  ok,
  record two {
    sent = 8;
    received = 8;
    written = (1, wire_frame qemu shout) ∷ [];
    delivered = (8, codes "hello") ∷ [];
  },
)
unfolding insert
rx_buf_broadcast_example =
    rx_buf_broadcast small 0 shout (10 ∷ []) two refl 8 refl refl (not_one 255 1 (omega arith))
      (omega arith) (refl, tt)

abbrev arriving : Incoming
arriving = record { bytes = []; datagrams = shout ∷ [] }

accept_ends : (accept small (codes "bess") 9 arriving two).0 ≡ read_failed size_error
unfolding accept connect protocol_implementation rx rx_non_stream rx_buf transmit deliver learn
    tx_pkt tx_all tx_buf insert lookup
accept_ends = refl

accept_returns : (accept small (codes "bess") 9 arriving two).0 ≢ hung
accept_returns = rw accept_ends (λ e. cc)
