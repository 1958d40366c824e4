-- ===== src/Vm/Tap.antt =====
-- The loops rx and tx of cmd/vm/main_linux.go between the tap device and the connection to the host.
pub mod Frames
use gvisor_tap_vsock.Base.{
  ℕ, zero, suc, ◌+◌, ◌*◌, ◌%◌, ◌^◌, Bool, true, false, Option, none, some, List, [], ◌∷◌, ◌++◌,
  Text, if◌then◌else◌, length, take, ltb,
}
use gvisor_tap_vsock.Tap.Framing.{read_full, put_le16}

-- What the loops send on the channel of errors. `size_mismatch` is "unexpected size %d != %d".
pub data TapError : Type 0 where
  cannot_read_tap cannot_write_socket cannot_read_size cannot_read_payload size_mismatch
        cannot_write_tap :
      TapError

-- How a loop ends. `waiting` stands for a loop that still waits for a frame.
pub data Ended : Type 0 where
  sent : TapError → Ended
  panics waiting : Ended

-- One read of the tap device: the frame that arrived, of which Read copies as many bytes as the
-- buffer holds, or an error. Then whether the write to the connection succeeds.
pub record TapRead : Type 0 where
  pub arrived : Option Text
  pub accepted : Bool

-- append(size, frame...), with the conversion of n to uint16
unfoldable pub sized : Text → Text
sized frame = put_le16 (length frame % 2 ^ 16) ++ frame

-- rx: how it ends on these reads and the bytes written to the connection. `resize` is the length that
-- ethernet.Frame.Resize gives to a frame, here that of the round before.
unfoldable pub rx : (Text → ℕ → ℕ) → ℕ → Text → List TapRead → Ended × Text
rx resize mtu last [] = (waiting, [])
rx resize mtu last (round ∷ rounds) = elim round.arrived [
  | none ↦ (sent cannot_read_tap, [])
  | some arrived ↦
      let frame = take (resize last mtu) arrived in
      let (ended, bytes) = rx resize mtu frame rounds in
      if round.accepted then (ended, sized frame ++ bytes) else (sent cannot_write_socket, [])
]

-- binary.LittleEndian.Uint16
abbrev pub le16 : Text → ℕ
le16 (a ∷ b ∷ rest) = a + 256 * b
le16 _ = 0

-- header.EthernetMinimumSize
abbrev pub ethernet_minimum_size : ℕ
ethernet_minimum_size = 14

-- What a round of tx comes to
pub data TxRound : Type 0 where
  ends : Ended → TxRound
  writes : Text → Text → TxRound

-- if n == 0 || n != size: io.ReadFull reads as many bytes as it is asked for
abbrev pub unless_empty : Text → Text → TxRound
unless_empty [] left = ends (sent size_mismatch)
unless_empty (b ∷ buf) left = writes (b ∷ buf) left

-- A round of tx up to tap.Write: buf[:size] panics if size is greater than the capacity of buf, and
-- io.ReadFull of no bytes succeeds.
unfoldable pub tx_round : ℕ → Text → TxRound
tx_round mtu input = elim (read_full 2 input) [
  | none ↦ ends (sent cannot_read_size)
  | some (size_buf, rest) ↦
      if ltb (mtu + ethernet_minimum_size) (le16 size_buf)
      then ends panics
      else elim (read_full (le16 size_buf) rest) [
        | none ↦ ends (sent cannot_read_payload)
        | some (buf, left) ↦ unless_empty buf left
      ]
]

-- tx on the bytes that arrive before the end of the connection: how it ends, and the frames written to
-- the tap device. The argument says which writes of the device succeed. `waiting` is for fuel that is
-- used up.
unfoldable pub tx : (Text → Bool) → ℕ → ℕ → Text → Ended × List Text
tx accepts mtu zero input = (waiting, [])
tx accepts mtu (suc fuel) input = elim (tx_round mtu input) [
  | ends ended ↦ (ended, [])
  | writes buf left ↦
      let (ended, written) = tx accepts mtu fuel left in
      if accepts buf then (ended, buf ∷ written) else (sent cannot_write_tap, [])
]
