-- ===== src/Tap/Framing.antt =====
-- pkg/tap/protocols.go and protocolImplementation of pkg/tap/switch.go: how a frame is wrapped on a
-- connection. Of encoding/binary and io.ReadFull it has what these use.
pub mod RoundTrip
use gvisor_tap_vsock.Base.{
  ℕ, ◌+◌, ◌*◌, ◌/◌, ◌%◌, ◌^◌, Bool, true, false, Option, none, some, List, [], ◌∷◌, ◌++◌, Text,
  codes, text_eq, ◌==◌, if◌then◌else◌, length, take, drop, ltb,
}

-- The implementations of the interface `protocol`; the first two are a `streamProtocol` too.
pub data ProtocolImpl : Type 0 where
  hyperkit qemu bess vfkit : ProtocolImpl

-- types.Protocol is a string.
abbrev pub qemu_protocol : Text
qemu_protocol = codes "qemu"

abbrev pub bess_protocol : Text
bess_protocol = codes "bess"

abbrev pub vfkit_protocol : Text
vfkit_protocol = codes "vfkit"

abbrev pub hyperkit_protocol : Text
hyperkit_protocol = codes "hyperkit"

abbrev pub stdio_protocol : Text
stdio_protocol = codes "stdio"

-- protocolImplementation
unfoldable pub protocol_implementation : Text → ProtocolImpl
protocol_implementation protocol =
    if protocol == qemu_protocol
    then qemu
    else if protocol == bess_protocol
    then bess
    else if protocol == vfkit_protocol
    then vfkit
    else hyperkit

-- Stream
abbrev pub stream : ProtocolImpl → Bool
stream hyperkit = true
stream qemu = true
stream bess = false
stream vfkit = false

-- The length of Buf
abbrev pub buf_size : ProtocolImpl → ℕ
buf_size hyperkit = 2
buf_size qemu = 4
buf_size _ = 0

-- binary.LittleEndian.PutUint16(buf, v), for v < 2 ^ 16
abbrev pub put_le16 : ℕ → Text
put_le16 v = v % 256 ∷ v / 256 % 256 ∷ []

-- binary.BigEndian.PutUint32(buf, v), for v < 2 ^ 32
abbrev put_be32 : ℕ → Text
put_be32 v = v / 2 ^ 24 % 256 ∷ v / 2 ^ 16 % 256 ∷ v / 2 ^ 8 % 256 ∷ v % 256 ∷ []

-- Write: the conversion to uint16 or uint32 drops the high bits of the size
unfoldable pub write_size : ProtocolImpl → ℕ → Text
write_size hyperkit size = put_le16 (size % 2 ^ 16)
write_size qemu size = put_be32 (size % 2 ^ 32)
write_size _ size = []

-- Read, of a buffer as long as Buf
unfoldable pub read_size : ProtocolImpl → Text → ℕ
read_size hyperkit (a ∷ b ∷ []) = a + 256 * b
read_size qemu (a ∷ b ∷ c ∷ d ∷ []) = 2 ^ 24 * a + 2 ^ 16 * b + 2 ^ 8 * c + d
read_size _ _ = 0

-- io.ReadFull of n bytes: the bytes read and those left, or an error at the end of the stream
unfoldable pub read_full : ℕ → Text → Option (Text × Text)
read_full n input = if ltb (length input) n then none else some (take n input, drop n input)

-- What txBuf hands to conn.Write
unfoldable pub wire_frame : ProtocolImpl → Text → Text
wire_frame impl buf = if stream impl then write_size impl (length buf) ++ buf else buf

-- The errors "cannot read size from socket" and "cannot read packet from socket"
pub data ReadError : Type 0 where
  size_error packet_error : ReadError

pub data Read : Type 0 where
  frame : Text → Text → Read
  failed : ReadError → Read

-- One round of the loop of rxStream: the frame read and the bytes left on the connection
unfoldable pub read_frame : ProtocolImpl → Text → Read
read_frame impl input = elim (read_full (buf_size impl) input) [
  | none ↦ failed size_error
  | some (size_buf, rest) ↦ elim (read_full (read_size impl size_buf) rest) [
    | none ↦ failed packet_error
    | some (buf, left) ↦ frame buf left
  ]
]
