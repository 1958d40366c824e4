-- ===== src/Tap/Framing/RoundTrip.antt =====
-- What one end writes the other reads.
use gvisor_tap_vsock.Base.{
  ℕ, ◌+◌, ◌%◌, ◌^◌, ◌<◌, ◌≡◌, refl, ◌∙◌, true, some, ◌++◌, Text, length, arith, length-append,
  length-drop, Option-cases, inl, inr, take-length_append, drop-length_append, append_assoc,
}
use native.Mathlib.Nat.{mod-eq_of_lt}
use gvisor_tap_vsock.Tap.Framing.{
  ProtocolImpl, hyperkit, qemu, bess, vfkit, stream, buf_size, write_size, read_size, read_full,
  wire_frame, frame, read_frame,
}

-- The sizes that the header of a protocol can hold.
abbrev pub size_bound : ProtocolImpl → ℕ
size_bound hyperkit = 2 ^ 16
size_bound qemu = 2 ^ 32
size_bound _ = 1

pub length-write_size :
    (impl : ProtocolImpl) (size : ℕ) → length (write_size impl size) ≡ buf_size impl
unfolding write_size
length-write_size hyperkit size = refl
length-write_size qemu size = refl
length-write_size bess size = refl
length-write_size vfkit size = refl

-- What is read from the header that is written for a size is the size modulo 2 ^ 16 for hyperkit and
-- modulo 2 ^ 32 for qemu.
pub read_size-write_size :
    (impl : ProtocolImpl) (size : ℕ)
    → stream impl ≡ true
    → read_size impl (write_size impl size) ≡ size % size_bound impl
unfolding read_size write_size
read_size-write_size hyperkit size h = omega arith
read_size-write_size qemu size h = omega arith
read_size-write_size bess size h = absurd (cc)
read_size-write_size vfkit size h = absurd (cc)

positive : (impl : ProtocolImpl) → stream impl ≡ true → 0 < buf_size impl
positive hyperkit s = omega arith
positive qemu s = omega arith
positive bess s = absurd (cc)
positive vfkit s = absurd (cc)

pub read_full-append : (s rest : Text) → read_full (length s) (s ++ rest) ≡ some (s, rest)
unfolding read_full
read_full-append s rest =
    rw (take-length_append s rest, drop-length_append s rest) (ground (arith, length-append s rest))

-- A frame that fits the protocol's header is read back from the bytes written for it, whatever
-- bytes follow.
pub read_frame-wire_frame :
    (impl : ProtocolImpl) (buf rest : Text)
    → stream impl ≡ true
    → length buf < size_bound impl
    → read_frame impl (wire_frame impl buf ++ rest) ≡ frame buf rest
unfolding wire_frame read_frame
read_frame-wire_frame impl buf rest s fits =
    let header = write_size impl (length buf) in
    let size : read_size impl header ≡ length buf =
      read_size-write_size impl (length buf) s ∙ mod-eq_of_lt fits in
    let first : read_full (buf_size impl) (header ++ (buf ++ rest)) ≡ some (header, buf ++ rest) =
      rw (← length-write_size impl (length buf)) (read_full-append header (buf ++ rest)) in
    let second : read_full (read_size impl header) (buf ++ rest) ≡ some (buf, rest) =
      rw size (read_full-append buf rest) in
    rw s (rw (append_assoc, first, read_frame) (rw (second, read_frame)))

pub length-read_full :
    (n : ℕ) (input a b : Text) → read_full n input ≡ some (a, b) → length b + n ≡ length input
unfolding read_full
length-read_full n input a b e = ground (arith, length-drop n input)

-- What is left after a frame is shorter than the input, by the frame's header at least.
pub read_frame-lt :
    (impl : ProtocolImpl) (input buf rest : Text)
    → stream impl ≡ true
    → read_frame impl input ≡ frame buf rest
    → length rest < length input
unfolding read_frame
read_frame-lt impl input buf rest s e = elim (Option-cases (read_full (buf_size impl) input)) [
  | inl first ↦ ground arith
  | inr ((header, left), first) ↦ elim (Option-cases (read_full (read_size impl header) left)) [
    | inl second ↦ ground arith
    | inr ((body, after), second) ↦
        let short = length-read_full (buf_size impl) input header left first in
        let shorter = length-read_full (read_size impl header) left body after second in
        let some_header : 0 < buf_size impl = positive impl s in
        let same : after ≡ rest = ground arith in rw (← same) (omega arith)
  ]
]
