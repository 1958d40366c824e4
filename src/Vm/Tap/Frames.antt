-- ===== src/Vm/Tap/Frames.antt =====
-- The frames that cross the connection between the guest and the switch, which speaks the hyperkit
-- protocol with it.
use gvisor_tap_vsock.Base.{
  take_all, ℕ, zero, suc, ◌+◌, ◌^◌, ◌≤◌, ◌<◌, ◌≡◌, refl, sym, append_assoc, ◌≢◌, Bool, true, false,
  arith, none, some, List, [], ◌∷◌, ◌++◌, Text, length, take, if◌then◌else◌, ltb, All, append-nil,
  Bool-cases, Option-cases, inl, inr, ◌%◌,
}
use gvisor_tap_vsock.Tap.Framing.{read_full, hyperkit, wire_frame, put_le16, write_size}
use gvisor_tap_vsock.Tap.Framing.RoundTrip.{read_full-append, size_bound, length-read_full}
use gvisor_tap_vsock.Tap.Switch.{Env, Switch}
use gvisor_tap_vsock.Tap.Switch.Rx.{rx_stream, rx_non_stream, wire, rx_stream-wire, datagram_size}
use gvisor_tap_vsock.Vm.Tap.{
  sent, panics, waiting, cannot_read_size, TapRead, sized, rx, tx_round, TxRound, ends, writes,
  unless_empty, tx, le16, ethernet_minimum_size,
}

-- The frames of the rounds of rx before one that fails
abbrev pub carried : List TapRead → List Text
carried [] = []
carried (round ∷ rounds) = elim round.arrived [
  | none ↦ []
  | some arrived ↦ let rest = carried rounds in if round.accepted then arrived ∷ rest else []
]

-- A frame of an interface with this MTU, of a size that the header holds
abbrev pub FitsMtu : ℕ → Text → Type 0
FitsMtu mtu frame = (length frame ≤ mtu + ethernet_minimum_size) × (length frame < 2 ^ 16)

wire_frame-sized : (frame : Text) → wire_frame hyperkit frame ≡ sized frame
unfolding wire_frame sized write_size
wire_frame-sized frame = refl

module _ (resize : Text → ℕ → ℕ) (mtu : ℕ)
    (resize_holds : (last : Text) → mtu + ethernet_minimum_size ≤ resize last mtu) where
  rx-wire :
      (last : Text) (rounds : List TapRead)
      → All (FitsMtu mtu) (carried rounds)
      → (rx resize mtu last rounds).1 ≡ wire hyperkit (carried rounds)
  unfolding rx
  rx-wire last [] h = refl
  rx-wire last (round ∷ rounds) h = elim (Option-cases round.arrived) [
    | inl e ↦ rw e refl
    | inr (arrived, e) ↦ elim (Bool-cases round.accepted) [
      | inr lost ↦ rw (e, lost) refl
      | inl kept ↦
          let (fits, later) : All (FitsMtu mtu) (arrived ∷ carried rounds) = ground (arith, h) in
          let holds = resize_holds last in
          let whole : take (resize last mtu) arrived ≡ arrived =
            take_all (resize last mtu) arrived (omega (arith, fits.0)) in
          rw (e, kept, whole) (rw (rx-wire arrived rounds later, wire_frame-sized) refl)
    ]
  ]

  -- What rx writes for the frames of the device has on the switch the effect that these frames would
  -- have as datagrams, up to the first read or write that fails, if the frames are not larger than the
  -- MTU and the 14 bytes of a header and of a size that 16 bits hold, and Resize makes room for that
  -- many bytes.
  pub rx_stream-rx :
      (last : Text) (rounds : List TapRead) (env : Env) (id fuel : ℕ) (sw : Switch)
      → All (FitsMtu mtu) (carried rounds)
      → rx_stream env hyperkit id fuel (rx resize mtu last rounds).1 sw
        ≡ rx_non_stream env id fuel (carried rounds) sw
  rx_stream-rx last rounds env id fuel sw h = rw (rx-wire last rounds h) (
      rx_stream-wire env hyperkit id refl fuel (carried rounds) sw (bounded (carried rounds) h)
        (short (carried rounds) h))
    where
      short :
          (frames : List Text)
          → All (FitsMtu mtu) frames
          → All (λ buf. length buf ≤ datagram_size) frames
      short [] k = tt
      short (f ∷ frames) k = (omega (arith, k.0.1), short frames k.1)

      bounded :
          (frames : List Text)
          → All (FitsMtu mtu) frames
          → All (λ buf. length buf < size_bound hyperkit) frames
      bounded [] k = tt
      bounded (f ∷ frames) k = (k.0.1, bounded frames k.1)

-- A frame that tx passes on: it is not empty either.
abbrev pub Passes : ℕ → Text → Type 0
Passes mtu frame = (0 < length frame) × FitsMtu mtu frame

module _ (mtu : ℕ) (frame rest : Text) where
  le16-header : length frame < 2 ^ 16 → le16 (put_le16 (length frame % 2 ^ 16)) ≡ length frame
  le16-header h = omega (arith, h)

  read_header :
      read_full 2 (wire_frame hyperkit frame ++ rest)
      ≡ some (put_le16 (length frame % 2 ^ 16), frame ++ rest)
  unfolding wire_frame write_size
  read_header = read_full-append (put_le16 (length frame % 2 ^ 16)) (frame ++ rest)

  tx_round-wire :
      Passes mtu frame → tx_round mtu (wire_frame hyperkit frame ++ rest) ≡ writes frame rest
  unfolding tx_round
  tx_round-wire h =
      rw (read_header, tx_round)
        (rw (le16-header h.1.1) (rw (read_full-append frame rest, fits) (whole frame h.0)))
    where
      fits : ltb (mtu + ethernet_minimum_size) (length frame) ≡ false
      fits = ground (arith, h.1.0)

      whole : (s : Text) → 0 < length s → unless_empty s rest ≡ writes s rest
      whole [] p = absurd (omega arith)
      whole (c ∷ s) p = refl

  tx_round-oversize :
      mtu + ethernet_minimum_size < length frame
      → length frame < 2 ^ 16
      → tx_round mtu (wire_frame hyperkit frame ++ rest) ≡ ends panics
  unfolding tx_round
  tx_round-oversize h k = rw (read_header, tx_round) (rw (le16-header k) (ground (arith, h)))

wire-append : (xs ys : List Text) → wire hyperkit (xs ++ ys) ≡ wire hyperkit xs ++ wire hyperkit ys
wire-append [] ys = refl
wire-append (x ∷ xs) ys =
    rw (wire-append xs ys)
      (sym (append_assoc (wire_frame hyperkit x) (wire hyperkit xs) (wire hyperkit ys)))

module _ (accepts : Text → Bool) (mtu fuel : ℕ) where
  tx-append :
      (frames : List Text) (rest : Text)
      → All (Passes mtu) frames
      → All (λ f. accepts f ≡ true) frames
      → tx accepts mtu (length frames + fuel) (wire hyperkit frames ++ rest)
        ≡ ((tx accepts mtu fuel rest).0, frames ++ (tx accepts mtu fuel rest).1)
  unfolding tx
  tx-append [] rest h a = let none_left : 0 + fuel ≡ fuel = omega arith in rw none_left refl
  tx-append (f ∷ frames) rest h a =
      let step : suc (length frames) + fuel ≡ suc (length frames + fuel) = omega arith in
      rw step (
        rw (append_assoc, tx_round-wire mtu f (wire hyperkit frames ++ rest) h.0, tx)
          (rw a.0 (rw (tx-append frames rest h.1 a.1) refl)))

module _ (accepts : Text → Bool) (mtu : ℕ) where
  empty_ends : (fuel : ℕ) → tx accepts mtu (suc fuel) [] ≡ (sent cannot_read_size, [])
  unfolding tx tx_round read_full
  empty_ends fuel = refl

  -- On frames from the host that are not empty, not larger than the MTU and the 14 bytes of a header,
  -- and of a size that 16 bits hold, with more fuel than frames, tx writes each of them in order to a
  -- device that accepts them, and ends when the connection does.
  pub tx-wire :
      (frames : List Text) (fuel : ℕ)
      → All (Passes mtu) frames
      → All (λ f. accepts f ≡ true) frames
      → tx accepts mtu (length frames + suc fuel) (wire hyperkit frames)
        ≡ (sent cannot_read_size, frames)
  tx-wire frames fuel h a =
      rw (← append-nil (wire hyperkit frames)) (
        rw (tx-append accepts mtu (suc fuel) frames [] h a, empty_ends fuel, append-nil frames)
          refl)

  -- A larger frame, of a size that the header holds, ends the program with a panic after the frames
  -- before it have been written.
  pub tx_panics :
      (before after : List Text) (frame : Text) (fuel : ℕ)
      → All (Passes mtu) before
      → All (λ f. accepts f ≡ true) before
      → mtu + ethernet_minimum_size < length frame
      → length frame < 2 ^ 16
      → tx accepts mtu (length before + suc fuel) (wire hyperkit (before ++ frame ∷ after))
        ≡ (panics, before)
  unfolding tx
  tx_panics before after frame fuel h a big small = rw (wire-append before (frame ∷ after)) (
      rw (tx-append accepts mtu (suc fuel) before (wire hyperkit (frame ∷ after)) h a) (
        rw (tx_round-oversize mtu frame (wire hyperkit after) big small, tx)
          (rw (append-nil before) refl)))

tx_round-lt :
    (mtu : ℕ) (input buf left : Text)
    → tx_round mtu input ≡ writes buf left
    → length left < length input
unfolding tx_round
tx_round-lt mtu input buf left e = elim (Option-cases (read_full 2 input)) [
  | inl first ↦ ground arith
  | inr ((header, rest), first) ↦ elim (Option-cases (read_full (le16 header) rest)) [
    | inl second ↦ ground arith
    | inr (([], after), second) ↦ ground arith
    | inr ((c ∷ body, after), second) ↦
        let short = length-read_full 2 input header rest first in
        let shorter = length-read_full (le16 header) rest (c ∷ body) after second in
        let same : after ≡ left = ground arith in rw (← same) (omega arith)
  ]
]

tx_round_on : (mtu : ℕ) (input : Text) → tx_round mtu input ≢ ends waiting
unfolding tx_round
tx_round_on mtu input = elim (Option-cases (read_full 2 input)) [
  | inl first ↦ ground arith
  | inr ((header, rest), first) ↦ elim (Option-cases (read_full (le16 header) rest)) [
    | inl second ↦ ground arith
    | inr (([], after), second) ↦ ground arith
    | inr ((c ∷ body, after), second) ↦ ground arith
  ]
]

-- More fuel than the connection has bytes is enough for tx to end.
pub tx_ends :
    (accepts : Text → Bool) (mtu fuel : ℕ) (input : Text)
    → length input < fuel
    → (tx accepts mtu fuel input).0 ≢ waiting
unfolding tx
tx_ends accepts mtu zero input l = absurd (omega arith)
tx_ends accepts mtu (suc fuel) input l =
    go (tx_round mtu input) refl (λ left. tx_ends accepts mtu fuel left)
  where
    go :
        (r : TxRound)
        → tx_round mtu input ≡ r
        → ((left : Text) → length left < fuel → (tx accepts mtu fuel left).0 ≢ waiting)
        → (tx accepts mtu (suc fuel) input).0 ≢ waiting
    go (ends e) k rest = rw (k, tx) (λ c. tx_round_on mtu input (rw (k, c) refl))
    go (writes buf left) k rest =
        let later = rest left (omega (arith, tx_round-lt mtu input buf left k, l)) in
        rw (k, tx) (elim (Bool-cases (accepts buf)) [ inl a ↦ rw a later | inr a ↦ rw a (λ c. cc) ])
