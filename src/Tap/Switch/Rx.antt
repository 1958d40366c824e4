-- ===== src/Tap/Switch/Rx.antt =====
-- The loops of pkg/tap/switch.go that read frames from a connection, and Accept around them.
-- A loop runs alone on the switch here: `Traces` has the steps of several goroutines.
use gvisor_tap_vsock.Base.{
  ℕ, zero, suc, ◌<◌, ◌≤◌, ◌≡◌, refl, take, take_all, ◌≢◌, true, arith, none, some, List, [], ◌∷◌,
  ◌++◌, Text, text_eq, nat_eq, ==_iff, ==_refl, if◌then◌else◌, length, GoMap, lookup, All,
  lookup-delete,
}
use gvisor_tap_vsock.Tap.Framing.{
  ProtocolImpl, hyperkit, qemu, bess, vfkit, read_full, protocol_implementation, wire_frame, stream,
  read_frame, Read, frame, failed as unreadable, ReadError, size_error,
}
use gvisor_tap_vsock.Tap.Framing.RoundTrip.{size_bound, read_frame-wire_frame, read_frame-lt}
use gvisor_tap_vsock.Tap.Switch.{
  Env, Switch, Outcome, ok, failed, panics, hangs, connect, disconnect, forget, rx_buf,
}

-- How a loop ends: the context is done, a read fails, the program panics, or the goroutine hangs with the
-- locks of the switch.
pub data End : Type 0 where
  done crashed hung : End
  read_failed : ReadError → End

-- What a round leaves goes on to the next one.
abbrev pub next_round : Outcome × Switch → (Switch → End × Switch) → End × Switch
next_round (ok, sw) f = f sw
next_round (failed, sw) f = f sw
next_round (panics, sw) f = (crashed, sw)
next_round (hangs, sw) f = (hung, sw)

-- rxStream, of the bytes that arrive before the end of the stream; the context is done after so
-- many rounds.
unfoldable pub rx_stream : Env → ProtocolImpl → ℕ → ℕ → Text → Switch → End × Switch
rx_stream env impl id zero input sw = (done, sw)
rx_stream env impl id (suc rounds) input sw = elim (read_frame impl input) [
  | unreadable e ↦ (read_failed e, sw)
  | frame buf rest ↦ next_round (rx_buf env id buf sw) λ sw'. rx_stream env impl id rounds rest sw'
]

-- bufSize := 1024 * 128
abbrev pub datagram_size : ℕ
datagram_size = 131072

-- rxNonStream, of the datagrams that arrive before a read fails; of a datagram that is longer than the
-- buffer, Read takes as many bytes as fit.
unfoldable pub rx_non_stream : Env → ℕ → ℕ → List Text → Switch → End × Switch
rx_non_stream env id zero datagrams sw = (done, sw)
rx_non_stream env id (suc rounds) [] sw = (read_failed size_error, sw)
rx_non_stream env id (suc rounds) (buf ∷ rest) sw =
    next_round (rx_buf env id (take datagram_size buf) sw)
      λ sw'. rx_non_stream env id rounds rest sw'

-- What arrives on a connection.
pub record Incoming : Type 0 where
  pub bytes : Text
  pub datagrams : List Text

-- rx
unfoldable pub rx : Env → ProtocolImpl → ℕ → ℕ → Incoming → Switch → End × Switch
rx env impl id rounds incoming sw =
    if stream impl
    then rx_stream env impl id rounds incoming.bytes sw
    else rx_non_stream env id rounds incoming.datagrams sw

-- The deferred e.disconnect(id, conn), which runs on a panic too
abbrev pub deferred_disconnect : ℕ → End × Switch → End × Switch
deferred_disconnect id (done, sw) = (done, disconnect id sw)
deferred_disconnect id (read_failed e, sw) = (read_failed e, disconnect id sw)
deferred_disconnect id (crashed, sw) = (crashed, disconnect id sw)
deferred_disconnect id (hung, sw) = (hung, sw)

-- Accept
unfoldable pub accept : Env → Text → ℕ → Incoming → Switch → End × Switch
accept env protocol rounds incoming sw =
    let impl = protocol_implementation protocol in
    let (id, connected) = connect impl sw in
    deferred_disconnect id (rx env impl id rounds incoming connected)

-- The bytes that a peer sends for these frames.
abbrev pub wire : ProtocolImpl → List Text → Text
wire impl [] = []
wire impl (buf ∷ bufs) = wire_frame impl buf ++ wire impl bufs

empty_stream :
    (impl : ProtocolImpl) → stream impl ≡ true → read_frame impl [] ≡ unreadable size_error
unfolding read_frame read_full
empty_stream hyperkit s = refl
empty_stream qemu s = refl
empty_stream bess s = absurd (cc)
empty_stream vfkit s = absurd (cc)

module _ (env : Env) (impl : ProtocolImpl) (id : ℕ) (s : stream impl ≡ true) where
  pub rx_stream-wire :
      (rounds : ℕ) (bufs : List Text) (sw : Switch)
      → All (λ buf. length buf < size_bound impl) bufs
      → All (λ buf. length buf ≤ datagram_size) bufs
      → rx_stream env impl id rounds (wire impl bufs) sw ≡ rx_non_stream env id rounds bufs sw
  unfolding rx_stream rx_non_stream
  rx_stream-wire zero bufs sw fit short = refl
  rx_stream-wire (suc rounds) [] sw fit short = rw (empty_stream impl s, rx_stream)
  rx_stream-wire (suc rounds) (buf ∷ bufs) sw fit short =
      rw (read_frame-wire_frame impl buf (wire impl bufs) s fit.0, rx_stream)
        (rw (take_all datagram_size buf short.0)
          (go (rx_buf env id buf sw) (λ sw'. rx_stream-wire rounds bufs sw' fit.1 short.1)))
    where
      go :
          (r : Outcome × Switch)
          → ((sw' : Switch)
              → rx_stream env impl id rounds (wire impl bufs) sw'
                ≡ rx_non_stream env id rounds bufs sw')
          → next_round r (rx_stream env impl id rounds (wire impl bufs))
            ≡ next_round r (rx_non_stream env id rounds bufs)
      go (ok, sw') k = k sw'
      go (failed, sw') k = k sw'
      go (panics, sw') k = refl
      go (hangs, sw') k = refl

  -- The loop of a stream connection, allowed more rounds than the stream has bytes, never uses them
  -- up: it ends with an error of a read, with a panic or hanging.
  pub rx_stream_ends :
      (rounds : ℕ) (input : Text) (sw : Switch)
      → length input < rounds
      → (rx_stream env impl id rounds input sw).0 ≢ done
  unfolding rx_stream
  rx_stream_ends zero input sw h = absurd (omega arith)
  rx_stream_ends (suc rounds) input sw h =
      go (read_frame impl input) refl
        (λ rest sw' (l : length rest < rounds). rx_stream_ends rounds rest sw' l)
    where
      continue :
          (rest : Text) (r : Outcome × Switch)
          → ((sw' : Switch) → (rx_stream env impl id rounds rest sw').0 ≢ done)
          → (next_round r (rx_stream env impl id rounds rest)).0 ≢ done
      continue rest (ok, sw') k = k sw'
      continue rest (failed, sw') k = k sw'
      continue rest (panics, sw') k = λ c. cc
      continue rest (hangs, sw') k = λ c. cc

      go :
          (r : Read)
          → read_frame impl input ≡ r
          → ((rest : Text) (sw' : Switch)
              → length rest < rounds
              → (rx_stream env impl id rounds rest sw').0 ≢ done)
          → (rx_stream env impl id (suc rounds) input sw).0 ≢ done
      go (unreadable err) e k = rw (e, rx_stream) (λ c. cc)
      go (frame buf rest) e k =
          let shorter = read_frame-lt impl input buf rest s e in
          rw (e, rx_stream) (continue rest (rx_buf env id buf sw) (λ sw'. k rest sw' (omega arith)))

lookup-forget_ne :
    (id : ℕ) (address : Text) (cam : GoMap Text ℕ) → lookup address (forget id cam) ≢ some id
unfolding lookup forget
lookup-forget_ne id address [] = λ e. cc
lookup-forget_ne id address ((a, t) ∷ cam) =
    ground (arith, lookup-forget_ne id address cam, ==_iff t id, ==_iff a address)

-- Unless Accept hangs, however its loop ended, be it with a panic, its connection is closed and gone from the switch,
-- and no address leads to it any more.
pub accept_cleans :
    (env : Env) (protocol : Text) (rounds : ℕ) (incoming : Incoming) (sw : Switch) (address : Text)
    → (accept env protocol rounds incoming sw).0 ≢ hung
    → (lookup sw.next_conn_id (accept env protocol rounds incoming sw).1.conns ≡ none)
      × (lookup address (accept env protocol rounds incoming sw).1.cam ≢ some sw.next_conn_id)
      × ((log : List ℕ) × ((accept env protocol rounds incoming sw).1.closed
            ≡ log ++ sw.next_conn_id ∷ []))
unfolding accept connect
accept_cleans env protocol rounds incoming sw address returned =
    go (rx env (protocol_implementation protocol) sw.next_conn_id rounds incoming _) returned
  where
    id : ℕ
    id = sw.next_conn_id

    gone :
        (sw' : Switch)
        → (lookup id (disconnect id sw').conns ≡ none)
          × (lookup address (disconnect id sw').cam ≢ some id)
          × ((log : List ℕ) × ((disconnect id sw').closed ≡ log ++ id ∷ []))
    gone sw' =
        unfold disconnect in
        (
          rw (lookup-delete id id sw'.conns, ==_refl id),
          lookup-forget_ne id address sw'.cam,
          (sw'.closed, refl),
        )

    go :
        (r : End × Switch)
        → (deferred_disconnect id r).0 ≢ hung
        → (lookup id (deferred_disconnect id r).1.conns ≡ none)
          × (lookup address (deferred_disconnect id r).1.cam ≢ some id)
          × ((log : List ℕ) × ((deferred_disconnect id r).1.closed ≡ log ++ id ∷ []))
    go (done, sw') h = gone sw'
    go (read_failed e, sw') h = gone sw'
    go (crashed, sw') h = gone sw'
    go (hung, sw') h = absurd (h refl)
