-- ===== src/Http/Server/Events.antt =====
-- A network in use: the requests of the host and of the machines, the connections of machines, and the
-- calls of its pool, in any order.
use gvisor_tap_vsock.Base.{
  ◌≡◌, refl, sym, ap, ◌∙◌, Bool, Option, List, [], ◌∷◌, ◌++◌, append_assoc, append-nil, Text, ℕ,
}
use gvisor_tap_vsock.GoNet.{GoNet}
use gvisor_tap_vsock.Tap.IpPool.{IpPool}
use gvisor_tap_vsock.Tap.IpPool.History.{Call, step, run}
use gvisor_tap_vsock.Tap.Switch.Rx.{Incoming, accept}
use gvisor_tap_vsock.Services.Forwarder.Ports.Handles.{IsValid}
use gvisor_tap_vsock.Services.Dns.Zones.{names}
use gvisor_tap_vsock.Http.{HttpRequest, HttpReply}
use gvisor_tap_vsock.Http.Server.{Network, HttpEnv, with_profiler, gateway_mux}
use gvisor_tap_vsock.Http.Server.Served.{Sound, with_profiler-Keeps, gateway_mux-Keeps}

-- A request to the interface, or to the gateway; a connection of a machine, with its protocol; or a call
-- of the pool. The servers of the network have goroutines of their own: a frame that a connection
-- hands to the gateway makes the DHCP server call the pool, or the server of the gateway serve a
-- request, as another event.
pub data Event : Type 0 where
  requests guests : HttpRequest → Event
  machines : Text → ℕ → Incoming → Event
  calls : Call → Event

abbrev pub calls_of : List Event → List Call
calls_of [] = []
calls_of (calls c ∷ events) = c ∷ calls_of events
calls_of (_ ∷ events) = calls_of events

-- What has become of a network: its forwarder is valid, its pool is what the calls have made of it, and
-- its zones begin with those of the start, in their order.
pub record Kept (net : GoNet) (start n : Network) (made_calls : List Call) : Type 0 where
  pub valid : IsValid n.forwarder
  pub leases : n.pool ≡ run net start.pool made_calls
  pub named : (more : List Text) × (names n.zones ≡ names start.zones ++ more)

module _ (net : GoNet) (env : HttpEnv) (debug : Bool) (pprof : HttpRequest → Option HttpReply) where
  unfoldable pub after : List Event → Network → Network
  after [] n = n
  after (requests req ∷ events) n = after events (with_profiler env debug pprof req n).1
  after (guests req ∷ events) n = after events (gateway_mux env req n).1
  after (machines protocol rounds incoming ∷ events) n =
      after events
        (record n { switch = (accept env.switch_env protocol rounds incoming n.switch).1 })
  after (calls c ∷ events) n = after events (record n { pool = step net n.pool c })

  same : (n : Network) → IsValid n.forwarder → Sound n n
  same n v = record { valid = v; leases = refl; named = ([], sym (append-nil (names n.zones))) }

  behind :
      (n n' n'' : Network) (made_calls : List Call)
      → Sound n n'
      → Kept net n' n'' made_calls
      → Kept net n n'' made_calls
  behind n n' n'' made_calls s k =
      let (more, e) = s.named in
      let (added, e') = k.named in
      record {
        valid = k.valid;
        leases = k.leases ∙ ap (λ (p : IpPool). run net p made_calls) s.leases;
        named = (
          more ++ added,
          e' ∙ ap (λ (t : List Text). t ++ added) e ∙ append_assoc (names n.zones) more added,
        );
      }

  -- Whatever happens to a network in whatever order, be it requests of the host to any path and with
  -- any body, requests of the machines to the gateway, machines that connect and send what they like,
  -- or calls by which the DHCP server gives addresses and takes them back: its forwarder stays valid, if
  -- it is at first, its leases are what these calls alone make of those of the start, and the zones of
  -- the start keep their names and places.
  pub after-Kept :
      (events : List Event) (start : Network)
      → IsValid start.forwarder
      → Kept net start (after events start) (calls_of events)
  unfolding after run
  after-Kept [] start v = record {
    valid = v;
    leases = refl;
    named = ([], sym (append-nil (names start.zones)));
  }
  after-Kept (requests req ∷ events) start v =
      let n = (with_profiler env debug pprof req start).1 in
      let s = with_profiler-Keeps env start debug pprof req start (same start v) in
      behind start n (after events n) (calls_of events) s (after-Kept events n s.valid)
  after-Kept (guests req ∷ events) start v =
      let n = (gateway_mux env req start).1 in
      let s = gateway_mux-Keeps env start req start (same start v) in
      behind start n (after events n) (calls_of events) s (after-Kept events n s.valid)
  after-Kept (machines protocol rounds incoming ∷ events) start v =
      let switch = (accept env.switch_env protocol rounds incoming start.switch).1 in
      let k = after-Kept events (record start { switch = switch }) v in
      record { valid = k.valid; leases = k.leases; named = k.named }
  after-Kept (calls c ∷ events) start v =
      let n = record start { pool = step net start.pool c } in
      let k = after-Kept events n v in
      record { valid = k.valid; leases = k.leases; named = k.named }
