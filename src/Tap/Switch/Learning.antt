-- ===== src/Tap/Switch/Learning.antt =====
-- What rxBuf does with a frame: learning, transmission and delivery to the gateway.
use gvisor_tap_vsock.Base.{
  ℕ, ◌+◌, ◌*◌, ◌%◌, ◌^◌, ◌<◌, ◌≡◌, ◌≢◌, Option, some, [], ◌∷◌, ◌++◌, Text, text_eq, nat_eq, ==_refl,
  ==_ne, length, drop, lookup, insert, lookup-insert_self,
}
use mathlib.Core.Path.{subst}
use gvisor_tap_vsock.Tap.Switch.{
  Env, Switch, ok, tx_pkt, learn, transmit, deliver, rx_buf, unless_panics, count_received,
}
use gvisor_tap_vsock.Tap.Switch.Forwarding.{copies, Accepted, tx_pkt_broadcast}

module _ (env : Env) (id : ℕ) (buf src : Text) (sw : Switch)
    (s : env.source_address buf ≡ some src) where
  -- A frame for the gateway whose header is whole is learned from, delivered without its header and
  -- counted as received. Nothing is written to any connection.
  pub rx_buf_to_gateway :
      (protocol : ℕ)
      → env.destination_address buf ≡ some env.gateway_address
      → env.ethernet_type buf ≡ some protocol
      → rx_buf env id buf sw ≡ (
        ok,
        record sw {
          received = (sw.received + length buf) % 2 ^ 64;
          cam = insert src id sw.cam;
          delivered = sw.delivered ++ (protocol, drop env.ethernet_minimum_size buf) ∷ [];
        },
      )
  unfolding rx_buf transmit deliver learn
  rx_buf_to_gateway protocol d t =
      rw (s, rx_buf) (rw (d, rx_buf) (rw (==_refl env.gateway_address) (rw (t, deliver))))

  -- A frame for another machine is learned from and goes through the switch only: the gateway does
  -- not see it, and an error of the transmission does not stop the receiver.
  pub rx_buf_to_machine :
      (dst : Text)
      → env.destination_address buf ≡ some dst
      → dst ≢ env.gateway_address
      → dst ≢ env.broadcast
      → rx_buf env id buf sw
        ≡ unless_panics
            (tx_pkt env buf (record sw { cam = insert src id sw.cam }))
            (λ transmitted. (ok, count_received (length buf) transmitted))
  unfolding rx_buf transmit deliver learn
  rx_buf_to_machine dst d not_gateway not_all =
      rw (s, rx_buf)
        (rw (d, rx_buf)
          (rw (==_ne dst env.gateway_address not_gateway, ==_ne dst env.broadcast not_all)))

  -- A broadcast whose writes all succeed is written once to every connection but the one it came
  -- from, is delivered to the gateway without its header, and is learned from and counted: Sent once
  -- for each write, Received once. The gateway's address is not the broadcast address, and the
  -- frame's header is whole.
  pub rx_buf_broadcast :
      (protocol : ℕ)
      → env.destination_address buf ≡ some env.broadcast
      → env.ethernet_type buf ≡ some protocol
      → env.broadcast ≢ env.gateway_address
      → sw.sent < 2 ^ 64
      → Accepted env sw.written (copies (some id) buf sw.conns)
      → let writes = copies (some id) buf sw.conns in
        rx_buf env id buf sw ≡ (
          ok,
          record sw {
            sent = (sw.sent + length writes * length buf) % 2 ^ 64;
            received = (sw.received + length buf) % 2 ^ 64;
            cam = insert src id sw.cam;
            written = sw.written ++ writes;
            delivered = sw.delivered ++ (protocol, drop env.ethernet_minimum_size buf) ∷ [];
          },
        )
  unfolding rx_buf transmit deliver learn
  rx_buf_broadcast protocol d t distinct fits a =
      let learned = record sw { cam = insert src id sw.cam } in
      let known : lookup src learned.cam ≡ some id = lookup-insert_self src id sw.cam in
      let flood =
        subst
          (λ (o : Option ℕ). tx_pkt env buf learned ≡ (
            ok,
            record learned {
              written = sw.written ++ copies o buf sw.conns;
              sent = (sw.sent + length (copies o buf sw.conns) * length buf) % 2 ^ 64;
            },
          ))
          known (tx_pkt_broadcast env buf src learned d s (rw known a) fits) in
      rw (s, rx_buf)
        (rw (d, rx_buf)
          (rw (==_ne env.broadcast env.gateway_address distinct, ==_refl env.broadcast, flood)
            (rw (t, deliver))))
