-- ===== src/Tap/Switch/Panics.antt =====
-- Entries of the switch that lead to a connection that is gone, and what they do.
use gvisor_tap_vsock.Base.{
  ℕ, ◌≡◌, refl, ◌≢◌, none, some, Text, text_eq, nat_eq, ==_ne, length, lookup, lookup-insert_self,
}
use gvisor_tap_vsock.Tap.Switch.{
  Env, Switch, Outcome, ok, failed, panics, hangs, tx_one, tx_pkt, learn, transmit, deliver, rx_buf,
  unless_panics, count_received,
}

module _ (env : Env) where
  -- What is wrong with a stale entry: a frame to an address that leads to a connection that is gone
  -- panics.
  pub stale_panics :
      (buf dst src : Text) (id : ℕ) (sw : Switch)
      → env.destination_address buf ≡ some dst
      → env.source_address buf ≡ some src
      → dst ≢ env.broadcast
      → lookup dst sw.cam ≡ some id
      → lookup id sw.conns ≡ none
      → (tx_pkt env buf sw).0 ≡ panics
  unfolding tx_pkt tx_one
  stale_panics buf dst src id sw d s ne c gone =
      rw (d, tx_pkt)
        (rw (s, tx_pkt) (rw (==_ne dst env.broadcast ne) (rw (c, tx_one) (rw (gone, tx_one)))))

  -- A frame that rxBuf is given for a connection that has been dropped makes the program panic if its
  -- source is its own destination and neither the broadcast address nor the gateway's.
  pub late_frame_panics :
      (id : ℕ) (buf address : Text) (sw : Switch)
      → env.destination_address buf ≡ some address
      → env.source_address buf ≡ some address
      → address ≢ env.broadcast
      → address ≢ env.gateway_address
      → lookup id sw.conns ≡ none
      → (rx_buf env id buf sw).0 ≡ panics
  unfolding rx_buf transmit learn
  late_frame_panics id buf address sw d s not_all not_gateway gone =
      let learned = learn address id sw in
      let stale : (tx_pkt env buf learned).0 ≡ panics =
        stale_panics buf address address id learned d s not_all
          (lookup-insert_self address id sw.cam) gone in
      rw (s, rx_buf)
        (rw (d, rx_buf)
          (rw (==_ne address env.gateway_address not_gateway) (go (tx_pkt env buf learned) stale)))
    where
      go :
          (r : Outcome × Switch)
          → r.0 ≡ panics
          → (unless_panics r (λ transmitted.
              unless_panics
                (deliver env address buf transmitted)
                (λ done. (ok, count_received (length buf) done)))).0
            ≡ panics
      go (ok, sw') e = cc
      go (failed, sw') e = cc
      go (panics, sw') e = refl
      go (hangs, sw') e = absurd (cc)
