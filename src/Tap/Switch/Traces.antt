-- ===== src/Tap/Switch/Traces.antt =====
-- Several goroutines on one switch: sequences of the steps that hold the locks. A goroutine of rxBuf
-- takes three: it learns, transmits and delivers, and other steps may come between. A frame of the
-- gateway is a transmission too.
use gvisor_tap_vsock.Base.{ℕ, ◌≢◌, none, Text, text_eq, nat_eq, lookup}
use gvisor_tap_vsock.Tap.Framing.{ProtocolImpl}
use gvisor_tap_vsock.Tap.Switch.{
  Env, Switch, panics, new_switch, connect, disconnect, tx_pkt, learn, deliver, count_received,
}
use gvisor_tap_vsock.Tap.Switch.Invariant.{
  IsValid, HasHeader, new_switch-IsValid, connect-IsValid, disconnect-IsValid, learn-IsValid,
  tx_pkt-Safe, deliver-Safe, counted-IsValid,
}

-- In an orderly run an address is learned only from a connection that is there.
pub data Step (env : Env) (sw : Switch) : Switch → Type 0 where
  connects : (impl : ProtocolImpl) → Step env sw (connect impl sw).1
  learns : (src : Text) (id : ℕ) → lookup id sw.conns ≢ none → Step env sw (learn src id sw)
  transmits : (buf : Text) → HasHeader env buf → Step env sw (tx_pkt env buf sw).1
  delivers : (dst buf : Text) → HasHeader env buf → Step env sw (deliver env dst buf sw).1
  counts : (size : ℕ) → Step env sw (count_received size sw)
  disconnects : (id : ℕ) → Step env sw (disconnect id sw)

pub data Reach (env : Env) : Switch → Type 0 where
  start : Reach env new_switch
  next : {sw sw' : Switch} → Reach env sw → Step env sw sw' → Reach env sw'

pub Step-IsValid : (env : Env) {sw sw' : Switch} → Step env sw sw' → IsValid sw → IsValid sw'
Step-IsValid env {sw} (connects impl) v = connect-IsValid impl sw v
Step-IsValid env {sw} (learns src id there) v = learn-IsValid src id sw there v
Step-IsValid env {sw} (transmits buf h) v = (tx_pkt-Safe env buf sw h v).0
Step-IsValid env {sw} (delivers dst buf h) v = (deliver-Safe env dst buf sw h v).0
Step-IsValid env {sw} (counts size) v = counted-IsValid size sw v
Step-IsValid env {sw} (disconnects id) v = disconnect-IsValid id sw v

pub Reach-IsValid : (env : Env) {sw : Switch} → Reach env sw → IsValid sw
Reach-IsValid env start = new_switch-IsValid
Reach-IsValid env (next r st) = Step-IsValid env st (Reach-IsValid env r)

-- After any interleaving, from the new switch, of connections, of transmissions and deliveries of
-- frames with a header, whose writes may fail, of disconnections, and of learning addresses from
-- connections that are there at that moment, the next frame with a header is transmitted without a
-- panic.
pub Reach-tx_pkt :
    (env : Env) {sw : Switch} (buf : Text)
    → Reach env sw
    → HasHeader env buf
    → (tx_pkt env buf sw).0 ≢ panics
Reach-tx_pkt env {sw} buf r h = (tx_pkt-Safe env buf sw h (Reach-IsValid env r)).1
