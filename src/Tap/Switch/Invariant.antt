-- ===== src/Tap/Switch/Invariant.antt =====
-- Every address that the switch has learned leads to a connection that is there, so that no frame
-- with a whole header makes it panic.
use gvisor_tap_vsock.Base.{
  ℕ, ◌<◌, ◌≡◌, refl, ◌≢◌, inl, inr, arith, Option, none, some, List, [], ◌∷◌, Text, text_eq, nat_eq,
  ◌==◌, ==_iff, ◌||◌, if◌then◌else◌, GoMap, lookup, lookup-insert, lookup-delete, KeysDistinct,
  insert-KeysDistinct, delete-KeysDistinct, Bool-cases, Option-cases,
}
use gvisor_tap_vsock.Tap.Framing.{ProtocolImpl, wire_frame}
use gvisor_tap_vsock.Tap.Switch.{
  Env, Switch, Outcome, ok, failed, panics, hangs, new_switch, connect, forget, disconnect, tx_buf,
  tx_all, tx_one, tx_pkt, is_source, and_then, learn, transmit, deliver, rx_buf, unless_panics,
  count_received,
}

pub record IsValid (sw : Switch) : Type 0 where
  pub connected :
      (address : Text) (id : ℕ) → lookup address sw.cam ≡ some id → lookup id sw.conns ≢ none
  pub below : (id : ℕ) → lookup id sw.conns ≢ none → id < sw.next_conn_id
  pub cam_keys : KeysDistinct sw.cam
  pub conn_keys : KeysDistinct sw.conns

-- The entry of an address once those that lead to `id` are gone.
abbrev pub unless_to : ℕ → Option ℕ → Option ℕ
unless_to id none = none
unless_to id (some target) = if target == id then none else some target

pub lookup-forget :
    (id : ℕ) (address : Text) (cam : GoMap Text ℕ)
    → KeysDistinct cam
    → lookup address (forget id cam) ≡ unless_to id (lookup address cam)
unfolding lookup forget
lookup-forget id address [] h = refl
lookup-forget id address ((a, t) ∷ cam) h =
    ground (arith, lookup-forget id address cam h.1, ==_iff a address)

forget-KeysDistinct :
    (id : ℕ) (cam : GoMap Text ℕ) → KeysDistinct cam → KeysDistinct (forget id cam)
unfolding forget
forget-KeysDistinct id [] h = tt
forget-KeysDistinct id ((a, t) ∷ cam) h =
    ground (arith, forget-KeysDistinct id cam h.1, lookup-forget id a cam h.1)

pub new_switch-IsValid : IsValid new_switch
unfolding lookup
new_switch-IsValid = record {
  connected = λ address id h. absurd (cc);
  below = λ id h. absurd (h refl);
  cam_keys = tt;
  conn_keys = tt;
}

pub connect-IsValid : (impl : ProtocolImpl) (sw : Switch) → IsValid sw → IsValid (connect impl sw).1
unfolding connect
connect-IsValid impl sw v = record {
  connected = λ address id h.
      ground (arith, v.connected address id h, lookup-insert sw.next_conn_id id impl sw.conns);
  below = λ id h. ground (arith, v.below id, lookup-insert sw.next_conn_id id impl sw.conns);
  cam_keys = v.cam_keys;
  conn_keys = insert-KeysDistinct sw.next_conn_id impl sw.conns v.conn_keys;
}

pub disconnect-IsValid : (id : ℕ) (sw : Switch) → IsValid sw → IsValid (disconnect id sw)
unfolding disconnect
disconnect-IsValid id sw v = record {
  connected = λ address target h. ground (
    arith,
    lookup-forget id address sw.cam v.cam_keys,
    lookup-delete id target sw.conns,
    v.connected address target,
  );
  below = λ other h. ground (arith, v.below other, lookup-delete id other sw.conns);
  cam_keys = forget-KeysDistinct id sw.cam v.cam_keys;
  conn_keys = delete-KeysDistinct id sw.conns v.conn_keys;
}

-- A connection that is still there may claim an address.
pub learn-IsValid :
    (src : Text) (id : ℕ) (sw : Switch)
    → lookup id sw.conns ≢ none
    → IsValid sw
    → IsValid (learn src id sw)
unfolding learn
learn-IsValid src id sw there v = record {
  connected = λ address target h.
      ground (arith, lookup-insert src address id sw.cam, v.connected address target);
  below = v.below;
  cam_keys = insert-KeysDistinct src id sw.cam v.cam_keys;
  conn_keys = v.conn_keys;
}

-- Fields that the invariant does not read may change.
same_maps :
    (sw sw' : Switch)
    → sw'.cam ≡ sw.cam
    → sw'.conns ≡ sw.conns
    → sw'.next_conn_id ≡ sw.next_conn_id
    → IsValid sw
    → IsValid sw'
same_maps sw sw' c n k v = record {
  connected = λ address id. rw (c, n) (v.connected address id);
  below = λ id. rw (n, k) (v.below id);
  cam_keys = rw c v.cam_keys;
  conn_keys = rw n v.conn_keys;
}

pub counted-IsValid : (size : ℕ) (sw : Switch) → IsValid sw → IsValid (count_received size sw)
counted-IsValid size sw v = same_maps sw _ refl refl refl v

module _ (env : Env) where
  -- What a step leaves is valid, and it did not panic.
  abbrev pub Safe : Outcome × Switch → Type 0
  Safe r = IsValid r.1 × (r.0 ≢ panics)

  tx_buf-Safe :
      (id : ℕ) (impl : ProtocolImpl) (buf : Text) (sw : Switch)
      → IsValid sw
      → Safe (tx_buf env id impl buf sw)
  unfolding tx_buf
  tx_buf-Safe id impl buf sw v =
      elim (Bool-cases (env.accepts sw.written id (wire_frame impl buf))) [
        | inl e ↦ rw e (same_maps sw _ refl refl refl v, λ c. cc)
        | inr e ↦ rw e (disconnect-IsValid id sw v, λ c. cc)
      ]

  and_then-Safe :
      (r : Outcome × Switch) (f : Switch → Outcome × Switch)
      → Safe r
      → ((sw : Switch) → IsValid sw → Safe (f sw))
      → Safe (and_then r f)
  and_then-Safe (ok, sw) f h k = k sw h.0
  and_then-Safe (failed, sw) f h k = h
  and_then-Safe (panics, sw) f h k = h
  and_then-Safe (hangs, sw) f h k = h

  tx_all-Safe :
      (src_id : Option ℕ) (buf : Text) (conns : List (ℕ × ProtocolImpl)) (sw : Switch)
      → IsValid sw
      → Safe (tx_all env src_id buf conns sw)
  unfolding tx_all
  tx_all-Safe src_id buf [] sw v = (v, λ c. cc)
  tx_all-Safe src_id buf ((id, impl) ∷ conns) sw v = elim (Bool-cases (is_source src_id id)) [
    | inl e ↦ rw (e, tx_all) (tx_all-Safe src_id buf conns sw v)
    | inr e ↦
        rw (e, tx_all)
          (and_then-Safe _ _ (tx_buf-Safe id impl buf sw v)
            λ sw' v'. tx_all-Safe src_id buf conns _ (same_maps sw' _ refl refl refl v'))
  ]

  tx_one-Safe : (dst buf : Text) (sw : Switch) → IsValid sw → Safe (tx_one env dst buf sw)
  unfolding tx_one
  tx_one-Safe dst buf sw v = elim (Option-cases (lookup dst sw.cam)) [
    | inl e ↦ rw (e, tx_one) (v, λ c. cc)
    | inr (id, e) ↦ elim (Option-cases (lookup id sw.conns)) [
      | inl gone ↦ absurd (v.connected dst id e gone)
      | inr (impl, there) ↦
          rw (e, tx_one)
            (rw (there, tx_one)
              (and_then-Safe _ _ (tx_buf-Safe id impl buf sw v)
                λ sw' v'. (same_maps sw' _ refl refl refl v', λ c. cc)))
    ]
  ]

  -- A frame with an Ethernet header: its accessors do not panic.
  pub record HasHeader (buf : Text) : Type 0 where
    pub destination : env.destination_address buf ≢ none
    pub source : env.source_address buf ≢ none
    pub protocol : env.ethernet_type buf ≢ none

  -- On a valid switch the transmission of a frame with a header does not panic, whether or not the
  -- writes succeed, and leaves a valid switch.
  pub tx_pkt-Safe :
      (buf : Text) (sw : Switch) → HasHeader buf → IsValid sw → Safe (tx_pkt env buf sw)
  unfolding tx_pkt
  tx_pkt-Safe buf sw h v = elim (Option-cases (env.destination_address buf)) [
    | inl short ↦ absurd (h.destination short)
    | inr (dst, d) ↦ elim (Option-cases (env.source_address buf)) [
      | inl short ↦ absurd (h.source short)
      | inr (src, s) ↦
          rw (d, tx_pkt)
            (rw (s, tx_pkt)
              (elim (Bool-cases (dst == env.broadcast)) [
                | inl e ↦ rw e (tx_all-Safe (lookup src sw.cam) buf sw.conns sw v)
                | inr e ↦ rw e (tx_one-Safe dst buf sw v)
              ]))
    ]
  ]

  transmit-Safe :
      (dst buf : Text) (sw : Switch) → HasHeader buf → IsValid sw → Safe (transmit env dst buf sw)
  unfolding transmit
  transmit-Safe dst buf sw h v = elim (Bool-cases (dst == env.gateway_address)) [
    | inl e ↦ rw e (v, λ c. cc)
    | inr e ↦ rw e (tx_pkt-Safe buf sw h v)
  ]

  pub deliver-Safe :
      (dst buf : Text) (sw : Switch) → HasHeader buf → IsValid sw → Safe (deliver env dst buf sw)
  unfolding deliver
  deliver-Safe dst buf sw h v =
      elim (Bool-cases (dst == env.gateway_address || dst == env.broadcast)) [
        | inl e ↦ rw e (elim (Option-cases (env.ethernet_type buf)) [
          | inl short ↦ absurd (h.protocol short)
          | inr (protocol, t) ↦ rw (t, deliver) (same_maps sw _ refl refl refl v, λ c. cc)
        ])
        | inr e ↦ rw e (v, λ c. cc)
      ]

  then-Safe :
      (r : Outcome × Switch) (f : Switch → Outcome × Switch)
      → Safe r
      → ((sw : Switch) → IsValid sw → Safe (f sw))
      → Safe (unless_panics r f)
  then-Safe (ok, sw) f h k = k sw h.0
  then-Safe (failed, sw) f h k = k sw h.0
  then-Safe (panics, sw) f h k = h
  then-Safe (hangs, sw) f h k = h

  -- A frame with a header, received on a valid switch from a connection that is still there, does
  -- not make the switch panic, whether or not the writes succeed, and leaves it valid.
  pub rx_buf-Safe :
      (id : ℕ) (buf : Text) (sw : Switch)
      → HasHeader buf
      → lookup id sw.conns ≢ none
      → IsValid sw
      → Safe (rx_buf env id buf sw)
  unfolding rx_buf
  rx_buf-Safe id buf sw h there v = elim (Option-cases (env.destination_address buf)) [
    | inl short ↦ absurd (h.destination short)
    | inr (dst, d) ↦ elim (Option-cases (env.source_address buf)) [
      | inl short ↦ absurd (h.source short)
      | inr (src, s) ↦
          rw (s, rx_buf)
            (rw (d, rx_buf)
              (then-Safe _ _
                (transmit-Safe dst buf (learn src id sw) h (learn-IsValid src id sw there v))
                λ sw' v'.
                  then-Safe _ _ (deliver-Safe dst buf sw' h v')
                    λ sw'' v''. (same_maps sw'' _ refl refl refl v'', λ c. cc)))
    ]
  ]
