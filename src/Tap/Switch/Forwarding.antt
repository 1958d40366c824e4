-- ===== src/Tap/Switch/Forwarding.antt =====
-- Where the frames go.
use gvisor_tap_vsock.Base.{
  ℕ, zero, suc, ◌+◌, ◌*◌, ◌%◌, ◌^◌, ◌<◌, ◌≡◌, sym, ap, ◌∙◌, ◌≢◌, inl, inr, true, false, arith,
  Option, none, some, List, [], ◌∷◌, ◌++◌, Text, text_eq, nat_eq, ==_refl, ==_ne, if◌then◌else◌,
  length, lookup, Bool-cases, append_assoc, append-nil,
}
use gvisor_tap_vsock.Tap.Framing.{ProtocolImpl, wire_frame}
use gvisor_tap_vsock.Tap.Switch.{
  Env, Switch, ok, failed, disconnect, tx_buf, tx_all, tx_one, tx_pkt, is_source,
}

-- The writes of a broadcast: to every connection but the source, its own framing of the frame.
abbrev pub copies : Option ℕ → Text → List (ℕ × ProtocolImpl) → List (ℕ × Text)
copies src_id buf [] = []
copies src_id buf ((id, impl) ∷ conns) =
    if is_source src_id id
    then copies src_id buf conns
    else (id, wire_frame impl buf) ∷ copies src_id buf conns

-- The writes succeed, each behind those before it.
abbrev pub Accepted : Env → List (ℕ × Text) → List (ℕ × Text) → Type 0
Accepted env log [] = Unit
Accepted env log ((id, bytes) ∷ writes) =
    (env.accepts log id bytes ≡ true) × Accepted env (log ++ (id, bytes) ∷ []) writes

-- Sent after n frames of this size.
abbrev pub sent_after : ℕ → ℕ → ℕ → ℕ
sent_after zero size sent = sent
sent_after (suc n) size sent = sent_after n size ((sent + size) % 2 ^ 64)

-- Sent counts the bytes modulo 2 ^ 64.
pub sent_after_lem :
    (n size sent : ℕ) → sent < 2 ^ 64 → sent_after n size sent ≡ (sent + n * size) % 2 ^ 64
sent_after_lem zero size sent h = omega arith
sent_after_lem (suc n) size sent h =
    sent_after_lem n size ((sent + size) % 2 ^ 64) (omega arith) ∙ omega arith

-- The switch after these writes of one frame.
abbrev pub after_writes : Text → List (ℕ × Text) → Switch → Switch
after_writes buf writes sw = record sw {
  written = sw.written ++ writes;
  sent = sent_after (length writes) (length buf) sw.sent;
}

module _ (env : Env) where
  -- A frame with a header, to an address other than broadcast that the switch has learned from a
  -- connection that is there, is written once, to that connection, in the framing of its protocol;
  -- if the write fails, the connection is dropped and the error returned.
  pub tx_pkt_unicast :
      (buf dst src : Text) (id : ℕ) (impl : ProtocolImpl) (sw : Switch)
      → env.destination_address buf ≡ some dst
      → env.source_address buf ≡ some src
      → dst ≢ env.broadcast
      → lookup dst sw.cam ≡ some id
      → lookup id sw.conns ≡ some impl
      → tx_pkt env buf sw ≡ (
          if env.accepts sw.written id (wire_frame impl buf)
          then (
            ok,
            record sw {
              written = sw.written ++ (id, wire_frame impl buf) ∷ [];
              sent = (sw.sent + length buf) % 2 ^ 64;
            },
          )
          else (failed, disconnect id sw))
  unfolding tx_pkt tx_one tx_buf
  tx_pkt_unicast buf dst src id impl sw d s ne c there =
      rw (d, tx_pkt)
        (rw (s, tx_pkt)
          (rw (==_ne dst env.broadcast ne) (
            rw (c, tx_one)
              (rw (there, tx_one)
                (elim (Bool-cases (env.accepts sw.written id (wire_frame impl buf))) [
                  | inl e ↦ rw (e, tx_buf)
                  | inr e ↦ rw (e, tx_buf)
                ])))))

  -- A frame to any other address is dropped: nothing is written and nothing changes.
  pub tx_pkt_unknown :
      (buf dst src : Text) (sw : Switch)
      → env.destination_address buf ≡ some dst
      → env.source_address buf ≡ some src
      → dst ≢ env.broadcast
      → lookup dst sw.cam ≡ none
      → tx_pkt env buf sw ≡ (ok, sw)
  unfolding tx_pkt tx_one
  tx_pkt_unknown buf dst src sw d s ne c =
      rw (d, tx_pkt) (rw (s, tx_pkt) (rw (==_ne dst env.broadcast ne) (rw (c, tx_one))))

  module _ (id : ℕ) (impl : ProtocolImpl) (buf : Text) (sw : Switch) where
    tx_buf_accepted :
        env.accepts sw.written id (wire_frame impl buf) ≡ true
        → tx_buf env id impl buf sw
          ≡ (ok, record sw { written = sw.written ++ (id, wire_frame impl buf) ∷ [] })
    unfolding tx_buf
    tx_buf_accepted a = rw a

    tx_buf_refused :
        env.accepts sw.written id (wire_frame impl buf) ≡ false
        → tx_buf env id impl buf sw ≡ (failed, disconnect id sw)
    unfolding tx_buf
    tx_buf_refused a = rw a

  module _ (src_id : Option ℕ) (buf : Text) (id : ℕ) (impl : ProtocolImpl)
      (rest : List (ℕ × ProtocolImpl)) (sw : Switch) where
    tx_all_source :
        is_source src_id id ≡ true
        → tx_all env src_id buf ((id, impl) ∷ rest) sw ≡ tx_all env src_id buf rest sw
    unfolding tx_all
    tx_all_source e = rw (e, tx_all)

    tx_all_write :
        is_source src_id id ≡ false
        → env.accepts sw.written id (wire_frame impl buf) ≡ true
        → tx_all env src_id buf ((id, impl) ∷ rest) sw
          ≡ tx_all env src_id buf rest (after_writes buf ((id, wire_frame impl buf) ∷ []) sw)
    unfolding tx_all
    tx_all_write e a = rw (e, tx_all) (rw (tx_buf_accepted id impl buf sw a, tx_all))

    tx_all_refused :
        is_source src_id id ≡ false
        → env.accepts sw.written id (wire_frame impl buf) ≡ false
        → tx_all env src_id buf ((id, impl) ∷ rest) sw ≡ (failed, disconnect id sw)
    unfolding tx_all
    tx_all_refused e a = rw (e, tx_all) (rw (tx_buf_refused id impl buf sw a, tx_all))

  tx_all-append :
      (src_id : Option ℕ) (buf : Text) (conns rest : List (ℕ × ProtocolImpl)) (sw : Switch)
      → Accepted env sw.written (copies src_id buf conns)
      → tx_all env src_id buf (conns ++ rest) sw
        ≡ tx_all env src_id buf rest (after_writes buf (copies src_id buf conns) sw)
  tx_all-append src_id buf [] rest sw a =
      ap (λ (w : List (ℕ × Text)). tx_all env src_id buf rest (record sw { written = w }))
        (sym (append-nil sw.written))
  tx_all-append src_id buf ((id, impl) ∷ conns) rest sw a =
      elim (Bool-cases (is_source src_id id)) [
        | inl e ↦
            tx_all_source src_id buf id impl (conns ++ rest) sw e
            ∙ tx_all-append src_id buf conns rest sw (rw e at a)
            ∙ rw e
        | inr e ↦
            let a' : Accepted env sw.written ((id, wire_frame impl buf) ∷ copies src_id buf conns) =
              rw e at a in
            tx_all_write src_id buf id impl (conns ++ rest) sw e a'.0
            ∙ tx_all-append src_id buf conns rest
                (after_writes buf ((id, wire_frame impl buf) ∷ []) sw) a'.1
            ∙ rw (e, append_assoc)
      ]

  module _ (buf src : Text) (sw : Switch) (d : env.destination_address buf ≡ some env.broadcast)
      (s : env.source_address buf ≡ some src) where
    tx_pkt-tx_all : tx_pkt env buf sw ≡ tx_all env (lookup src sw.cam) buf sw.conns sw
    unfolding tx_pkt
    tx_pkt-tx_all = rw (d, tx_pkt) (rw (s, tx_pkt) (rw (==_refl env.broadcast)))

    -- A broadcast whose writes all succeed is written once to every connection but the one that the
    -- source address was learned from, and to every connection if it was not learned; Sent counts
    -- the frame once for each.
    pub tx_pkt_broadcast :
        Accepted env sw.written (copies (lookup src sw.cam) buf sw.conns)
        → sw.sent < 2 ^ 64
        → let writes = copies (lookup src sw.cam) buf sw.conns in
          tx_pkt env buf sw ≡ (
            ok,
            record sw {
              written = sw.written ++ writes;
              sent = (sw.sent + length writes * length buf) % 2 ^ 64;
            },
          )
    tx_pkt_broadcast a fits =
        let writes = copies (lookup src sw.cam) buf sw.conns in
        tx_pkt-tx_all
        ∙ ap (λ (l : List (ℕ × ProtocolImpl)). tx_all env (lookup src sw.cam) buf l sw)
            (sym (append-nil sw.conns))
        ∙ tx_all-append (lookup src sw.cam) buf sw.conns [] sw a
        ∙ unfold tx_all in rw (sent_after_lem (length writes) (length buf) sw.sent fits)

    -- A broadcast ends at the first connection whose write fails: that connection is dropped, the
    -- connections before it have the frame, and those after it in the order of the loop do not.
    pub tx_pkt_broadcast_fails :
        (before after : List (ℕ × ProtocolImpl)) (id : ℕ) (impl : ProtocolImpl)
        → sw.conns ≡ before ++ (id, impl) ∷ after
        → is_source (lookup src sw.cam) id ≡ false
        → Accepted env sw.written (copies (lookup src sw.cam) buf before)
        → env.accepts (sw.written ++ copies (lookup src sw.cam) buf before) id (wire_frame impl buf)
          ≡ false
        → tx_pkt env buf sw
          ≡ (failed, disconnect id (after_writes buf (copies (lookup src sw.cam) buf before) sw))
    tx_pkt_broadcast_fails before after id impl split other a refused =
        let src_id = lookup src sw.cam in
        tx_pkt-tx_all
        ∙ ap (λ (l : List (ℕ × ProtocolImpl)). tx_all env src_id buf l sw) split
        ∙ tx_all-append src_id buf before ((id, impl) ∷ after) sw a
        ∙ tx_all_refused src_id buf id impl after (after_writes buf (copies src_id buf before) sw)
            other refused
