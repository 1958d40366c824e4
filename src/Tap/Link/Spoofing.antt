-- ===== src/Tap/Link/Spoofing.antt =====
-- The gateway answers ARP requests for its own addresses only.
use gvisor_tap_vsock.Base.{
  ℕ, ◌+◌, ◌≡◌, ◌∙◌, ◌⊎◌, inl, inr, true, false, arith, List, [], ◌∷◌, ◌++◌, Text, text_eq, ==_iff,
  if◌then◌else◌, All, Bool-cases, length, append_assoc, append-nil,
}
use gvisor_tap_vsock.Tap.Link.{
  LinkEnv, LinkEndpoint, Packet, Framed, contains, spoofs, framed, write_packet, write_packets,
}

-- What the switch gets for a packet.
abbrev pub passed : LinkEnv → LinkEndpoint → List Packet → List Framed
passed env e [] = []
passed env e (pkt ∷ pkts) =
    if spoofs env e pkt.network_header
    then passed env e pkts
    else framed env e pkt ∷ passed env e pkts

-- An ARP reply is about the gateway's address or one of its virtual addresses.
abbrev pub Honest : LinkEnv → LinkEndpoint → Text → Type 0
Honest env e h =
    (env.arp_is_valid h ≡ false)
    ⊎ ((env.arp_is_reply h ≡ false)
        ⊎ ((env.address_string (env.arp_sender h) ≡ e.ip)
            ⊎ (contains (env.address_string (env.arp_sender h)) e.virtual_ips ≡ true)))

module _ (env : LinkEnv) (e : LinkEndpoint) where
  -- WritePackets counts every packet, also those that it drops, and hands the others to the switch
  -- in their order.
  pub write_packets_lem :
      (pkts : List Packet) (n : ℕ) (out : List Framed)
      → write_packets env e pkts n out ≡ (n + length pkts, out ++ passed env e pkts)
  unfolding write_packets write_packet
  write_packets_lem [] n out = ground (arith, append-nil out)
  write_packets_lem (pkt ∷ pkts) n out = elim (Bool-cases (spoofs env e pkt.network_header)) [
    | inl drop ↦ rw drop (write_packets_lem pkts (n + 1) out ∙ ground arith)
    | inr keep ↦ rw keep (
        write_packets_lem pkts (n + 1) (out ++ framed env e pkt ∷ [])
        ∙ ground (arith, append_assoc out (framed env e pkt ∷ []) (passed env e pkts)))
  ]

  not-spoofs : (h : Text) → spoofs env e h ≡ false → Honest env e h
  unfolding spoofs
  not-spoofs h honest = ground (arith, ==_iff (env.address_string (env.arp_sender h)) e.ip)

  passed-Honest :
      (pkts : List Packet) → All (λ f. Honest env e f.network_header) (passed env e pkts)
  unfolding framed
  passed-Honest [] = tt
  passed-Honest (pkt ∷ rest) = elim (Bool-cases (spoofs env e pkt.network_header)) [
    | inl drop ↦ rw drop (passed-Honest rest)
    | inr keep ↦ rw keep (not-spoofs pkt.network_header keep, passed-Honest rest)
  ]

  -- Every packet that WritePackets hands to the switch is no valid ARP packet, or no ARP reply, or
  -- claims the gateway's address or one of its virtual addresses.
  pub write_packets-Honest :
      (pkts : List Packet)
      → All (λ f. Honest env e f.network_header) (write_packets env e pkts 0 []).1
  write_packets-Honest pkts = rw (write_packets_lem pkts 0 []) (passed-Honest pkts)
