-- ===== src/Services/Forwarder/UdpProxy/Tests.antt =====
-- The proxy on datagrams of one client, and the theorems at instances.
use gvisor_tap_vsock.Base.{◌≡◌, refl, arith, true, some, [], ◌∷◌, ◌++◌, codes, nat_eq, lookup}
use gvisor_tap_vsock.Services.Forwarder.UdpProxy.{
  UdpAddr, ConnTrackKey, new_conn_track_key, UdpProxy, new_udp_proxy, write_all, run_round,
  reply_round,
}
use gvisor_tap_vsock.Services.Forwarder.UdpProxy.Keys.{IsBytes}
use gvisor_tap_vsock.Services.Forwarder.UdpProxy.Replies.{start, reply_round-run_round}

abbrev client : UdpAddr
client = record { ip = 10 ∷ 0 ∷ 0 ∷ 2 ∷ []; port = 5353 }

abbrev client_key : ConnTrackKey
client_key = ((0, 167772162), 5353)

client_named : new_conn_track_key client ≡ some client_key
unfolding new_conn_track_key
client_named = refl

client_IsBytes : IsBytes client.ip
client_IsBytes = (omega arith, (omega arith, (omega arith, (omega arith, tt))))

-- The datagram goes out in two writes.
abbrev after : UdpProxy
after = run_round true (some 1 ∷ some 2 ∷ []) client_key client (codes "ask") new_udp_proxy

written : after.forwarded ≡ (0, codes "ask") ∷ []
unfolding run_round lookup
written = refl

reply_round-run_round_example :
    (addr : UdpAddr) × (new_conn_track_key addr ≡ some client_key)
    × ((reply_round (some 5 ∷ []) 0 (codes "reply") after).replied
        ≡ after.replied ++ (addr, write_all (some 5 ∷ []) (codes "reply")) ∷ [])
reply_round-run_round_example =
    reply_round-run_round new_udp_proxy true (some 1 ∷ some 2 ∷ []) client_key client (codes "ask")
      0 (codes "ask") (some 5 ∷ []) (codes "reply") start client_named written
