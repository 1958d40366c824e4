-- ===== src/Services/Forwarder/UdpProxy/Replies.antt =====
-- Where replies go: runs of the proxy as sequences of the rounds of its goroutines.
use gvisor_tap_vsock.Base.{
  ℕ, ◌≡◌, refl, ap, ◌≢◌, inl, inr, Bool, arith, Option, some, List, [], ◌∷◌, ◌++◌, Text, nat_eq,
  lookup, lookup-insert_self, Option-cases, Bool-cases, length, length-append,
}
use gvisor_tap_vsock.Services.Forwarder.UdpProxy.{
  UdpAddr, ConnTrackKey, key_eq, new_conn_track_key, UdpProxy, new_udp_proxy, track, write_all,
  run_round, reply_round, end_reply_loop, close,
}
use gvisor_tap_vsock.Services.Forwarder.UdpProxy.Table.{
  IsValid, new_udp_proxy-IsValid, track-IsValid, ended-IsValid,
}

-- The rounds of the goroutines, in any order
pub data Step (p : UdpProxy) : UdpProxy → Type 0 where
  receives :
      (dials : Bool) (results : List (Option ℕ)) (key : ConnTrackKey) (from : UdpAddr) (buf : Text)
      → new_conn_track_key from ≡ some key
      → Step p (run_round dials results key from buf p)
  replies :
      (results : List (Option ℕ)) (conn : ℕ) (buf : Text) → Step p (reply_round results conn buf p)
  ends : (conn : ℕ) → Step p (end_reply_loop conn p)
  closes : Step p (close p)

pub data Reach : UdpProxy → Type 0 where
  start : Reach new_udp_proxy
  next : {p p' : UdpProxy} → Reach p → Step p p' → Reach p'

same_maps :
    (p p' : UdpProxy)
    → p'.conn_track_table ≡ p.conn_track_table
    → p'.reply_loops ≡ p.reply_loops
    → p'.next_conn ≡ p.next_conn
    → IsValid p
    → IsValid p'
same_maps p p' t l n v = record {
  has_loop = rw (t, l) v.has_loop;
  is_tracked = rw (t, l) v.is_tracked;
  has_key = rw l v.has_key;
  below = rw (l, n) v.below;
}

Step-IsValid : {p p' : UdpProxy} → Step p p' → IsValid p → IsValid p'
unfolding run_round reply_round end_reply_loop close
Step-IsValid {p} (receives dials results key from buf named) v =
    elim (Option-cases (lookup key p.conn_track_table)) [
      | inl e ↦ elim (Bool-cases dials) [
        | inl d ↦
            rw (e, run_round)
              (rw d (
                same_maps (track key from p) _ refl refl refl (track-IsValid p v key from e named)))
        | inr d ↦ rw (e, run_round) (rw d v)
      ]
      | inr (conn, e) ↦ rw (e, run_round) (same_maps p _ refl refl refl v)
    ]
Step-IsValid {p} (replies results conn buf) v = elim (Option-cases (lookup conn p.reply_loops)) [
  | inl e ↦ rw (e, reply_round) v
  | inr (loop, e) ↦ rw (e, reply_round) (same_maps p _ refl refl refl v)
]
Step-IsValid {p} (ends conn) v = elim (Option-cases (lookup conn p.reply_loops)) [
  | inl e ↦ rw (e, end_reply_loop) v
  | inr ((key, client), e) ↦ rw (e, end_reply_loop) (ended-IsValid p v conn key client e)
]
Step-IsValid {p} closes v = same_maps p _ refl refl refl v

-- After any interleaving of datagrams, replies, ends of reply loops and Close, the table and the
-- running reply loops agree: a connection is tracked for a key exactly if its reply loop runs for
-- that key, the loop replies to an address with that key, and new connections get new numbers.
pub Reach-IsValid : {p : UdpProxy} → Reach p → IsValid p
Reach-IsValid start = new_udp_proxy-IsValid
Reach-IsValid (next r s) = Step-IsValid s (Reach-IsValid r)

append-last : {A : Type 0} (xs : List A) (a b : A) → xs ++ a ∷ [] ≡ xs ++ b ∷ [] → a ≡ b
append-last [] a b e = cc
append-last (x ∷ xs) a b e = append-last xs a b (cc)

append-one : {A : Type 0} (xs : List A) (a : A) → xs ≢ xs ++ a ∷ []
append-one xs a e = let l = ap length e in omega (arith, l, length-append xs (a ∷ []))

module _ (p : UdpProxy) (dials : Bool) (results : List (Option ℕ)) (key : ConnTrackKey)
    (from : UdpAddr) (buf : Text) (conn : ℕ) (sent : Text) where
  -- The connection that a datagram is written to is tracked for its key.
  written_tracked :
      (run_round dials results key from buf p).forwarded ≡ p.forwarded ++ (conn, sent) ∷ []
      → lookup key (run_round dials results key from buf p).conn_track_table ≡ some conn
  unfolding run_round
  written_tracked h = elim (Option-cases (lookup key p.conn_track_table)) [
    | inl e ↦ elim (Bool-cases dials) [
      | inl d ↦
          let last =
            append-last p.forwarded (p.next_conn, write_all results buf) (conn, sent)
              (rw d at (rw (e, run_round) at h)) in
          let same = ap (λ (w : ℕ × Text). w.0) last in
          rw (e, run_round) (rw (d, ← same) (lookup-insert_self key p.next_conn p.conn_track_table))
      | inr d ↦ absurd (append-one p.forwarded (conn, sent) (rw d at (rw (e, run_round) at h)))
    ]
    | inr (c, e) ↦
        let last =
          append-last p.forwarded (c, write_all results buf) (conn, sent)
            (rw (e, run_round) at h) in
        let same = ap (λ (w : ℕ × Text). w.0) last in rw (e, run_round) (rw (← same) e)
  ]

  -- Replies reach the client: after any run of the proxy, if a client's datagram is written to a
  -- connection, then a datagram that is read on the connection is written to an address with the
  -- client's key, as far as the writes succeed.
  pub reply_round-run_round :
      (results' : List (Option ℕ)) (buf' : Text)
      → Reach p
      → new_conn_track_key from ≡ some key
      → (run_round dials results key from buf p).forwarded ≡ p.forwarded ++ (conn, sent) ∷ []
      → (addr : UdpAddr) × (new_conn_track_key addr ≡ some key)
        × ((reply_round results' conn buf' (run_round dials results key from buf p)).replied
            ≡ (run_round dials results key from buf p).replied
              ++ (addr, write_all results' buf') ∷ [])
  unfolding reply_round
  reply_round-run_round results' buf' r named h =
      let v = Step-IsValid (receives dials results key from buf named) (Reach-IsValid r) in
      let (addr, runs) = v.has_loop key conn (written_tracked h) in
      (addr, v.has_key conn key addr runs, rw (runs, reply_round) refl)
