-- ===== src/Services/Forwarder/UdpProxy/Table.antt =====
-- The connection table and the reply loops of the proxy agree.
use gvisor_tap_vsock.Base.{
  ℕ, ◌<◌, ◌≡◌, ◌≢◌, ◌⊎◌, inl, inr, arith, none, some, [], ◌∷◌, ◌++◌, nat_eq, ==_iff, lookup, delete,
  lookup-insert, lookup-insert_self, lookup-delete,
}
use gvisor_tap_vsock.Services.Forwarder.UdpProxy.{
  UdpAddr, ConnTrackKey, key_eq, new_conn_track_key, UdpProxy, new_udp_proxy, track,
}

-- The table and the reply loops agree: each tracked connection has a loop for an address with its
-- key, each loop's connection is tracked, and connections that are dialled later have other numbers.
pub record IsValid (p : UdpProxy) : Type 0 where
  pub has_loop :
      (key : ConnTrackKey) (conn : ℕ)
      → lookup key p.conn_track_table ≡ some conn
      → (addr : UdpAddr) × (lookup conn p.reply_loops ≡ some (key, addr))
  pub is_tracked :
      (conn : ℕ) (key : ConnTrackKey) (addr : UdpAddr)
      → lookup conn p.reply_loops ≡ some (key, addr)
      → lookup key p.conn_track_table ≡ some conn
  pub has_key :
      (conn : ℕ) (key : ConnTrackKey) (addr : UdpAddr)
      → lookup conn p.reply_loops ≡ some (key, addr)
      → new_conn_track_key addr ≡ some key
  pub below :
      (conn : ℕ) (key : ConnTrackKey) (addr : UdpAddr)
      → lookup conn p.reply_loops ≡ some (key, addr)
      → conn < p.next_conn

pub new_udp_proxy-IsValid : IsValid new_udp_proxy
unfolding lookup
new_udp_proxy-IsValid = record {
  has_loop = λ key conn e. absurd (cc);
  is_tracked = λ conn key addr e. absurd (cc);
  has_key = λ conn key addr e. absurd (cc);
  below = λ conn key addr e. absurd (cc);
}

module _ (p : UdpProxy) (v : IsValid p) (key : ConnTrackKey) (from : UdpAddr) where
  -- A loop that runs afterwards is the new one, or ran before for another connection.
  track_loops :
      (conn : ℕ) (k : ConnTrackKey) (addr : UdpAddr)
      → lookup conn (track key from p).reply_loops ≡ some (k, addr)
      → ((conn ≡ p.next_conn) × (k ≡ key) × (addr ≡ from))
        ⊎ ((conn ≢ p.next_conn) × (lookup conn p.reply_loops ≡ some (k, addr)))
  track_loops conn k addr e =
      let e' = rw (lookup-insert p.next_conn conn (key, from) p.reply_loops) at e in
      ground (arith, ==_iff p.next_conn conn, e')

  track_table :
      (k : ConnTrackKey) (conn : ℕ)
      → lookup k (track key from p).conn_track_table ≡ some conn
      → ((key ≡ k) × (conn ≡ p.next_conn)) ⊎ ((key ≢ k) × (lookup k p.conn_track_table ≡ some conn))
  track_table k conn e =
      let e' = rw (lookup-insert key k p.next_conn p.conn_track_table) at e in
      ground (arith, ==_iff key k, e')

  pub track-IsValid :
      lookup key p.conn_track_table ≡ none
      → new_conn_track_key from ≡ some key
      → IsValid (track key from p)
  track-IsValid fresh named = record {
    has_loop = λ k conn e. elim (track_table k conn e) [
      | inl (same, c) ↦
          (from, rw (← same, c) (lookup-insert_self p.next_conn (key, from) p.reply_loops))
      | inr (other, old) ↦
          let (addr, h) = v.has_loop k conn old in
          let lt = v.below conn k addr h in
          let loops = lookup-insert p.next_conn conn (key, from) p.reply_loops in
          (addr, ground (arith, loops, lt, h, ==_iff p.next_conn conn))
    ];
    is_tracked = λ conn k addr e. elim (track_loops conn k addr e) [
      | inl (c, same, a) ↦ rw (same, c) (lookup-insert_self key p.next_conn p.conn_track_table)
      | inr (c, old) ↦
          let table = lookup-insert key k p.next_conn p.conn_track_table in
          let before = v.is_tracked conn k addr old in
          ground (arith, table, before, fresh, ==_iff key k)
    ];
    has_key = λ conn k addr e. elim (track_loops conn k addr e) [
      | inl (c, same, a) ↦ rw (same, a) named
      | inr (c, old) ↦ v.has_key conn k addr old
    ];
    below = λ conn k addr e. elim (track_loops conn k addr e) [
      | inl (c, same, a) ↦ omega (arith, c)
      | inr (c, old) ↦ omega (arith, v.below conn k addr old)
    ];
  }

module _ (p : UdpProxy) (v : IsValid p) (conn : ℕ) (key : ConnTrackKey) (client : UdpAddr)
    (runs : lookup conn p.reply_loops ≡ some (key, client)) where
  -- What the loop leaves behind it
  abbrev pub ended : UdpProxy
  ended = record p {
    conn_track_table = delete key p.conn_track_table;
    reply_loops = delete conn p.reply_loops;
    closed = p.closed ++ conn ∷ [];
  }

  ended_table :
      (k : ConnTrackKey) (c : ℕ)
      → lookup k ended.conn_track_table ≡ some c
      → (key ≢ k) × (lookup k p.conn_track_table ≡ some c)
  ended_table k c e =
      let e' = rw (lookup-delete key k p.conn_track_table) at e in ground (arith, ==_iff key k, e')

  ended_loops :
      (k : ConnTrackKey) (c : ℕ) (addr : UdpAddr)
      → lookup c ended.reply_loops ≡ some (k, addr)
      → (conn ≢ c) × (lookup c p.reply_loops ≡ some (k, addr))
  ended_loops k c addr e =
      let e' = rw (lookup-delete conn c p.reply_loops) at e in ground (arith, ==_iff conn c, e')

  pub ended-IsValid : IsValid ended
  ended-IsValid = record {
    has_loop = λ k c e.
        let (other, old) = ended_table k c e in
        let (addr, h) = v.has_loop k c old in
        let table = lookup-delete conn c p.reply_loops in
        (addr, ground (arith, table, h, runs, other, ==_iff conn c));
    is_tracked = λ c k addr e.
        let (other, old) = ended_loops k c addr e in
        let at = v.is_tracked c k addr old in
        let mine = v.is_tracked conn key client runs in
        let table = lookup-delete key k p.conn_track_table in
        ground (arith, table, at, mine, other, ==_iff key k);
    has_key = λ c k addr e. v.has_key c k addr (ended_loops k c addr e).1;
    below = λ c k addr e. v.below c k addr (ended_loops k c addr e).1;
  }
