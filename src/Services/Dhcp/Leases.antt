-- ===== src/Services/Dhcp/Leases.antt =====
-- What clients see of their leases.
use gvisor_tap_vsock.Base.{
  ℕ, ◌≡◌, refl, sym, ap, ◌∙◌, ◌≢◌, ◌⊎◌, inl, inr, arith, Option, none, some, List, [], ◌∷◌, Text,
  text_eq, nat_eq, ==_iff, lookup, Option-cases,
}
use gvisor_tap_vsock.GoNet.{GoNet, Ip, IpNet, HostsAreAddresses}
use gvisor_tap_vsock.Tap.IpPool.{IpPool, get_or_assign}
use gvisor_tap_vsock.Tap.IpPool.Leases.{IsValid}
use gvisor_tap_vsock.Tap.IpPool.Assign.{
  get_or_assign-IsValid, get_or_assign_leases, get_or_assign_held,
}
use gvisor_tap_vsock.Tap.IpPool.History.{assigns, step, base-step, lookup-get_or_assign}
use gvisor_tap_vsock.Services.Dhcp.{
  Configuration, Message, Reply, DhcpLib, answer_type, discover, request, fill, reply_to, handler,
  serve,
}

abbrev address_of : Option Reply → Option Ip
address_of none = none
address_of (some reply) = some reply.your_ip_addr

module _ (net : GoNet) (lib : DhcpLib) (config : Configuration) where
  -- The pool is left as it is, or as GetOrAssign leaves it.
  handler_pool :
      (m : Message) (p : IpPool)
      → ((handler net lib config m p).1 ≡ p)
        ⊎ ((handler net lib config m p).1 ≡ (get_or_assign net p m.client_hw_addr).1)
  unfolding handler
  handler_pool m p = elim (Option-cases (lib.new_reply_from_request m)) [
    | inl e ↦ inl (rw (e, handler) refl)
    | inr (reply, e) ↦ inr (rw (e, handler) refl)
  ]

  reply_to_address :
      (mtype : ℕ) (reply : Reply) (ip : Option Ip) (written : Reply)
      → reply_to net lib config mtype reply ip ≡ some written
      → ip ≡ some written.your_ip_addr
  unfolding reply_to fill
  reply_to_address mtype reply none written e = absurd (cc)
  reply_to_address mtype reply (some ip) written e =
      elim (Option-cases (lib.parse_cidr config.subnet)) [
        | inl c ↦ absurd (cc (rw (c, reply_to) at e))
        | inr (mask, c) ↦ elim (Option-cases (answer_type mtype)) [
          | inl a ↦ absurd (cc (rw (a, reply_to) at (rw (c, reply_to) at e)))
          | inr (t, a) ↦ ap address_of (rw (a, reply_to) at (rw (c, reply_to) at e))
        ]
      ]

  handler_reply :
      (m : Message) (p : IpPool) (written : Reply)
      → (handler net lib config m p).0 ≡ some written
      → ((get_or_assign net p m.client_hw_addr).0 ≡ some written.your_ip_addr)
        × ((handler net lib config m p).1 ≡ (get_or_assign net p m.client_hw_addr).1)
  unfolding handler
  handler_reply m p written h = elim (Option-cases (lib.new_reply_from_request m)) [
    | inl e ↦ absurd (cc (rw (e, handler) at h))
    | inr (reply, e) ↦
        (reply_to_address m.mtype reply _ written (rw (e, handler) at h), rw (e, handler) refl)
  ]

  handler-IsValid :
      (m : Message) (p : IpPool)
      → HostsAreAddresses net p.base
      → IsValid net p
      → IsValid net (handler net lib config m p).1
  handler-IsValid m p hosts v = elim (handler_pool m p) [
    | inl e ↦ rw e v
    | inr e ↦ rw e (get_or_assign-IsValid net p m.client_hw_addr v hosts)
  ]

  base-handler : (m : Message) (p : IpPool) → (handler net lib config m p).1.base ≡ p.base
  unfolding step
  base-handler m p = elim (handler_pool m p) [
    | inl e ↦ rw e refl
    | inr e ↦ rw e (base-step net p (assigns m.client_hw_addr))
  ]

  -- A lease outlasts every message.
  lookup-handler :
      (m : Message) (p : IpPool) (ip mac : Text)
      → HostsAreAddresses net p.base
      → IsValid net p
      → lookup ip p.leases ≡ some mac
      → lookup ip (handler net lib config m p).1.leases ≡ some mac
  lookup-handler m p ip mac hosts v h = elim (handler_pool m p) [
    | inl e ↦ rw e h
    | inr e ↦ rw e (lookup-get_or_assign net p m.client_hw_addr v hosts ip mac h)
  ]

module _ (net : GoNet) (lib : DhcpLib) (config : Configuration) (base : IpNet)
    (hosts : HostsAreAddresses net base) where
  serve_keeps :
      (messages : List Message) (p : IpPool) (ip mac : Text)
      → p.base ≡ base
      → IsValid net p
      → lookup ip p.leases ≡ some mac
      → (IsValid net (serve net lib config messages p))
        × ((serve net lib config messages p).base ≡ base)
        × (lookup ip (serve net lib config messages p).leases ≡ some mac)
  unfolding serve
  serve_keeps [] p ip mac e v h = (v, e, h)
  serve_keeps (m ∷ messages) p ip mac e v h =
      serve_keeps messages (handler net lib config m p).1 ip mac
        (base-handler net lib config m p ∙ e) (handler-IsValid net lib config m p (rw e hosts) v)
        (lookup-handler net lib config m p ip mac (rw e hosts) v h)

  -- What a written reply says is leased from then on.
  replied :
      (m : Message) (p : IpPool) (written : Reply) (messages : List Message)
      → p.base ≡ base
      → IsValid net p
      → (handler net lib config m p).0 ≡ some written
      → (IsValid net (serve net lib config (m ∷ messages) p))
        × ((serve net lib config (m ∷ messages) p).base ≡ base)
        × (lookup
              (net.ip_string written.your_ip_addr)
              (serve net lib config (m ∷ messages) p).leases
            ≡ some m.client_hw_addr)
  unfolding serve
  replied m p written messages e v h =
      let (got, same) = handler_reply net lib config m p written h in
      let leased =
        get_or_assign_leases net p m.client_hw_addr v (rw e hosts) written.your_ip_addr got in
      serve_keeps messages (handler net lib config m p).1 (net.ip_string written.your_ip_addr)
        m.client_hw_addr (base-handler net lib config m p ∙ e)
        (handler-IsValid net lib config m p (rw e hosts) v) (rw same leased.0)

  -- The server keeps its word: a client that has been written a reply is written the same address,
  -- in print, in every later reply, whatever messages were handled in between. The pool is valid at
  -- first, and the hosts of its network print as addresses.
  pub offer_lasts :
      (p : IpPool) (m m' : Message) (messages : List Message) (written written' : Reply)
      → p.base ≡ base
      → IsValid net p
      → (handler net lib config m p).0 ≡ some written
      → (handler net lib config m' (serve net lib config (m ∷ messages) p)).0 ≡ some written'
      → m'.client_hw_addr ≡ m.client_hw_addr
      → net.ip_string written'.your_ip_addr ≡ net.ip_string written.your_ip_addr
  offer_lasts p m m' messages written written' e v h h' same =
      let q = serve net lib config (m ∷ messages) p in
      let (v', e', leased) = replied m p written messages e v h in
      let held =
        get_or_assign_held net q m.client_hw_addr v' (rw e' hosts)
          (net.ip_string written.your_ip_addr) leased in
      let got = (handler_reply net lib config m' q written' h').0 in
      let got' = rw same at got in
      let first = ap (λ (x : Option Ip × IpPool). x.0) held in
      let read : net.parse_ip (net.ip_string written.your_ip_addr) ≡ written'.your_ip_addr =
        cc (got', first) in
      ap net.ip_string (sym read)
      ∙ (v'.addresses (net.ip_string written.your_ip_addr) m.client_hw_addr leased).0

  -- Two clients are never written the same address, whatever messages were handled in between. The
  -- pool is valid at first, and the hosts of its network print as addresses.
  pub offers_differ :
      (p : IpPool) (m m' : Message) (messages : List Message) (written written' : Reply)
      → p.base ≡ base
      → IsValid net p
      → (handler net lib config m p).0 ≡ some written
      → (handler net lib config m' (serve net lib config (m ∷ messages) p)).0 ≡ some written'
      → m'.client_hw_addr ≢ m.client_hw_addr
      → net.ip_string written'.your_ip_addr ≢ net.ip_string written.your_ip_addr
  unfolding serve
  offers_differ p m m' messages written written' e v h h' other same =
      let q = serve net lib config (m ∷ messages) p in
      let (v', e', leased) = replied m p written messages e v h in
      let after =
        lookup-handler net lib config m' q (net.ip_string written.your_ip_addr) m.client_hw_addr
          (rw e' hosts) v' leased in
      let leased' = rw same at (replied m' q written' [] e' v' h').2 in other (cc (after, leased'))

module _ (net : GoNet) (lib : DhcpLib) (config : Configuration) where
  other_type :
      (mtype : ℕ) (reply : Reply) (ip : Option Ip)
      → answer_type mtype ≡ none
      → reply_to net lib config mtype reply ip ≡ none
  unfolding reply_to
  other_type mtype reply none a = refl
  other_type mtype reply (some ip) a = elim (Option-cases (lib.parse_cidr config.subnet)) [
    | inl c ↦ rw (c, reply_to) refl
    | inr (mask, c) ↦ rw (c, reply_to) (rw (a, reply_to) refl)
  ]

  -- A message that is neither a Discover nor a Request, a Release for one, is not answered, but if a
  -- reply could be built for it and the pool has an address for its sender, on a valid pool, the
  -- address is leased to the sender.
  pub handler_silent :
      (m : Message) (p : IpPool) (reply : Reply) (ip : Ip)
      → IsValid net p
      → HostsAreAddresses net p.base
      → m.mtype ≢ discover
      → m.mtype ≢ request
      → lib.new_reply_from_request m ≡ some reply
      → (get_or_assign net p m.client_hw_addr).0 ≡ some ip
      → ((handler net lib config m p).0 ≡ none)
        × (lookup (net.ip_string ip) (handler net lib config m p).1.leases ≡ some m.client_hw_addr)
  unfolding handler
  handler_silent m p reply ip v hosts d r built got =
      let untyped : answer_type m.mtype ≡ none =
        ground (arith, ==_iff m.mtype discover, ==_iff m.mtype request) in
      rw (built, handler)
        (
          other_type m.mtype reply _ untyped,
          (get_or_assign_leases net p m.client_hw_addr v hosts ip got).0,
        )
