-- ===== src/Network/New/Created.antt =====
-- What New has made when it returns, and what it leaves when it fails.
use mathlib.Core.Path.{subst}
use gvisor_tap_vsock.Base.{
  ◌≡◌, refl, sym, ap, ◌∙◌, ◌≢◌, Bool, true, false, Option, none, some, List, [], ◌∷◌, ◌++◌,
  append_assoc, Text, text_eq, nat_eq, ◌==◌, if◌then◌else◌, GoMap, lookup, All,
}
use gvisor_tap_vsock.GoNet.{IpNet}
use gvisor_tap_vsock.Gvproxy.Config.{Configuration}
use gvisor_tap_vsock.Tap.Switch.{new_switch}
use gvisor_tap_vsock.Services.Forwarder.Ports.{
  PortsForwarder, Result, done, panics as expose_panics, fails as expose_fails,
}
use gvisor_tap_vsock.Services.Forwarder.Ports.Handles.{IsValid}
use gvisor_tap_vsock.Services.Forwarder.Gateway.{parse_nat_table}
use gvisor_tap_vsock.Network.{forward_host_vm}
use gvisor_tap_vsock.Network.Forwards.{forward_key, forward_host_vm_lem}
use gvisor_tap_vsock.Network.Pool.{new_pool}
use gvisor_tap_vsock.Network.Pool.Leases.{Fresh, configured, new_pool_leases}
use gvisor_tap_vsock.Network.New.{
  NewEnv, Fault, bad_subnet, bad_link, Held, capture, dns_udp, dns_tcp, dhcp_socket, serves_dns_udp,
  serves_dns_tcp, serves_dhcp, made, fails, panics, Making, ◌>>=◌, holds_if, or_fails, or_panics,
  create_stack, dns_server, dhcp_server, forwarding, add_services, pool_configuration, open_capture,
  new, tap_endpoint,
}
use gvisor_tap_vsock.Http.Server.{Network}

-- The steps are those of the plan, or the first of them if there is no result.
abbrev pub Follows : {A : Type 0} → Making A → List Held → Type 0
Follows (made a, held) plan = held ≡ plan
Follows (fails e, held) plan = (rest : List Held) × (held ++ rest ≡ plan)
Follows (panics, held) plan = (rest : List Held) × (held ++ rest ≡ plan)

-- What holds of a result, if there is one
abbrev Ensures : {A : Type 0} → (A → Type 0) → Making A → Type 0
Ensures P (made a, held) = P a
Ensures P (fails e, held) = Unit
Ensures P (panics, held) = Unit

module _ {A B : Type 0} where
  bind-Follows :
      (m : Making A) (k : A → Making B) (xs ys : List Held)
      → Follows m xs
      → ((a : A) → Follows (k a) ys)
      → Follows (m >>= k) (xs ++ ys)
  bind-Follows (made a, held) k xs ys h later = go (k a) (later a)
    where
      go : (r : Making B) → Follows r ys → Follows (r.0, held ++ r.1) (xs ++ ys)
      go (made b, held') h' = rw (h, h') refl
      go (fails e, held') (rest, h') = (rest, append_assoc held held' rest ∙ rw (h, h') refl)
      go (panics, held') (rest, h') = (rest, append_assoc held held' rest ∙ rw (h, h') refl)
  bind-Follows (fails e, held) k xs ys (rest, h) later =
      (rest ++ ys, sym (append_assoc held rest ys) ∙ ap (λ (t : List Held). t ++ ys) h)
  bind-Follows (panics, held) k xs ys (rest, h) later =
      (rest ++ ys, sym (append_assoc held rest ys) ∙ ap (λ (t : List Held). t ++ ys) h)

  bind-Ensures :
      (P : B → Type 0) (m : Making A) (k : A → Making B)
      → ((a : A) → m.0 ≡ made a → Ensures P (k a))
      → Ensures P (m >>= k)
  bind-Ensures P (made a, held) k later = go (k a) (later a refl)
    where
      go : (r : Making B) → Ensures P r → Ensures P (r.0, held ++ r.1)
      go (made b, held') h = h
      go (fails e, held') h = tt
      go (panics, held') h = tt
  bind-Ensures P (fails e, held) k later = tt
  bind-Ensures P (panics, held) k later = tt

Ensures-made :
    {A : Type 0} (P : A → Type 0) (m : Making A) (a : A) → Ensures P m → m.0 ≡ made a → P a
Ensures-made P (made b, held) a h e = let same : b ≡ a = cc e in subst P same h
Ensures-made P (fails f, held) a h e = absurd (cc)
Ensures-made P (panics, held) a h e = absurd (cc)

holds_if-Follows : (ok : Bool) (e : Fault) (held : List Held) → Follows (holds_if ok e held) held
holds_if-Follows true e held = refl
holds_if-Follows false e held = (held, refl)

or_fails-Follows : {A : Type 0} (o : Option A) (e : Fault) → Follows (or_fails o e) []
or_fails-Follows none e = ([], refl)
or_fails-Follows (some a) e = refl

or_panics-Follows : {A : Type 0} (o : Option A) → Follows (or_panics o) []
or_panics-Follows none = ([], refl)
or_panics-Follows (some a) = refl

forwarding-Follows : (r : Result × PortsForwarder) → Follows (forwarding r) []
forwarding-Follows (done, f) = refl
forwarding-Follows (expose_fails e, f) = ([], refl)
forwarding-Follows (expose_panics, f) = ([], refl)

abbrev pub capture_plan : Text → List Held
capture_plan file = if file == [] then [] else capture file ∷ []

-- What New opens and starts, in order
abbrev pub plan : Configuration → List Held
plan c =
    capture_plan c.capture_file
    ++ (dns_udp ∷ dns_tcp ∷ serves_dns_udp ∷ serves_dns_tcp ∷ dhcp_socket ∷ serves_dhcp ∷ [])

module _ (env : NewEnv) (c : Configuration) where
  create_stack-Follows : Follows (create_stack env c) []
  unfolding create_stack
  create_stack-Follows = bind-Follows _ _ [] [] (holds_if-Follows env.creates_nic _ []) λ _.
      bind-Follows _ _ [] [] (or_panics-Follows (env.parse_ip4 c.gateway_ip)) λ address.
        bind-Follows _ _ [] [] (holds_if-Follows (env.adds_address address) _ []) λ _.
          bind-Follows _ _ [] [] (or_fails-Follows (env.parse_cidr c.subnet) _)
            λ subnet. holds_if-Follows (env.new_subnet subnet) _ []

  dns_server-Follows :
      Follows (dns_server env c) (dns_udp ∷ dns_tcp ∷ serves_dns_udp ∷ serves_dns_tcp ∷ [])
  unfolding dns_server
  dns_server-Follows =
      bind-Follows _ _ [] _ (or_panics-Follows (env.parse_ip4 c.gateway_ip)) λ address.
        bind-Follows _ _ (dns_udp ∷ []) _ (holds_if-Follows (env.dials_udp address) _ _) λ _.
          bind-Follows _ _ (dns_tcp ∷ []) _ (holds_if-Follows (env.listens_tcp address) _ _)
            λ _. refl

  dhcp_server-Follows : Follows (dhcp_server env) (dhcp_socket ∷ serves_dhcp ∷ [])
  unfolding dhcp_server
  dhcp_server-Follows = bind-Follows _ _ [] _ (holds_if-Follows env.new_endpoint _ []) λ _.
      bind-Follows _ _ (dhcp_socket ∷ []) _ (holds_if-Follows env.binds _ _)
        λ _. holds_if-Follows env.new_dhcp_server _ _

  add_services-Follows :
      Follows
        (add_services env c)
        (dns_udp ∷ dns_tcp ∷ serves_dns_udp ∷ serves_dns_tcp ∷ dhcp_socket ∷ serves_dhcp ∷ [])
  unfolding add_services
  add_services-Follows =
      bind-Follows _ _ [] _ (or_panics-Follows (parse_nat_table env.parse_ip4 c.nat)) λ nat.
        bind-Follows _ _ (dns_udp ∷ dns_tcp ∷ serves_dns_udp ∷ serves_dns_tcp ∷ []) _
          dns_server-Follows
          λ _. bind-Follows _ _ (dhcp_socket ∷ serves_dhcp ∷ []) [] dhcp_server-Follows λ _.
            bind-Follows _ _ [] [] (forwarding-Follows (forward_host_vm env.ports c.forwards))
              λ f. refl

  open_capture-Follows : (file : Text) → Follows (open_capture env file) (capture_plan file)
  unfolding open_capture
  open_capture-Follows [] = refl
  open_capture-Follows (ch ∷ file) =
      bind-Follows _ _ (capture (ch ∷ file) ∷ []) []
        (holds_if-Follows (env.creates_file (ch ∷ file)) _ _) λ _. holds_if-Follows env.sniffs _ []

  -- New opens and starts what it needs in one order: the capture file if there is one, the two
  -- sockets of the DNS server, its two servers, then the socket of the DHCP server and its server.
  -- If it returns a network, all of this is open and runs; if it fails or panics, the first of it.
  pub new-Follows : Follows (new env c) (plan c)
  unfolding new
  new-Follows = bind-Follows _ _ [] _ (or_fails-Follows (env.parse_cidr c.subnet) _) λ subnet.
      bind-Follows _ _ [] _ (or_fails-Follows _ _) λ endpoint.
        bind-Follows _ _ (capture_plan c.capture_file) _ (open_capture-Follows c.capture_file) λ _.
          bind-Follows _ _ [] _ create_stack-Follows λ _.
            bind-Follows _ _
              (dns_udp ∷ dns_tcp ∷ serves_dns_udp ∷ serves_dns_tcp ∷ dhcp_socket ∷ serves_dhcp ∷ [])
              [] add_services-Follows λ services. refl

or_fails-made :
    {A : Type 0} (o : Option A) (e : Fault) (a : A) → (or_fails o e).0 ≡ made a → o ≡ some a
or_fails-made none e a h = absurd (cc)
or_fails-made (some b) e a h = cc h

or_panics-made : {A : Type 0} (o : Option A) (a : A) → (or_panics o).0 ≡ made a → o ≡ some a
or_panics-made none a h = absurd (cc)
or_panics-made (some b) a h = cc h

forwarding-made :
    (r : Result × PortsForwarder) (f : PortsForwarder) → (forwarding r).0 ≡ made f → r ≡ (done, f)
forwarding-made (done, g) f h =
    let same : g ≡ f = cc h in ap (λ (x : PortsForwarder). (done, x)) same
forwarding-made (expose_fails e, g) f h = absurd (cc)
forwarding-made (expose_panics, g) f h = absurd (cc)

-- The parts of a network that New returns: the pool is of the subnet and leases the gateway and the
-- static leases their addresses, the DNS server has the configured zones, the switch is new, the table
-- of translations is what parseNATTable reads, and every configured forward is listed by a valid
-- forwarder.
pub record IsNew (env : NewEnv) (c : Configuration) (n : Network) (nat : GoMap Text Text)
    : Type 0 where
  pub subnet : IpNet
  pub parsed : env.parse_cidr c.subnet ≡ some subnet
  pub pool : n.pool ≡ new_pool env.net (pool_configuration c) subnet
  pub base : n.pool.base ≡ subnet
  pub leased :
      All (λ lease. lookup lease.0 n.pool.leases ≡ some lease.1) (configured (pool_configuration c))
  pub zones : n.zones ≡ c.dns
  pub switch : n.switch ≡ new_switch
  pub translations : parse_nat_table env.parse_ip4 c.nat ≡ some nat
  pub valid : IsValid n.forwarder
  pub forwarded :
      All (λ forward. lookup (forward_key forward.0) n.forwarder.proxies ≢ none) c.forwards

module _ (env : NewEnv) (c : Configuration) where
  abbrev Serves : PortsForwarder × GoMap Text Text → Type 0
  Serves services =
      (parse_nat_table env.parse_ip4 c.nat ≡ some services.1)
      × (forward_host_vm env.ports c.forwards ≡ (done, services.0))

  add_services-Serves : Ensures Serves (add_services env c)
  unfolding add_services
  add_services-Serves =
      bind-Ensures Serves (or_panics (parse_nat_table env.parse_ip4 c.nat)) _ λ nat parsed.
        bind-Ensures Serves (dns_server env c) _ λ _ _.
          bind-Ensures Serves (dhcp_server env) _ λ _ _.
            bind-Ensures Serves (forwarding (forward_host_vm env.ports c.forwards)) _ λ f forwarded.
              let served : Serves (f, nat) =
                (or_panics-made _ nat parsed, forwarding-made _ f forwarded) in
              served

module _ (env : NewEnv) (c : Configuration)
    (fresh : Fresh env.net (configured (pool_configuration c)) []) where
  abbrev Creates : Network × GoMap Text Text → Type 0
  Creates created = IsNew env c created.0 created.1

  abbrev created : IpNet → PortsForwarder × GoMap Text Text → Network × GoMap Text Text
  created subnet services = (
    record {
      forwarder = services.0;
      zones = c.dns;
      pool = new_pool env.net (pool_configuration c) subnet;
      switch = new_switch;
    },
    services.1,
  )

  created-Creates :
      (subnet : IpNet) (services : PortsForwarder × GoMap Text Text)
      → env.parse_cidr c.subnet ≡ some subnet
      → Serves env c services
      → Creates (created subnet services)
  created-Creates subnet services parsed (translations, forwarded) =
      let started =
        forward_host_vm_lem env.ports c.forwards
          (ap (λ (r : Result × PortsForwarder). r.0) forwarded) in
      let (base, leased) = new_pool_leases env.net subnet (pool_configuration c) fresh in
      let f_eq = ap (λ (r : Result × PortsForwarder). r.1) forwarded in
      record {
        subnet = subnet;
        parsed = parsed;
        pool = refl;
        base = base;
        leased = leased;
        zones = refl;
        switch = refl;
        translations = translations;
        valid = subst IsValid f_eq started.1;
        forwarded =
            subst
              (λ (f : PortsForwarder).
                All (λ forward. lookup (forward_key forward.0) f.proxies ≢ none) c.forwards)
              f_eq started.0;
      }

  new-Creates : Ensures Creates (new env c)
  unfolding new
  new-Creates =
      bind-Ensures Creates (or_fails (env.parse_cidr c.subnet) bad_subnet) _ λ subnet parsed.
        bind-Ensures Creates (or_fails (tap_endpoint env c) bad_link) _ λ _ _.
          bind-Ensures Creates (open_capture env c.capture_file) _ λ _ _.
            bind-Ensures Creates (create_stack env c) _ λ _ _.
              bind-Ensures Creates (add_services env c) _ λ services added.
                created-Creates subnet services (or_fails-made _ _ subnet parsed) (
                  Ensures-made (Serves env c) (add_services env c) services
                    (add_services-Serves env c) added)

  -- A network that New returns is what the configuration says, whatever else happens: its pool is of
  -- the subnet of the configuration and leases the address of the gateway to the MAC address of the
  -- gateway and each static lease's to the one configured for it, if no address and no MAC address
  -- stands twice among them and they print as addresses; its DNS server has the configured zones, its
  -- switch is new, its table of translations is what parseNATTable reads, and all of the configured
  -- forwards are listed by its forwarder, whose proxies hold open listeners of their own.
  pub new-IsNew :
      (n : Network) (nat : GoMap Text Text) → (new env c).0 ≡ made (n, nat) → IsNew env c n nat
  new-IsNew n nat h = Ensures-made Creates (new env c) (n, nat) new-Creates h
