-- ===== src/Services/Forwarder/Ports/Exposing.antt =====
-- What Expose and Unexpose do to the proxies.
use gvisor_tap_vsock.Base.{
  ℕ, ◌+◌, ◌≡◌, refl, ◌≢◌, ◌⊎◌, inl, inr, Bool, true, false, [], ◌∷◌, ◌++◌, Text, codes, text_eq,
  nat_eq, ◌==◌, ==_iff, if◌then◌else◌, ◌||◌, lookup, insert, Bool-cases, Option-cases,
}
use gvisor_tap_vsock.Services.Forwarder.Address.{
  tcpip_address, Parsed, invalid, panics as bad_address, address,
}
use gvisor_tap_vsock.Services.Forwarder.Ports.{
  udp, tcp, unix, npipe, Url, Proxy, PortsEnv, PortsForwarder, Error, already_running, no_key,
  no_path, bad_uri, not_implemented, bad_local, unknown_protocol, Result, done, fails, key, start,
  with_address, expose_ssh, expose_socket, expose_udp, expose_tcp, expose_protocol, expose,
  first_value_or_empty,
}

abbrev pub new_proxy : Text → Text → Text → ℕ → Proxy
new_proxy protocol local_address remote_address handle = record {
  local_address = local_address;
  remote_address = remote_address;
  protocol = protocol;
  underlying = handle;
}

-- The forwarder once a proxy has been started and stored.
abbrev pub started : Text → Text → Text → PortsForwarder → PortsForwarder
started protocol local_address remote_address f = record {
  proxies =
      insert (key protocol local_address)
        (new_proxy protocol local_address remote_address f.next_handle) f.proxies;
  open_listeners =
      record { handle = f.next_handle; protocol = protocol; local_address = local_address }
      ∷ f.open_listeners;
  next_handle = f.next_handle + 1;
}

module _ (env : PortsEnv) (protocol local_address remote_address : Text) (f : PortsForwarder) where
  -- The proxy is started and stored, or the forwarder is left as it is.
  abbrev pub StartsOrNot : Result × PortsForwarder → Type 0
  StartsOrNot r =
      ((r ≡ (done, started protocol local_address remote_address f))
        × (env.starts f.open_listeners protocol local_address ≡ true))
      ⊎ ((r.0 ≢ done) × (r.1 ≡ f))

  start_cases : StartsOrNot (start env protocol local_address remote_address f)
  unfolding start
  start_cases = elim (Bool-cases (env.starts f.open_listeners protocol local_address)) [
    | inl e ↦ inl (rw e, e)
    | inr e ↦ inr (rw e (λ d. cc), rw e)
  ]

  not_started : (e : Error) → StartsOrNot (fails e, f)
  not_started e = inr (λ d. cc, refl)

  if_cases :
      (b : Bool) (x y : Result × PortsForwarder)
      → (b ≡ true → StartsOrNot x)
      → (b ≡ false → StartsOrNot y)
      → StartsOrNot (if b then x else y)
  if_cases true x y hx hy = hx refl
  if_cases false x y hx hy = hy refl

  with_address_cases :
      (a : Parsed) (next : Result × PortsForwarder)
      → StartsOrNot next
      → StartsOrNot (with_address a f next)
  with_address_cases invalid next h = inr (λ d. cc, refl)
  with_address_cases bad_address next h = inr (λ d. cc, refl)
  with_address_cases (address a) next h = h

  ssh_cases : (uri : Url) → StartsOrNot (expose_ssh env protocol local_address remote_address uri f)
  unfolding expose_ssh
  ssh_cases uri =
      if_cases (first_value_or_empty (uri.query (codes "key")) == []) _ _ (λ e. not_started no_key)
        (λ e.
          if_cases (uri.path == [] || uri.path == b'/' ∷ []) _ _ (λ e. not_started no_path)
            (λ e. start_cases))

  expose_socket_cases : StartsOrNot (expose_socket env protocol local_address remote_address f)
  unfolding expose_socket
  expose_socket_cases = elim (Option-cases (env.parse_url remote_address)) [
    | inl e ↦ rw (e, expose_socket) (not_started bad_uri)
    | inr (uri, e) ↦
        rw (e, expose_socket)
          (if_cases (uri.scheme == codes "ssh-tunnel") _ _ (λ e. ssh_cases uri)
            (λ e.
              if_cases (uri.scheme == codes "tcp") _ _
                (λ e.
                  with_address_cases
                    (tcpip_address env.parse_ip4 1 (uri.hostname ++ b':' ∷ uri.port)) _ start_cases)
                (λ e. not_started not_implemented)))
  ]

module _ (env : PortsEnv) (local_address remote_address : Text) (f : PortsForwarder) where
  expose_udp_cases :
      StartsOrNot env udp local_address remote_address f
        (expose_udp env local_address remote_address f)
  unfolding expose_udp
  expose_udp_cases =
      with_address_cases env udp local_address remote_address f
        (tcpip_address env.parse_ip4 1 remote_address) _
        (if_cases env udp local_address remote_address f (env.resolves_udp local_address) _ _
          (λ e. start_cases env udp local_address remote_address f)
          (λ e. not_started env udp local_address remote_address f bad_local))

  expose_tcp_cases :
      StartsOrNot env tcp local_address remote_address f
        (expose_tcp env local_address remote_address f)
  unfolding expose_tcp
  expose_tcp_cases =
      with_address_cases env tcp local_address remote_address f
        (tcpip_address env.parse_ip4 1 remote_address) _
        (start_cases env tcp local_address remote_address f)

module _ (env : PortsEnv) (protocol local_address remote_address : Text) (f : PortsForwarder) where
  expose_protocol_cases :
      StartsOrNot env protocol local_address remote_address f
        (expose_protocol env protocol local_address remote_address f)
  unfolding expose_protocol
  expose_protocol_cases =
      if_cases env protocol local_address remote_address f (protocol == unix || protocol == npipe) _
        _ (λ e. expose_socket_cases env protocol local_address remote_address f)
        (λ e.
          if_cases env protocol local_address remote_address f (protocol == udp) _ _
            (λ e.
              rw ((==_iff protocol udp).0 e) (expose_udp_cases env local_address remote_address f))
            (λ e.
              if_cases env protocol local_address remote_address f (protocol == tcp) _ _
                (λ e.
                  rw ((==_iff protocol tcp).0 e)
                    (expose_tcp_cases env local_address remote_address f))
                (λ e. not_started env protocol local_address remote_address f unknown_protocol)))

  -- Expose either starts one listener and stores one proxy for it under the key of its protocol and
  -- local address, or it fails or panics and changes nothing, on every one of its paths.
  pub expose_lem :
      StartsOrNot env protocol local_address remote_address f
        (expose env protocol local_address remote_address f)
  unfolding expose
  expose_lem = elim (Option-cases (lookup local_address f.proxies)) [
    | inl e ↦ rw (e, expose) expose_protocol_cases
    | inr (proxy, e) ↦
        rw (e, expose) (not_started env protocol local_address remote_address f already_running)
  ]
