-- ===== src/Http/Server/Served.antt =====
-- What one request to the interface keeps, whatever it asks for.
use mathlib.Core.List.{map-append}
use gvisor_tap_vsock.Base.{
  ◌≡◌, refl, sym, ap, ◌∙◌, inl, inr, Bool, true, false, Option, none, some, List, [], ◌∷◌, ◌++◌,
  append_assoc, append-nil, Text, text_eq, nat_eq, if◌then◌else◌, not, length, ltb, All, Bool-cases,
  Option-cases, cut_prefix,
}
use gvisor_tap_vsock.Services.Dns.{Zone, add_endpoint}
use gvisor_tap_vsock.Services.Dns.Zones.{zone_named, names, names-add_zone}
use gvisor_tap_vsock.Services.Forwarder.Ports.Handles.{IsValid, expose-IsValid, unexpose-IsValid}
use gvisor_tap_vsock.Services.Forwarder.Endpoints.{
  ExposeRequest, UnexposeRequest, default_protocol, remote_of, expose_endpoint, unexpose_endpoint,
}
use gvisor_tap_vsock.Http.{
  HttpRequest, HttpReply, Handler, fits, longer, route, serve_mux, strip_prefix,
}
use gvisor_tap_vsock.Http.Server.{
  Network, HttpEnv, is_post, all, expose_handler, unexpose_handler, forwarder_mux, all_zones,
  add_handler, dns_mux, leases_handler, dhcp_mux, services_mux, stats_handler, cam_handler,
  connect_handler, tunnel_handler, mux_with, mux, with_profiler, gateway_mux,
}

module _ {S : Type 0} (P : S → Type 0) where
  abbrev pub Keeps : Handler S → Type 0
  Keeps h = (req : HttpRequest) (s : S) → P s → P (h req s).1

  longer-Keeps :
      (pattern : Text) (h : Handler S) (found : Option (Text × Handler S))
      → Keeps h
      → ((r : Text × Handler S) → found ≡ some r → Keeps r.1)
      → Keeps (longer (pattern, h) found).1
  longer-Keeps pattern h none k f = k
  longer-Keeps pattern h (some (other, h')) k f =
      elim (Bool-cases (ltb (length pattern) (length other))) [
        | inl e ↦ λ req s p. rw e (f (other, h') refl req s p)
        | inr e ↦ λ req s p. rw e (k req s p)
      ]

  route-Keeps :
      (routes : List (Text × Handler S)) (path : Text) (r : Text × Handler S)
      → All (λ entry. Keeps entry.1) routes
      → route routes path ≡ some r
      → Keeps r.1
  unfolding route
  route-Keeps [] path r k e = absurd (cc)
  route-Keeps ((pattern, h) ∷ routes) path r k e = elim (Bool-cases (fits pattern path)) [
    | inl f ↦
        let e' : some (longer (pattern, h) (route routes path)) ≡ some r = rw f at e in
        let chosen : longer (pattern, h) (route routes path) ≡ r = cc e' in
        λ req s p. rw (← chosen) (
          longer-Keeps pattern h (route routes path) k.0
            (λ r' e''. route-Keeps routes path r' k.1 e'') req s p)
    | inr f ↦ route-Keeps routes path r k.1 (rw f at e)
  ]

  -- A multiplexer keeps what its handlers keep.
  pub serve_mux-Keeps :
      (routes : List (Text × Handler S))
      → All (λ entry. Keeps entry.1) routes
      → Keeps (serve_mux routes)
  unfolding serve_mux
  serve_mux-Keeps routes k req s p = elim (Option-cases (route routes req.path)) [
    | inl e ↦ rw (e, serve_mux) p
    | inr (r, e) ↦ rw (e, serve_mux) (route-Keeps routes req.path r k e req s p)
  ]

  pub strip_prefix-Keeps : (prefix : Text) (h : Handler S) → Keeps h → Keeps (strip_prefix prefix h)
  unfolding strip_prefix
  strip_prefix-Keeps prefix h k req s p = elim (Option-cases (cut_prefix req.path prefix)) [
    | inl e ↦ rw (e, strip_prefix) p
    | inr (rest, e) ↦ rw (e, strip_prefix) (k (record req { path = rest }) s p)
  ]

names-add_endpoint :
    (post : Bool) (body : Option Zone) (zones : List Zone)
    → (more : List Text) × (names (add_endpoint post body zones).1 ≡ names zones ++ more)
unfolding add_endpoint
names-add_endpoint false body zones = ([], sym (append-nil (names zones)))
names-add_endpoint true none zones = ([], sym (append-nil (names zones)))
names-add_endpoint true (some req) zones = elim (Option-cases (zone_named req.name zones)) [
  | inl new ↦ (
    req.name ∷ [],
    ap names ((names-add_zone req zones).1 new)
        ∙ map-append (λ (z : Zone). z.name) zones (req ∷ []),
  )
  | inr (z, known) ↦
      ([], (names-add_zone req zones).0 (λ e. cc (e, known)) ∙ sym (append-nil (names zones)))
]

-- The forwarder is valid, the leases are those of the start, and no zone of it is gone or has moved.
-- This is of the handler itself: what the machines make the servers of the network do meanwhile is an
-- event of its own in `Events`.
pub record Sound (start n : Network) : Type 0 where
  pub valid : IsValid n.forwarder
  pub leases : n.pool ≡ start.pool
  pub named : (more : List Text) × (names n.zones ≡ names start.zones ++ more)

module _ (env : HttpEnv) (start : Network) where
  expose_handler-Keeps : Keeps (Sound start) (expose_handler env)
  unfolding expose_handler expose_endpoint
  expose_handler-Keeps req n s = record {
    valid = go (is_post req) (env.json.decode_expose req.body);
    leases = s.leases;
    named = s.named;
  }
    where
      go :
          (post : Bool) (body : Option ExposeRequest)
          → IsValid
              (expose_endpoint env.ports env.split_host_port post body req.remote_addr
                n.forwarder).1
      go false body = s.valid
      go true none = s.valid
      go true (some asked) =
          elim (Option-cases (remote_of env.split_host_port asked req.remote_addr)) [
            | inl e ↦ rw (e, expose_endpoint) s.valid
            | inr (remote_address, e) ↦
                rw (e, expose_endpoint)
                  (expose-IsValid env.ports (default_protocol asked.protocol) asked.local_address
                    remote_address n.forwarder s.valid)
          ]

  unexpose_handler-Keeps : Keeps (Sound start) (unexpose_handler env)
  unfolding unexpose_handler unexpose_endpoint
  unexpose_handler-Keeps req n s = record {
    valid = go (is_post req) (env.json.decode_unexpose req.body);
    leases = s.leases;
    named = s.named;
  }
    where
      go :
          (post : Bool) (body : Option UnexposeRequest)
          → IsValid (unexpose_endpoint env.ports post body n.forwarder).1
      go false body = s.valid
      go true none = s.valid
      go true (some asked) =
          unexpose-IsValid env.ports (default_protocol asked.protocol) asked.local_address
            n.forwarder s.valid

  add_handler-Keeps : Keeps (Sound start) (add_handler env)
  unfolding add_handler
  add_handler-Keeps req n s =
      let (more, e) = s.named in
      let (added, e') = names-add_endpoint (is_post req) (env.json.decode_zone req.body) n.zones in
      record {
        valid = s.valid;
        leases = s.leases;
        named = (
          more ++ added,
          e' ∙ ap (λ (t : List Text). t ++ added) e ∙ append_assoc (names start.zones) more added,
        );
      }

  if_Sound :
      (b : Bool) (x y : Option HttpReply × Network)
      → Sound start x.1
      → Sound start y.1
      → Sound start (if b then x else y).1
  if_Sound true x y hx hy = hx
  if_Sound false x y hx hy = hy

  connect_handler-Keeps : Keeps (Sound start) (connect_handler env)
  unfolding connect_handler
  connect_handler-Keeps req n s = if_Sound (not (env.hijack req).hijacker) _ _ s (
      if_Sound (not (env.hijack req).hijacks) _ _ s (
        if_Sound (not (env.hijack req).flushes) _ _ s
          (record { valid = s.valid; leases = s.leases; named = s.named })))

  forwarder_mux-Keeps : Keeps (Sound start) (forwarder_mux env)
  unfolding forwarder_mux all
  forwarder_mux-Keeps =
      serve_mux-Keeps (Sound start) _
        (λ req n s. s, (expose_handler-Keeps, (unexpose_handler-Keeps, tt)))

  dns_mux-Keeps : Keeps (Sound start) (dns_mux env)
  unfolding dns_mux all_zones
  dns_mux-Keeps = serve_mux-Keeps (Sound start) _ (λ req n s. s, (add_handler-Keeps, tt))

  dhcp_mux-Keeps : Keeps (Sound start) (dhcp_mux env)
  unfolding dhcp_mux leases_handler
  dhcp_mux-Keeps = serve_mux-Keeps (Sound start) _ (λ req n s. s, tt)

  services_mux-Keeps : Keeps (Sound start) (services_mux env)
  unfolding services_mux
  services_mux-Keeps = serve_mux-Keeps (Sound start) _ (
    strip_prefix-Keeps (Sound start) _ (forwarder_mux env) forwarder_mux-Keeps,
    (
      strip_prefix-Keeps (Sound start) _ (dhcp_mux env) dhcp_mux-Keeps,
      (strip_prefix-Keeps (Sound start) _ (dns_mux env) dns_mux-Keeps, tt),
    ),
  )

  mux_with-Keeps :
      (profiler : List (Text × Handler Network))
      → All (λ entry. Keeps (Sound start) entry.1) profiler
      → Keeps (Sound start) (mux_with env profiler)
  unfolding mux_with stats_handler cam_handler leases_handler tunnel_handler
  mux_with-Keeps profiler k = serve_mux-Keeps (Sound start) _ (
    strip_prefix-Keeps (Sound start) _ (services_mux env) services_mux-Keeps,
    (λ req n s. s, (λ req n s. s, (λ req n s. s, (connect_handler-Keeps, (λ req n s. s, k))))),
  )

  pub with_profiler-Keeps :
      (debug : Bool) (pprof : HttpRequest → Option HttpReply)
      → Keeps (Sound start) (with_profiler env debug pprof)
  unfolding with_profiler
  with_profiler-Keeps true pprof =
      mux_with-Keeps _ (λ req n s. s, (λ req n s. s, (λ req n s. s, (λ req n s. s, tt))))
  with_profiler-Keeps false pprof = mux_with-Keeps [] tt

  pub gateway_mux-Keeps : Keeps (Sound start) (gateway_mux env)
  unfolding gateway_mux mux
  gateway_mux-Keeps =
      let served = mux_with-Keeps [] tt in
      serve_mux-Keeps (Sound start) _ (served, (served, (served, tt)))
