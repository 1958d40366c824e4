-- ===== src/Http/Server.antt =====
-- The HTTP interface of the network: the multiplexers of pkg/virtualnetwork/mux.go and of addServices
-- in services.go, those of the forwarder, the DNS and the DHCP server below them, and the ones of
-- cmd/gvproxy/main.go above.
pub mod Routes
pub mod Guests
pub mod Sorting
pub mod Order
pub mod Served
pub mod Events
use gvisor_tap_vsock.Base.{
  ℕ, Bool, true, false, Option, none, some, List, [], ◌∷◌, ◌++◌, Text, codes, text_eq, nat_eq, ◌==◌,
  if◌then◌else◌, not, GoMap, map,
}
use gvisor_tap_vsock.Tap.IpPool.{IpPool, leases_copy}
use gvisor_tap_vsock.Tap.Switch
use gvisor_tap_vsock.Tap.Switch.{Switch}
use gvisor_tap_vsock.Tap.Switch.Rx.{Incoming, accept}
use gvisor_tap_vsock.Tap.Wiring.{cam_copy}
use gvisor_tap_vsock.Services.Dns
use gvisor_tap_vsock.Services.Dns.{Zone, add_endpoint}
use gvisor_tap_vsock.Services.Forwarder.Ports.{Proxy, PortsEnv, PortsForwarder}
use gvisor_tap_vsock.Services.Forwarder.Endpoints.{
  ExposeRequest, UnexposeRequest, Response, status_ok, bad_request, internal_server_error, aborted,
  less, expose_endpoint, unexpose_endpoint,
}
use gvisor_tap_vsock.Network.Conn.{
  ConnEnv, HijackEnv, Tunnel, server_error, error_after_hijack, relays, tunnel,
}
use gvisor_tap_vsock.Http.{HttpRequest, HttpReply, Handler, http_error, serve_mux, strip_prefix}

-- The state that the handlers share: of a VirtualNetwork, and of the services behind its mux
pub record Network : Type 0 where
  pub forwarder : PortsForwarder
  pub zones : List Zone
  pub pool : IpPool
  pub switch : Switch

-- encoding/json on the types of the interface. A decoder gives none on an error.
pub record Json : Type 0 where
  pub encode_proxies : List Proxy → Text
  pub encode_zones : List Zone → Text
  pub encode_leases : GoMap Text Text → Text
  pub encode_cam : GoMap Text ℕ → Text
  pub encode_stats : ℕ → ℕ → Text
  pub decode_expose : Text → Option ExposeRequest
  pub decode_unexpose : Text → Option UnexposeRequest
  pub decode_zone : Text → Option Zone

-- What the handlers take from outside: the environments of the components, the text of the error
-- that a request meets in a state, and for a request that takes its connection over, how Hijack and
-- the writes behind it go, what then arrives, and for how many rounds.
pub record HttpEnv : Type 0 where
  pub json : Json
  pub ports : PortsEnv
  pub split_host_port : Text → Option (Text × Text)
  pub error_text : HttpRequest → Network → Text
  pub switch_env : Switch.Env
  pub address_string : Text → Text
  pub conn : ConnEnv
  pub hijack : HttpRequest → HijackEnv
  pub incoming : HttpRequest → Incoming
  pub rounds : HttpRequest → ℕ
  pub protocol : Text

abbrev pub replies : Text → Option HttpReply
replies text = some (record { status = 200; text = text })

-- w.WriteHeader(http.StatusOK), or http.Error with the error's text
abbrev pub reply_of : Text → Response → Option HttpReply
reply_of message status_ok = replies []
reply_of message bad_request = http_error 400 message
reply_of message internal_server_error = http_error 500 message
reply_of message aborted = none

-- r.Method == http.MethodPost
abbrev pub is_post : HttpRequest → Bool
is_post req = req.method == codes "POST"

-- for _, proxy := range f.proxies { ret = append(ret, proxy) }
abbrev pub values {ℓ} : {V : Type ℓ} → GoMap Text V → List V
values m = map (λ entry. entry.1) m

-- sort.Slice, on an order that no two elements leave open
unfoldable pub insert_sorted {ℓ} : {A : Type ℓ} → (A → A → Bool) → A → List A → List A
insert_sorted less x [] = x ∷ []
insert_sorted less x (y ∷ ys) =
    let rest = insert_sorted less x ys in if less y x then y ∷ rest else x ∷ y ∷ ys

unfoldable pub sort_slice {ℓ} : {A : Type ℓ} → (A → A → Bool) → List A → List A
unfolding insert_sorted
sort_slice less [] = []
sort_slice less (x ∷ xs) = insert_sorted less x (sort_slice less xs)

module _ (env : HttpEnv) where
  -- /all of the forwarder
  unfoldable pub all : Handler Network
  unfolding sort_slice
  all req n = (replies (env.json.encode_proxies (sort_slice less (values n.forwarder.proxies))), n)

  -- /expose
  unfoldable pub expose_handler : Handler Network
  expose_handler req n =
      let (response, f) =
        expose_endpoint env.ports env.split_host_port (is_post req)
          (env.json.decode_expose req.body) req.remote_addr n.forwarder in
      (reply_of (env.error_text req n) response, record n { forwarder = f })

  -- /unexpose
  unfoldable pub unexpose_handler : Handler Network
  unexpose_handler req n =
      let (response, f) =
        unexpose_endpoint env.ports (is_post req) (env.json.decode_unexpose req.body) n.forwarder in
      (reply_of (env.error_text req n) response, record n { forwarder = f })

  -- PortsForwarder.Mux
  unfoldable pub forwarder_mux : Handler Network
  unfolding all expose_handler unexpose_handler
  forwarder_mux = serve_mux (
      (codes "/all", all)
      ∷ (codes "/expose", expose_handler)
      ∷ (codes "/unexpose", unexpose_handler)
      ∷ [])

  abbrev pub dns_reply : Text → Dns.Status → Option HttpReply
  dns_reply message Dns.status_ok = replies []
  dns_reply message Dns.bad_request = http_error 400 message

  -- /all and /add of the DNS server
  unfoldable pub all_zones : Handler Network
  all_zones req n = (replies (env.json.encode_zones n.zones), n)

  unfoldable pub add_handler : Handler Network
  add_handler req n =
      let (response, zones) = add_endpoint (is_post req) (env.json.decode_zone req.body) n.zones in
      (dns_reply (env.error_text req n) response, record n { zones = zones })

  -- Mux of the DNS server
  unfoldable pub dns_mux : Handler Network
  unfolding all_zones add_handler
  dns_mux = serve_mux ((codes "/all", all_zones) ∷ (codes "/add", add_handler) ∷ [])

  -- /leases, of the DHCP server and of the network
  unfoldable pub leases_handler : Handler Network
  leases_handler req n = (replies (env.json.encode_leases (leases_copy n.pool)), n)

  -- Mux of the DHCP server
  unfoldable pub dhcp_mux : Handler Network
  unfolding leases_handler
  dhcp_mux = serve_mux ((codes "/leases", leases_handler) ∷ [])

  -- The mux of addServices
  unfoldable pub services_mux : Handler Network
  unfolding forwarder_mux dhcp_mux dns_mux
  services_mux = serve_mux (
      (codes "/forwarder/", strip_prefix (codes "/forwarder") forwarder_mux)
      ∷ (codes "/dhcp/", strip_prefix (codes "/dhcp") dhcp_mux)
      ∷ (codes "/dns/", strip_prefix (codes "/dns") dns_mux)
      ∷ [])

  -- /stats, without the counters of gvisor's stack
  unfoldable pub stats_handler : Handler Network
  stats_handler req n = (replies (env.json.encode_stats n.switch.sent n.switch.received), n)

  -- /cam
  unfoldable pub cam_handler : Handler Network
  cam_handler req n =
      (replies (env.json.encode_cam (cam_copy env.address_string n.switch.cam [])), n)

  -- /connect: once the connection is taken over, a failure has no reply any more. Accept changes the
  -- switch; the frames that it hands to the gateway are taken up by the servers of the network, in
  -- goroutines of their own, which `Events` has as events of their own.
  unfoldable pub connect_handler : Handler Network
  connect_handler req n =
      let hijack = env.hijack req in
      if not hijack.hijacker
      then (http_error 500 (codes "webserver doesn't support hijacking"), n)
      else if not hijack.hijacks
      then (http_error 500 (env.error_text req n), n)
      else if not hijack.flushes
      then (none, n)
      else (
        none,
        record n {
          switch =
              (accept env.switch_env env.protocol (env.rounds req) (env.incoming req) n.switch).1;
        },
      )

  abbrev pub tunnel_reply : Text → Tunnel → Option HttpReply
  tunnel_reply message server_error = http_error 500 message
  tunnel_reply message error_after_hijack = none
  tunnel_reply message (relays target) = none

  -- /tunnel
  unfoldable pub tunnel_handler : Handler Network
  tunnel_handler req n = (
    tunnel_reply (env.error_text req n)
        (tunnel env.conn (env.hijack req) (req.query (codes "ip")) (req.query (codes "port"))),
    n,
  )

  -- VirtualNetwork.Mux, with what withProfiler adds to it
  unfoldable pub mux_with : List (Text × Handler Network) → Handler Network
  unfolding services_mux stats_handler cam_handler connect_handler tunnel_handler leases_handler
  mux_with profiler = serve_mux (
      (codes "/services/", strip_prefix (codes "/services") services_mux)
      ∷ (codes "/stats", stats_handler)
      ∷ (codes "/cam", cam_handler)
      ∷ (codes "/leases", leases_handler)
      ∷ (codes "/connect", connect_handler)
      ∷ (codes "/tunnel", tunnel_handler)
      ∷ profiler)

  unfoldable pub mux : Handler Network
  unfolding mux_with
  mux = mux_with []

  -- The handlers of net/http/pprof, which read the program and not the network
  abbrev pub pprof_routes : (HttpRequest → Option HttpReply) → List (Text × Handler Network)
  pprof_routes pprof =
      (codes "/debug/pprof/", λ req n. (pprof req, n))
      ∷ (codes "/debug/pprof/cmdline", λ req n. (pprof req, n))
      ∷ (codes "/debug/pprof/profile", λ req n. (pprof req, n))
      ∷ (codes "/debug/pprof/symbol", λ req n. (pprof req, n))
      ∷ []

  -- withProfiler
  unfoldable pub with_profiler : Bool → (HttpRequest → Option HttpReply) → Handler Network
  unfolding mux_with
  with_profiler debug pprof = mux_with (if debug then pprof_routes pprof else [])

  -- The mux that gvproxy serves to the virtual machines, at port 80 of the gateway
  unfoldable pub gateway_mux : Handler Network
  unfolding mux
  gateway_mux = serve_mux (
      (codes "/services/forwarder/all", mux)
      ∷ (codes "/services/forwarder/expose", mux)
      ∷ (codes "/services/forwarder/unexpose", mux)
      ∷ [])
