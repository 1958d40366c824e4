-- ===== src/Services/Forwarder/Endpoints.antt =====
-- The HTTP endpoints of Mux in pkg/services/forwarder/ports.go: /all, /expose and /unexpose. A panic
-- in a handler is caught by net/http, which aborts the request.
pub mod Requests
pub mod Listing
mod Tests
use gvisor_tap_vsock.Base.{
  ℕ, Bool, true, false, Option, none, some, List, [], ◌∷◌, ◌++◌, Text, text_eq, nat_eq, ◌==◌,
  if◌then◌else◌, ◌||◌, ltb, GoMap,
}
use gvisor_tap_vsock.Services.Forwarder.Ports.{
  tcp, unix, npipe, Proxy, PortsEnv, PortsForwarder, Result, done, fails, panics, expose, unexpose,
}

-- types.ExposeRequest and types.UnexposeRequest, as the JSON decoder reads them
pub record ExposeRequest : Type 0 where
  pub local_address : Text
  pub remote_address : Text
  pub protocol : Text

pub record UnexposeRequest : Type 0 where
  pub local_address : Text
  pub protocol : Text

-- The statuses 200, 400 and 500, and an aborted request
pub data Response : Type 0 where
  status_ok bad_request internal_server_error aborted : Response

-- if req.Protocol == "" { req.Protocol = types.TCP }
abbrev pub default_protocol : Text → Text
default_protocol [] = tcp
default_protocol (c ∷ protocol) = c ∷ protocol

-- remote, given net.SplitHostPort, none on an error
unfoldable pub remote : (Text → Option (Text × Text)) → Text → Text → Option Text
remote split_host_port remote_address ip = elim (split_host_port remote_address) [
  | none ↦ none
  | some ([], port) ↦ elim (split_host_port ip) [
    | none ↦ none
    | some (host, _) ↦ some (host ++ remote_address)
  ]
  | some (c ∷ host, port) ↦ some remote_address
]

-- The remote address that /expose passes on
unfoldable pub remote_of : (Text → Option (Text × Text)) → ExposeRequest → Text → Option Text
unfolding remote
remote_of split_host_port req ip =
    let protocol = default_protocol req.protocol in
    if protocol == unix || protocol == npipe
    then some req.remote_address
    else remote split_host_port req.remote_address ip

abbrev pub status_of : Result → Response
status_of done = status_ok
status_of (fails e) = internal_server_error
status_of panics = aborted

-- /expose: whether the method is POST, the body, none if it does not decode, and r.RemoteAddr
unfoldable pub expose_endpoint :
    PortsEnv
    → (Text → Option (Text × Text))
    → Bool
    → Option ExposeRequest
    → Text
    → PortsForwarder
    → Response × PortsForwarder
expose_endpoint env split_host_port false body ip f = (bad_request, f)
expose_endpoint env split_host_port true none ip f = (bad_request, f)
expose_endpoint env split_host_port true (some req) ip f = elim (remote_of split_host_port req ip) [
  | none ↦ (bad_request, f)
  | some remote_address ↦
      let (result, f') =
        expose env (default_protocol req.protocol) req.local_address remote_address f in
      (status_of result, f')
]

-- /unexpose
unfoldable pub unexpose_endpoint :
    PortsEnv → Bool → Option UnexposeRequest → PortsForwarder → Response × PortsForwarder
unexpose_endpoint env false body f = (bad_request, f)
unexpose_endpoint env true none f = (bad_request, f)
unexpose_endpoint env true (some req) f =
    let (result, f') = unexpose env (default_protocol req.protocol) req.local_address f in
    (status_of result, f')

-- The order of strings
unfoldable pub text_less : Text → Text → Bool
text_less s [] = false
text_less [] (d ∷ t) = true
text_less (c ∷ s) (d ∷ t) =
    let rest = text_less s t in if ltb c d then true else if c == d then rest else false

-- The function that /all gives to sort.Slice
unfoldable pub less : Proxy → Proxy → Bool
unfolding text_less
less p q =
    if p.local_address == q.local_address
    then text_less p.protocol q.protocol
    else text_less p.local_address q.local_address
