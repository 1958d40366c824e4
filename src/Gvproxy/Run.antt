-- ===== src/Gvproxy/Run.antt =====
-- run of cmd/gvproxy/main.go: the goroutines that it starts. What they do with a connection is the
-- part of other modules.
pub mod Tasks
pub mod Group
use gvisor_tap_vsock.Base.{
  ℕ, zero, suc, ◌+◌, Bool, true, false, Option, none, some, List, [], ◌∷◌, ◌++◌, Text, codes,
  if◌then◌else◌, length, get_elem?, cut_prefix,
}
use gvisor_tap_vsock.Gvproxy.Options.{Options}
use gvisor_tap_vsock.Gvproxy.Main.{set_to}

-- Where a forward comes from: a URL, or a path of a unix socket
pub data Source : Type 0 where
  url unix_socket : Text → Source

-- The source, the user and the path of the URL ssh://user@192.168.127.2:22/path, the identity and the
-- socket that is removed at the end
pub record Forward : Type 0 where
  pub source : Source
  pub user : Text
  pub path : Text
  pub identity : Text
  pub removed : Text

-- What is started, with the listener or socket that it serves. When the context is done, a listener
-- of HTTP is closed by `close_at_end`, and a socket of a machine is closed and the file that has the
-- name of its flag removed by `close_and_remove`.
pub data Task : Type 0 where
  close_at_end close_and_remove : Text → Task
  serve_endpoint accept_vpnkit accept_qemu accept_bess accept_vfkit : Text → Task
  serve_gateway log_traffic accept_stdio : Task
  ssh_forward : Forward → Task

pub data RunError : Type 0 where
  no_network cannot_serve_gateway : RunError
  cannot_listen invalid_url : Text → RunError
  index_out_of_range : RunError

-- Whether virtualnetwork.New, vn.Listen, transport.Listen, transport.ListenUnixgram and url.Parse succeed
pub record RunEnv : Type 0 where
  pub new_network : Bool
  pub network_listens : Bool
  pub listens : Text → Bool
  pub listens_unixgram : Text → Bool
  pub parses_url : Text → Bool

-- What run returns, none for nil, and what it has started
abbrev pub Run : Type 0
Run = Option RunError × List Task

-- The next statements, which an error skips
infixr 30 ◌then_run◌
abbrev pub ◌then_run◌ : Run → Run → Run
(some e, tasks) then_run next = (some e, tasks)
(none, tasks) then_run (result, later) = (result, tasks ++ later)

abbrev pub starts : Bool → RunError → List Task → Run
starts ok e tasks = if ok then (none, tasks) else (some e, [])

-- httpServe
abbrev pub http_serve : Text → Task → List Task
http_serve address task = close_at_end address ∷ task ∷ []

abbrev pub gateway_address : Text
gateway_address = codes "192.168.127.1:80"

-- The goroutines of a socket of a machine
abbrev pub until_done : Text → Task → List Task
until_done socket task = close_and_remove socket ∷ task ∷ []

-- for _, endpoint := range endpoints
unfoldable pub serve_endpoints : RunEnv → List Text → Run
serve_endpoints env [] = (none, [])
serve_endpoints env (endpoint ∷ endpoints) =
    starts (env.listens endpoint) (cannot_listen endpoint)
      (http_serve endpoint (serve_endpoint endpoint))
    then_run serve_endpoints env endpoints

-- if ...Socket != ""
unfoldable pub accept_socket : (Text → Bool) → Text → List Task → Run
accept_socket listens socket tasks =
    if set_to socket then starts (listens socket) (cannot_listen socket) tasks else (none, [])

-- strings.Contains(s, "://")
unfoldable pub has_scheme : Text → Bool
has_scheme [] = false
has_scheme (c ∷ s) =
    let rest = has_scheme s in
    elim (cut_prefix (c ∷ s) (codes "://")) [ none ↦ rest | some after ↦ true ]

-- The three lists at an index: the code panics if one of them is too short
abbrev pub forward_at : Source → Text → Option Text → Option Text → Option Text → Run
forward_at source socket (some user) (some path) (some identity) = (
  none,
  ssh_forward (record {
    source = source;
    user = user;
    path = path;
    identity = identity;
    removed = socket;
  })
      ∷ [],
)
forward_at source socket _ _ _ = (some index_out_of_range, [])

-- One round of the loop over the forwards
unfoldable pub start_forward : RunEnv → Options → ℕ → Text → Run
unfolding has_scheme
start_forward env o i socket =
    let user = get_elem? o.forward_user i in
    let path = get_elem? o.forward_dest i in
    let identity = get_elem? o.forward_identify i in
    if has_scheme socket
    then if env.parses_url socket
      then forward_at (url socket) socket user path identity
      else (some (invalid_url socket), [])
    else forward_at (unix_socket socket) socket user path identity

-- for i := 0; i < len(forwardSocket); i++, from the index i on
unfoldable pub start_forwards : RunEnv → Options → ℕ → List Text → Run
unfolding start_forward
start_forwards env o i [] = (none, [])
start_forwards env o i (socket ∷ sockets) =
    start_forward env o i socket then_run start_forwards env o (i + 1) sockets

-- run
unfoldable pub run : RunEnv → Options → Run
unfolding serve_endpoints accept_socket start_forwards
run env o =
    (if env.new_network then (none, []) else (some no_network, []))
    then_run (serve_endpoints env o.endpoints
        then_run (starts env.network_listens cannot_serve_gateway
              (http_serve gateway_address serve_gateway)
            then_run ((none, if o.debug then log_traffic ∷ [] else [])
                then_run (accept_socket env.listens o.vpnkit_socket
                      (accept_vpnkit o.vpnkit_socket ∷ [])
                    then_run (accept_socket env.listens o.qemu_socket
                          (until_done o.qemu_socket (accept_qemu o.qemu_socket))
                        then_run (accept_socket env.listens o.bess_socket
                              (until_done o.bess_socket (accept_bess o.bess_socket))
                            then_run (accept_socket env.listens_unixgram o.vfkit_socket
                                  (until_done o.vfkit_socket (accept_vfkit o.vfkit_socket))
                                then_run ((
                                  none,
                                  if set_to o.stdio_socket then accept_stdio ∷ [] else [],
                                )
                                    then_run start_forwards env o 0 o.forward_socket))))))))
