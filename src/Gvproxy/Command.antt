-- ===== src/Gvproxy/Command.antt =====
-- pkg/types/gvproxy_command.go: a command of gvproxy and its command line.
pub mod Lines
pub mod Forwards
pub mod Read
pub mod Calls
use gvisor_tap_vsock.Base.{
  ℕ, Bool, true, false, Option, none, some, List, [], ◌∷◌, ◌++◌, Text, codes, text_eq, nat_eq, ◌==◌,
  if◌then◌else◌, ltb, length, GoMap, lookup, insert,
}
use gvisor_tap_vsock.Gvproxy.Options.{ℤ, pos, Strconv}

pub record GvproxyCommand : Type 0 where
  pub debug : Bool
  pub mtu : ℤ
  pub forward_info : GoMap Text (List Text)
  pub endpoints : List Text
  pub sockets : GoMap Text Text
  pub pid_file : Text
  pub ssh_port : ℤ

-- NewGvproxyCommand
unfoldable pub new_gvproxy_command : GvproxyCommand
new_gvproxy_command = record {
  debug = false;
  mtu = pos 1500;
  forward_info = [];
  endpoints = [];
  sockets = [];
  pid_file = [];
  ssh_port = pos 2222;
}

abbrev pub check_sockets_initialized : GvproxyCommand → GvproxyCommand
check_sockets_initialized c = if ltb (length c.sockets) 1 then record c { sockets = [] } else c

abbrev pub check_forward_info_initialized : GvproxyCommand → GvproxyCommand
check_forward_info_initialized c =
    if ltb (length c.forward_info) 1 then record c { forward_info = [] } else c

-- AddEndpoint
unfoldable pub add_endpoint : Text → GvproxyCommand → GvproxyCommand
add_endpoint endpoint c =
    let c' = if ltb (length c.endpoints) 1 then record c { endpoints = [] } else c in
    record c' { endpoints = c'.endpoints ++ endpoint ∷ [] }

-- The methods for sockets, named by the ends of their flags
pub data SocketKind : Type 0 where
  vpnkit qemu bess stdio vfkit : SocketKind

abbrev pub socket_flag : SocketKind → Text
socket_flag vpnkit = codes "listen-vpnkit"
socket_flag qemu = codes "listen-qemu"
socket_flag bess = codes "listen-bess"
socket_flag stdio = codes "listen-stdio"
socket_flag vfkit = codes "listen-vfkit"

-- AddVpnkitSocket, AddQemuSocket, AddBessSocket, AddStdioSocket and AddVfkitSocket
unfoldable pub add_socket : SocketKind → Text → GvproxyCommand → GvproxyCommand
add_socket kind socket c =
    let c' = check_sockets_initialized c in
    record c' { sockets = insert (socket_flag kind) socket c'.sockets }

-- The methods for forwards
pub data ForwardKind : Type 0 where
  sock dest user identity : ForwardKind

abbrev pub forward_flag : ForwardKind → Text
forward_flag sock = codes "forward-sock"
forward_flag dest = codes "forward-dest"
forward_flag user = codes "forward-user"
forward_flag identity = codes "forward-identity"

-- m[flag] of a map of lists
abbrev pub or_empty : Option (List Text) → List Text
or_empty none = []
or_empty (some values) = values

unfoldable pub add_forward_info : Text → Text → GvproxyCommand → GvproxyCommand
add_forward_info flag value c = record c {
  forward_info = insert flag (or_empty (lookup flag c.forward_info) ++ value ∷ []) c.forward_info;
}

-- AddForwardSock, AddForwardDest, AddForwardUser and AddForwardIdentity
unfoldable pub add_forward : ForwardKind → Text → GvproxyCommand → GvproxyCommand
add_forward kind value c =
    add_forward_info (forward_flag kind) value (check_forward_info_initialized c)

-- A flag and its value, if that is not empty
abbrev pub with_flag : Text → Text → List Text
with_flag flag [] = []
with_flag flag (c ∷ s) = (b'-' ∷ flag) ∷ (c ∷ s) ∷ []

-- socketsToCmdline
unfoldable pub sockets_to_cmdline : GoMap Text Text → List Text
sockets_to_cmdline [] = []
sockets_to_cmdline ((flag, socket) ∷ sockets) = with_flag flag socket ++ sockets_to_cmdline sockets

-- A flag with each of its values
unfoldable pub values_to_cmdline : Text → List Text → List Text
values_to_cmdline flag [] = []
values_to_cmdline flag (value ∷ values) = with_flag flag value ++ values_to_cmdline flag values

-- forwardInfoToCmdline
unfoldable pub forward_info_to_cmdline : GoMap Text (List Text) → List Text
unfolding values_to_cmdline
forward_info_to_cmdline [] = []
forward_info_to_cmdline ((flag, values) ∷ forward_info) =
    values_to_cmdline flag values ++ forward_info_to_cmdline forward_info

-- endpointsToCmdline
unfoldable pub endpoints_to_cmdline : List Text → List Text
unfolding values_to_cmdline
endpoints_to_cmdline endpoints = values_to_cmdline (codes "listen") endpoints

-- ToCmdline
unfoldable pub to_cmdline : Strconv → GvproxyCommand → List Text
to_cmdline lib c =
    endpoints_to_cmdline c.endpoints
    ++ ((if c.debug then codes "-debug" ∷ [] else [])
        ++ ((codes "-mtu" ∷ lib.itoa c.mtu ∷ [])
            ++ ((codes "-ssh-port" ∷ lib.itoa c.ssh_port ∷ [])
                ++ (sockets_to_cmdline c.sockets
                    ++ (forward_info_to_cmdline c.forward_info
                        ++ with_flag (codes "pid-file") c.pid_file)))))
