-- ===== src/Ssh/Proxy.antt =====
-- SSHForward of pkg/sshclient/ssh_forwarder.go: a local listener and a bastion, and the relay of the
-- bytes of each connection.
pub mod Setup
pub mod Relay
use gvisor_tap_vsock.Base.{
  ℕ, ◌+◌, Bool, true, false, Option, none, some, List, [], ◌∷◌, Text, codes, text_eq, nat_eq, ◌==◌,
  if◌then◌else◌, cut_prefix,
}
use gvisor_tap_vsock.Ssh.Initial.{DialEnv, Dialed, connected, refused, neither, initial_connection}
use gvisor_tap_vsock.Ssh.Bastion.{BastionUrl, BastionEnv, Bastion, BastionError, create_bastion}
use gvisor_tap_vsock.Ssh.Tunnel.{
  TunnelEnv, Tunnelled, forwarded, no_tunnel, no_connection, out_of_fuel, connect_forward,
}

-- Whether the program runs on Windows; whether os.Remove succeeds or finds no file; and whether
-- net.Listen and ListenNpipe succeed.
pub record ProxyEnv : Type 0 where
  pub windows : Bool
  pub removes : Text → Bool
  pub listens_unix : Text → Bool
  pub listens_npipe : Text → Bool

-- The listeners that are open, and the number of the next one
pub record Listeners : Type 0 where
  pub opened : List ℕ
  pub next_listener : ℕ

pub data ForwardError : Type 0 where
  cannot_remove cannot_listen unsupported_scheme cannot_connect : ForwardError
  no_bastion : BastionError → ForwardError

-- SSHForward; the fields of an empty one are none
pub record SshForward : Type 0 where
  pub listener : Option ℕ
  pub bastion : Option Bastion
  pub sock : Text

abbrev pub empty_forward : SshForward
empty_forward = record { listener = none; bastion = none; sock = [] }

abbrev pub or_same : Option Text → Text → Text
or_same none path = path
or_same (some rest) path = rest

-- The path that listenUnix uses
abbrev pub unix_path : Bool → Text → Text
unix_path false path = path
unix_path true path = or_same (cut_prefix path (codes "/")) path

abbrev pub opens : Listeners → Listeners
opens l = record { opened = l.next_listener ∷ l.opened; next_listener = l.next_listener + 1 }

-- listenUnix
unfoldable pub listen_unix : ProxyEnv → Text → Listeners → Option ForwardError × Listeners
listen_unix env path l =
    if env.removes (unix_path env.windows path)
    then if env.listens_unix (unix_path env.windows path)
      then (none, opens l)
      else (some cannot_listen, l)
    else (some cannot_remove, l)

-- The outcome of the switch on the scheme: an error, no listener, or one
pub data Opening : Type 0 where
  failed : ForwardError → Opening
  tunnel_only : Opening
  listening : ℕ → Listeners → Opening

abbrev pub opening_of : ℕ → Option ForwardError × Listeners → Opening
opening_of handle (some e, l) = failed e
opening_of handle (none, l) = listening handle l

-- switch socketURI.Scheme
unfoldable pub open_listener : ProxyEnv → Text → Text → Listeners → Opening
unfolding listen_unix
open_listener env scheme path l =
    if scheme == codes "unix"
    then opening_of l.next_listener (listen_unix env path l)
    else if scheme == codes "npipe"
    then if env.listens_npipe path
      then listening l.next_listener (opens l)
      else failed cannot_listen
    else if scheme == []
    then tunnel_only
    else failed unsupported_scheme

-- The two returns behind CreateBastion
abbrev pub with_bastion :
    Option ℕ → Text → Option BastionError × Option Bastion → Option ForwardError × SshForward
with_bastion listener sock (some e, b) = (some (no_bastion e), empty_forward)
with_bastion listener sock (none, b) =
    (none, record { listener = listener; bastion = b; sock = sock })

-- setupProxy behind the listener
unfoldable pub connect_proxy :
    DialEnv
    → BastionEnv
    → Text
    → BastionUrl
    → Text
    → Text
    → Option ℕ
    → Option ForwardError × SshForward
connect_proxy denv benv path dest identity passphrase listener = elim (initial_connection denv).0 [
  | refused ↦ (some cannot_connect, empty_forward)
  | connected conn ↦
      with_bastion listener path (create_bastion benv 0 dest passphrase identity (some conn))
  | neither ↦ with_bastion listener path (create_bastion benv 0 dest passphrase identity none)
]

-- setupProxy
unfoldable pub setup_proxy :
    ProxyEnv
    → DialEnv
    → BastionEnv
    → Text
    → Text
    → BastionUrl
    → Text
    → Text
    → Listeners
    → (Option ForwardError × SshForward) × Listeners
unfolding open_listener connect_proxy
setup_proxy env denv benv scheme path dest identity passphrase l =
    elim (open_listener env scheme path l) [
      | failed e ↦ ((some e, empty_forward), l)
      | tunnel_only ↦ (connect_proxy denv benv path dest identity passphrase none, l)
      | listening handle l' ↦
          (connect_proxy denv benv path dest identity passphrase (some handle), l')
    ]

-- CreateSSHForward: no passphrase
unfoldable pub create_ssh_forward :
    ProxyEnv
    → DialEnv
    → BastionEnv
    → Text
    → Text
    → BastionUrl
    → Text
    → Listeners
    → (Option ForwardError × SshForward) × Listeners
unfolding setup_proxy
create_ssh_forward env denv benv scheme path dest identity l =
    setup_proxy env denv benv scheme path dest identity [] l

-- The listeners without one of them
unfoldable pub without : ℕ → List ℕ → List ℕ
without handle [] = []
without handle (o ∷ opened) =
    let rest = without handle opened in if o == handle then rest else o ∷ rest

-- SSHForward.Close, of the listener; the client of the bastion is closed too
unfoldable pub close_forward : SshForward → Listeners → Listeners
unfolding without
close_forward f l = elim f.listener [
  | none ↦ l
  | some handle ↦ record l { opened = without handle l.opened }
]

-- What acceptConnection does with a connection: it returns an error if there is none; it closes it,
-- and returns nil, if it has no CloseWrite, since Wrapf of a nil error is nil, or if connectForward
-- fails; or it starts the relay.
pub data Handled : Type 0 where
  accept_error closes_connection : Handled
  relays : ℕ → Handled

-- acceptConnection: the connection by whether it has CloseWrite, none if Accept fails
unfoldable pub accept_connection : Option Bool → TunnelEnv → Handled
accept_connection none env = accept_error
accept_connection (some false) env = closes_connection
accept_connection (some true) env = elim (connect_forward env).0 [
  | forwarded conn ↦ relays conn
  | no_tunnel ↦ closes_connection
  | no_connection ↦ closes_connection
  | out_of_fuel ↦ closes_connection
]
