-- ===== src/Services/Forwarder/Ports.antt =====
-- PortsForwarder of pkg/services/forwarder/ports.go: the forwarded ports and sockets, and the HTTP
-- endpoints that list, add and remove them. Every method holds the lock for its whole call.
pub mod Exposing
pub mod Handles
pub mod Calls
pub mod Keys
mod Tests
use gvisor_tap_vsock.Base.{
  ℕ, suc, ◌+◌, Bool, true, false, Option, none, some, List, [], ◌∷◌, ◌++◌, Text, codes, text_eq,
  nat_eq, ◌==◌, if◌then◌else◌, not, ◌||◌, ◌&&◌, GoMap, lookup, insert, delete, ltb,
}
use gvisor_tap_vsock.GoNet.{Ip}
use gvisor_tap_vsock.Services.Forwarder.Address.{
  tcpip_address, Parsed, invalid, panics as bad_address, address,
}

-- types.TransportProtocol is a string.
abbrev pub udp : Text
udp = codes "udp"

abbrev pub tcp : Text
tcp = codes "tcp"

abbrev pub unix : Text
unix = codes "unix"

abbrev pub npipe : Text
npipe = codes "npipe"

-- What the code reads of a net/url.URL
pub record Url : Type 0 where
  pub scheme : Text
  pub hostname : Text
  pub port : Text
  pub path : Text
  pub query : Text → List Text

-- A listener that has been started for a proxy, with a number of its own for io.Closer
pub record Opened : Type 0 where
  pub handle : ℕ
  pub protocol : Text
  pub local_address : Text

pub record Proxy : Type 0 where
  pub local_address : Text
  pub remote_address : Text
  pub protocol : Text
  pub underlying : ℕ

-- What the code takes from outside: url.Parse; net.ParseIP followed by To4; net.ResolveUDPAddr;
-- whether a listener starts (Start of tcpproxy with the ListenFunc, which for a
-- unix socket first removes its file, or net.ListenUDP), which may
-- depend on the listeners that are open; and whether Close succeeds.
pub record PortsEnv : Type 0 where
  pub parse_url : Text → Option Url
  pub parse_ip4 : Text → Ip
  pub resolves_udp : Text → Bool
  pub starts : List Opened → Text → Text → Bool
  pub closes : ℕ → Bool

-- The map of the struct, and below it the listeners that are open and the next number for one.
pub record PortsForwarder : Type 0 where
  pub proxies : GoMap Text Proxy
  pub open_listeners : List Opened
  pub next_handle : ℕ

pub data Error : Type 0 where
  already_running bad_uri no_key no_path invalid_remote not_implemented bad_local cannot_listen
        unknown_protocol not_found cannot_close :
      Error

pub data Result : Type 0 where
  done panics : Result
  fails : Error → Result

-- NewPortsForwarder
abbrev pub new_ports_forwarder : PortsForwarder
new_ports_forwarder = record { proxies = []; open_listeners = []; next_handle = 0 }

-- key
unfoldable pub key : Text → Text → Text
key protocol local_address = protocol ++ b'/' ∷ local_address

-- firstValueOrEmpty
unfoldable pub first_value_or_empty : List Text → Text
first_value_or_empty [] = []
first_value_or_empty (x ∷ xs) = x

-- The end of each case of Expose: the listener is started and the proxy stored.
unfoldable pub start : PortsEnv → Text → Text → Text → PortsForwarder → Result × PortsForwarder
start env protocol local_address remote_address f =
    if env.starts f.open_listeners protocol local_address
    then (
      done,
      record {
        proxies =
            insert (key protocol local_address)
              (record {
                local_address = local_address;
                remote_address = remote_address;
                protocol = protocol;
                underlying = f.next_handle;
              })
              f.proxies;
        open_listeners =
            record { handle = f.next_handle; protocol = protocol; local_address = local_address }
            ∷ f.open_listeners;
        next_handle = f.next_handle + 1;
      },
    )
    else (fails cannot_listen, f)

-- if err != nil { return err }, of tcpipAddress
abbrev pub with_address :
    Parsed → PortsForwarder → Result × PortsForwarder → Result × PortsForwarder
with_address invalid f next = (fails invalid_remote, f)
with_address bad_address f next = (panics, f)
with_address (address a) f next = next

-- case "ssh-tunnel"
unfoldable pub expose_ssh :
    PortsEnv → Text → Text → Text → Url → PortsForwarder → Result × PortsForwarder
unfolding first_value_or_empty
expose_ssh env protocol local_address remote_address uri f =
    if first_value_or_empty (uri.query (codes "key")) == []
    then (fails no_key, f)
    else if uri.path == [] || uri.path == b'/' ∷ []
    then (fails no_path, f)
    else start env protocol local_address remote_address f

-- case types.UNIX, types.NPIPE
unfoldable pub expose_socket :
    PortsEnv → Text → Text → Text → PortsForwarder → Result × PortsForwarder
unfolding expose_ssh
expose_socket env protocol local_address remote_address f = elim (env.parse_url remote_address) [
  | none ↦ (fails bad_uri, f)
  | some uri ↦
      if uri.scheme == codes "ssh-tunnel"
      then expose_ssh env protocol local_address remote_address uri f
      else if uri.scheme == codes "tcp"
      then with_address (tcpip_address env.parse_ip4 1 (uri.hostname ++ b':' ∷ uri.port)) f
          (start env protocol local_address remote_address f)
      else (fails not_implemented, f)
]

-- case types.UDP
unfoldable pub expose_udp : PortsEnv → Text → Text → PortsForwarder → Result × PortsForwarder
expose_udp env local_address remote_address f =
    with_address (tcpip_address env.parse_ip4 1 remote_address) f (
      if env.resolves_udp local_address
      then start env udp local_address remote_address f
      else (fails bad_local, f))

-- case types.TCP
unfoldable pub expose_tcp : PortsEnv → Text → Text → PortsForwarder → Result × PortsForwarder
expose_tcp env local_address remote_address f =
    with_address (tcpip_address env.parse_ip4 1 remote_address) f
      (start env tcp local_address remote_address f)

-- switch protocol
unfoldable pub expose_protocol :
    PortsEnv → Text → Text → Text → PortsForwarder → Result × PortsForwarder
expose_protocol env protocol local_address remote_address f =
    if protocol == unix || protocol == npipe
    then expose_socket env protocol local_address remote_address f
    else if protocol == udp
    then expose_udp env local_address remote_address f
    else if protocol == tcp
    then expose_tcp env local_address remote_address f
    else (fails unknown_protocol, f)

-- Expose
unfoldable pub expose : PortsEnv → Text → Text → Text → PortsForwarder → Result × PortsForwarder
expose env protocol local_address remote_address f = elim (lookup local_address f.proxies) [
  | some _ ↦ (fails already_running, f)
  | none ↦ expose_protocol env protocol local_address remote_address f
]

-- The listeners without one of them
unfoldable pub close_listener : ℕ → List Opened → List Opened
close_listener handle [] = []
close_listener handle (o ∷ opened) =
    let rest = close_listener handle opened in if o.handle == handle then rest else o ∷ rest

-- proxy.underlying.Close(), whose result Unexpose returns; a listener that fails to close stays open
-- in the model.
unfoldable pub close_proxy : PortsEnv → Proxy → PortsForwarder → Result × PortsForwarder
close_proxy env proxy f =
    if env.closes proxy.underlying
    then (done, record f { open_listeners = close_listener proxy.underlying f.open_listeners })
    else (fails cannot_close, f)

-- Unexpose
unfoldable pub unexpose : PortsEnv → Text → Text → PortsForwarder → Result × PortsForwarder
unexpose env protocol local_address f = elim (lookup (key protocol local_address) f.proxies) [
  | none ↦ (fails not_found, f)
  | some proxy ↦
      close_proxy env proxy (record f { proxies = delete (key protocol local_address) f.proxies })
]
