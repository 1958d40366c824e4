-- ===== src/Network/Conn.antt =====
-- pkg/virtualnetwork/conn.go and the endpoint /tunnel of mux.go: the address in the virtual network
-- that a program of the host connects to.
pub mod Bounds
use gvisor_tap_vsock.Base.{
  ℕ, ◌%◌, ◌^◌, Bool, true, false, Option, none, some, [], ◌∷◌, Text, codes, text_eq, nat_eq, ◌==◌,
  if◌then◌else◌, ltb, not,
}
use gvisor_tap_vsock.Services.Forwarder.Address.{FullAddress, unsigned, atoi, to_uint16}

-- net.SplitHostPort, none on an error; net.ParseIP, none for nil; and To4 of the result, none for nil
pub record ConnEnv : Type 0 where
  pub split_host_port : Text → Option (Text × Text)
  pub parse_ip : Text → Option Text
  pub to4 : Text → Option Text

pub data ConnError : Type 0 where
  only_tcp bad_host_port bad_port no_ip : ConnError

-- strconv.ParseUint(s, 10, 16)
abbrev pub within_uint16 : Option ℕ → Option ℕ
within_uint16 none = none
within_uint16 (some n) = if ltb n (2 ^ 16) then some n else none

unfoldable pub parse_uint16 : Text → Option ℕ
parse_uint16 s = within_uint16 (unsigned s)

pub data Split : Type 0 where
  fails : ConnError → Split
  ip_port : Text → ℕ → Split

-- splitIPPort
unfoldable pub split_ip_port : ConnEnv → Text → Text → Split
unfolding parse_uint16
split_ip_port env network addr =
    if not (network == codes "tcp") then fails only_tcp else elim (env.split_host_port addr) [
      | none ↦ fails bad_host_port
      | some (host, port_string) ↦ elim (parse_uint16 port_string) [
        | none ↦ fails bad_port
        | some port ↦ elim (env.parse_ip host) [ none ↦ fails no_ip | some ip ↦ ip_port ip port ]
      ]
    ]

-- What Dial, DialContextTCP and Listen hand to gonet: an error, an address, or the panic of
-- tcpip.AddrFrom4Slice on an address that is not of IPv4
pub data Target : Type 0 where
  error : ConnError → Target
  panics : Target
  address : FullAddress → Target

abbrev pub full_address : Option Text → ℕ → Target
full_address none port = panics
full_address (some addr) port = address (record { nic = 1; addr = addr; port = port })

abbrev pub target_of : ConnEnv → Split → Target
target_of env (fails e) = error e
target_of env (ip_port ip port) = full_address (env.to4 ip) (port % 2 ^ 16)

-- Dial and Listen
unfoldable pub dial : ConnEnv → Text → Text → Target
unfolding split_ip_port
dial env network addr = target_of env (split_ip_port env network addr)

-- DialContextTCP
unfoldable pub dial_context_tcp : ConnEnv → Text → Target
unfolding split_ip_port
dial_context_tcp env addr = target_of env (split_ip_port env (codes "tcp") addr)

-- Whether the response can be hijacked, and whether Hijack, Flush and the Write of OK succeed
pub record HijackEnv : Type 0 where
  pub hijacker : Bool
  pub hijacks : Bool
  pub flushes : Bool
  pub writes : Bool

-- How /tunnel ends: an internal server error, before or after the connection has been hijacked and
-- closed, or a relay to an address
pub data Tunnel : Type 0 where
  server_error : Tunnel
  error_after_hijack : Tunnel
  relays : Target → Tunnel

-- net.ParseIP(ip).To4(): nil if one of them gives nil
abbrev pub to4_of : ConnEnv → Option Text → Option Text
to4_of env none = none
to4_of env (some ip) = env.to4 ip

-- The handler of /tunnel, of the two values of its query
unfoldable pub tunnel : ConnEnv → HijackEnv → Text → Text → Tunnel
unfolding atoi
tunnel env hijack ip port = if ip == [] then server_error else elim (atoi port) [
  | none ↦ server_error
  | some n ↦
      if not hijack.hijacker
      then server_error
      else if not hijack.hijacks
      then server_error
      else if not hijack.flushes
      then error_after_hijack
      else if not hijack.writes
      then error_after_hijack
      else relays (full_address (to4_of env (env.parse_ip ip)) (to_uint16 n))
]
