-- ===== src/Transport.antt =====
-- pkg/transport on Linux, and AcceptVfkit of unixgram_darwin.go: where a program listens and what it
-- dials for an endpoint. Sockets and net/url are parameters.
pub mod Stdio
mod Tests
use gvisor_tap_vsock.Base.{
  ℕ, ◌-◌, ◌%◌, ◌^◌, Bool, true, false, Option, none, some, List, [], ◌∷◌, ◌++◌, Text, codes,
  text_eq, nat_eq, ◌==◌, if◌then◌else◌, length, not,
}
use gvisor_tap_vsock.Services.Forwarder.Address.{atoi}

-- What the package uses of a net/url.URL; the query has each key with its values.
pub record Url : Type 0 where
  pub scheme : Text
  pub path : Text
  pub host : Text
  pub hostname : Text
  pub port : Text
  pub query : List (Text × List Text)

-- The conversion of an int to uint32
abbrev pub to_uint32 : Bool × ℕ → ℕ
to_uint32 (false, n) = n % 2 ^ 32
to_uint32 (true, n) = (2 ^ 32 - n % 2 ^ 32) % 2 ^ 32

-- Where a program listens: vsock on any context, vsock on one, or an address of package net
pub data Listening : Type 0 where
  bad_url bad_port bad_context unexpected_scheme : Listening
  on_vsock : ℕ → Listening
  on_context : ℕ → ℕ → Listening
  on_net : Text → Text → Listening

-- defaultListenURL
unfoldable pub default_listen_url : Url → Listening
default_listen_url url =
    if url.scheme == codes "unix"
    then on_net url.scheme url.path
    else if url.scheme == codes "tcp"
    then on_net (codes "tcp") url.host
    else unexpected_scheme

abbrev pub at_context : ℕ → Option (Bool × ℕ) → Listening
at_context port none = bad_context
at_context port (some cid) = on_context (to_uint32 cid) port

-- case "vsock"
unfoldable pub listen_vsock : Url → Listening
unfolding atoi
listen_vsock parsed = elim (atoi parsed.port) [
  | none ↦ bad_port
  | some port ↦
      if not (parsed.hostname == [])
      then at_context (to_uint32 port) (atoi parsed.hostname)
      else on_vsock (to_uint32 port)
]

-- listenURL
unfoldable pub listen_url : Url → Listening
unfolding default_listen_url listen_vsock
listen_url parsed =
    if parsed.scheme == codes "vsock"
    then listen_vsock parsed
    else if parsed.scheme == codes "unixpacket"
    then on_net parsed.scheme parsed.path
    else default_listen_url parsed

abbrev pub listen_parsed : Option Url → Listening
unfolding listen_url
listen_parsed none = bad_url
listen_parsed (some parsed) = listen_url parsed

-- Listen, with url.Parse as a parameter, none on an error
unfoldable pub listen : (Text → Option Url) → Text → Listening
unfolding listen_url
listen parse_url endpoint = listen_parsed (parse_url endpoint)

-- What a program dials, and the path that it then asks for over HTTP, empty for none
pub data Dialling : Type 0 where
  bad_url bad_port bad_context unexpected_scheme : Dialling
  to_vsock : ℕ → ℕ → Text → Dialling
  to_unix : Text → Text → Dialling
  to_command : Text → List Text → Dialling

-- fmt.Sprintf("-%s=%s", k, v)
abbrev pub stdio_arg : Text → Text → Text
stdio_arg k v = b'-' ∷ (k ++ b'=' ∷ v)

-- for _, v := range vs
unfoldable pub stdio_args : Text → List Text → List Text
stdio_args k [] = []
stdio_args k (v ∷ vs) = stdio_arg k v ∷ stdio_args k vs

-- for k, vs := range parsed.Query()
unfoldable pub stdio_values : List (Text × List Text) → List Text
unfolding stdio_args
stdio_values [] = []
stdio_values ((k, vs) ∷ query) = stdio_args k vs ++ stdio_values query

abbrev pub vsock_peer : Text → Option (Bool × ℕ) → Option (Bool × ℕ) → Dialling
vsock_peer path none port = bad_context
vsock_peer path (some cid) none = bad_port
vsock_peer path (some cid) (some port) = to_vsock (to_uint32 cid) (to_uint32 port) path

-- switch parsed.Scheme of Dial
unfoldable pub dial_parsed : Option Url → Dialling
unfolding atoi stdio_values
dial_parsed none = bad_url
dial_parsed (some parsed) =
    if parsed.scheme == codes "vsock"
    then vsock_peer parsed.path (atoi parsed.hostname) (atoi parsed.port)
    else if parsed.scheme == codes "unix"
    then to_unix parsed.path (codes "/connect")
    else if parsed.scheme == codes "stdio"
    then to_command parsed.path (stdio_values parsed.query)
    else unexpected_scheme

-- Dial
unfoldable pub dial : (Text → Option Url) → Text → Dialling
unfolding dial_parsed
dial parse_url endpoint = dial_parsed (parse_url endpoint)

-- What ReadFrom gives for the first datagram: at most four bytes of it, whether it failed, and the
-- sender if its address is of a unix socket
pub record Datagram : Type 0 where
  pub bytes : Text
  pub fails : Bool
  pub sender : Option Text

pub data Accepted : Type 0 where
  invalid_length read_error no_unix_address invalid_magic : Accepted
  connected_to : Text → Accepted

-- AcceptVfkit; the options of the socket are left out
unfoldable pub accept_vfkit : Datagram → Accepted
accept_vfkit d =
    if not (length d.bytes == 4)
    then invalid_length
    else if d.fails
    then read_error
    else elim d.sender [
      | none ↦ no_unix_address
      | some address ↦ if d.bytes == codes "VFKT" then connected_to address else invalid_magic
    ]
