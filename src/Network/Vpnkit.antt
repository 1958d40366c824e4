-- ===== src/Network/Vpnkit.antt =====
-- pkg/virtualnetwork/vpnkit.go: the handshake of hyperkit and the MAC address that a machine is given.
pub mod Machine
use gvisor_tap_vsock.Base.{
  ℕ, ◌+◌, ◌-◌, ◌*◌, ◌/◌, ◌%◌, ◌^◌, Bool, true, false, Option, none, some, List, [], ◌∷◌, ◌++◌, Text,
  text_eq, GoMap, lookup, take, drop, replicate, if◌then◌else◌, length,
}
use gvisor_tap_vsock.Tap.Framing.{read_full, put_le16, hyperkit_protocol}
use gvisor_tap_vsock.Tap.Switch.{Env, Switch}
use gvisor_tap_vsock.Tap.Switch.Rx.{End, Incoming, accept}

-- types.Configuration, as far as the handshake reads it
pub record Configuration : Type 0 where
  pub mtu : ℕ
  pub vpnkit_uuid_mac_addresses : GoMap Text Text

-- net.ParseMAC; the bytes that rand.Read gives, none on an error; and whether the first and the second
-- Write succeed
pub record VpnkitEnv : Type 0 where
  pub parse_mac : Text → Option Text
  pub random : ℕ → Option Text
  pub echoes : Bool
  pub answers : Bool

-- buf[0] |= 2, of a byte
abbrev pub set_local : ℕ → ℕ
set_local b = b - b % 4 + (b % 4 % 2 + 2)

-- buf[0] &= ^byte(1)
abbrev pub clear_multicast : ℕ → ℕ
clear_multicast b = b - b % 2

-- The first byte of the six is changed.
abbrev pub local_unicast : Text → Text
local_unicast [] = []
local_unicast (b ∷ buf) = clear_multicast (set_local b) ∷ buf

abbrev pub mac_of_random : Option Text → Option Text
mac_of_random none = none
mac_of_random (some buf) = some (local_unicast buf)

-- randomMac
unfoldable pub random_mac : VpnkitEnv → Option Text
random_mac env = mac_of_random (env.random 6)

-- macAddr
unfoldable pub mac_addr : VpnkitEnv → Configuration → Text → Option Text
mac_addr env configuration vpnkit_uuid =
    elim (lookup vpnkit_uuid configuration.vpnkit_uuid_mac_addresses) [
      | none ↦ random_mac env
      | some mac_str ↦ env.parse_mac mac_str
    ]

-- The 258 bytes of the response. mtu+header.EthernetMinimumSize is computed in 16 bits, and copy takes
-- as many bytes of the address as there are, six at most.
unfoldable pub response : ℕ → Text → Text
response mtu mac =
    1
    ∷ (put_le16 (mtu % 2 ^ 16)
        ++ (put_le16 ((mtu % 2 ^ 16 + 14) % 2 ^ 16)
            ++ (take 6 mac ++ replicate (253 - length (take 6 mac)) 0)))

-- The errors of the handshake
pub data HandshakeError : Type 0 where
  no_init cannot_echo no_command no_mac cannot_answer : HandshakeError

-- How the handshake ends, what has been written, and what is left to read
pub record Handshake : Type 0 where
  pub error : Option HandshakeError
  pub written : Text
  pub unread : Text

-- conn.Write(resp)
abbrev pub answer : VpnkitEnv → ℕ → Text → Text → Option Text → Handshake
answer env mtu written unread none = record {
  error = some no_mac;
  written = written;
  unread = unread;
}
answer env mtu written unread (some mac) =
    if env.answers
    then record { error = none; written = written ++ response mtu mac; unread = unread }
    else record { error = some cannot_answer; written = written; unread = unread }

-- Behind the echo: string(msgCommand[1:37]) is the UUID
unfoldable pub read_command : VpnkitEnv → Configuration → Text → Text → Handshake
read_command env configuration written input = elim (read_full 41 input) [
  | none ↦ record { error = some no_command; written = written; unread = [] }
  | some (msg_command, rest) ↦
      answer env configuration.mtu written rest
        (mac_addr env configuration (take 36 (drop 1 msg_command)))
]

-- vpnkitHandshake, of the bytes that arrive; a read that fails at their end has taken them all.
unfoldable pub vpnkit_handshake : VpnkitEnv → Configuration → Text → Handshake
vpnkit_handshake env configuration input = elim (read_full 49 input) [
  | none ↦ record { error = some no_init; written = []; unread = [] }
  | some (msg_init, rest) ↦
      if env.echoes
      then read_command env configuration msg_init rest
      else record { error = some cannot_echo; written = []; unread = rest }
]

-- AcceptVpnKit: an error of the handshake is logged, and the switch reads on.
unfoldable pub accept_vpnkit : VpnkitEnv → Configuration → Env → ℕ → Text → Switch → End × Switch
accept_vpnkit env configuration switch_env rounds input sw =
    let unread = (vpnkit_handshake env configuration input).unread in
    accept switch_env hyperkit_protocol rounds (record { bytes = unread; datagrams = [] }) sw
