-- ===== src/Network/Vpnkit/Machine.antt =====
-- What a machine gets from the handshake, and where its frames begin.
use gvisor_tap_vsock.Base.{
  ◌*◌, drop, drop-length_append, take_all, ◌+◌, ◌^◌, ℕ, zero, suc, take-length_append, ◌-◌, ◌/◌,
  ◌%◌, ◌≤◌, ◌≡◌, refl, ap, true, arith, none, some, [], ◌∷◌, ◌++◌, Text, text_eq, lookup, take,
  replicate, length, length-append, length-replicate,
}
use gvisor_tap_vsock.Tap.Framing.{read_full}
use gvisor_tap_vsock.Tap.Framing.RoundTrip.{read_full-append}
use gvisor_tap_vsock.Network.Vpnkit.{
  Configuration, VpnkitEnv, set_local, clear_multicast, local_unicast, random_mac, mac_addr,
  response, read_command, vpnkit_handshake,
}

-- A random address is that of one machine and of no vendor, and differs from the random bytes only in
-- these two bits of the first one.
pub local_unicast_lem :
    (b : ℕ) (buf : Text)
    → (head : ℕ) × (local_unicast (b ∷ buf) ≡ head ∷ buf) × (head % 4 ≡ 2) × (head / 4 ≡ b / 4)
local_unicast_lem b buf = (clear_multicast (set_local b), refl, omega arith, omega arith)

length-take : (n : ℕ) (s : Text) → length (take n s) ≤ n
length-take zero s = omega arith
length-take (suc n) [] = omega arith
length-take (suc n) (c ∷ s) = omega (arith, length-take n s)

pub length-response : (mtu : ℕ) (mac : Text) → length (response mtu mac) ≡ 258
unfolding response
length-response mtu mac =
    let zero_byte : ℕ = 0 in
    let short : length (take 6 mac) ≤ 6 = length-take 6 mac in
    omega (
      arith,
      short,
      length-append (take 6 mac) (replicate (253 - length (take 6 mac)) 0),
      length-replicate (253 - length (take 6 mac)) zero_byte,
    )

abbrev pub little_endian : Text → ℕ
little_endian (a ∷ b ∷ s) = a + b * 256
little_endian _ = 0

-- How a machine reads a response
pub record GivesMac (mtu : ℕ) (mac resp : Text) : Type 0 where
  pub size : length resp ≡ 258
  pub version : take 1 resp ≡ 1 ∷ []
  pub interface_mtu : little_endian (take 2 (drop 1 resp)) ≡ mtu % 2 ^ 16
  pub frame_size : little_endian (take 2 (drop 3 resp)) ≡ (mtu + 14) % 2 ^ 16
  pub address : take 6 (drop 5 resp) ≡ mac
  pub padding : drop 11 resp ≡ replicate 247 0

response-GivesMac : (mtu : ℕ) (mac : Text) → length mac ≡ 6 → GivesMac mtu mac (response mtu mac)
unfolding response
response-GivesMac mtu mac six =
    let whole : take 6 mac ≡ mac = take_all 6 mac (omega (arith, six)) in
    let zero_byte : ℕ = 0 in
    record {
      size = length-response mtu mac;
      version = refl;
      interface_mtu = omega arith;
      frame_size = omega arith;
      address = rw whole (start mac (replicate (253 - length mac) zero_byte) six);
      padding = rw (whole, six) (padded mac (replicate 247 zero_byte) six);
    }
  where
    start : (xs ys : Text) → length xs ≡ 6 → take 6 (xs ++ ys) ≡ xs
    start xs ys e = rw (← e) (take-length_append xs ys)

    padded : (xs ys : Text) → length xs ≡ 6 → drop 6 (xs ++ ys) ≡ ys
    padded xs ys e = rw (← e) (drop-length_append xs ys)

module _ (env : VpnkitEnv) (configuration : Configuration) (init uuid pad frames : Text) (op : ℕ)
    (long : length init ≡ 49) (uuid_long : length uuid ≡ 36) (pad_long : length pad ≡ 4) where
  -- The handshake succeeds on an init message of 49 bytes, a command of 41 bytes with the UUID of the
  -- machine from its second byte on and what the machine sends behind them, if both writes succeed and
  -- the UUID has a MAC address of 6 bytes, be it configured or random: the init message is sent back,
  -- then a response of 258 bytes, in which the machine finds a 1, the MTU and the MTU with 14 bytes
  -- more, each in 16 bits, least byte first, and this MAC address from the sixth byte on, then zeros;
  -- and exactly the frames are left to read.
  pub vpnkit_handshake_lem :
      (mac : Text)
      → env.echoes ≡ true
      → env.answers ≡ true
      → mac_addr env configuration uuid ≡ some mac
      → length mac ≡ 6
      → (resp : Text) × (vpnkit_handshake env configuration
            (init ++ ((op ∷ (uuid ++ pad)) ++ frames))
          ≡ record { error = none; written = init ++ resp; unread = frames })
        × GivesMac configuration.mtu mac resp
  unfolding vpnkit_handshake read_command
  vpnkit_handshake_lem mac echoes answers given six =
      let command = op ∷ (uuid ++ pad) in
      let size : length command ≡ 41 = omega (arith, length-append uuid pad, uuid_long, pad_long) in
      let named : take 36 (uuid ++ pad) ≡ uuid = rw (← uuid_long) (take-length_append uuid pad) in
      let first : read_full 49 (init ++ (command ++ frames)) ≡ some (init, command ++ frames) =
        rw (← long) (read_full-append init (command ++ frames)) in
      let second : read_full 41 (command ++ frames) ≡ some (command, frames) =
        rw (← size) (read_full-append command frames) in
      (
        response configuration.mtu mac,
        rw (first, vpnkit_handshake)
            (simp echoes (rw (second, read_command) (rw named (rw given (simp answers refl))))),
        response-GivesMac configuration.mtu mac six,
      )

-- A random MAC address is that of one machine and of no vendor, whatever the random bytes are, and it
-- has all their other bits.
pub random_mac_lem :
    (env : VpnkitEnv) (configuration : Configuration) (uuid : Text) (b : ℕ) (buf : Text)
    → lookup uuid configuration.vpnkit_uuid_mac_addresses ≡ none
    → env.random 6 ≡ some (b ∷ buf)
    → (head : ℕ) × (mac_addr env configuration uuid ≡ some (head ∷ buf))
      × (head % 4 ≡ 2)
      × (head / 4 ≡ b / 4)
unfolding mac_addr random_mac
random_mac_lem env configuration uuid b buf new bytes =
    let (head, e, bits, rest) = local_unicast_lem b buf in
    (head, rw (new, mac_addr) (rw (bytes, random_mac) (ap some e)), bits, rest)
