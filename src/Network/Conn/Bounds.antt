-- ===== src/Network/Conn/Bounds.antt =====
-- The port of an address that is dialled.
use gvisor_tap_vsock.Base.{
  ℕ, ◌%◌, ◌^◌, ◌<◌, ◌≡◌, refl, sym, ap, ◌∙◌, inl, inr, arith, some, Text, codes, text_eq, ◌==◌,
  ==_iff, Option-cases, Bool-cases,
}
use native.Mathlib.Nat.{mod-eq_of_lt}
use gvisor_tap_vsock.Services.Forwarder.Address.{FullAddress, unsigned}
use gvisor_tap_vsock.Network.Conn.{
  ConnEnv, parse_uint16, split_ip_port, Split, fails, ip_port, address, target_of, dial,
}

parse_uint16-lt :
    (s : Text) (n : ℕ) → parse_uint16 s ≡ some n → (unsigned s ≡ some n) × (n < 2 ^ 16)
unfolding parse_uint16
parse_uint16-lt s n e = elim (Option-cases (unsigned s)) [
  | inl bad ↦ ground arith
  | inr (m, read) ↦ ground arith
]

split_ip_port-ip_port :
    (env : ConnEnv) (network addr ip : Text) (n : ℕ)
    → split_ip_port env network addr ≡ ip_port ip n
    → (host : Text) × (port : Text) × (network ≡ codes "tcp")
      × (env.split_host_port addr ≡ some (host, port))
      × (parse_uint16 port ≡ some n)
      × (env.parse_ip host ≡ some ip)
unfolding split_ip_port
split_ip_port-ip_port env network addr ip n e = elim (Bool-cases (network == codes "tcp")) [
  | inr other ↦ ground arith
  | inl tcp ↦ elim (Option-cases (env.split_host_port addr)) [
    | inl bad ↦ ground arith
    | inr ((host, port), split) ↦ elim (Option-cases (parse_uint16 port)) [
      | inl bad ↦ ground arith
      | inr (m, read) ↦ elim (Option-cases (env.parse_ip host)) [
        | inl bad ↦ ground arith
        | inr (x, parsed) ↦
            (host, port, (==_iff network (codes "tcp")).0 tcp, split, ground arith, ground arith)
      ]
    ]
  ]
]

target_of-address :
    (env : ConnEnv) (s : Split) (a : FullAddress)
    → target_of env s ≡ address a
    → (ip : Text) × (n : ℕ) × (s ≡ ip_port ip n)
      × (env.to4 ip ≡ some a.addr)
      × (n % 2 ^ 16 ≡ a.port)
target_of-address env (fails x) a e = absurd (cc)
target_of-address env (ip_port ip n) a e = elim (Option-cases (env.to4 ip)) [
  | inl bad ↦ ground arith
  | inr (x, read) ↦ (ip, n, refl, ground arith, ground arith)
]

-- An address that Dial or Listen uses is that of the text: the network is tcp, the host is an IPv4
-- address, and the port is the number that the text spells, which no conversion has cut.
pub dial-address :
    (env : ConnEnv) (network addr : Text) (a : FullAddress)
    → dial env network addr ≡ address a
    → (host : Text) × (port : Text) × (ip : Text) × (network ≡ codes "tcp")
      × (env.split_host_port addr ≡ some (host, port))
      × (unsigned port ≡ some a.port)
      × (env.parse_ip host ≡ some ip)
      × (env.to4 ip ≡ some a.addr)
unfolding dial
dial-address env network addr a e =
    let (ip, n, split, four, cut) = target_of-address env (split_ip_port env network addr) a e in
    let (host, port, tcp, parts, number, parsed) =
      split_ip_port-ip_port env network addr ip n split in
    let (spelled, small) = parse_uint16-lt port n number in
    let whole : n ≡ a.port = sym (mod-eq_of_lt small) ∙ cut in
    (host, port, ip, tcp, parts, spelled ∙ ap some whole, parsed, four)
