-- ===== src/Services/Forwarder/Address.antt =====
-- tcpipAddress of pkg/services/forwarder/ports.go, with what it uses of strings.Split and
-- strconv.Atoi, and what follows from it.
mod Tests
use gvisor_tap_vsock.Base.{
  ℕ, ◌+◌, ◌-◌, ◌*◌, ◌%◌, ◌^◌, ◌<◌, ◌≡◌, ◌≢◌, refl, sym, ap, ◌∙◌, Bool, true, false, arith, Option,
  none, some, List, [], ◌∷◌, ◌++◌, Text, text_eq, nat_eq, ◌==◌, ==_iff, ==_ne, if◌then◌else◌,
  length, ltb, leb, ◌||◌, inl, inr, Bool-cases, Option-cases, All,
}
use gvisor_tap_vsock.GoNet.{Ip}

-- strings.Split(s, sep) for a separator of one byte
abbrev pub before_head : ℕ → List Text → List Text
before_head c [] = (c ∷ []) ∷ []
before_head c (part ∷ parts) = (c ∷ part) ∷ parts

unfoldable pub split : ℕ → Text → List Text
split sep [] = [] ∷ []
split sep (c ∷ s) = let rest = split sep s in if c == sep then [] ∷ rest else before_head c rest

-- The number that decimal digits spell behind `n`
unfoldable pub digits_value : ℕ → Text → Option ℕ
digits_value n [] = some n
digits_value n (c ∷ s) =
    let rest = digits_value (n * 10 + (c - b'0')) s in
    if ltb c b'0' || ltb b'9' c then none else rest

-- strconv.Atoi: the sign, true for minus, and the magnitude of an int of 64 bits
abbrev pub unsigned : Text → Option ℕ
unsigned [] = none
unsigned (c ∷ s) = digits_value 0 (c ∷ s)

abbrev pub in_range : Bool → ℕ → Option ℕ → Option (Bool × ℕ)
in_range minus limit none = none
in_range minus limit (some n) = if ltb n limit then some (minus, n) else none

unfoldable pub atoi : Text → Option (Bool × ℕ)
unfolding digits_value
atoi [] = none
atoi (c ∷ s) =
    if c == b'-'
    then in_range true (2 ^ 63 + 1) (unsigned s)
    else if c == b'+'
    then in_range false (2 ^ 63) (unsigned s)
    else in_range false (2 ^ 63) (unsigned (c ∷ s))

-- The conversion of an int to uint16
abbrev pub to_uint16 : Bool × ℕ → ℕ
to_uint16 (false, n) = n % 2 ^ 16
to_uint16 (true, n) = (2 ^ 16 - n % 2 ^ 16) % 2 ^ 16

-- tcpip.FullAddress; the code always passes 1 for the network interface.
pub record FullAddress : Type 0 where
  pub nic : ℕ
  pub addr : Text
  pub port : ℕ

-- An error, an address, or the panic of tcpip.AddrFrom4Slice on what is not four bytes
pub data Parsed : Type 0 where
  invalid panics : Parsed
  address : FullAddress → Parsed

-- net.ParseIP(split[0]).To4() is a parameter: the empty slice where either gives nil.
unfoldable pub tcpip_address_of : (Text → Ip) → ℕ → List Text → Parsed
tcpip_address_of parse_ip4 nic (host ∷ port ∷ []) = elim (atoi port) [
  | none ↦ invalid
  | some n ↦
      if length (parse_ip4 host) == 4
      then address (record { nic = nic; addr = parse_ip4 host; port = to_uint16 n })
      else panics
]
tcpip_address_of parse_ip4 nic _ = invalid

-- tcpipAddress
unfoldable pub tcpip_address : (Text → Ip) → ℕ → Text → Parsed
unfolding tcpip_address_of split
tcpip_address parse_ip4 nic remote = tcpip_address_of parse_ip4 nic (split b':' remote)

abbrev pub Lacks : ℕ → Text → Type 0
Lacks sep = All (λ c. c ≢ sep)

split-ne-nil : (sep : ℕ) (s : Text) → split sep s ≢ []
unfolding split
split-ne-nil sep [] = λ e. cc
split-ne-nil sep (c ∷ s) = ground (arith, split-ne-nil sep s)

split-Lacks : (sep : ℕ) (s : Text) → Lacks sep s → split sep s ≡ s ∷ []
unfolding split
split-Lacks sep [] h = refl
split-Lacks sep (c ∷ s) h = rw (==_ne c sep h.0, split-Lacks sep s h.1)

split-append :
    (sep : ℕ) (s rest : Text) → Lacks sep s → split sep (s ++ sep ∷ rest) ≡ s ∷ split sep rest
unfolding split
split-append sep [] rest h = ground (arith, ==_iff sep sep)
split-append sep (c ∷ s) rest h = rw (==_ne c sep h.0, split-append sep s rest h.1)

module _ (parse_ip4 : Text → Ip) (nic : ℕ) (host port : Text) (h : Lacks b':' host)
    (p : Lacks b':' port) where
  parts : split b':' (host ++ b':' ∷ port) ≡ host ∷ port ∷ []
  parts = split-append b':' host port h ∙ ap (λ (r : List Text). host ∷ r) (split-Lacks b':' port p)

  -- An address `host:port` without further colons, whose port Atoi reads, is read as its host, if
  -- ParseIP gives four bytes for it, and the number modulo 2 ^ 16: no port is refused as too large.
  -- Any other host makes the call panic.
  pub tcpip_address_lem :
      (n : Bool × ℕ)
      → atoi port ≡ some n
      → tcpip_address parse_ip4 nic (host ++ b':' ∷ port) ≡ (
          if length (parse_ip4 host) == 4
          then address (record { nic = nic; addr = parse_ip4 host; port = to_uint16 n })
          else panics)
  unfolding tcpip_address
  tcpip_address_lem n e = rw (parts, tcpip_address_of) (rw (e, tcpip_address_of))
