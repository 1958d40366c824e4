-- ===== src/GoNet.antt =====
-- The functions of Go's package net and of go-cidr that the code calls, as one record of parameters.
use gvisor_tap_vsock.Base.{ℕ, ◌≡◌, ◌≢◌, [], Option, some, Text}

-- net.IP is a byte slice; nil and the empty slice behave alike.
abbrev pub Ip : Type 0
Ip = Text

pub record IpNet : Type 0 where
  pub ip : Ip
  pub mask : Text

pub record GoNet : Type 0 where
  -- net.IP.String
  pub ip_string : Ip → Text
  -- net.ParseIP, the empty slice on a text that is no address
  pub parse_ip : Text → Ip
  -- the first result of net.IPMask.Size
  pub mask_ones : Text → ℕ
  -- cidr.AddressCount
  pub address_count : IpNet → ℕ
  -- cidr.Host, none on an error
  pub host : IpNet → ℕ → Option Ip

-- The text is the print of an address: ParseIP reads it, and printing gives the same text back.
abbrev pub IsAddress : GoNet → Text → Type 0
IsAddress net t = (net.ip_string (net.parse_ip t) ≡ t) × (t ≢ [])

-- What cidr.Host returns is printed as an address.
abbrev pub HostsAreAddresses : GoNet → IpNet → Type 0
HostsAreAddresses net base =
    (i : ℕ) (ip : Ip) → net.host base i ≡ some ip → IsAddress net (net.ip_string ip)
