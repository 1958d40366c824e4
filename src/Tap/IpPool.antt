-- ===== src/Tap/IpPool.antt =====
-- pkg/tap/ip_pool.go: the pool of addresses that the DHCP server leases to MAC addresses.
-- Every method holds the lock from its first line to its return, so a method is one step.
pub mod Search
pub mod Leases
pub mod Assign
pub mod History
mod Tests
use gvisor_tap_vsock.Base.{
  ℕ, zero, suc, ◌+◌, ◌-◌, Option, none, some, List, [], ◌∷◌, Text, text_eq, GoMap, lookup, insert,
  delete, ◌==◌, if◌then◌else◌,
}
use gvisor_tap_vsock.GoNet.{GoNet, Ip, IpNet}

pub record IpPool : Type 0 where
  pub base : IpNet
  pub count : ℕ
  pub leases : GoMap Text Text

-- NewIPPool
unfoldable pub new_ip_pool : GoNet → IpNet → IpPool
new_ip_pool net base = record { base = base; count = net.address_count base; leases = [] }

-- for key, value := range p.leases { leases[key] = value }
copy_leases : GoMap Text Text → GoMap Text Text → GoMap Text Text
copy_leases [] out = out
copy_leases ((ip, mac) ∷ m) out = copy_leases m (insert ip mac out)

-- Leases
unfoldable pub leases_copy : IpPool → GoMap Text Text
unfolding copy_leases
leases_copy p = copy_leases p.leases []

-- Mask
unfoldable pub mask : GoNet → IpPool → ℕ
mask net p = net.mask_ones p.base.mask

-- for ip, candidate := range p.leases: the first address that the MAC address holds
unfoldable pub find_ip : Text → GoMap Text Text → Option Text
find_ip mac [] = none
find_ip mac ((ip, candidate) ∷ m) = if candidate == mac then some ip else find_ip mac m

-- for i = 1; i < p.count; i++, with the rounds left as the first number. The conversion int(i) is
-- the identity, since AddressCount returns at most 2 ^ 63.
unfoldable pub free_host : GoNet → IpNet → GoMap Text Text → ℕ → ℕ → Option Ip
free_host net base leases zero i = none
free_host net base leases (suc rounds) i = elim (net.host base i) [
  | none ↦ free_host net base leases rounds (i + 1)
  | some candidate ↦ elim (lookup (net.ip_string candidate) leases) [
    | some _ ↦ free_host net base leases rounds (i + 1)
    | none ↦ some candidate
  ]
]

-- p.leases[candidate.String()] = mac, or the error "cannot find available IP"
unfoldable pub assign : GoNet → IpPool → Text → Option Ip → Option Ip × IpPool
assign net p mac none = (none, p)
assign net p mac (some candidate) =
    (some candidate, record p { leases = insert (net.ip_string candidate) mac p.leases })

-- GetOrAssign; none is the error
unfoldable pub get_or_assign : GoNet → IpPool → Text → Option Ip × IpPool
unfolding assign
get_or_assign net p mac = elim (find_ip mac p.leases) [
  | some ip ↦ (some (net.parse_ip ip), p)
  | none ↦ assign net p mac (free_host net p.base p.leases (p.count - 1) 1)
]

-- Reserve
unfoldable pub reserve : GoNet → IpPool → Ip → Text → IpPool
reserve net p ip mac = record p { leases = insert (net.ip_string ip) mac p.leases }

-- Release: an empty key stands for "not found"
unfoldable pub release : IpPool → Text → IpPool
release p given = elim (find_ip given p.leases) [
  | none ↦ p
  | some [] ↦ p
  | some (c ∷ found) ↦ record p { leases = delete (c ∷ found) p.leases }
]
