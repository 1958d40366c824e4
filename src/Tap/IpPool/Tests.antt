-- ===== src/Tap/IpPool/Tests.antt =====
-- The pool on concrete data: the scenario of pkg/tap/ip_pool_test.go, and the theorems at instances.
use gvisor_tap_vsock.Base.{
  ℕ, ◌≤◌, ◌<◌, ◌≡◌, refl, ◌≢◌, ◌↔◌, arith, none, some, List, [], ◌∷◌, Text, codes, text_eq, lookup,
  insert, delete,
}
use gvisor_tap_vsock.GoNet.{GoNet, IpNet, HostsAreAddresses}
use gvisor_tap_vsock.Tap.IpPool.{
  IpPool, new_ip_pool, find_ip, free_host, get_or_assign, release, leases_copy,
}
use gvisor_tap_vsock.Tap.IpPool.Search.{Taken}
use gvisor_tap_vsock.Tap.IpPool.Leases.{IsValid, new_ip_pool-IsValid}
use gvisor_tap_vsock.Tap.IpPool.Assign.{get_or_assign_fails}
use gvisor_tap_vsock.Tap.IpPool.History.{Call, assigns, releases, run, run-IsValid, lease_lasts}

-- An address is printed as it is, and host i of a network is the network's bytes followed by i.
abbrev plain_net : GoNet
plain_net = record {
  ip_string = λ ip. ip;
  parse_ip = λ t. t;
  mask_ones = λ mask. 8;
  address_count = λ base. 4;
  host = λ base i. some (i ∷ base.ip);
}

abbrev ten : IpNet
ten = record { ip = 0 ∷ 0 ∷ 10 ∷ []; mask = 255 ∷ 0 ∷ 0 ∷ 0 ∷ [] }

abbrev host_ip : ℕ → Text
host_ip i = i ∷ 0 ∷ 0 ∷ 10 ∷ []

plain_hosts : HostsAreAddresses plain_net ten
plain_hosts i ip h = (refl, λ e. ground arith)

abbrev pool : IpPool
pool = record { base = ten; count = 4; leases = [] }

pool-IsValid : IsValid plain_net pool
unfolding new_ip_pool
pool-IsValid = new_ip_pool-IsValid plain_net ten

abbrev mac1 : Text
mac1 = codes "mac1"

abbrev mac2 : Text
mac2 = codes "mac2"

abbrev leased : IpPool
leased = record pool { leases = (host_ip 1, mac1) ∷ (host_ip 2, mac2) ∷ [] }

leased_runs : run plain_net pool (assigns mac1 ∷ assigns mac1 ∷ assigns mac2 ∷ []) ≡ leased
unfolding run get_or_assign find_ip free_host lookup insert
leased_runs = refl

reassigned : (get_or_assign plain_net (release leased mac1) (codes "mac3")).0 ≡ some (host_ip 1)
unfolding get_or_assign release find_ip free_host lookup insert delete
reassigned = refl

copied : leases_copy leased ≡ leased.leases
unfolding leases_copy insert
copied = refl

leased-IsValid : IsValid plain_net leased
leased-IsValid = rw (← leased_runs) (
    run-IsValid plain_net ten plain_hosts pool (assigns mac1 ∷ assigns mac1 ∷ assigns mac2 ∷ [])
      pool-IsValid refl)

third : (get_or_assign plain_net leased (codes "mac3")).0 ≡ some (host_ip 3)
unfolding get_or_assign find_ip free_host lookup
third = refl

abbrev full : IpPool
full = record leased { count = 3 }

full-IsValid : IsValid plain_net full
full-IsValid = record {
  keys = leased-IsValid.keys;
  macs = leased-IsValid.macs;
  addresses = leased-IsValid.addresses;
}

get_or_assign_fails_example :
    (((get_or_assign plain_net full (codes "mac3")).0 ≡ none) ↔ (
      ((ip : Text) → lookup ip full.leases ≢ some (codes "mac3"))
      × ((i : ℕ) → 1 ≤ i → i < 3 → Taken plain_net ten full.leases i)))
    × ((get_or_assign plain_net full (codes "mac3")).0 ≡ none
        → (get_or_assign plain_net full (codes "mac3")).1 ≡ full)
get_or_assign_fails_example =
    get_or_assign_fails plain_net full (codes "mac3") full-IsValid plain_hosts

abbrev others : List Call
others = releases mac2 ∷ assigns (codes "mac3") ∷ assigns mac1 ∷ []

lease_lasts_example :
    (get_or_assign plain_net (run plain_net leased others) mac1
      ≡ (some (host_ip 1), run plain_net leased others))
    × ((get_or_assign plain_net (run plain_net leased others) mac2).0 ≢ some (host_ip 1))
unfolding lookup
lease_lasts_example =
    lease_lasts plain_net ten plain_hosts leased others (host_ip 1) mac1 mac2 (host_ip 1)
      (λ e. ground arith) refl leased-IsValid refl
      (λ e. ground arith, (λ e. ground arith, (λ e. ground arith, tt))) refl
