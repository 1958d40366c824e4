-- ===== src/Network/Pool/Leases.antt =====
-- The gateway and the static leases keep their addresses, whatever the machines ask for.
use gvisor_tap_vsock.Base.{
  ◌≡◌, refl, ap, ◌≢◌, Option, none, some, List, [], ◌∷◌, Text, text_eq, ◌==◌, ==_iff, ==_refl,
  GoMap, lookup, insert, lookup-insert, All, Bool-cases, inl, inr,
}
use gvisor_tap_vsock.GoNet.{GoNet, Ip, IpNet, IsAddress, HostsAreAddresses}
use gvisor_tap_vsock.Tap.IpPool.{IpPool, new_ip_pool, find_ip, get_or_assign, reserve}
use gvisor_tap_vsock.Tap.IpPool.Leases.{IsValid, new_ip_pool-IsValid, reserve-IsValid}
use gvisor_tap_vsock.Tap.IpPool.History.{Call, releases, run, lease_lasts}
use gvisor_tap_vsock.Network.Pool.{Configuration, reserve_all, new_pool}

-- Each of the leases is of an address, and neither its address nor its MAC address is in the leases
-- before it.
abbrev pub Fresh : GoNet → GoMap Text Text → GoMap Text Text → Type 0
Fresh net [] leases = Unit
Fresh net ((ip, mac) ∷ m) leases =
    IsAddress net ip
    × (find_ip mac leases ≡ none)
    × (lookup ip leases ≡ none)
    × Fresh net m (insert ip mac leases)

-- The leases of a configuration, that of the gateway first
abbrev pub configured : Configuration → GoMap Text Text
configured c = (c.gateway_ip, c.gateway_mac_address) ∷ c.dhcp_static_leases

module _ (net : GoNet) where
  leases-reserve :
      (p : IpPool) (ip mac : Text)
      → IsAddress net ip
      → (reserve net p (net.parse_ip ip) mac).leases ≡ insert ip mac p.leases
  unfolding reserve
  leases-reserve p ip mac named = rw named.0 refl

  reserve_all-IsValid :
      (m : GoMap Text Text) (p : IpPool)
      → IsValid net p
      → Fresh net m p.leases
      → IsValid net (reserve_all net m p)
  unfolding reserve_all
  reserve_all-IsValid [] p v fresh = v
  reserve_all-IsValid ((ip, mac) ∷ m) p v (named, new_mac, new_ip, later) =
      reserve_all-IsValid m (reserve net p (net.parse_ip ip) mac)
        (reserve-IsValid net p (net.parse_ip ip) mac v (rw named.0 named) new_mac)
        (rw (leases-reserve p ip mac named) later)

  base-reserve_all : (m : GoMap Text Text) (p : IpPool) → (reserve_all net m p).base ≡ p.base
  unfolding reserve_all reserve
  base-reserve_all [] p = refl
  base-reserve_all ((ip, mac) ∷ m) p = base-reserve_all m (reserve net p (net.parse_ip ip) mac)

  -- What is leased stays so.
  lookup-reserve_all_kept :
      (m : GoMap Text Text) (p : IpPool) (ip mac : Text)
      → Fresh net m p.leases
      → lookup ip p.leases ≡ some mac
      → lookup ip (reserve_all net m p).leases ≡ some mac
  unfolding reserve_all
  lookup-reserve_all_kept [] p ip mac fresh h = h
  lookup-reserve_all_kept ((j, other) ∷ m) p ip mac (named, new_mac, new_ip, later) h =
      lookup-reserve_all_kept m (reserve net p (net.parse_ip j) other) ip mac
        (rw (leases-reserve p j other named) later)
        (rw (leases-reserve p j other named) (elim (Bool-cases (j == ip)) [
          | inl same ↦ let e : j ≡ ip = (==_iff j ip).0 same in absurd (cc)
          | inr differ ↦ rw (lookup-insert j ip other p.leases, differ) h
        ]))

  lookup-reserve_all :
      (m : GoMap Text Text) (p : IpPool) (ip mac : Text)
      → Fresh net m p.leases
      → lookup ip m ≡ some mac
      → lookup ip (reserve_all net m p).leases ≡ some mac
  unfolding reserve_all lookup
  lookup-reserve_all [] p ip mac fresh h = absurd (cc)
  lookup-reserve_all ((j, other) ∷ m) p ip mac (named, new_mac, new_ip, later) h =
      elim (Bool-cases (j == ip)) [
        | inl same ↦
            let mine : some other ≡ some mac = rw (← h, same) refl in
            lookup-reserve_all_kept m (reserve net p (net.parse_ip j) other) ip mac
              (rw (leases-reserve p j other named) later)
              (rw (leases-reserve p j other named, lookup-insert j ip other p.leases, same) mine)
        | inr differ ↦
            lookup-reserve_all m (reserve net p (net.parse_ip j) other) ip mac
              (rw (leases-reserve p j other named) later) (rw (← h, differ) refl)
      ]

  -- All of them are leased.
  reserve_all-leases :
      (m : GoMap Text Text) (p : IpPool)
      → Fresh net m p.leases
      → All (λ lease. lookup lease.0 (reserve_all net m p).leases ≡ some lease.1) m
  unfolding reserve_all
  reserve_all-leases [] p fresh = tt
  reserve_all-leases ((ip, mac) ∷ m) p (named, new_mac, new_ip, later) =
      let p' = reserve net p (net.parse_ip ip) mac in
      let fresh : Fresh net m p'.leases = rw (leases-reserve p ip mac named) later in
      let leased : lookup ip p'.leases ≡ some mac =
        rw (leases-reserve p ip mac named, lookup-insert ip ip mac p.leases, ==_refl ip) refl in
      (lookup-reserve_all_kept m p' ip mac fresh leased, reserve_all-leases m p' fresh)

  -- The pool of a configuration leases the addresses of its network, and of these the configured ones.
  pub new_pool_leases :
      (subnet : IpNet) (c : Configuration)
      → Fresh net (configured c) []
      → ((new_pool net c subnet).base ≡ subnet)
        × All (λ lease. lookup lease.0 (new_pool net c subnet).leases ≡ some lease.1) (configured c)
  unfolding new_pool reserve_all new_ip_pool
  new_pool_leases subnet c fresh = (
    base-reserve_all (configured c) (new_ip_pool net subnet),
    reserve_all-leases (configured c) (new_ip_pool net subnet) fresh,
  )

module _ (net : GoNet) (subnet : IpNet) (c : Configuration) (hosts : HostsAreAddresses net subnet)
    (fresh : Fresh net (configured c) []) where
  new_pool-reserve_all :
      new_pool net c subnet ≡ reserve_all net (configured c) (new_ip_pool net subnet)
  unfolding new_pool reserve_all
  new_pool-reserve_all = refl

  new_pool-IsValid : IsValid net (new_pool net c subnet)
  new_pool-IsValid = rw new_pool-reserve_all (
      reserve_all-IsValid net (configured c) (new_ip_pool net subnet)
        (new_ip_pool-IsValid net subnet) (unfold new_ip_pool in fresh))

  -- In a network whose configuration has no address and no MAC address twice among the gateway and the
  -- static leases, each of these MAC addresses is given its configured address whenever it asks, and no
  -- other MAC address is ever given it, whatever machines ask for addresses and release them, as long
  -- as the lease itself is not released. The configured addresses and the hosts of the network print as
  -- addresses.
  pub new_pool_keeps :
      (calls : List Call) (ip mac other : Text) (a : Ip)
      → lookup ip (configured c) ≡ some mac
      → All (λ call. call ≢ releases mac) calls
      → other ≢ mac
      → net.ip_string a ≡ ip
      → ((get_or_assign net (run net (new_pool net c subnet) calls) mac).0 ≡ some (net.parse_ip ip))
        × ((get_or_assign net (run net (new_pool net c subnet) calls) other).0 ≢ some a)
  unfolding new_ip_pool
  new_pool_keeps calls ip mac other a h kept ne same =
      let leased : lookup ip (new_pool net c subnet).leases ≡ some mac =
        rw new_pool-reserve_all
          (lookup-reserve_all net (configured c) (new_ip_pool net subnet) ip mac fresh h) in
      let base : (new_pool net c subnet).base ≡ subnet =
        rw new_pool-reserve_all (base-reserve_all net (configured c) (new_ip_pool net subnet)) in
      let (mine, others) =
        lease_lasts net subnet hosts (new_pool net c subnet) calls ip mac other a ne same
          new_pool-IsValid base kept leased in
      (ap (λ (r : Option Ip × IpPool). r.0) mine, others)
