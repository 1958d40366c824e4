-- ===== src/Tap/IpPool/Assign.antt =====
-- What GetOrAssign returns, and what it changes.
use gvisor_tap_vsock.Base.{
  ℕ, ◌-◌, ◌≤◌, ◌<◌, ◌≡◌, ap, ◌∙◌, ◌≢◌, inl, inr, ◌↔◌, arith, Option, none, some, Text, text_eq,
  lookup, lookup-insert, ==_iff, lookup-insert_self,
}
use native.Mathlib.Decide.{dec_lt}
use native.Mathlib.Nat.{le_antisymm}
use gvisor_tap_vsock.GoNet.{GoNet, Ip, HostsAreAddresses}
use gvisor_tap_vsock.Tap.IpPool.{IpPool, find_ip, get_or_assign, reserve}
use gvisor_tap_vsock.Tap.IpPool.Search.{
  Taken, lookup-find_ip, find_ip-ne-none, find_ip-eq_of_lookup, free_host-some, free_host-none,
  free_host-Taken,
}
use gvisor_tap_vsock.Tap.IpPool.Leases.{IsValid, reserve-IsValid, get_or_assign_cases}

module _ (net : GoNet) (p : IpPool) (mac : Text) (v : IsValid net p)
    (hosts : HostsAreAddresses net p.base) where
  -- Every branch of GetOrAssign keeps the pool valid.
  pub get_or_assign-IsValid : IsValid net (get_or_assign net p mac).1
  get_or_assign-IsValid = elim (get_or_assign_cases net p mac) [
    | inl (ip, found, e) ↦ rw e v
    | inr (fresh, inl (full, e)) ↦ rw e v
    | inr (fresh, inr (ip, free, e)) ↦
        let (n, l, u, at, vacant, below) =
          free_host-some net p.base p.leases (p.count - 1) 1 ip free in
        rw e (reserve-IsValid net p ip mac v (hosts n ip at) fresh)
  ]

  -- On a valid pool, the address that GetOrAssign returns is then leased to the MAC address that asked for it, and
  -- no lease that there was before is changed or lost.
  pub get_or_assign_leases :
      (ip : Ip)
      → (get_or_assign net p mac).0 ≡ some ip
      → (lookup (net.ip_string ip) (get_or_assign net p mac).1.leases ≡ some mac)
        × ((other owner : Text)
            → lookup other p.leases ≡ some owner
            → lookup other (get_or_assign net p mac).1.leases ≡ some owner)
  get_or_assign_leases ip r = elim (get_or_assign_cases net p mac) [
    | inl (t, found, e) ↦
        let same : net.parse_ip t ≡ ip = cc (ap (λ (x : Option Ip × IpPool). x.0) e) in
        let held = lookup-find_ip mac t p.leases v.keys found in
        rw (e, ← same, (v.addresses t mac held).0) (held, λ other owner h. h)
    | inr (fresh, inl (full, e)) ↦ absurd (cc (ap (λ (x : Option Ip × IpPool). x.0) e))
    | inr (fresh, inr (c, free, e)) ↦
        let same : c ≡ ip = cc (ap (λ (x : Option Ip × IpPool). x.0) e) in
        let (n, l, u, at, vacant, below) =
          free_host-some net p.base p.leases (p.count - 1) 1 c free in
        rw (e, ← same)
          (unfold reserve in
            (
              lookup-insert_self (net.ip_string c) mac p.leases,
              λ other owner h. ground (
                arith,
                lookup-insert (net.ip_string c) other mac p.leases,
                ==_iff (net.ip_string c) other,
              ),
            ))
  ]

  -- A MAC address that holds a lease gets that address, and the pool is left as it is.
  pub get_or_assign_held :
      (ip : Text)
      → lookup ip p.leases ≡ some mac
      → get_or_assign net p mac ≡ (some (net.parse_ip ip), p)
  get_or_assign_held ip h = elim (get_or_assign_cases net p mac) [
    | inl (t, found, e) ↦
        let same : t ≡ ip = cc (find_ip-eq_of_lookup mac ip p.leases v.macs h) in
        e ∙ ap (λ (x : Text). let r : Option Ip × IpPool = (some (net.parse_ip x), p) in r) same
    | inr (fresh, _) ↦ absurd (find_ip-ne-none mac ip p.leases h fresh)
  ]

  -- On a valid pool GetOrAssign fails exactly if the MAC address has no lease and each of the hosts
  -- 1 to count - 1 has no address or a leased one; the pool is then left as it is.
  pub get_or_assign_fails :
      (((get_or_assign net p mac).0 ≡ none) ↔ (
        ((ip : Text) → lookup ip p.leases ≢ some mac)
        × ((i : ℕ) → 1 ≤ i → i < p.count → Taken net p.base p.leases i)))
      × ((get_or_assign net p mac).0 ≡ none → (get_or_assign net p mac).1 ≡ p)
  get_or_assign_fails = elim (get_or_assign_cases net p mac) [
    | inl (t, found, e) ↦
        let held = lookup-find_ip mac t p.leases v.keys found in
        ((λ r. absurd (cc (result e)), λ h. absurd (h.0 t held)), λ r. state e)
    | inr (fresh, inl (full, e)) ↦ (
      (
        λ r. (
          λ ip h. find_ip-ne-none mac ip p.leases h fresh,
          λ i l u. free_host-none net p.base p.leases (p.count - 1) 1 full i l (omega arith),
        ),
        λ h. result e,
      ),
      λ r. state e,
    )
    | inr (fresh, inr (c, free, e)) ↦ (
      (
        λ r. absurd (cc (result e)),
        λ h. absurd (
            cc (
              free_host-Taken net p.base p.leases (p.count - 1) 1
                (λ k l u. h.1 k l (omega arith)))),
      ),
      λ r. absurd (cc (result e)),
    )
  ]
    where
      result :
          {r : Option Ip × IpPool} → get_or_assign net p mac ≡ r → (get_or_assign net p mac).0 ≡ r.0
      result e = ap (λ (x : Option Ip × IpPool). x.0) e

      state :
          {r : Option Ip × IpPool} → get_or_assign net p mac ≡ r → (get_or_assign net p mac).1 ≡ r.1
      state e = ap (λ (x : Option Ip × IpPool). x.1) e

  not_both :
      (n : ℕ) (ip : Ip)
      → net.host p.base n ≡ some ip
      → lookup (net.ip_string ip) p.leases ≡ none
      → ¬ Taken net p.base p.leases n
  not_both n ip at vacant (inl e) = cc
  not_both n ip at vacant (inr (c, e, held)) = let same : c ≡ ip = cc in held (rw same vacant)

  -- On a valid pool a MAC address without a lease gets the first host from 1 to count - 1 that is not
  -- taken, if there is one, the last address of the network included, and the
  -- address is reserved for it.
  pub get_or_assign_first :
      (n : ℕ) (ip : Ip)
      → find_ip mac p.leases ≡ none
      → 1 ≤ n
      → n < p.count
      → net.host p.base n ≡ some ip
      → lookup (net.ip_string ip) p.leases ≡ none
      → ((k : ℕ) → 1 ≤ k → k < n → Taken net p.base p.leases k)
      → get_or_assign net p mac ≡ (some ip, reserve net p ip mac)
  get_or_assign_first n ip fresh l u at vacant below = elim (get_or_assign_cases net p mac) [
    | inl (t, found, e) ↦ absurd (cc)
    | inr (_, inl (full, e)) ↦ absurd (
        not_both n ip at vacant
          (free_host-none net p.base p.leases (p.count - 1) 1 full n l (omega arith)))
    | inr (_, inr (c, free, e)) ↦
        let (m, l', u', at', vacant', below') =
          free_host-some net p.base p.leases (p.count - 1) 1 c free in
        let same_number : m ≡ n =
          le_antisymm
            (elim (dec_lt n m) [
              | yes h ↦ absurd (not_both n ip at vacant (below' n l h))
              | no h ↦ omega arith
            ])
            (elim (dec_lt m n) [
              | yes h ↦ absurd (not_both m c at' vacant' (below m l' h))
              | no h ↦ omega arith
            ]) in
        let same : c ≡ ip = cc in rw same at e
  ]
