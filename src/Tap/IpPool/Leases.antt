-- ===== src/Tap/IpPool/Leases.antt =====
-- What the methods of the pool do to the leases.
use gvisor_tap_vsock.Base.{
  ◌-◌, ◌≡◌, refl, ◌⊎◌, inl, inr, arith, Option, none, some, [], ◌∷◌, Text, text_eq, lookup,
  KeysDistinct, lookup-insert, lookup-delete, ==_iff, Option-cases, insert-KeysDistinct,
  delete-KeysDistinct,
}
use gvisor_tap_vsock.GoNet.{GoNet, Ip, IpNet, IsAddress}
use gvisor_tap_vsock.Tap.IpPool.{
  IpPool, new_ip_pool, find_ip, free_host, assign, get_or_assign, reserve, release,
}
use gvisor_tap_vsock.Tap.IpPool.Search.{MacsDistinct, insert-MacsDistinct, delete-MacsDistinct}

-- One lease for an address, one address for a MAC address, and every key is an address.
pub record IsValid (net : GoNet) (p : IpPool) : Type 0 where
  pub keys : KeysDistinct p.leases
  pub macs : MacsDistinct p.leases
  pub addresses : (ip mac : Text) → lookup ip p.leases ≡ some mac → IsAddress net ip

pub new_ip_pool-IsValid : (net : GoNet) (base : IpNet) → IsValid net (new_ip_pool net base)
unfolding new_ip_pool lookup
new_ip_pool-IsValid net base = record { keys = tt; macs = tt; addresses = λ ip mac h. absurd (cc) }

-- Reserve keeps a pool valid if the MAC address holds no lease and the text of the address is read
-- back as that address, also if another MAC address holds it.
pub reserve-IsValid :
    (net : GoNet) (p : IpPool) (ip : Ip) (mac : Text)
    → IsValid net p
    → IsAddress net (net.ip_string ip)
    → find_ip mac p.leases ≡ none
    → IsValid net (reserve net p ip mac)
unfolding reserve
reserve-IsValid net p ip mac v named fresh = record {
  keys = insert-KeysDistinct (net.ip_string ip) mac p.leases v.keys;
  macs = insert-MacsDistinct (net.ip_string ip) mac p.leases fresh v.macs;
  addresses = λ j other h. ground (
    arith,
    lookup-insert (net.ip_string ip) j mac p.leases,
    ==_iff (net.ip_string ip) j,
    v.addresses j other,
  );
}

pub release-IsValid :
    (net : GoNet) (p : IpPool) (given : Text) → IsValid net p → IsValid net (release p given)
unfolding release
release-IsValid net p given v = go (find_ip given p.leases) refl
  where
    go : (o : Option Text) → find_ip given p.leases ≡ o → IsValid net (release p given)
    go none e = rw (e, release) v
    go (some []) e = rw (e, release) v
    go (some (c ∷ found)) e =
        rw (e, release)
          (record {
            keys = delete-KeysDistinct (c ∷ found) p.leases v.keys;
            macs = delete-MacsDistinct (c ∷ found) p.leases v.macs;
            addresses = λ j other h.
                ground (arith, lookup-delete (c ∷ found) j p.leases, v.addresses j other);
          })

module _ (net : GoNet) (p : IpPool) (mac : Text) where
  -- The three ways through GetOrAssign.
  pub get_or_assign_cases :
      ((ip : Text) × (find_ip mac p.leases ≡ some ip)
        × (get_or_assign net p mac ≡ (some (net.parse_ip ip), p)))
      ⊎ ((find_ip mac p.leases ≡ none)
          × ((free_host net p.base p.leases (p.count - 1) 1 ≡ none)
                × (get_or_assign net p mac ≡ (none, p))
              ⊎ ((ip : Ip) × (free_host net p.base p.leases (p.count - 1) 1 ≡ some ip)
                  × (get_or_assign net p mac ≡ (some ip, reserve net p ip mac)))))
  unfolding get_or_assign reserve
  get_or_assign_cases = elim (Option-cases (find_ip mac p.leases)) [
    | inr (ip, e) ↦ inl (ip, e, rw (e, get_or_assign))
    | inl e ↦ inr (
      e,
      elim (Option-cases (free_host net p.base p.leases (p.count - 1) 1)) [
        | inl f ↦ inl (f, rw (e, get_or_assign) (rw (f, assign)))
        | inr (ip, f) ↦ inr (ip, f, rw (e, get_or_assign) (rw (f, assign)))
      ],
    )
  ]
