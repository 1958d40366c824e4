-- ===== src/Tap/IpPool/History.antt =====
-- Leases over any sequence of GetOrAssign and Release.
use gvisor_tap_vsock.Base.{
  ◌≡◌, refl, sym, ap, ◌∙◌, ◌≢◌, inl, inr, ◌↔◌, false, arith, none, some, List, [], ◌∷◌, Text,
  text_eq, lookup, delete, All, lookup-delete, ==_iff, ◌==◌, Option-cases, Bool-cases,
}
use gvisor_tap_vsock.GoNet.{GoNet, Ip, IpNet, HostsAreAddresses}
use gvisor_tap_vsock.Tap.IpPool.{IpPool, find_ip, get_or_assign, release}
use gvisor_tap_vsock.Tap.IpPool.Search.{lookup-find_ip, find_ip-ne-none, find_ip-eq_of_lookup}
use gvisor_tap_vsock.Tap.IpPool.Leases.{IsValid, release-IsValid}
use gvisor_tap_vsock.Tap.IpPool.Assign.{
  get_or_assign-IsValid, get_or_assign_fails, get_or_assign_leases, get_or_assign_held,
}

module _ (net : GoNet) (p : IpPool) (given : Text) (v : IsValid net p) where
  -- Release deletes the one lease of the MAC address.
  release_held :
      (ip : Text)
      → lookup ip p.leases ≡ some given
      → release p given ≡ record p { leases = delete ip p.leases }
  unfolding release
  release_held [] h = absurd ((v.addresses [] given h).1 refl)
  release_held (c ∷ ip) h = rw (find_ip-eq_of_lookup given (c ∷ ip) p.leases v.macs h, release)

  release_unknown : find_ip given p.leases ≡ none → release p given ≡ p
  unfolding release
  release_unknown e = rw (e, release)

  -- After Release, on a valid pool, the MAC address holds no lease, and all others hold the leases that they held.
  pub release_lem :
      ((ip : Text) → lookup ip (release p given).leases ≢ some given)
      × ((ip owner : Text)
          → owner ≢ given
          → (lookup ip (release p given).leases ≡ some owner) ↔ (lookup ip p.leases ≡ some owner))
  release_lem = elim (Option-cases (find_ip given p.leases)) [
    | inl e ↦
        rw (release_unknown e)
          (λ ip h. find_ip-ne-none given ip p.leases h e, λ ip owner ne. (λ h. h, λ h. h))
    | inr (t, e) ↦
        let held = lookup-find_ip given t p.leases v.keys e in
        rw (release_held t held) (
          λ ip h.
              let other : (t == ip) ≡ false = ground (arith, lookup-delete t ip p.leases) in
              let before : lookup ip p.leases ≡ some given =
                ground (arith, lookup-delete t ip p.leases) in
              let same : t ≡ ip = cc (e, find_ip-eq_of_lookup given ip p.leases v.macs before) in
              ground (arith, ==_iff t ip),
          λ ip owner ne. (
            λ h. ground (arith, lookup-delete t ip p.leases),
            λ h. elim (Bool-cases (t == ip)) [
              | inl same ↦ let e' : t ≡ ip = (==_iff t ip).0 same in absurd (ne (cc))
              | inr differ ↦ rw (lookup-delete t ip p.leases, differ) h
            ],
          ),
        )
  ]

pub data Call : Type 0 where
  assigns releases : Text → Call

unfoldable pub step : GoNet → IpPool → Call → IpPool
step net p (assigns mac) = (get_or_assign net p mac).1
step net p (releases mac) = release p mac

unfoldable pub run : GoNet → IpPool → List Call → IpPool
unfolding step
run net p [] = p
run net p (c ∷ calls) = run net (step net p c) calls

pub lookup-get_or_assign :
    (net : GoNet) (p : IpPool) (asking : Text)
    → IsValid net p
    → HostsAreAddresses net p.base
    → (ip mac : Text) → lookup ip p.leases ≡ some mac
    → lookup ip (get_or_assign net p asking).1.leases ≡ some mac
lookup-get_or_assign net p asking v hosts ip mac h =
    elim (Option-cases (get_or_assign net p asking).0) [
      | inl failed ↦ rw ((get_or_assign_fails net p asking v hosts).1 failed) h
      | inr (a, got) ↦ (get_or_assign_leases net p asking v hosts a got).1 ip mac h
    ]

pub base-step : (net : GoNet) (p : IpPool) (c : Call) → (step net p c).base ≡ p.base
unfolding step get_or_assign release
base-step net p (assigns mac) = ground arith
base-step net p (releases mac) = ground arith

module _ (net : GoNet) (base : IpNet) (hosts : HostsAreAddresses net base) where
  step-IsValid :
      (p : IpPool) (c : Call) → IsValid net p → p.base ≡ base → IsValid net (step net p c)
  unfolding step
  step-IsValid p (assigns mac) v e = get_or_assign-IsValid net p mac v (rw e hosts)
  step-IsValid p (releases mac) v e = release-IsValid net p mac v

  -- Any sequence of GetOrAssign and Release calls keeps a pool valid: one lease for an address, one
  -- address for a MAC address, and every key the text of an address; provided that the hosts of the
  -- network print as addresses.
  pub run-IsValid :
      (p : IpPool) (calls : List Call)
      → IsValid net p
      → p.base ≡ base
      → IsValid net (run net p calls)
  unfolding run
  run-IsValid p [] v e = v
  run-IsValid p (c ∷ calls) v e =
      run-IsValid (step net p c) calls (step-IsValid p c v e) (base-step net p c ∙ e)

  lookup-step :
      (p : IpPool) (c : Call) (ip mac : Text)
      → IsValid net p
      → p.base ≡ base
      → c ≢ releases mac
      → lookup ip p.leases ≡ some mac
      → lookup ip (step net p c).leases ≡ some mac
  unfolding step
  lookup-step p (assigns other) ip mac v e ne h =
      lookup-get_or_assign net p other v (rw e hosts) ip mac h
  lookup-step p (releases other) ip mac v e ne h =
      ((release_lem net p other v).1 ip mac (λ same. ne (ap releases (sym same)))).1 h

  -- A lease lasts until its holder releases it. From a valid pool, over any calls of GetOrAssign and
  -- Release that do not release the leases of the MAC address, the MAC address is then given the
  -- address of its lease, which changes nothing, and no other MAC address is given that address.
  pub lease_lasts :
      (p : IpPool) (calls : List Call) (ip mac other : Text) (a : Ip)
      → other ≢ mac
      → net.ip_string a ≡ ip
      → IsValid net p
      → p.base ≡ base
      → All (λ c. c ≢ releases mac) calls
      → lookup ip p.leases ≡ some mac
      → (get_or_assign net (run net p calls) mac ≡ (some (net.parse_ip ip), run net p calls))
        × ((get_or_assign net (run net p calls) other).0 ≢ some a)
  unfolding run
  lease_lasts p [] ip mac other a ne same v e kept h = (
    get_or_assign_held net p mac v (rw e hosts) ip h,
    λ got.
        let (mine, others) = get_or_assign_leases net p other v (rw e hosts) a got in
        let again = others ip mac h in let mine' = rw same at mine in ne (cc),
  )
  lease_lasts p (c ∷ calls) ip mac other a ne same v e kept h =
      lease_lasts (step net p c) calls ip mac other a ne same (step-IsValid p c v e)
        (base-step net p c ∙ e) kept.1 (lookup-step p c ip mac v e kept.0 h)
