-- ===== src/Network/Forwards.antt =====
-- What holds once the forwards have been started.
use mathlib.Core.Path.{subst}
use gvisor_tap_vsock.Base.{
  ◌≡◌, refl, sym, ◌≢◌, inl, inr, arith, none, [], ◌∷◌, Text, codes, text_eq, nat_eq, lookup,
  lookup-insert, lookup-insert_self, All, cut_prefix, GoMap,
}
use gvisor_tap_vsock.Services.Forwarder.Ports.{
  PortsEnv, PortsForwarder, Result, done, panics, fails, new_ports_forwarder, key, expose,
}
use gvisor_tap_vsock.Services.Forwarder.Ports.Exposing.{new_proxy, expose_lem}
use gvisor_tap_vsock.Services.Forwarder.Ports.Handles.{IsValid, expose-IsValid}
use gvisor_tap_vsock.Services.Forwarder.Ports.Calls.{new_ports_forwarder-IsValid}
use gvisor_tap_vsock.Network.{unless_fails, forward_protocol, expose_all, forward_host_vm}

-- The key under which a forward is listed
abbrev pub forward_key : Text → Text
forward_key local_address =
    let (protocol, address) =
      forward_protocol local_address (cut_prefix local_address (codes "udp:")) in
    key protocol address

abbrev Lists : PortsForwarder → Text → Type 0
Lists f k = lookup k f.proxies ≢ none

module _ (env : PortsEnv) (protocol local_address remote : Text) (f : PortsForwarder) where
  -- A successful Expose lists its own key, and drops no other.
  expose-Lists :
      (k : Text)
      → (expose env protocol local_address remote f).0 ≡ done
      → Lists (expose env protocol local_address remote f).1 (key protocol local_address)
        × (Lists f k → Lists (expose env protocol local_address remote f).1 k)
  expose-Lists k d = elim (expose_lem env protocol local_address remote f) [
    | inl (e, s) ↦
        let p = new_proxy protocol local_address remote f.next_handle in
        let own = lookup-insert_self (key protocol local_address) p f.proxies in
        let other = lookup-insert (key protocol local_address) k p f.proxies in
        rw e ((λ n. cc), (λ h n. ground (arith, own, other, h, n)))
    | inr (e, same) ↦ absurd (e d)
  ]

module _ (env : PortsEnv) where
  -- Success of a chain is success of its first part and of the rest.
  chain-done :
      (r : Result × PortsForwarder) (next : PortsForwarder → Result × PortsForwarder)
      → (unless_fails r next).0 ≡ done
      → (r.0 ≡ done) × (unless_fails r next ≡ next r.1)
  chain-done (done, f) next h = (refl, refl)
  chain-done (panics, f) next h = absurd (cc)
  chain-done (fails e, f) next h = absurd (cc)

  expose_all-Lists :
      (forwards : GoMap Text Text) (f : PortsForwarder)
      → (expose_all env forwards f).0 ≡ done
      → All (λ forward. Lists (expose_all env forwards f).1 (forward_key forward.0)) forwards
        × ((k : Text) → Lists f k → Lists (expose_all env forwards f).1 k)
  unfolding expose_all
  expose_all-Lists [] f h = (tt, λ k l. l)
  expose_all-Lists ((local_address, remote) ∷ forwards) f h =
      let split = forward_protocol local_address (cut_prefix local_address (codes "udp:")) in
      let first = expose env split.0 split.1 remote f in
      let (ok, rest) = chain-done first (λ f'. expose_all env forwards f') h in
      let h' : (expose_all env forwards first.1).0 ≡ done = rw (← rest) h in
      let (listed, kept) = expose_all-Lists forwards first.1 h' in
      let lists = expose-Lists env split.0 split.1 remote f in
      subst
        (λ (r : Result × PortsForwarder).
          All (λ forward. Lists r.1 (forward_key forward.0)) ((local_address, remote) ∷ forwards)
          × ((k : Text) → Lists f k → Lists r.1 k))
        (sym rest)
        (
          (kept (forward_key local_address) (lists [] ok).0, listed),
          λ k l. kept k ((lists k ok).1 l),
        )

  expose_all-IsValid :
      (forwards : GoMap Text Text) (f : PortsForwarder)
      → IsValid f
      → IsValid (expose_all env forwards f).1
  unfolding expose_all
  expose_all-IsValid [] f v = v
  expose_all-IsValid ((local_address, remote) ∷ forwards) f v =
      let split = forward_protocol local_address (cut_prefix local_address (codes "udp:")) in
      go (expose env split.0 split.1 remote f) (expose-IsValid env split.0 split.1 remote f v)
        (λ f' v'. expose_all-IsValid forwards f' v')
    where
      go :
          (r : Result × PortsForwarder)
          → IsValid r.1
          → ((f' : PortsForwarder) → IsValid f' → IsValid (expose_all env forwards f').1)
          → IsValid (unless_fails r (λ f'. expose_all env forwards f')).1
      go (done, f') w k = k f' w
      go (panics, f') w k = w
      go (fails e, f') w k = w

  -- If the configured forwards are started without an error, every one of them is listed by the
  -- forwarder, under UDP if its local address begins with "udp:" and under TCP otherwise, and every
  -- listed proxy holds an open listener of its own.
  pub forward_host_vm_lem :
      (forwards : GoMap Text Text)
      → (forward_host_vm env forwards).0 ≡ done
      → All
          (λ forward.
            lookup (forward_key forward.0) (forward_host_vm env forwards).1.proxies ≢ none)
          forwards
        × IsValid (forward_host_vm env forwards).1
  unfolding forward_host_vm
  forward_host_vm_lem forwards h = (
    (expose_all-Lists forwards new_ports_forwarder h).0,
    expose_all-IsValid forwards new_ports_forwarder new_ports_forwarder-IsValid,
  )
