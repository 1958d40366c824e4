-- ===== src/Services/Forwarder/Ports/Keys.antt =====
-- The map of the proxies has no key twice, as a map of Go.
use gvisor_tap_vsock.Base.{
  inl, inr, Bool-cases, Option-cases, List, [], ◌∷◌, Text, text_eq, nat_eq, lookup, KeysDistinct,
  insert-KeysDistinct, delete-KeysDistinct,
}
use gvisor_tap_vsock.Services.Forwarder.Ports.{
  PortsEnv, PortsForwarder, key, expose, unexpose, close_proxy, new_ports_forwarder,
}
use gvisor_tap_vsock.Services.Forwarder.Ports.Exposing.{new_proxy, expose_lem}
use gvisor_tap_vsock.Services.Forwarder.Ports.Calls.{Call, exposes, unexposes, call, run}

module _ (env : PortsEnv) where
  expose-KeysDistinct :
      (protocol local_address remote_address : Text) (f : PortsForwarder)
      → KeysDistinct f.proxies
      → KeysDistinct (expose env protocol local_address remote_address f).1.proxies
  expose-KeysDistinct protocol local_address remote_address f d =
      elim (expose_lem env protocol local_address remote_address f) [
        | inl (e, s) ↦ rw e (
            insert-KeysDistinct (key protocol local_address)
              (new_proxy protocol local_address remote_address f.next_handle) f.proxies d)
        | inr (e, same) ↦ rw same d
      ]

  unexpose-KeysDistinct :
      (protocol local_address : Text) (f : PortsForwarder)
      → KeysDistinct f.proxies
      → KeysDistinct (unexpose env protocol local_address f).1.proxies
  unfolding unexpose close_proxy
  unexpose-KeysDistinct protocol local_address f d =
      elim (Option-cases (lookup (key protocol local_address) f.proxies)) [
        | inl e ↦ rw (e, unexpose) d
        | inr (p, e) ↦
            let kept = delete-KeysDistinct (key protocol local_address) f.proxies d in
            elim (Bool-cases (env.closes p.underlying)) [
              | inl c ↦ rw (e, unexpose) (rw (close_proxy, c) kept)
              | inr c ↦ rw (e, unexpose) (rw (close_proxy, c) kept)
            ]
      ]

  run_keeps :
      (f : PortsForwarder) (calls : List Call)
      → KeysDistinct f.proxies
      → KeysDistinct (run env f calls).proxies
  unfolding run call
  run_keeps f [] d = d
  run_keeps f (exposes p l r ∷ calls) d =
      run_keeps (expose env p l r f).1 calls (expose-KeysDistinct p l r f d)
  run_keeps f (unexposes p l ∷ calls) d =
      run_keeps (unexpose env p l f).1 calls (unexpose-KeysDistinct p l f d)

  pub run-KeysDistinct :
      (calls : List Call) → KeysDistinct (run env new_ports_forwarder calls).proxies
  run-KeysDistinct calls = run_keeps new_ports_forwarder calls tt
