-- ===== src/Services/Forwarder/Ports/Calls.antt =====
-- Sequences of calls of Expose and Unexpose.
use gvisor_tap_vsock.Base.{
  ℕ, ◌+◌, ◌≡◌, refl, ap, ◌≢◌, inl, inr, true, arith, none, some, List, [], ◌∷◌, ◌++◌, Text, text_eq,
  nat_eq, ◌==◌, ==_refl, if◌then◌else◌, lookup, insert, delete, lookup-insert, lookup-insert_self,
  lookup-delete, Option-cases, All,
}
use gvisor_tap_vsock.Services.Forwarder.Ports.{
  Proxy, PortsEnv, PortsForwarder, Result, done, key, expose, expose_protocol, close_listener,
  close_proxy, unexpose, new_ports_forwarder,
}
use gvisor_tap_vsock.Services.Forwarder.Ports.Exposing.{new_proxy, started, expose_lem}
use gvisor_tap_vsock.Services.Forwarder.Ports.Handles.{
  IsValid, Holds, Holds-Below, close_listener-Below, started_cases, expose-IsValid,
  unexpose-IsValid,
}

pub data Call : Type 0 where
  exposes : Text → Text → Text → Call
  unexposes : Text → Text → Call

-- The forwarder after a call, whatever it returned
unfoldable pub call : PortsEnv → PortsForwarder → Call → PortsForwarder
call env f (exposes protocol local_address remote_address) =
    (expose env protocol local_address remote_address f).1
call env f (unexposes protocol local_address) = (unexpose env protocol local_address f).1

unfoldable pub run : PortsEnv → PortsForwarder → List Call → PortsForwarder
run env f [] = f
run env f (c ∷ calls) = run env (call env f c) calls

pub new_ports_forwarder-IsValid : IsValid new_ports_forwarder
unfolding lookup
new_ports_forwarder-IsValid = record {
  below = tt;
  own_key = λ k p e. absurd (cc);
  holds = λ k p e. absurd (cc);
  apart = λ k k' p p' e. absurd (cc);
}

run-IsValid :
    (env : PortsEnv) (f : PortsForwarder) (calls : List Call)
    → IsValid f
    → IsValid (run env f calls)
unfolding run call
run-IsValid env f [] v = v
run-IsValid env f (exposes p l r ∷ calls) v =
    run-IsValid env (expose env p l r f).1 calls (expose-IsValid env p l r f v)
run-IsValid env f (unexposes p l ∷ calls) v =
    run-IsValid env (unexpose env p l f).1 calls (unexpose-IsValid env p l f v)

-- Whatever Expose and Unexpose calls were made from the start, and whatever failed in them, every
-- listed proxy stands under the key of its protocol and local address, holds a listener that is
-- open, and shares it with no other proxy.
pub run_holds : (env : PortsEnv) (calls : List Call) → IsValid (run env new_ports_forwarder calls)
run_holds env calls = run-IsValid env new_ports_forwarder calls new_ports_forwarder-IsValid

All-middle : (xs ys : Text) (c : ℕ) → All (λ x. x ≢ c) (xs ++ c ∷ ys) → c ≢ c
All-middle [] ys c h = h.0
All-middle (x ∷ xs) ys c h = All-middle xs ys c h.1

module _ (env : PortsEnv) (protocol local_address remote_address : Text) (f : PortsForwarder)
    (v : IsValid f) where
  exposed :
      (expose env protocol local_address remote_address f).0 ≡ done
      → expose env protocol local_address remote_address f
        ≡ (done, started protocol local_address remote_address f)
  exposed d = elim (expose_lem env protocol local_address remote_address f) [
    | inl (e, s) ↦ e
    | inr (e, same) ↦ absurd (e d)
  ]

  listed :
      lookup (key protocol local_address) (started protocol local_address remote_address f).proxies
      ≡ some (new_proxy protocol local_address remote_address f.next_handle)
  listed =
      lookup-insert_self (key protocol local_address)
        (new_proxy protocol local_address remote_address f.next_handle) f.proxies

  closed :
      close_listener f.next_handle (started protocol local_address remote_address f).open_listeners
      ≡ f.open_listeners
  unfolding close_listener
  closed = rw (==_refl f.next_handle) (close_listener-Below f.next_handle f.open_listeners v.below)

  unexpose-started :
      env.closes f.next_handle ≡ true
      → unexpose env protocol local_address (started protocol local_address remote_address f) ≡ (
        done,
        record f {
          proxies =
              delete
                (key protocol local_address)
                (started protocol local_address remote_address f).proxies;
          open_listeners = f.open_listeners;
          next_handle = f.next_handle + 1;
        },
      )
  unfolding unexpose close_proxy
  unexpose-started c = rw (listed, unexpose) (rw (c, closed) refl)

-- Expose followed by Unexpose of the same protocol and local address
abbrev pub expose_then_unexpose :
    PortsEnv → Text → Text → Text → PortsForwarder → Result × PortsForwarder
expose_then_unexpose env protocol local_address remote_address f =
    unexpose env protocol local_address (expose env protocol local_address remote_address f).1

-- Two calls of Expose for the same protocol and local address
abbrev pub expose_twice :
    PortsEnv → Text → Text → Text → Text → PortsForwarder → Result × PortsForwarder
expose_twice env protocol local_address remote_address remote' f =
    expose env protocol local_address remote' (expose env protocol local_address remote_address f).1

module _ (env : PortsEnv) (protocol local_address remote_address : Text) (f : PortsForwarder)
    (v : IsValid f) where
  -- Unexpose after a successful Expose on a valid forwarder, if the listener closes: the new listener
  -- is closed and the proxy gone, the listeners that were open before are open, and the proxies of
  -- other keys are as they were.
  pub unexpose-expose :
      (k : Text)
      → (expose env protocol local_address remote_address f).0 ≡ done
      → env.closes f.next_handle ≡ true
      → ((expose_then_unexpose env protocol local_address remote_address f).0 ≡ done)
        × ((expose_then_unexpose env protocol local_address remote_address f).1.open_listeners
            ≡ f.open_listeners)
        × (lookup k (expose_then_unexpose env protocol local_address remote_address f).1.proxies
            ≡ (if key protocol local_address == k then none else lookup k f.proxies))
  unexpose-expose k d c =
      let at_key = key protocol local_address in
      let p = new_proxy protocol local_address remote_address f.next_handle in
      let gone = lookup-delete at_key k (insert at_key p f.proxies) in
      let kept = lookup-insert at_key k p f.proxies in
      rw (exposed env protocol local_address remote_address f v d) (
        rw (unexpose-started env protocol local_address remote_address f v c)
          (refl, refl, ground (arith, gone, kept)))

  -- Neither of two proxies that are started at one key in turn gives its listener to a third.
  not_held :
      (remote' : Text) (k : Text) (p : Proxy)
      → IsValid (started protocol local_address remote_address f)
      → lookup k
          (started protocol local_address remote'
            (started protocol local_address remote_address f)).proxies
        ≡ some p
      → p.underlying ≢ f.next_handle
  not_held remote' k p v' e held =
      let f' = started protocol local_address remote_address f in
      elim (started_cases protocol local_address remote' f' v' k p e) [
        | inl (same, new) ↦ let eq = ap (λ (q : Proxy). q.underlying) new in omega (arith, eq, held)
        | inr (other, old) ↦
            elim (started_cases protocol local_address remote_address f v k p old) [
              | inl (same, new) ↦ other same
              | inr (other', older) ↦
                  let lt =
                    Holds-Below p f.next_handle f.open_listeners v.below (v.holds k p older) in
                  omega (arith, lt, held)
            ]
      ]

  -- On a valid forwarder, a second Expose of the same protocol and local address that succeeds leaks
  -- the listener of the first: it stays open, and no proxy that is then listed holds it.
  pub expose-expose :
      (remote' : Text) (k : Text) (p : Proxy)
      → (expose env protocol local_address remote_address f).0 ≡ done
      → (expose_twice env protocol local_address remote_address remote' f).0 ≡ done
      → lookup k (expose_twice env protocol local_address remote_address remote' f).1.proxies
        ≡ some p
      → Holds
          (new_proxy protocol local_address remote_address f.next_handle)
          (expose_twice env protocol local_address remote_address remote' f).1.open_listeners
        × (p.underlying ≢ f.next_handle)
  expose-expose remote' k p d d' e =
      let once = exposed env protocol local_address remote_address f v d in
      let f' = started protocol local_address remote_address f in
      let v' : IsValid f' =
        rw (← ap (λ (r : Result × PortsForwarder). r.1) once)
          (expose-IsValid env protocol local_address remote_address f v) in
      let d'' = rw once at d' in
      let twice = exposed env protocol local_address remote' f' v' d'' in
      let e' = rw (once, twice) at e in
      rw (once, twice) (inr (inl (refl, refl, refl)), not_held remote' k p v' e')

  -- On a valid forwarder the test for a proxy that is running never succeeds for a local address
  -- without a slash, whether or not the address is exposed: Expose goes on with the protocol.
  pub expose_unguarded :
      All (λ c. c ≢ b'/') local_address
      → expose env protocol local_address remote_address f
        ≡ expose_protocol env protocol local_address remote_address f
  unfolding expose key
  expose_unguarded lacks = elim (Option-cases (lookup local_address f.proxies)) [
    | inl e ↦ rw (e, expose) refl
    | inr (p, e) ↦
        let same = v.own_key local_address p e in
        absurd (All-middle p.protocol p.local_address b'/' (rw (← same) at lacks) refl)
  ]
