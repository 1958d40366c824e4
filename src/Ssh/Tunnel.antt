-- ===== src/Ssh/Tunnel.antt =====
-- connectForward of pkg/sshclient/ssh_forwarder.go: a connection to the remote socket over the SSH
-- connection, which is renewed if it is dead.
pub mod Retries
use gvisor_tap_vsock.Base.{
  ℕ, zero, suc, ◌+◌, Bool, true, false, Option, none, some, List, [], ◌∷◌, ◌++◌, if◌then◌else◌, ltb,
  not, ◌||◌,
}

-- What happens outside, by the value of `retries` and, in the inner loop, of `bastionRetries`: what
-- bastion.Client.Dial gives, none for an error; whether the SSH connection answers a request; whether
-- Reconnect succeeds; and whether sleep lasts for its time, false if the context is done.
pub record TunnelEnv : Type 0 where
  pub dials : ℕ → Option ℕ
  pub answers : ℕ → Bool
  pub reconnects : ℕ → ℕ → Bool
  pub sleeps : ℕ → Bool
  pub sleeps_between : ℕ → ℕ → Bool

-- What has been called, oldest first
pub data Called : Type 0 where
  dial reconnect : Called

pub data Tunnelled : Type 0 where
  forwarded : ℕ → Tunnelled
  no_tunnel no_connection out_of_fuel : Tunnelled

-- for bastionRetries := 1; ; bastionRetries++: none if the fuel is used up
unfoldable pub reconnect_loop : TunnelEnv → ℕ → ℕ → ℕ → Option Bool × List Called
reconnect_loop env retries zero tries = (none, [])
reconnect_loop env retries (suc fuel) tries = elim (env.reconnects retries tries) [
  | true ↦ (some true, reconnect ∷ [])
  | false ↦ elim (ltb 2 tries || not (env.sleeps_between retries tries)) [
    | true ↦ (some false, reconnect ∷ [])
    | false ↦
        let (result, calls) = reconnect_loop env retries fuel (tries + 1) in
        (result, reconnect ∷ calls)
  ]
]

-- The check of the SSH connection after a failed Dial
unfoldable pub revive : TunnelEnv → ℕ → Option Bool × List Called
unfolding reconnect_loop
revive env retries = elim (env.answers retries) [
  | true ↦ (some true, [])
  | false ↦ reconnect_loop env retries 3 1
]

-- if !sleep(...) { retries = 3 }; retries++
abbrev pub next_retry : TunnelEnv → ℕ → ℕ
next_retry env retries = if env.sleeps retries then retries + 1 else 4

-- What follows the check: an error, or the next round
abbrev pub after_revive :
    Option Bool × List Called → Tunnelled × List Called → Tunnelled × List Called
after_revive (none, calls) next = (out_of_fuel, calls)
after_revive (some false, calls) next = (no_connection, calls)
after_revive (some true, calls) (result, later) = (result, calls ++ later)

-- for retries := 1; ; retries++
unfoldable pub tunnel_loop : TunnelEnv → ℕ → ℕ → Tunnelled × List Called
unfolding revive
tunnel_loop env zero retries = (out_of_fuel, [])
tunnel_loop env (suc fuel) retries = elim (env.dials retries) [
  | some conn ↦ (forwarded conn, dial ∷ [])
  | none ↦ elim (ltb 2 retries) [
    | true ↦ (no_tunnel, dial ∷ [])
    | false ↦
        let (result, calls) =
          after_revive (revive env retries) (tunnel_loop env fuel (next_retry env retries)) in
        (result, dial ∷ calls)
  ]
]

-- connectForward
unfoldable pub connect_forward : TunnelEnv → Tunnelled × List Called
unfolding tunnel_loop
connect_forward env = tunnel_loop env 3 1
