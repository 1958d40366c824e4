-- ===== src/Ssh/Initial.antt =====
-- initialConnection and backOff of pkg/sshclient/ssh_forwarder.go: the first connection to the SSH
-- server, which may not listen yet.
pub mod Waits
use gvisor_tap_vsock.Base.{
  ℕ, zero, suc, ◌+◌, ◌*◌, Bool, true, false, Option, none, some, List, [], ◌∷◌, nat_eq, ◌==◌,
  if◌then◌else◌, ltb,
}

-- time.Duration counts nanoseconds.
abbrev pub millisecond : ℕ
millisecond = 1000000

abbrev pub second : ℕ
second = 1000000000

-- backOff
unfoldable pub back_off : ℕ → ℕ
back_off delay =
    let doubled = if delay == 0 then 5 * millisecond else delay * 2 in
    if ltb second doubled then second else doubled

-- What happens outside, by the number of the round: whether ctx.Done() is closed at its start, and
-- what the callback connects to, none for an error.
pub record DialEnv : Type 0 where
  pub context_done : ℕ → Bool
  pub connects : ℕ → Option ℕ

-- The two results of initialConnection: a connection; an error; or, of a context that is done before
-- the first call, neither.
pub data Dialed : Type 0 where
  connected : ℕ → Dialed
  refused neither : Dialed

-- The loop, from round `i`: the rounds left, the delay and the results of the round before; and the
-- delays that it sleeps for, if the context is not done meanwhile.
unfoldable pub initial_loop : DialEnv → ℕ → ℕ → ℕ → Dialed → Dialed × List ℕ
initial_loop env zero i backoff last = (last, [])
initial_loop env (suc rounds) i backoff last = elim (env.context_done i) [
  | true ↦ (last, [])
  | false ↦ elim (env.connects i) [
    | some conn ↦ (connected conn, [])
    | none ↦
        let (result, waits) = initial_loop env rounds (i + 1) (back_off backoff) refused in
        (result, backoff ∷ waits)
  ]
]

-- initialConnection
unfoldable pub initial_connection : DialEnv → Dialed × List ℕ
unfolding initial_loop
initial_connection env = initial_loop env 60 0 (100 * millisecond) neither
