-- ===== src/Ssh/Initial/Waits.antt =====
-- How long the first connection is waited for, and when it comes about.
use gvisor_tap_vsock.Base.{
  ℕ, zero, suc, ◌+◌, ◌*◌, ◌≤◌, ◌<◌, ◌≡◌, refl, inl, inr, false, arith, none, some, List, [], ◌∷◌,
  nat_eq, length, All, Bool-cases, Option-cases,
}
use gvisor_tap_vsock.Ssh.Initial.{
  millisecond, second, back_off, DialEnv, Dialed, connected, refused, neither, initial_loop,
  initial_connection,
}

-- A delay that backOff gives is at least the one before it, and at most a second.
back_off_lem :
    (delay : ℕ)
    → 100 * millisecond ≤ delay
    → delay ≤ second
    → (100 * millisecond ≤ back_off delay) × (delay ≤ back_off delay) × (back_off delay ≤ second)
unfolding back_off
back_off_lem delay low high = (ground arith, ground arith, ground arith)

abbrev pub Between : ℕ → ℕ → ℕ → Type 0
Between low high wait = (low ≤ wait) × (wait ≤ high)

All-weaken :
    (low low' high : ℕ) (waits : List ℕ)
    → low ≤ low'
    → All (Between low' high) waits
    → All (Between low high) waits
All-weaken low low' high [] l h = tt
All-weaken low low' high (w ∷ waits) l h =
    ((omega (arith, h.0, l), h.0.1), All-weaken low low' high waits l h.1)

add-zero : (i : ℕ) → i + 0 ≡ i
add-zero i = omega arith

zero_add : (i : ℕ) → 0 + i ≡ i
zero_add i = omega arith

add_suc : (i j : ℕ) → i + 1 + j ≡ i + suc j
add_suc i j = omega arith

module _ (env : DialEnv) where
  loop_waits :
      (rounds i backoff : ℕ) (last : Dialed)
      → 100 * millisecond ≤ backoff
      → backoff ≤ second
      → (length (initial_loop env rounds i backoff last).1 ≤ rounds)
        × All (Between backoff second) (initial_loop env rounds i backoff last).1
  unfolding initial_loop
  loop_waits zero i backoff last low high = (omega arith, tt)
  loop_waits (suc rounds) i backoff last low high = elim (Bool-cases (env.context_done i)) [
    | inl d ↦ rw (d, initial_loop) (omega arith, tt)
    | inr d ↦ elim (Option-cases (env.connects i)) [
      | inr (conn, c) ↦ rw (d, initial_loop) (rw (c, initial_loop) (omega arith, tt))
      | inl c ↦
          let (low', grows, high') = back_off_lem backoff low high in
          let (fewer, waits) = loop_waits rounds (i + 1) (back_off backoff) refused low' high' in
          rw (d, initial_loop)
            (rw (c, initial_loop)
              (
                omega (arith, fewer),
                ((omega arith, high), All-weaken backoff (back_off backoff) second _ grows waits),
              ))
    ]
  ]

  -- There are at most 60 delays, each of 100 milliseconds to a second: the first connection is
  -- given up after a minute at most, besides the time that the attempts take.
  pub initial_connection_waits :
      (length (initial_connection env).1 ≤ 60)
      × All (Between (100 * millisecond) second) (initial_connection env).1
  unfolding initial_connection
  initial_connection_waits = loop_waits 60 0 (100 * millisecond) neither (omega arith) (omega arith)

  loop_connects :
      (rounds i k backoff conn : ℕ) (last : Dialed)
      → k < rounds
      → ((j : ℕ) → j ≤ k → env.context_done (i + j) ≡ false)
      → ((j : ℕ) → j < k → env.connects (i + j) ≡ none)
      → env.connects (i + k) ≡ some conn
      → (initial_loop env rounds i backoff last).0 ≡ connected conn
  unfolding initial_loop
  loop_connects zero i k backoff conn last l runs fails works = absurd (omega (arith, l))
  loop_connects (suc rounds) i zero backoff conn last l runs fails works =
      let here : env.context_done i ≡ false = rw (add-zero i) at (runs 0 (omega arith)) in
      let works' : env.connects i ≡ some conn = rw (add-zero i) at works in
      rw (here, initial_loop) (rw (works', initial_loop) refl)
  loop_connects (suc rounds) i (suc k) backoff conn last l runs fails works =
      let here : env.context_done i ≡ false = rw (add-zero i) at (runs 0 (omega arith)) in
      let fails' : env.connects i ≡ none = rw (add-zero i) at (fails 0 (omega arith)) in
      rw (here, initial_loop)
        (rw (fails', initial_loop)
          (loop_connects rounds (i + 1) k (back_off backoff) conn refused (omega (arith, l))
            (λ j le. rw (add_suc i j) (runs (suc j) (omega (arith, le))))
            (λ j lt. rw (add_suc i j) (fails (suc j) (omega (arith, lt))))
            (rw (add_suc i k) works)))

  -- If the server accepts at one of the 60 attempts, and the context is not done until then, its
  -- connection is returned.
  pub initial_connection_connects :
      (k conn : ℕ)
      → k < 60
      → ((j : ℕ) → j ≤ k → env.context_done j ≡ false)
      → ((j : ℕ) → j < k → env.connects j ≡ none)
      → env.connects k ≡ some conn
      → (initial_connection env).0 ≡ connected conn
  unfolding initial_connection
  initial_connection_connects k conn l runs fails works =
      loop_connects 60 0 k (100 * millisecond) conn neither l (λ j le. rw (zero_add j) (runs j le))
        (λ j lt. rw (zero_add j) (fails j lt)) (rw (zero_add k) works)
