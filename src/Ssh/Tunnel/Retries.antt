-- ===== src/Ssh/Tunnel/Retries.antt =====
-- The retries of connectForward end, and find a tunnel if there is one.
use gvisor_tap_vsock.Base.{
  ℕ, zero, suc, ◌+◌, ◌-◌, ◌*◌, ◌≤◌, ◌<◌, ◌≡◌, refl, ◌≢◌, ◌⊎◌, inl, inr, Bool, true, false, arith,
  Option, none, some, List, ltb, not, ◌||◌, length, length-append, Bool-cases, Option-cases,
}
use gvisor_tap_vsock.Ssh.Tunnel.{
  TunnelEnv, Called, Tunnelled, forwarded, out_of_fuel, reconnect_loop, revive, next_retry,
  after_revive, tunnel_loop, connect_forward,
}

add-zero : (i : ℕ) → i + 0 ≡ i
add-zero i = omega arith

add_suc : (i j : ℕ) → i + 1 + j ≡ i + suc j
add_suc i j = omega arith

module _ (env : TunnelEnv) where
  -- With fuel for the attempts that are left, the inner loop ends and makes no more than these.
  reconnect_loop_ends :
      (retries fuel tries : ℕ)
      → 4 ≤ fuel + tries
      → tries < 4
      → ((reconnect_loop env retries fuel tries).0 ≢ none)
        × (length (reconnect_loop env retries fuel tries).1 ≤ 4 - tries)
  unfolding reconnect_loop
  reconnect_loop_ends retries zero tries h l = absurd (omega (arith, h, l))
  reconnect_loop_ends retries (suc fuel) tries h l =
      elim (Bool-cases (env.reconnects retries tries)) [
        | inl r ↦ rw (r, reconnect_loop) (λ e. cc, omega (arith, l))
        | inr r ↦ elim (Bool-cases (ltb 2 tries || not (env.sleeps_between retries tries))) [
          | inl s ↦ rw (r, reconnect_loop) (rw (s, reconnect_loop) (λ e. cc, omega (arith, l)))
          | inr s ↦
              let small : tries < 3 = ground (arith, s) in
              let (ends, few) =
                reconnect_loop_ends retries fuel (tries + 1) (omega (arith, h))
                  (omega (arith, small)) in
              rw (r, reconnect_loop) (rw (s, reconnect_loop) (ends, omega (arith, few, small)))
        ]
      ]

  revive_ends :
      (retries : ℕ) → ((revive env retries).0 ≢ none) × (length (revive env retries).1 ≤ 3)
  unfolding revive
  revive_ends retries = elim (Bool-cases (env.answers retries)) [
    | inl a ↦ rw (a, revive) (λ e. cc, omega arith)
    | inr a ↦ rw (a, revive) (reconnect_loop_ends retries 3 1 (omega arith) (omega arith))
  ]

  -- The calls of a round and of the rounds after it.
  after_revive_ends :
      (revived : Option Bool × List Called) (next : Tunnelled × List Called) (n : ℕ)
      → revived.0 ≢ none
      → length revived.1 ≤ 3
      → next.0 ≢ out_of_fuel
      → length next.1 ≤ n
      → ((after_revive revived next).0 ≢ out_of_fuel)
        × (length (after_revive revived next).1 ≤ 3 + n)
  after_revive_ends (none, calls) next n r few ends short = absurd (r refl)
  after_revive_ends (some false, calls) next n r few ends short = (λ e. cc, omega (arith, few))
  after_revive_ends (some true, calls) next n r few ends short =
      (ends, omega (arith, few, short, length-append calls next.1))

  tunnel_loop_ends :
      (fuel retries : ℕ)
      → 4 ≤ fuel + retries
      → 1 ≤ fuel
      → ((tunnel_loop env fuel retries).0 ≢ out_of_fuel)
        × (length (tunnel_loop env fuel retries).1 ≤ 4 * fuel - 3)
  unfolding tunnel_loop
  tunnel_loop_ends zero retries h l = absurd (omega (arith, l))
  tunnel_loop_ends (suc fuel) retries h l = elim (Option-cases (env.dials retries)) [
    | inr (conn, d) ↦ rw (d, tunnel_loop) (λ e. cc, omega arith)
    | inl d ↦ elim (Bool-cases (ltb 2 retries)) [
      | inl t ↦ rw (d, tunnel_loop) (rw (t, tunnel_loop) (λ e. cc, omega arith))
      | inr t ↦
          let small : retries < 3 = ground (arith, t) in
          let next : retries < next_retry env retries = ground (arith, small) in
          let (revived, few) = revive_ends retries in
          let (ends, short) =
            tunnel_loop_ends fuel (next_retry env retries) (omega (arith, h, next))
              (omega (arith, h, small)) in
          let (ends', short') =
            after_revive_ends (revive env retries) (tunnel_loop env fuel (next_retry env retries))
              (4 * fuel - 3) revived few ends short in
          rw (d, tunnel_loop) (rw (t, tunnel_loop) (ends', omega (arith, short', h, small)))
    ]
  ]

  -- connectForward always returns, after at most nine calls of Dial and Reconnect.
  pub connect_forward_ends :
      ((connect_forward env).0 ≢ out_of_fuel) × (length (connect_forward env).1 ≤ 9)
  unfolding connect_forward
  connect_forward_ends = tunnel_loop_ends 3 1 (omega arith) (omega arith)

  -- The SSH connection answers, or the first attempt to renew it succeeds.
  abbrev pub Revives : ℕ → Type 0
  Revives retries = (env.answers retries ≡ true) ⊎ (env.reconnects retries 1 ≡ true)

  revive-Revives : (retries : ℕ) → Revives retries → (revive env retries).0 ≡ some true
  unfolding revive reconnect_loop
  revive-Revives retries (inl a) = rw (a, revive) refl
  revive-Revives retries (inr r) = elim (Bool-cases (env.answers retries)) [
    | inl a ↦ rw (a, revive) refl
    | inr a ↦ rw (a, revive) (rw (r, reconnect_loop) refl)
  ]

  after_revive_next :
      (revived : Option Bool × List Called) (next : Tunnelled × List Called)
      → revived.0 ≡ some true
      → (after_revive revived next).0 ≡ next.0
  after_revive_next (none, calls) next r = absurd (cc)
  after_revive_next (some false, calls) next r = absurd (cc)
  after_revive_next (some true, calls) next r = refl

  tunnel_loop_connects :
      (fuel retries k conn : ℕ)
      → k < fuel
      → retries + k < 4
      → ((j : ℕ)
          → j < k
          → (env.dials (retries + j) ≡ none)
            × Revives (retries + j)
            × (env.sleeps (retries + j) ≡ true))
      → env.dials (retries + k) ≡ some conn
      → (tunnel_loop env fuel retries).0 ≡ forwarded conn
  unfolding tunnel_loop
  tunnel_loop_connects zero retries k conn l h fails works = absurd (omega (arith, l))
  tunnel_loop_connects (suc fuel) retries zero conn l h fails works =
      let works' : env.dials retries ≡ some conn = rw (add-zero retries) at works in
      rw (works', tunnel_loop) refl
  tunnel_loop_connects (suc fuel) retries (suc k) conn l h fails works =
      let (fails', lives, sleeps) = rw (add-zero retries) at (fails 0 (omega arith)) in
      let early : ltb 2 retries ≡ false = ground (arith, h) in
      let next : next_retry env retries ≡ retries + 1 = ground (arith, sleeps) in
      rw (fails', tunnel_loop)
        (rw (early, tunnel_loop)
          (rw
            (after_revive_next (revive env retries) (tunnel_loop env fuel (next_retry env retries))
              (revive-Revives retries lives))
            (rw next (
              tunnel_loop_connects fuel (retries + 1) k conn (omega (arith, l)) (omega (arith, h))
                (λ j lt. rw (add_suc retries j) (fails (suc j) (omega (arith, lt))))
                (rw (add_suc retries k) works)))))

  -- If Dial succeeds at the first, second or third attempt, and at each attempt before it the SSH
  -- connection answers or is renewed at once and the context is not done, its result is returned.
  pub connect_forward_connects :
      (k conn : ℕ)
      → k < 3
      → ((j : ℕ)
          → j < k
          → (env.dials (1 + j) ≡ none) × Revives (1 + j) × (env.sleeps (1 + j) ≡ true))
      → env.dials (1 + k) ≡ some conn
      → (connect_forward env).0 ≡ forwarded conn
  unfolding connect_forward
  connect_forward_connects k conn l fails works =
      tunnel_loop_connects 3 1 k conn l (omega (arith, l)) fails works
