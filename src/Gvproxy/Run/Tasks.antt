-- ===== src/Gvproxy/Run/Tasks.antt =====
-- Which goroutines run of cmd/gvproxy/main.go has started when it returns.
use gvisor_tap_vsock.Base.{
  ℕ, zero, suc, ◌+◌, ◌≡◌, ◌≢◌, refl, sym, ap, ◌∙◌, Bool, true, false, arith, none, some, List, [],
  ◌∷◌, ◌++◌, Text, if◌then◌else◌, length, append_assoc, get_elem?, drop, Bool-cases, inl, inr,
}
use gvisor_tap_vsock.Gvproxy.Options.{Options, Strconv}
use gvisor_tap_vsock.Gvproxy.Main.{set_to, MainEnv, main, runs}
use gvisor_tap_vsock.Gvproxy.Main.Checks.{main_runs}
use gvisor_tap_vsock.Gvproxy.Run.{
  Source, url, unix_socket, Task, serve_endpoint, accept_vpnkit, accept_qemu, accept_bess,
  accept_vfkit, serve_gateway, log_traffic, accept_stdio, ssh_forward, RunError, no_network,
  cannot_serve_gateway, index_out_of_range, RunEnv, Run, ◌then_run◌, starts, http_serve,
  gateway_address, until_done, serve_endpoints, accept_socket, has_scheme, start_forward,
  start_forwards, run,
}

-- All of these tasks are started, or the first of them and there is an error that is no panic.
abbrev pub Follows : Run → List Task → Type 0
Follows (none, tasks) plan = tasks ≡ plan
Follows (some e, tasks) plan =
    (e ≢ index_out_of_range) × ((rest : List Task) × (tasks ++ rest ≡ plan))

then_run-Follows :
    (a b : Run) (xs ys : List Task)
    → Follows a xs
    → Follows b ys
    → Follows (a then_run b) (xs ++ ys)
then_run-Follows (some e, tasks) b xs ys (calm, (rest, h)) k =
    (calm, (rest ++ ys, sym (append_assoc tasks rest ys) ∙ ap (λ (t : List Task). t ++ ys) h))
then_run-Follows (none, tasks) (none, later) xs ys h k = rw (h, k) refl
then_run-Follows (none, tasks) (some e, later) xs ys h (calm, (rest, k)) =
    (calm, (rest, append_assoc tasks later rest ∙ rw (h, k) refl))

starts-Follows :
    (ok : Bool) (e : RunError) (tasks : List Task)
    → e ≢ index_out_of_range
    → Follows (starts ok e tasks) tasks
starts-Follows true e tasks calm = refl
starts-Follows false e tasks calm = (calm, (tasks, refl))

-- A part of run with its plan
abbrev Part : Type 0
Part = (r : Run) × (tasks : List Task) × Follows r tasks

abbrev also : Part → Part → Part
also (a, xs, h) (b, ys, k) = (a then_run b, xs ++ ys, then_run-Follows a b xs ys h k)

abbrev pub source_of : Text → Source
source_of socket = if has_scheme socket then url socket else unix_socket socket

-- The forwards by position
abbrev pub forwards_plan : List Text → List Text → List Text → List Text → List Task
forwards_plan (s ∷ ss) (p ∷ ps) (u ∷ us) (i ∷ is) =
    ssh_forward (record { source = source_of s; user = u; path = p; identity = i; removed = s })
    ∷ forwards_plan ss ps us is
forwards_plan _ _ _ _ = []

abbrev pub if_set : Text → List Task → List Task
if_set socket tasks = if set_to socket then tasks else []

abbrev pub endpoints_plan : List Text → List Task
endpoints_plan [] = []
endpoints_plan (endpoint ∷ endpoints) =
    http_serve endpoint (serve_endpoint endpoint) ++ endpoints_plan endpoints

-- What run is to start, in order
abbrev pub plan : Options → List Task
plan o =
    endpoints_plan o.endpoints
    ++ (http_serve gateway_address serve_gateway
        ++ ((if o.debug then log_traffic ∷ [] else [])
            ++ (if_set o.vpnkit_socket (accept_vpnkit o.vpnkit_socket ∷ [])
                ++ (if_set o.qemu_socket (until_done o.qemu_socket (accept_qemu o.qemu_socket))
                    ++ (if_set o.bess_socket (until_done o.bess_socket (accept_bess o.bess_socket))
                        ++ (if_set o.vfkit_socket
                              (until_done o.vfkit_socket (accept_vfkit o.vfkit_socket))
                            ++ (if_set o.stdio_socket (accept_stdio ∷ [])
                                ++ forwards_plan o.forward_socket o.forward_dest o.forward_user
                                    o.forward_identify)))))))

at :
    (i : ℕ) (xs rest : List Text) (x : Text)
    → drop i xs ≡ x ∷ rest
    → (get_elem? xs i ≡ some x) × (drop (suc i) xs ≡ rest)
at zero [] rest x h = absurd (cc)
at zero (y ∷ ys) rest x h = ground (arith, h)
at (suc i) [] rest x h = absurd (cc)
at (suc i) (y ∷ ys) rest x h = at i ys rest x h

serve_endpoints-Follows :
    (env : RunEnv) (endpoints : List Text)
    → Follows (serve_endpoints env endpoints) (endpoints_plan endpoints)
unfolding serve_endpoints
serve_endpoints-Follows env [] = refl
serve_endpoints-Follows env (endpoint ∷ endpoints) =
    then_run-Follows
      (starts (env.listens endpoint) _ (http_serve endpoint (serve_endpoint endpoint)))
      (serve_endpoints env endpoints) (http_serve endpoint (serve_endpoint endpoint))
      (endpoints_plan endpoints)
      (starts-Follows (env.listens endpoint) _ (http_serve endpoint (serve_endpoint endpoint))
        (λ e. cc))
      (serve_endpoints-Follows env endpoints)

accept_socket-Follows :
    (listens : Text → Bool) (socket : Text) (tasks : List Task)
    → Follows (accept_socket listens socket tasks) (if_set socket tasks)
unfolding accept_socket
accept_socket-Follows listens [] tasks = refl
accept_socket-Follows listens (c ∷ s) tasks = starts-Follows (listens (c ∷ s)) _ tasks (λ e. cc)

abbrev socket : (Text → Bool) → Text → List Task → Part
socket listens path tasks =
    (accept_socket listens path tasks, if_set path tasks, accept_socket-Follows listens path tasks)

network-Follows : (b : Bool) → Follows (if b then (none, []) else (some no_network, [])) []
network-Follows true = refl
network-Follows false = ((λ e. cc), ([], refl))

gateway-Follows :
    (b : Bool)
    → Follows
        (starts b cannot_serve_gateway (http_serve gateway_address serve_gateway))
        (http_serve gateway_address serve_gateway)
gateway-Follows b = starts-Follows b cannot_serve_gateway _ (λ e. cc)

module _ (env : RunEnv) (o : Options) where
  start_forward-Follows :
      (i : ℕ) (s p u n : Text)
      → get_elem? o.forward_dest i ≡ some p
      → get_elem? o.forward_user i ≡ some u
      → get_elem? o.forward_identify i ≡ some n
      → Follows (start_forward env o i s) (forwards_plan (s ∷ []) (p ∷ []) (u ∷ []) (n ∷ []))
  unfolding start_forward
  start_forward-Follows i s p u n hp hu hn =
      rw (hp, hu, hn)
        (elim (Bool-cases (has_scheme s)) [
          | inr plain ↦ rw plain refl
          | inl scheme ↦ rw scheme (elim (Bool-cases (env.parses_url s)) [
            | inl good ↦ rw good refl
            | inr bad ↦ rw bad ((λ e. cc), (_, refl))
          ])
        ])

  start_forwards-Follows :
      (i : ℕ) (sockets ps us ns : List Text)
      → drop i o.forward_dest ≡ ps
      → drop i o.forward_user ≡ us
      → drop i o.forward_identify ≡ ns
      → length sockets ≡ length ps
      → length sockets ≡ length us
      → length sockets ≡ length ns
      → Follows (start_forwards env o i sockets) (forwards_plan sockets ps us ns)
  unfolding start_forwards
  start_forwards-Follows i [] ps us ns hp hu hn lp lu ln = refl
  start_forwards-Follows i (s ∷ ss) (p ∷ ps) (u ∷ us) (n ∷ ns) hp hu hn lp lu ln =
      let (p_at, p_rest) = at i o.forward_dest ps p hp in
      let (u_at, u_rest) = at i o.forward_user us u hu in
      let (n_at, n_rest) = at i o.forward_identify ns n hn in
      let next : i + 1 ≡ suc i = omega arith in
      then_run-Follows (start_forward env o i s) (start_forwards env o (i + 1) ss)
        (forwards_plan (s ∷ []) (p ∷ []) (u ∷ []) (n ∷ [])) (forwards_plan ss ps us ns)
        (start_forward-Follows i s p u n p_at u_at n_at)
        (rw next (
          start_forwards-Follows (suc i) ss ps us ns p_rest u_rest n_rest (omega (arith, lp))
            (omega (arith, lu)) (omega (arith, ln))))
  start_forwards-Follows i (s ∷ ss) _ _ _ hp hu hn lp lu ln = absurd (omega (arith, lp, lu, ln))

  -- The lists of forwards are as long as each other.
  pub run-Follows :
      length o.forward_socket ≡ length o.forward_dest
      → length o.forward_socket ≡ length o.forward_user
      → length o.forward_socket ≡ length o.forward_identify
      → Follows (run env o) (plan o)
  unfolding run
  run-Follows dests users identities =
      (also (_, [], network-Follows env.new_network)
        (also (serve_endpoints env o.endpoints, _, serve_endpoints-Follows env o.endpoints)
          (also (_, http_serve gateway_address serve_gateway, gateway-Follows env.network_listens)
            (also ((none, if o.debug then log_traffic ∷ [] else []), _, refl)
              (also (socket env.listens o.vpnkit_socket (accept_vpnkit o.vpnkit_socket ∷ [])) (
                also
                  (socket env.listens o.qemu_socket
                    (until_done o.qemu_socket (accept_qemu o.qemu_socket)))
                  (also
                    (socket env.listens o.bess_socket
                      (until_done o.bess_socket (accept_bess o.bess_socket)))
                    (also
                      (socket env.listens_unixgram o.vfkit_socket
                        (until_done o.vfkit_socket (accept_vfkit o.vfkit_socket)))
                      (also ((none, if_set o.stdio_socket (accept_stdio ∷ [])), _, refl)
                        (
                          start_forwards env o 0 o.forward_socket,
                          _,
                          start_forwards-Follows 0 o.forward_socket o.forward_dest o.forward_user
                              o.forward_identify refl refl refl dests users identities,
                        )))))))))).2

-- Whenever main goes on to run, on any command line and whatever then fails, run does not index a list
-- of forwards out of range, and it starts the goroutines of the plan in order: all of them if it
-- returns nil, the first of them if it returns an error.
pub run-main :
    (lib : Strconv) (main_env : MainEnv) (env : RunEnv) (args : List Text) (o : Options)
    (protocol : Text) (left : Bool)
    → main lib main_env args ≡ runs o protocol left
    → Follows (run env o) (plan o)
run-main lib main_env env args o protocol left h =
    let (read, checked, there) = main_runs lib main_env args o protocol left h in
    let (dests, users, identities, exist) = checked.4 in run-Follows env o dests users identities
