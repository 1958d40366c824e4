-- ===== src/Gvproxy/Main/Checks.antt =====
-- What main of cmd/gvproxy/main.go guarantees to run.
use gvisor_tap_vsock.Base.{
  ℕ, ◌≤◌, ◌≡◌, ◌⊎◌, inl, inr, refl, sym, ap, ◌∙◌, Bool, true, false, arith, Option, none, some,
  List, [], ◌∷◌, Text, codes, text_eq, nat_eq, not, length, All, ==_iff, Bool-cases, Option-cases,
}
use gvisor_tap_vsock.Gvproxy.Options.{
  ℤ, pos, negsuc, Options, Strconv, parse, parsed, usage_error, helped, default_options, Parsed,
}
use gvisor_tap_vsock.Gvproxy.Main.{
  Url, MainEnv, MainError, refuse, set_to, ◌then_check◌, check_qemu, check_scheme, check_exclusive,
  check_ssh_port, check_forwards, check_identities, check, create_pid_file, runs, main, after_check,
  after_parse, start, exits,
}

-- No socket, or a URL of this scheme at a path where there is no file
abbrev pub Free : MainEnv → Text → Text → Type 0
Free env scheme socket =
    (set_to socket ≡ false)
    ⊎ ((uri : Url) × (env.parse_url socket ≡ some uri)
        × (uri.scheme ≡ scheme)
        × (env.stat uri.path ≡ false))

abbrev pub Forwardable : MainEnv → Options → Type 0
Forwardable env o =
    (length o.forward_socket ≡ length o.forward_dest)
    × (length o.forward_socket ≡ length o.forward_user)
    × (length o.forward_socket ≡ length o.forward_identify)
    × All (λ identity. env.stat identity ≡ true) o.forward_identify

abbrev pub Port : ℤ → Type 0
Port n = (port : ℕ) × (n ≡ pos port) × (1024 ≤ port) × (port ≤ 65535)

-- At most one of the three sockets is set.
abbrev pub Exclusive : Options → Type 0
Exclusive o =
    ((set_to o.vpnkit_socket ≡ false)
      ⊎ ((set_to o.qemu_socket ≡ false) × (set_to o.bess_socket ≡ false)))
    × ((set_to o.qemu_socket ≡ false) ⊎ (set_to o.bess_socket ≡ false))

then_check-none : (a b : Option MainError) → a then_check b ≡ none → (a ≡ none) × (b ≡ none)
then_check-none none b e = (refl, e)
then_check-none (some x) b e = absurd (cc)

check_scheme-Free :
    (env : MainEnv) (scheme socket : Text) (invalid wrong : MainError)
    → check_scheme env scheme invalid wrong socket ≡ none
    → Free env scheme socket
unfolding check_scheme
check_scheme-Free env scheme socket invalid wrong e = elim (Bool-cases (set_to socket)) [
  | inr absent ↦ inl absent
  | inl there ↦ elim (Option-cases (env.parse_url socket)) [
    | inl unread ↦ ground arith
    | inr (uri, read) ↦ inr (
      uri,
      read,
      ground (arith, ==_iff uri.scheme scheme),
      ground (arith, ==_iff uri.scheme scheme),
    )
  ]
]

check_ssh_port-Port : (n : ℤ) → check_ssh_port n ≡ none → Port n
unfolding check_ssh_port
check_ssh_port-Port (pos n) e = (n, refl, ground arith, ground arith)
check_ssh_port-Port (negsuc n) e = absurd (cc)

check_exclusive-Exclusive : (o : Options) → check_exclusive o ≡ none → Exclusive o
unfolding check_exclusive
check_exclusive-Exclusive o e = ground arith

check_identities-All :
    (env : MainEnv) (identities : List Text)
    → check_identities env identities ≡ none
    → All (λ identity. env.stat identity ≡ true) identities
unfolding check_identities
check_identities-All env [] e = tt
check_identities-All env (identity ∷ identities) e =
    let (first, later) =
      then_check-none (refuse (not (env.stat identity)) _) (check_identities env identities) e in
    (ground arith, check_identities-All env identities later)

module _ (env : MainEnv) (o : Options) where
  check_forwards-length :
      check_forwards o ≡ none
      → (length o.forward_socket ≡ length o.forward_dest)
        × (length o.forward_socket ≡ length o.forward_user)
        × (length o.forward_socket ≡ length o.forward_identify)
  unfolding check_forwards
  check_forwards-length e = ground (
    arith,
    ==_iff (length o.forward_socket) (length o.forward_dest),
    ==_iff (length o.forward_socket) (length o.forward_user),
    ==_iff (length o.forward_socket) (length o.forward_identify),
  )

  -- What holds when main goes on behind its checks
  abbrev pub Checked : Type 0
  Checked =
      Free env (codes "unixpacket") o.bess_socket
      × Free env (codes "unixgram") o.vfkit_socket
      × Exclusive o
      × Port o.ssh_port
      × Forwardable env o

  check-Checked : check env o ≡ none → Checked
  unfolding check
  check-Checked e =
      let (q, e) = then_check-none (check_qemu env o.qemu_socket) _ e in
      let (b, e) = then_check-none (check_scheme env (codes "unixpacket") _ _ o.bess_socket) _ e in
      let (v, e) = then_check-none (check_scheme env (codes "unixgram") _ _ o.vfkit_socket) _ e in
      let (x, e) = then_check-none (check_exclusive o) _ e in
      let (s, e) = then_check-none (check_ssh_port o.ssh_port) _ e in
      let (f, i) = then_check-none (check_forwards o) (check_identities env o.forward_identify) e in
      let (dests, users, identities) = check_forwards-length f in
      (
        check_scheme-Free env (codes "unixpacket") o.bess_socket _ _ b,
        check_scheme-Free env (codes "unixgram") o.vfkit_socket _ _ v,
        check_exclusive-Exclusive o x,
        check_ssh_port-Port o.ssh_port s,
        (dests, users, identities, check_identities-All env o.forward_identify i),
      )

module _ (env : MainEnv) (o : Options) (protocol : Text) (left : Bool) where
  start-runs :
      (o' : Options) (pid : Option MainError × Bool)
      → start o' pid ≡ runs o protocol left
      → (o' ≡ o) × (pid.0 ≡ none) × (pid.1 ≡ left)
  start-runs o' (some e, b) h = absurd (cc)
  start-runs o' (none, b) h = ground arith

  left_there :
      (pid_file : Text)
      → (create_pid_file env pid_file).0 ≡ none
      → (create_pid_file env pid_file).1 ≡ set_to pid_file
  unfolding create_pid_file
  left_there pid_file e = ground arith

  after_check-runs :
      (o' : Options) (checked : Option MainError)
      → after_check env o' checked ≡ runs o protocol left
      → (o' ≡ o) × (checked ≡ none) × (left ≡ set_to o'.pid_file)
  after_check-runs o' (some e) h = absurd (cc)
  after_check-runs o' none h =
      let (same, made, there) = start-runs o' (create_pid_file env o'.pid_file) h in
      (same, refl, sym there ∙ left_there o'.pid_file made)

  after_parse-runs :
      (p : Parsed)
      → after_parse env p ≡ runs o protocol left
      → (p ≡ parsed o) × Checked env o × (left ≡ set_to o.pid_file)
  unfolding after_parse
  after_parse-runs (parsed o') h = elim (Bool-cases o'.show_version) [
    | inl shown ↦ absurd (let gone : exits 0 ≡ runs o protocol left = rw (← h, shown) refl in cc)
    | inr hidden ↦
        let runs_on : after_check env o' (check env o') ≡ runs o protocol left =
          rw (← h, hidden) refl in
        let (same, passed, there) = after_check-runs o' (check env o') runs_on in
        (ap parsed same, rw (← same) (check-Checked env o' passed), rw (← same) there)
  ]
  after_parse-runs usage_error h = absurd (cc)
  after_parse-runs helped h = absurd (cc)

-- If main goes on to run, it runs on the options that its arguments give; a bess or vfkit socket is
-- absent or has the scheme that it needs and no file in its place; of the vpnkit, qemu and bess
-- sockets at most one is set; the port is between 1024 and 65535; the four lists of forwards are as
-- long as each other and the identities exist; and the file with the process id is there just if it
-- was asked for.
pub main_runs :
    (lib : Strconv) (env : MainEnv) (args : List Text) (o : Options) (protocol : Text) (left : Bool)
    → main lib env args ≡ runs o protocol left
    → (parse lib none args default_options ≡ parsed o) × Checked env o × (left ≡ set_to o.pid_file)
unfolding main
main_runs lib env args o protocol left h =
    after_parse-runs env o protocol left (parse lib none args default_options) h
