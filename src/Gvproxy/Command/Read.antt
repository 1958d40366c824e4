-- ===== src/Gvproxy/Command/Read.antt =====
-- What gvproxy reads from the command line that ToCmdline writes.
use gvisor_tap_vsock.Base.{
  ◌≡◌, refl, ◌∙◌, Bool, true, false, none, List, [], ◌∷◌, ◌++◌, Text, codes, text_eq, nat_eq,
  lookup, KeysDistinct, All, if◌then◌else◌,
}
use gvisor_tap_vsock.Gvproxy.Options.{
  ℤ, Strconv, ReadsBack, Options, default_options, set_flag, parsed, parse, flag_kind,
  read_argument,
}
use gvisor_tap_vsock.Gvproxy.Command.{
  GvproxyCommand, vpnkit, qemu, bess, stdio, vfkit, socket_flag, sock, dest, user, identity,
  forward_flag, or_empty, with_flag, endpoints_to_cmdline, to_cmdline, forward_info_to_cmdline,
  sockets_to_cmdline,
}
use gvisor_tap_vsock.Gvproxy.Command.Lines.{
  all_given, parse-flag, parse-values, or_old, with_sockets, IsSocket, parse-sockets,
}
use gvisor_tap_vsock.Gvproxy.Command.Forwards.{with_forwards, IsForward, parse-forwards}

-- The maps have each key once, and the keys are flags.
abbrev pub IsValid : GvproxyCommand → Type 0
IsValid c =
    (KeysDistinct c.sockets × All IsSocket c.sockets)
    × (KeysDistinct c.forward_info × All IsForward c.forward_info)

-- What gvproxy should be given
abbrev pub options_of : GvproxyCommand → Options
options_of c = record {
  show_version = false;
  debug = c.debug;
  mtu = c.mtu;
  endpoints = all_given c.endpoints;
  vpnkit_socket = or_old [] (lookup (socket_flag vpnkit) c.sockets);
  qemu_socket = or_old [] (lookup (socket_flag qemu) c.sockets);
  bess_socket = or_old [] (lookup (socket_flag bess) c.sockets);
  stdio_socket = or_old [] (lookup (socket_flag stdio) c.sockets);
  vfkit_socket = or_old [] (lookup (socket_flag vfkit) c.sockets);
  forward_socket = all_given (or_empty (lookup (forward_flag sock) c.forward_info));
  forward_dest = all_given (or_empty (lookup (forward_flag dest) c.forward_info));
  forward_user = all_given (or_empty (lookup (forward_flag user) c.forward_info));
  forward_identify = all_given (or_empty (lookup (forward_flag identity) c.forward_info));
  ssh_port = c.ssh_port;
  pid_file = c.pid_file;
}

module _ (lib : Strconv) where
  parse-endpoints :
      (values args : List Text) (o : Options)
      → parse lib none (endpoints_to_cmdline values ++ args) o
        ≡ parse lib none args (record o { endpoints = o.endpoints ++ all_given values })
  unfolding endpoints_to_cmdline read_argument flag_kind set_flag
  parse-endpoints values args o =
      parse-values lib (codes "listen") values args (λ xs. record o { endpoints = xs }) o.endpoints
        (refl, refl) (λ ys v. refl)

  parse-debug :
      (b : Bool) (args : List Text) (o : Options)
      → o.debug ≡ false
      → parse lib none ((if b then codes "-debug" ∷ [] else []) ++ args) o
        ≡ parse lib none args (record o { debug = b })
  unfolding parse read_argument flag_kind set_flag
  parse-debug true args o h = refl
  parse-debug false args o h = rw (← h) refl

  parse-mtu :
      (n : ℤ) (args : List Text) (o : Options)
      → ReadsBack lib n
      → parse lib none (codes "-mtu" ∷ lib.itoa n ∷ args) o
        ≡ parse lib none args (record o { mtu = n })
  unfolding read_argument flag_kind set_flag
  parse-mtu n args o h =
      parse-flag lib (codes "mtu") (lib.itoa n) args o (record o { mtu = n }) (refl, refl)
        (rw h refl)

  parse-ssh_port :
      (n : ℤ) (args : List Text) (o : Options)
      → ReadsBack lib n
      → parse lib none (codes "-ssh-port" ∷ lib.itoa n ∷ args) o
        ≡ parse lib none args (record o { ssh_port = n })
  unfolding read_argument flag_kind set_flag
  parse-ssh_port n args o h =
      parse-flag lib (codes "ssh-port") (lib.itoa n) args o (record o { ssh_port = n }) (refl, refl)
        (rw h refl)

  parse-pid_file :
      (t : Text) (o : Options)
      → o.pid_file ≡ []
      → parse lib none (with_flag (codes "pid-file") t) o ≡ parsed (record o { pid_file = t })
  unfolding parse read_argument flag_kind set_flag
  parse-pid_file [] o h = rw (← h) refl
  parse-pid_file (c ∷ s) o h = refl

  -- gvproxy reads from the command line of a command the options that the command stands for.
  pub parse-to_cmdline :
      (c : GvproxyCommand)
      → IsValid c
      → ReadsBack lib c.mtu
      → ReadsBack lib c.ssh_port
      → parse lib none (to_cmdline lib c) default_options ≡ parsed (options_of c)
  unfolding to_cmdline
  parse-to_cmdline c valid mtu ssh =
      let pid = with_flag (codes "pid-file") c.pid_file in
      let forwards = forward_info_to_cmdline c.forward_info ++ pid in
      let sockets = sockets_to_cmdline c.sockets ++ forwards in
      let ssh_port = codes "-ssh-port" ∷ lib.itoa c.ssh_port ∷ sockets in
      let mtus = codes "-mtu" ∷ lib.itoa c.mtu ∷ ssh_port in
      let debugs = (if c.debug then codes "-debug" ∷ [] else []) ++ mtus in
      let o = record default_options { endpoints = all_given c.endpoints } in
      let o2 = record o { debug = c.debug; mtu = c.mtu; ssh_port = c.ssh_port } in
      parse-endpoints c.endpoints debugs default_options
      ∙ (parse-debug c.debug mtus o refl
          ∙ (parse-mtu c.mtu ssh_port (record o { debug = c.debug }) mtu
              ∙ (parse-ssh_port c.ssh_port sockets (record o { debug = c.debug; mtu = c.mtu }) ssh
                  ∙ (parse-sockets lib c.sockets forwards o2 valid.0.0 valid.0.1
                      ∙ (parse-forwards lib c.forward_info pid (with_sockets c.sockets o2) valid.1.0
                            valid.1.1
                          ∙ parse-pid_file c.pid_file
                              (with_forwards c.forward_info (with_sockets c.sockets o2)) refl)))))
