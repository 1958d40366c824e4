-- ===== src/Gvproxy/Main.antt =====
-- main of cmd/gvproxy/main.go: the checks of the options, the protocol and the file with the process id.
pub mod Checks
use gvisor_tap_vsock.Base.{
  ℕ, suc, Bool, true, false, Option, none, some, List, [], ◌∷◌, ◌++◌, Text, codes, text_eq, nat_eq,
  ◌==◌, if◌then◌else◌, ltb, not, ◌||◌, ◌&&◌, length, cut_prefix,
}
use gvisor_tap_vsock.Services.Forwarder.Address.{split}
use gvisor_tap_vsock.Tap.Framing.{hyperkit_protocol, qemu_protocol, bess_protocol, vfkit_protocol}
use gvisor_tap_vsock.Gvproxy.Options.{
  ℤ, pos, negsuc, Options, Strconv, parse, Parsed, parsed, usage_error, helped, default_options,
}

-- What the program uses of a net/url.URL
pub record Url : Type 0 where
  pub scheme : Text
  pub path : Text

-- url.Parse, none on an error or nil; whether os.Stat finds a file; whether the file for the process id
-- can be created and written.
pub record MainEnv : Type 0 where
  pub parse_url : Text → Option Url
  pub stat : Text → Bool
  pub creates : Text → Bool
  pub writes : Text → Bool

pub data MainError : Type 0 where
  invalid_qemu invalid_bess invalid_vfkit not_unixpacket not_unixgram : MainError
  already_exists : Text → MainError
  qemu_and_vpnkit bess_and_vpnkit qemu_and_bess invalid_ssh_port : MainError
  forward_counts no_identity cannot_create_pid_file cannot_write_pid_file : MainError

-- A check that follows another one: the first error ends the program.
infixr 30 ◌then_check◌
abbrev pub ◌then_check◌ : Option MainError → Option MainError → Option MainError
some e then_check next = some e
none then_check next = next

abbrev pub set_to : Text → Bool
set_to [] = false
set_to (c ∷ s) = true

abbrev pub refuse : Bool → MainError → Option MainError
refuse b e = if b then some e else none

-- if len(qemuSocket) > 0
unfoldable pub check_qemu : MainEnv → Text → Option MainError
check_qemu env socket =
    if set_to socket
    then elim (env.parse_url socket) [
      | none ↦ some invalid_qemu
      | some uri ↦
          refuse (env.stat uri.path && (uri.scheme == codes "unix")) (already_exists uri.path)
    ]
    else none

-- if len(bessSocket) > 0 and if len(vfkitSocket) > 0: the scheme and the errors differ
unfoldable pub check_scheme : MainEnv → Text → MainError → MainError → Text → Option MainError
check_scheme env scheme invalid wrong_scheme socket =
    if set_to socket
    then elim (env.parse_url socket) [
      | none ↦ some invalid
      | some uri ↦
          refuse (not (uri.scheme == scheme)) wrong_scheme
          then_check refuse (env.stat uri.path) (already_exists uri.path)
    ]
    else none

-- The combinations that are refused
unfoldable pub check_exclusive : Options → Option MainError
check_exclusive o =
    refuse (set_to o.vpnkit_socket && set_to o.qemu_socket) qemu_and_vpnkit
    then_check (refuse (set_to o.vpnkit_socket && set_to o.bess_socket) bess_and_vpnkit
        then_check refuse (set_to o.qemu_socket && set_to o.bess_socket) qemu_and_bess)

-- if sshPort < 1024 || sshPort > 65535
unfoldable pub check_ssh_port : ℤ → Option MainError
check_ssh_port (negsuc n) = some invalid_ssh_port
check_ssh_port (pos n) = refuse (ltb n 1024 || ltb 65535 n) invalid_ssh_port

unfoldable pub protocol_of : Options → Text
protocol_of o =
    let protocol = hyperkit_protocol in
    let protocol = if set_to o.qemu_socket then qemu_protocol else protocol in
    let protocol = if set_to o.bess_socket then bess_protocol else protocol in
    if set_to o.vfkit_socket then vfkit_protocol else protocol

-- if c := len(forwardSocket); ...
unfoldable pub check_forwards : Options → Option MainError
check_forwards o =
    let c = length o.forward_socket in
    refuse
      (not (c == length o.forward_dest)
        || not (c == length o.forward_user)
        || not (c == length o.forward_identify))
      forward_counts

-- The loop over the identities, which are as many as the sockets here
unfoldable pub check_identities : MainEnv → List Text → Option MainError
check_identities env [] = none
check_identities env (identity ∷ identities) =
    refuse (not (env.stat identity)) no_identity then_check check_identities env identities

-- The checks of main, in its order
unfoldable pub check : MainEnv → Options → Option MainError
unfolding check_qemu check_scheme check_exclusive check_ssh_port check_forwards check_identities
check env o =
    check_qemu env o.qemu_socket
    then_check (check_scheme env (codes "unixpacket") invalid_bess not_unixpacket o.bess_socket
        then_check (check_scheme env (codes "unixgram") invalid_vfkit not_unixgram o.vfkit_socket
            then_check (check_exclusive o
                then_check (check_ssh_port o.ssh_port
                    then_check (check_forwards o
                        then_check check_identities env o.forward_identify)))))

-- The file with the process id: an error, and whether the file is there
unfoldable pub create_pid_file : MainEnv → Text → Option MainError × Bool
create_pid_file env pid_file =
    if set_to pid_file
    then if env.creates pid_file
      then (refuse (not (env.writes pid_file)) cannot_write_pid_file, true)
      else (some cannot_create_pid_file, false)
    else (none, false)

-- How the program ends, with its exit status, or goes on to run; and whether the file with the process
-- id is there
pub data Outcome : Type 0 where
  exits : ℕ → Outcome
  exits_leaving : ℕ → Bool → Outcome
  runs : Options → Text → Bool → Outcome

-- exitWithError
abbrev pub exit_with_error : MainError → Bool → Outcome
exit_with_error e left = exits_leaving 1 left

abbrev pub start : Options → Option MainError × Bool → Outcome
start o (some e, left) = exit_with_error e left
start o (none, left) = runs o (protocol_of o) left

-- main behind the checks
abbrev pub after_check : MainEnv → Options → Option MainError → Outcome
after_check env o (some e) = exit_with_error e false
after_check env o none = start o (create_pid_file env o.pid_file)

-- main behind flag.Parse
unfoldable pub after_parse : MainEnv → Parsed → Outcome
unfolding check
after_parse env usage_error = exits 2
after_parse env helped = exits 0
after_parse env (parsed o) = if o.show_version then exits 0 else after_check env o (check env o)

-- main up to run
unfoldable pub main : Strconv → MainEnv → List Text → Outcome
unfolding after_parse
main lib env args = after_parse env (parse lib none args default_options)

-- captureFile
abbrev pub capture_file : Bool → Text
capture_file debug = if not debug then [] else codes "capture.pcap"

-- The loop over the lines of /etc/resolv.conf
abbrev pub domains_or : Option Text → Option (List Text) → Option (List Text)
domains_or none next = next
domains_or (some rest) next = some (split b' ' rest)

unfoldable pub scan_domains : List Text → Option (List Text)
unfolding split
scan_domains [] = none
scan_domains (line ∷ lines) = domains_or (cut_prefix line (codes "search ")) (scan_domains lines)

-- searchDomains, by the name of the system and the lines of the file, none if it cannot be opened; none
-- is nil
unfoldable pub search_domains : Text → Option (List Text) → Option (List Text)
unfolding scan_domains
search_domains goos lines =
    if goos == codes "darwin" || goos == codes "linux"
    then elim lines [ none ↦ none | some text ↦ scan_domains text ]
    else none
