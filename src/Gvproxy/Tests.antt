-- ===== src/Gvproxy/Tests.antt =====
-- A command built by calls, the options that gvproxy reads from its command line, and what it starts.
use gvisor_tap_vsock.Base.{
  ◌≡◌, refl, true, false, Option, none, some, List, [], ◌∷◌, Text, codes, text_eq, nat_eq, ◌==◌,
  if◌then◌else◌,
}
use gvisor_tap_vsock.Base.{arith, All, GoMap, insert}
use gvisor_tap_vsock.GoNet.{GoNet, IpNet}
use gvisor_tap_vsock.Tap.IpPool.{get_or_assign}
use gvisor_tap_vsock.Tap.IpPool.History.{run as run_pool, assigns}
use gvisor_tap_vsock.Network.Pool.{new_pool}
use gvisor_tap_vsock.Services.Dns.{Resolver, Msg, a_rr, type_a, add_answers}
use gvisor_tap_vsock.Services.Forwarder.Address.{tcpip_address, address}
use gvisor_tap_vsock.Services.Forwarder.Gateway.{
  GatewayEnv, relayed, tcp_handler, parse_nat_table, add_translations,
}
use gvisor_tap_vsock.Gvproxy.Config.{config, host_ip}
use gvisor_tap_vsock.Gvproxy.Config.Addresses.{vm_mac, vm_ip, pool_of, vm_forwarded, host_reached}
use gvisor_tap_vsock.Gvproxy.Options.{
  ℤ, pos, negsuc, Strconv, Options, default_options, parse, parsed, usage_error, flag_kind,
  set_flag,
}
use gvisor_tap_vsock.Gvproxy.Command.{
  new_gvproxy_command, to_cmdline, qemu, sock, dest, user, identity,
}
use gvisor_tap_vsock.Gvproxy.Command.Calls.{
  Call, endpoint, socket, forward, set_debug, set_ssh_port, do_calls, parse-do_calls,
}
use gvisor_tap_vsock.Gvproxy.Main.{
  MainEnv, main, runs, create_pid_file, protocol_of, search_domains,
}
use gvisor_tap_vsock.Gvproxy.Main.Checks.{Checked, main_runs}
use gvisor_tap_vsock.Gvproxy.Run.{RunEnv, run}
use gvisor_tap_vsock.Gvproxy.Run.{Task, accept_vpnkit, serve_gateway}
use gvisor_tap_vsock.Gvproxy.Run.Tasks.{Follows, plan, run-main}
use gvisor_tap_vsock.Gvproxy.Run.Group.{Phase, waiting, ended, GroupEnv, Group}

-- Numbers are written as one digit.
abbrev itoa : ℤ → Text
itoa (pos n) = n ∷ []
itoa (negsuc n) = b'-' ∷ n ∷ []

abbrev parse_int : Text → Option ℤ
parse_int (n ∷ []) = some (pos n)
parse_int (c ∷ n ∷ []) = if c == b'-' then some (negsuc n) else none
parse_int _ = none

abbrev digits : Strconv
digits = record { itoa = itoa; parse_int = parse_int }

abbrev calls : List Call
calls =
    endpoint (codes "unix:///tmp/network.sock")
    ∷ socket qemu (codes "unix:///tmp/old.sock")
    ∷ forward sock (codes "/tmp/podman.sock")
    ∷ forward dest (codes "/run/podman.sock")
    ∷ socket qemu (codes "unix:///tmp/qemu.sock")
    ∷ forward user (codes "core")
    ∷ forward identity (codes "/id")
    ∷ set_debug true
    ∷ set_ssh_port (pos 2223)
    ∷ endpoint []
    ∷ []

abbrev args : List Text
args = to_cmdline digits (do_calls calls new_gvproxy_command)

abbrev wanted : Options
wanted = record default_options {
  debug = true;
  endpoints = codes "unix:///tmp/network.sock" ∷ [];
  qemu_socket = codes "unix:///tmp/qemu.sock";
  forward_socket = codes "/tmp/podman.sock" ∷ [];
  forward_dest = codes "/run/podman.sock" ∷ [];
  forward_user = codes "core" ∷ [];
  forward_identify = codes "/id" ∷ [];
  ssh_port = pos 2223;
}

parse-do_calls_example : parse digits none args default_options ≡ parsed wanted
parse-do_calls_example = parse-do_calls digits calls refl refl

equals_sign :
    parse digits none
      (codes "--listen-vfkit=unixgram:///tmp/vf" ∷ codes "-debug=false" ∷ [])
      default_options
    ≡ parsed (record default_options { vfkit_socket = codes "unixgram:///tmp/vf" })
unfolding parse flag_kind set_flag
equals_sign = refl

no_value : parse digits none (codes "-listen" ∷ []) default_options ≡ usage_error
unfolding parse flag_kind
no_value = refl

abbrev main_env : MainEnv
main_env = record {
  parse_url = λ t. some (record { scheme = codes "unix"; path = t });
  stat = λ path. path == codes "/id";
  creates = λ path. true;
  writes = λ path. true;
}

main_goes_on : main digits main_env args ≡ runs wanted (codes "qemu") false
unfolding main create_pid_file protocol_of
main_goes_on = rw (parse-do_calls_example, main) refl

main_runs_example :
    (parse digits none args default_options ≡ parsed wanted)
    × Checked main_env wanted
    × (false ≡ false)
main_runs_example = main_runs digits main_env args wanted (codes "qemu") false main_goes_on

abbrev run_env : RunEnv
run_env = record {
  new_network = true;
  network_listens = true;
  listens = λ t. true;
  listens_unixgram = λ t. true;
  parses_url = λ t. true;
}

run-main_example : Follows (run run_env wanted) (plan wanted)
run-main_example = run-main digits main_env run_env args wanted (codes "qemu") false main_goes_on

domains :
    search_domains (codes "linux") (some (codes "nameserver 1.1.1.1" ∷ codes "search a.b c" ∷ []))
    ≡ some (codes "a.b" ∷ codes "c" ∷ [])
unfolding search_domains
domains = refl

-- Addresses that are printed as they are
abbrev plain_net : GoNet
plain_net = record {
  ip_string = λ ip. ip;
  parse_ip = λ t. t;
  mask_ones = λ mask. 8;
  address_count = λ base. 256;
  host = λ base i. some (i ∷ []);
}

abbrev subnet : IpNet
subnet = record { ip = 0 ∷ []; mask = [] }

vm_forwarded_example :
    ((get_or_assign plain_net
        (run_pool plain_net
          (new_pool plain_net (pool_of (config digits plain_net wanted (codes "qemu") none)) subnet)
          (assigns (codes "other") ∷ []))
        vm_mac).0
      ≡ some vm_ip)
    × All
        (λ (forward : Text × Text).
          tcpip_address (λ t. 192 ∷ 168 ∷ 127 ∷ 2 ∷ []) 1 forward.1
          ≡ address (record { nic = 1; addr = 192 ∷ 168 ∷ 127 ∷ 2 ∷ []; port = 22 }))
        (config digits plain_net wanted (codes "qemu") none).forwards
vm_forwarded_example =
    vm_forwarded digits plain_net wanted (codes "qemu") none subnet (λ i ip e. (refl, λ empty. cc))
      (refl, λ e. cc) (refl, λ e. cc) (λ t. 192 ∷ 168 ∷ 127 ∷ 2 ∷ []) (assigns (codes "other") ∷ [])
      refl ((λ e. cc), tt)

abbrev ip4 : Text → Option Text
ip4 t = if t == host_ip then some (254 ∷ []) else some (127 ∷ [])

abbrev gateway_env : GatewayEnv
gateway_env = record {
  link_local = λ a. false;
  broadcast = 255 ∷ [];
  dials = λ a port. some port;
  creates_endpoint = true;
}

abbrev resolver : Resolver
resolver = record {
  lookup_ip_addr = λ t. none;
  lookup_cname = λ t. none;
  lookup_mx = λ t. none;
  lookup_ns = λ t. none;
  lookup_srv = λ t. none;
  lookup_txt = λ t. none;
  to4 = λ ip. ip;
}

abbrev message : Msg
message = record { questions = []; answers = []; rcode = 0; recursion_available = true }

abbrev table : GoMap Text Text
table = (254 ∷ [], 127 ∷ []) ∷ []

table_parsed :
    parse_nat_table ip4 (config digits plain_net wanted (codes "qemu") none).nat ≡ some table
unfolding parse_nat_table add_translations insert config
table_parsed = refl

host_reached_example :
    (add_answers
        (config digits plain_net wanted (codes "qemu") none).dns
        resolver
        (record { name = codes "host.containers.internal."; qtype = type_a } ∷ [])
        message
      ≡ record message { answers = a_rr (codes "host.containers.internal.") host_ip ∷ [] })
    × (tcp_handler gateway_env table (record { local_address = 254 ∷ []; local_port = 80 })
        ≡ (relayed 80, []))
host_reached_example =
    host_reached digits plain_net wanted (codes "qemu") none resolver message [] gateway_env ip4
      table (254 ∷ []) (127 ∷ []) 80 80 table_parsed refl refl refl (λ e. ground (arith, e)) refl
      refl

abbrev group_env : GroupEnv
group_env = record {
  closes = λ listener. true;
  removes = λ socket. false;
  prepares = λ forward. true;
}

abbrev all_wait : List Task → List (Task × Phase)
all_wait [] = []
all_wait (task ∷ tasks) = (task, waiting) ∷ all_wait tasks

abbrev stopped : Group
stopped = record {
  done = false;
  closed = [];
  goroutines = (serve_gateway, ended true) ∷ (accept_vpnkit (codes "unix:///vpn"), waiting) ∷ [];
}
