-- ===== src/Ssh/Tests.antt =====
-- An SSH server that accepts at the third attempt, known hosts, and the theorems at instances.
use gvisor_tap_vsock.Base.{
  ◌≤◌, ◌≡◌, refl, ◌≢◌, ◌*◌, inr, true, false, arith, Option, none, some, List, [], ◌∷◌, Text, codes,
  text_eq, nat_eq, ◌==◌, if◌then◌else◌, ltb, length, All,
}
use gvisor_tap_vsock.Ssh.Initial.{
  millisecond, second, DialEnv, connected, refused, back_off, initial_connection,
}
use gvisor_tap_vsock.Ssh.Initial.Waits.{Between, initial_connection_waits}
use gvisor_tap_vsock.Ssh.Tunnel.{TunnelEnv, forwarded, out_of_fuel, connect_forward}
use gvisor_tap_vsock.Ssh.Tunnel.Retries.{connect_forward_ends, connect_forward_connects}
use gvisor_tap_vsock.Ssh.Bastion.{
  KnownHost, BastionUrl, signer, BastionEnv, fixed_host_key, names_host, key_host,
  host_key_callback, create_bastion, identity_auth, public_key,
}
use gvisor_tap_vsock.Ssh.Bastion.HostKeys.{host_key_callback_known}
use gvisor_tap_vsock.Ssh.Proxy.{
  ProxyEnv, Listeners, cannot_connect, empty_forward, opens, listening, open_listener,
  connect_proxy, setup_proxy, close_forward,
}
use gvisor_tap_vsock.Ssh.Proxy.Setup.{setup_proxy_leaks}
use gvisor_tap_vsock.Ssh.Proxy.Relay.{Relay, finished}

abbrev late : DialEnv
late = record { context_done = λ i. false; connects = λ i. if ltb i 2 then none else some i }

abbrev never : DialEnv
never = record { context_done = λ i. false; connects = λ i. none }

late_waits : initial_connection late ≡ (connected 2, 100 * millisecond ∷ 200 * millisecond ∷ [])
unfolding initial_connection back_off
late_waits = refl

never_connects : (initial_connection never).0 ≡ refused
unfolding initial_connection back_off
never_connects = refl

initial_connection_waits_example :
    (length (initial_connection late).1 ≤ 60)
    × All (Between (100 * millisecond) second) (initial_connection late).1
initial_connection_waits_example = initial_connection_waits late

-- The first dial fails on a dead connection, which is renewed.
abbrev dead : TunnelEnv
dead = record {
  dials = λ r. if ltb r 2 then none else some 7;
  answers = λ r. false;
  reconnects = λ r n. true;
  sleeps = λ r. true;
  sleeps_between = λ r n. true;
}

connect_forward_ends_example :
    ((connect_forward dead).0 ≢ out_of_fuel) × (length (connect_forward dead).1 ≤ 9)
connect_forward_ends_example = connect_forward_ends dead

connect_forward_connects_example : (connect_forward dead).0 ≡ forwarded 7
connect_forward_connects_example =
    connect_forward_connects dead 1 7 (omega arith) (λ j l. (ground (arith, l), inr refl, refl))
      refl

abbrev other_host : KnownHost
other_host = record { hosts = codes "gw" ∷ []; host_key = codes "K1" }

abbrev vm_host : KnownHost
vm_host = record { hosts = codes "x" ∷ codes "vm" ∷ []; host_key = codes "K2" }

abbrev lines : List (Option KnownHost)
lines = none ∷ some other_host ∷ some vm_host ∷ []

abbrev bastion_env : BastionEnv
bastion_env = record {
  read_file = λ path. some path;
  parse_private_key = λ key. signer key;
  parse_private_key_with_passphrase = λ key passphrase. none;
  parse_bool = λ t. t == codes "true";
  hash_hostname = λ host. b'|' ∷ host;
  known_hosts = some lines;
  connects = λ n. some n;
  handshakes = λ conn. true;
}

abbrev vm_url : BastionUrl
vm_url = record {
  username = codes "core";
  password = none;
  hostname = codes "vm";
  port = [];
  path = codes "/run/podman.sock";
  secure = codes "true";
}

host_key_callback_known_example : host_key_callback bastion_env vm_url ≡ fixed_host_key (codes "K2")
unfolding names_host key_host
host_key_callback_known_example =
    host_key_callback_known bastion_env vm_url lines (none ∷ some other_host ∷ []) [] vm_host refl
      refl refl (refl, (refl, tt)) refl

abbrev new_url : BastionUrl
new_url = record vm_url { hostname = codes "new" }

abbrev proxy_env : ProxyEnv
proxy_env = record {
  windows = false;
  removes = λ path. true;
  listens_unix = λ path. true;
  listens_npipe = λ path. false;
}

abbrev none_open : Listeners
none_open = record { opened = 4 ∷ []; next_listener = 5 }

abbrev socket : Text
socket = codes "/tmp/podman.sock"

opened : open_listener proxy_env (codes "unix") socket none_open ≡ listening 5 (opens none_open)
unfolding open_listener
opened = refl

setup_fails :
    (setup_proxy proxy_env never bastion_env
      (codes "unix")
      socket
      vm_url
      (codes "id")
      []
      none_open).0.0
    ≡ some cannot_connect
unfolding setup_proxy connect_proxy initial_connection back_off
setup_fails = refl

setup_proxy_leaks_example :
    ((setup_proxy proxy_env never bastion_env
        (codes "unix")
        socket
        vm_url
        (codes "id")
        []
        none_open).0.1
      ≡ empty_forward)
    × (close_forward
          (setup_proxy proxy_env never bastion_env
            (codes "unix")
            socket
            vm_url
            (codes "id")
            []
            none_open).0.1
          (setup_proxy proxy_env never bastion_env
            (codes "unix")
            socket
            vm_url
            (codes "id")
            []
            none_open).1
        ≡ opens none_open)
setup_proxy_leaks_example =
    setup_proxy_leaks proxy_env never bastion_env (codes "unix") socket vm_url (codes "id") []
      none_open (opens none_open) 5 opened (rw setup_fails (λ e. cc))

setup_works :
    (setup_proxy proxy_env late bastion_env
      (codes "unix")
      socket
      vm_url
      (codes "id")
      []
      none_open).0.0
    ≡ none
unfolding setup_proxy connect_proxy initial_connection back_off create_bastion identity_auth
    public_key
setup_works = refl

-- A request of two bytes whose copying fails behind the first, and an answer of one.
abbrev over : Relay
over = record {
  outward = record { unread = 2 ∷ []; written = 1 ∷ []; place = finished; failed = true };
  back = record { unread = []; written = 3 ∷ []; place = finished; failed = false };
  complete = 0;
  src_closed = true;
  dest_closed = false;
}
