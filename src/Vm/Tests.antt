-- ===== src/Vm/Tests.antt =====
-- A device with an MTU of 2, links, and the theorems at instances.
use gvisor_tap_vsock.Base.{
  ℕ, ◌+◌, ◌≡◌, refl, Bool, true, false, arith, some, List, [], ◌∷◌, Text, codes, text_eq, nat_eq,
  length,
}
use gvisor_tap_vsock.Tap.Framing.{hyperkit}
use gvisor_tap_vsock.Tap.Switch.{Env, new_switch}
use gvisor_tap_vsock.Tap.Switch.Rx.{rx_stream, rx_non_stream, wire}
use gvisor_tap_vsock.Vm.Tap.{sent, cannot_read_size, cannot_write_socket, TapRead, sized, rx, tx}
use gvisor_tap_vsock.Vm.Tap.Frames.{rx_stream-rx, tx-wire}
use gvisor_tap_vsock.Vm.Run.{
  Flags, main_start, prevented, RunEnv, dialled, closed_conn, opened_tap, closed_tap, started_tx,
  started_rx, started_dhcp, set_up, set_hardware_addr, run, cannot_set_mac, loop_failed,
}
use gvisor_tap_vsock.Vm.Run.Closing.{follow_all, nothing, run_orderly}

abbrev hello : Text
hello = 11 ∷ 10 ∷ 8 ∷ 104 ∷ []

abbrev reads : List TapRead
reads =
    record { arrived = some hello; accepted = true }
    ∷ record { arrived = some (7 ∷ []); accepted = true }
    ∷ record { arrived = some hello; accepted = false }
    ∷ []

abbrev resize : Text → ℕ → ℕ
resize last mtu = mtu + 14

abbrev switch_env : Env
switch_env = record {
  destination_address = λ t. some t;
  source_address = λ t. some t;
  ethernet_type = λ t. some 8;
  broadcast = 255 ∷ [];
  ethernet_minimum_size = 3;
  gateway_address = 1 ∷ [];
  accepts = λ log id bytes. true;
}

reads_sent :
    rx resize 2 [] reads ≡ (sent cannot_write_socket, 4 ∷ 0 ∷ 11 ∷ 10 ∷ 8 ∷ 104 ∷ 1 ∷ 0 ∷ 7 ∷ [])
unfolding rx sized
reads_sent = refl

rx_stream-rx_example :
    rx_stream switch_env hyperkit 0 5 (rx resize 2 [] reads).1 new_switch
    ≡ rx_non_stream switch_env 0 5 (hello ∷ (7 ∷ []) ∷ []) new_switch
rx_stream-rx_example =
    rx_stream-rx resize 2 (λ last. omega arith) [] reads switch_env 0 5 new_switch
      ((omega arith, omega arith), ((omega arith, omega arith), tt))

abbrev accepts_all : Text → Bool
accepts_all frame = true

tx-wire_example :
    tx accepts_all 2 (length (hello ∷ (7 ∷ []) ∷ []) + 1) (wire hyperkit (hello ∷ (7 ∷ []) ∷ []))
    ≡ (sent cannot_read_size, hello ∷ (7 ∷ []) ∷ [])
tx-wire_example =
    tx-wire accepts_all 2 (hello ∷ (7 ∷ []) ∷ []) 0
      ((omega arith, (omega arith, omega arith)), ((omega arith, (omega arith, omega arith)), tt))
      (refl, (refl, tt))

abbrev long : Text
long = codes "seventeen letters"

abbrev flags : Flags
flags = record {
  endpoint = codes "vsock://2:1024/connect";
  iface = codes "tap0";
  stop_if_iface_exist = codes "eth0,ens3";
  mac = codes "5a";
  tap_preexists = false;
}

stopped : main_start flags (some (codes "lo" ∷ codes "ens3" ∷ [])) ≡ prevented (codes "ens3")
unfolding main_start
stopped = refl

abbrev run_env : RunEnv
run_env = record {
  dial = λ endpoint. some [];
  new_request = λ path. true;
  writes_request = λ path. true;
  new_tap = λ iface. true;
  link_by_name = λ iface. some 3;
  parse_mac = λ mac. some (90 ∷ []);
  sets_hardware_addr = λ link hw. true;
  sets_up = λ link. true;
}

run_logs : run run_env flags ≡ (
  loop_failed,
  dialled
      ∷ opened_tap
      ∷ set_hardware_addr 3 (90 ∷ [])
      ∷ set_up 3
      ∷ started_tx
      ∷ started_rx
      ∷ started_dhcp
      ∷ closed_tap
      ∷ closed_conn
      ∷ [],
)
unfolding run
run_logs = refl

abbrev down : RunEnv
down = record run_env { sets_up = λ link. false }

down_fails : (run down flags).0 ≡ cannot_set_mac
unfolding run
down_fails = refl

run_orderly_example : follow_all false (run down flags).1 (some nothing) ≡ some nothing
run_orderly_example = run_orderly down flags
