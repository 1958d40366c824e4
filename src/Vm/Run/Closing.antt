-- ===== src/Vm/Run/Closing.antt =====
-- The order of what run of cmd/vm/main_linux.go does.
use gvisor_tap_vsock.Base.{
  ◌≡◌, Bool, true, false, arith, Option, none, some, List, [], ◌∷◌, text_eq, nat_eq,
}
use gvisor_tap_vsock.Vm.Run.{
  Flags, RunEnv, Did, dialled, closed_conn, opened_tap, closed_tap, started_tx, started_rx,
  started_dhcp, wrote_request, set_hardware_addr, set_up, link_up, loops, run_tap, run_request, run,
}

-- What is open, and whether the link has been set up
pub data Holding : Type 0 where
  nothing conn : Holding
  conn_and_tap : Bool → Holding

-- The order that run keeps: the tap is open inside the connection, and the frames are carried when
-- both are open and the link is set up, unless the device was there before.
abbrev pub follow : Bool → Did → Holding → Option Holding
follow preexists dialled nothing = some conn
follow preexists (wrote_request path) conn = some conn
follow preexists opened_tap conn = some (conn_and_tap preexists)
follow preexists (set_hardware_addr link hw) (conn_and_tap false) = some (conn_and_tap false)
follow preexists (set_up link) (conn_and_tap false) = some (conn_and_tap true)
follow preexists started_tx (conn_and_tap true) = some (conn_and_tap true)
follow preexists started_rx (conn_and_tap true) = some (conn_and_tap true)
follow preexists started_dhcp (conn_and_tap true) = some (conn_and_tap true)
follow preexists closed_tap (conn_and_tap up) = some conn
follow preexists closed_conn conn = some nothing
follow _ _ _ = none

abbrev pub follow_all : Bool → List Did → Option Holding → Option Holding
follow_all preexists log none = none
follow_all preexists [] (some held) = some held
follow_all preexists (did ∷ log) (some held) = follow_all preexists log (follow preexists did held)

-- Whatever fails, run keeps the order: it opens the connection and in it the tap device, starts the
-- loops only on a link that is set up or a device that was there before, and has closed both, the tap
-- first, when it returns.
pub run_orderly :
    (env : RunEnv) (flags : Flags)
    → follow_all flags.tap_preexists (run env flags).1 (some nothing) ≡ some nothing
unfolding run run_request run_tap link_up loops
run_orderly env flags = ground arith
