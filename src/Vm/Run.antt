-- ===== src/Vm/Run.antt =====
-- main, run, linkUp and dhcp of cmd/vm/main_linux.go. The network, the devices and the commands are
-- parameters.
pub mod Closing
use gvisor_tap_vsock.Base.{
  ℕ, Bool, true, false, Option, none, some, List, [], ◌∷◌, ◌++◌, Text, codes, text_eq, nat_eq, ◌==◌,
  if◌then◌else◌,
}
use gvisor_tap_vsock.Services.Forwarder.Address.{split}

-- The flags of the program; debug only prints.
pub record Flags : Type 0 where
  pub endpoint : Text
  pub iface : Text
  pub stop_if_iface_exist : Text
  pub mac : Text
  pub tap_preexists : Bool

-- contains
unfoldable pub contains : List Text → Text → Bool
contains [] e = false
contains (a ∷ s) e = let rest = contains s e in if a == e then true else rest

-- How main goes on behind the flags
pub data Start : Type 0 where
  fatal runs_forever : Start
  prevented : Text → Start

-- for _, link := range links
unfoldable pub check_links : List Text → List Text → Start
unfolding contains
check_links expected [] = runs_forever
check_links expected (link ∷ links) =
    let rest = check_links expected links in if contains expected link then prevented link else rest

-- main up to its loop, with the names of the links that netlink.LinkList gives
unfoldable pub main_start : Flags → Option (List Text) → Start
unfolding check_links split
main_start flags none = fatal
main_start flags (some links) = check_links (split b',' flags.stop_if_iface_exist) links

-- What run has done outside, oldest first
pub data Did : Type 0 where
  dialled closed_conn opened_tap closed_tap started_tx started_rx started_dhcp : Did
  wrote_request : Text → Did
  set_hardware_addr : ℕ → Text → Did
  set_up : ℕ → Did

pub data RunError : Type 0 where
  cannot_connect bad_request cannot_write_request cannot_create_tap cannot_set_mac : RunError
  loop_failed : RunError

-- transport.Dial gives the path of the URL, netlink.LinkByName a link, net.ParseMAC an address.
pub record RunEnv : Type 0 where
  pub dial : Text → Option Text
  pub new_request : Text → Bool
  pub writes_request : Text → Bool
  pub new_tap : Text → Bool
  pub link_by_name : Text → Option ℕ
  pub parse_mac : Text → Option Text
  pub sets_hardware_addr : ℕ → Text → Bool
  pub sets_up : ℕ → Bool

-- netlink.LinkSetUp: whether it succeeds, and what succeeded
abbrev pub link_set_up : RunEnv → ℕ → Bool × List Did
link_set_up env link = if env.sets_up link then (true, set_up link ∷ []) else (false, [])

abbrev pub behind : List Did → Bool × List Did → Bool × List Did
behind done (ok, log) = (ok, done ++ log)

-- linkUp
unfoldable pub link_up : RunEnv → Flags → Bool × List Did
link_up env flags = elim (env.link_by_name flags.iface) [
  | none ↦ (false, [])
  | some link ↦ if flags.mac == [] then link_set_up env link else elim (env.parse_mac flags.mac) [
    | none ↦ (false, [])
    | some hw ↦
        if env.sets_hardware_addr link hw
        then behind (set_hardware_addr link hw ∷ []) (link_set_up env link)
        else (false, [])
  ]
]

-- The goroutines; run then returns the first error that one of them sends.
unfoldable pub loops : Flags → RunError × List Did
loops flags =
    (loop_failed, started_tx ∷ started_rx ∷ (if flags.tap_preexists then [] else started_dhcp ∷ []))

-- if !tapPreexists
abbrev pub with_link : Bool × List Did → RunError × List Did → RunError × List Did
with_link (false, log) next = (cannot_set_mac, log)
with_link (true, log) (e, later) = (e, log ++ later)

-- A deferred call
abbrev pub deferred : Did → RunError × List Did → RunError × List Did
deferred close (e, log) = (e, log ++ close ∷ [])

abbrev pub preceded : Did → RunError × List Did → RunError × List Did
preceded did (e, log) = (e, did ∷ log)

-- run from the tap device on
unfoldable pub run_tap : RunEnv → Flags → RunError × List Did
unfolding link_up loops
run_tap env flags =
    if env.new_tap flags.iface
    then preceded opened_tap (
        deferred closed_tap
          (with_link (if flags.tap_preexists then (true, []) else link_up env flags) (loops flags)))
    else (cannot_create_tap, [])

-- if path != ""
unfoldable pub run_request : RunEnv → Flags → Text → RunError × List Did
unfolding run_tap
run_request env flags path =
    if path == []
    then run_tap env flags
    else if env.new_request path
    then if env.writes_request path
      then preceded (wrote_request path) (run_tap env flags)
      else (cannot_write_request, [])
    else (bad_request, [])

-- run
unfoldable pub run : RunEnv → Flags → RunError × List Did
unfolding run_request
run env flags = elim (env.dial flags.endpoint) [
  | none ↦ (cannot_connect, [])
  | some path ↦ preceded dialled (deferred closed_conn (run_request env flags path))
]

-- dhcp: the command that is run, from whether udhcpc is found
abbrev pub dhcp_command : Bool → Text → List Text
dhcp_command true iface =
    codes "udhcpc" ∷ codes "-f" ∷ codes "-q" ∷ codes "-i" ∷ iface ∷ codes "-v" ∷ []
dhcp_command false iface = codes "dhclient" ∷ codes "-4" ∷ codes "-d" ∷ codes "-v" ∷ iface ∷ []
