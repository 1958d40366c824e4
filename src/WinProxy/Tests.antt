-- ===== src/WinProxy/Tests.antt =====
-- One entry with -debug, and a source that does not parse.
use gvisor_tap_vsock.Base.{
  ◌≡◌, ◌≤◌, refl, Bool, length, true, false, [], ◌∷◌, ◌++◌, List, Text, codes, text_eq, nat_eq,
}
use gvisor_tap_vsock.Gvproxy.Run.{url}
use gvisor_tap_vsock.WinProxy.Arguments.{debug_flag, flat}
use gvisor_tap_vsock.WinProxy.Log.{warn_level, debug_level, warning_event, events}
use gvisor_tap_vsock.WinProxy.Setup.{Started, main, waits, main-Started}
use gvisor_tap_vsock.WinProxy.{Entry, Forward, bad_args, goes_on, read_args, setup_proxies}

abbrev entry : Entry
entry = record {
  source = codes "npipe:////./pipe/a";
  dest = codes "ssh://core@vm/run/podman.sock";
  identity = codes "id";
}

abbrev program : Text
program = codes "win-sshproxy"

abbrev args : List Text
args =
    codes "-debug" ∷ codes "podman" ∷ codes "dir" ∷ entry.source ∷ entry.dest ∷ entry.identity ∷ []

read : read_args (program ∷ args) ≡ goes_on true (codes "podman") (codes "dir") (entry ∷ [])
unfolding read_args
read = refl

too_many : read_args (program ∷ args ++ codes "more" ∷ []) ≡ bad_args
unfolding read_args
too_many = refl

started :
    setup_proxies (λ t. true) (entry ∷ [])
    ≡ (true, record { from = url entry.source; to = entry.dest; identity = codes "id" } ∷ [])
unfolding setup_proxies
started = refl

dropped : setup_proxies (λ t. false) (entry ∷ []) ≡ (false, [])
unfolding setup_proxies
dropped = refl

abbrev forward : Forward
forward = record { from = url entry.source; to = entry.dest; identity = codes "id" }

waiting : main true (λ t. true) (program ∷ args) ≡ waits (forward ∷ [])
unfolding main read_args setup_proxies
waiting = refl

main-Started_example :
    (d : Bool) × (name : Text) × (state_dir : Text) × (es : List Entry) × (args
      ≡ debug_flag d ++ name ∷ state_dir ∷ flat es)
    × (1 ≤ length es)
    × Started (λ t. true) es (forward ∷ [])
main-Started_example = main-Started true (λ t. true) program args (forward ∷ []) waiting

logged :
    events false (codes "podman") (
      record { level = warn_level; message = codes "late"; fields = [] }
      ∷ record { level = debug_level; message = codes "x"; fields = [] }
      ∷ [])
    ≡ warning_event 1000 (codes "[warning] podman: late" ++ 10 ∷ []) ∷ []
unfolding events
logged = refl
