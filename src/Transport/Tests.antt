-- ===== src/Transport/Tests.antt =====
-- Endpoints of vsock and stdio, and the theorem at an instance.
use gvisor_tap_vsock.Base.{
  ◌≡◌, refl, arith, false, none, some, List, [], ◌∷◌, ◌++◌, Text, codes, text_eq, nat_eq,
}
use gvisor_tap_vsock.Gvproxy.Options.{Strconv, pos, flag_kind, parse, default_options}
use gvisor_tap_vsock.Transport.{
  Url, listen, on_vsock, dial, to_vsock, stdio_values, Datagram, accept_vfkit, connected_to,
  invalid_length,
}
use gvisor_tap_vsock.Transport.Stdio.{Known, parse_rest, set_query, parse-stdio_values}

abbrev vsock_url : Url
vsock_url = record {
  scheme = codes "vsock";
  path = codes "/connect";
  host = codes "2:1024";
  hostname = codes "2";
  port = codes "1024";
  query = [];
}

dialled : dial (λ t. some vsock_url) [] ≡ to_vsock 2 1024 (codes "/connect")
unfolding dial
dialled = refl

listening : listen (λ t. some (record vsock_url { hostname = [] })) [] ≡ on_vsock 1024
unfolding listen
listening = refl

abbrev hello : Datagram
hello = record { bytes = codes "VFKT"; fails = false; sender = some (codes "/tmp/vf") }

vfkit_accepted : accept_vfkit hello ≡ connected_to (codes "/tmp/vf")
unfolding accept_vfkit
vfkit_accepted = refl

vfkit_short : accept_vfkit (record hello { bytes = codes "VF" }) ≡ invalid_length
unfolding accept_vfkit
vfkit_short = refl

abbrev lib : Strconv
lib = record { itoa = λ n. []; parse_int = λ t. some (pos 1500) }

abbrev query : List (Text × List Text)
query =
    (codes "listen", codes "unix:///a" ∷ codes "unix:///b" ∷ [])
    ∷ (codes "debug", codes "true" ∷ [])
    ∷ []

listen-Known : Known (codes "listen", codes "unix:///a" ∷ codes "unix:///b" ∷ [])
unfolding flag_kind
listen-Known = ground arith

debug-Known : Known (codes "debug", codes "true" ∷ [])
unfolding flag_kind
debug-Known = ground arith

parse-stdio_values_example :
    parse lib none (stdio_values query ++ codes "-mtu" ∷ codes "1500" ∷ []) default_options
    ≡ parse_rest lib (codes "-mtu" ∷ codes "1500" ∷ []) (set_query lib query default_options)
parse-stdio_values_example =
    parse-stdio_values lib query (codes "-mtu" ∷ codes "1500" ∷ []) default_options
      (listen-Known, (debug-Known, tt))
