-- ===== src/Services/Forwarder/Gateway/Tests.antt =====
-- The NAT table of gvproxy, whose address of the host leads to 127.0.0.1.
use gvisor_tap_vsock.Base.{
  ◌≡◌, refl, true, false, Option, none, some, [], ◌∷◌, Text, codes, text_eq, nat_eq, ◌==◌,
  if◌then◌else◌, GoMap, insert,
}
use gvisor_tap_vsock.Services.Forwarder.Gateway.{
  GatewayEnv, Request, parse_nat_table, add_translations,
}

abbrev parse_ip4 : Text → Option Text
parse_ip4 t =
    if t == codes "192.168.127.254"
    then some (192 ∷ 168 ∷ 127 ∷ 254 ∷ [])
    else if t == codes "127.0.0.1"
    then some (127 ∷ 0 ∷ 0 ∷ 1 ∷ [])
    else none

abbrev nat : GoMap Text Text
nat = (codes "192.168.127.254", codes "127.0.0.1") ∷ []

abbrev table : GoMap Text Text
table = (192 ∷ 168 ∷ 127 ∷ 254 ∷ [], 127 ∷ 0 ∷ 0 ∷ 1 ∷ []) ∷ []

parsed : parse_nat_table parse_ip4 nat ≡ some table
unfolding parse_nat_table add_translations insert
parsed = refl

abbrev env : GatewayEnv
env = record {
  link_local = λ a. false;
  broadcast = 255 ∷ 255 ∷ 255 ∷ 255 ∷ [];
  dials = λ a port. some port;
  creates_endpoint = true;
}

abbrev to_host : Request
to_host = record { local_address = 192 ∷ 168 ∷ 127 ∷ 254 ∷ []; local_port = 8080 }
