-- ===== src/Tap/Link/Tests.antt =====
-- The endpoint on concrete packets, and the theorems at instances.
use gvisor_tap_vsock.Base.{
  ◌≡◌, refl, Bool, true, false, some, List, [], ◌∷◌, ◌++◌, Text, text_eq, nat_eq, ◌==◌, codes, All,
  length,
}
use gvisor_tap_vsock.Tap.Link.{LinkEnv, LinkEndpoint, Packet, spoofs, write_packet, write_packets}
use gvisor_tap_vsock.Tap.Link.Spoofing.{Honest, write_packets-Honest}

-- An ARP reply begins with 2 and goes on with the sender's address.
abbrev first_is_two : Text → Bool
first_is_two [] = false
first_is_two (op ∷ rest) = op == 2

abbrev behind_first : Text → Text
behind_first [] = []
behind_first (op ∷ rest) = rest

abbrev plain : LinkEnv
plain = record {
  parse_mac = λ t. some t;
  encode_ethernet = λ protocol src dst. dst ++ src;
  arp_is_valid = λ h. true;
  arp_is_reply = first_is_two;
  arp_sender = behind_first;
  address_string = λ a. a;
}

abbrev gateway : LinkEndpoint
gateway = record { mtu = 1500; mac = codes "m"; ip = codes "1"; virtual_ips = codes "254" ∷ [] }

abbrev packet : Text → Packet
packet h = record {
  protocol = 0x806;
  local_link_address = [];
  remote_link_address = codes "d";
  network_header = h;
  payload = [];
}

abbrev replies : List Packet
replies = packet (2 ∷ codes "1") ∷ packet (2 ∷ codes "9") ∷ packet (2 ∷ codes "254") ∷ []

two_pass : length (write_packets plain gateway replies 0 []).1 ≡ 2
unfolding write_packets write_packet spoofs
two_pass = refl

write_packets-Honest_example :
    All (λ f. Honest plain gateway f.network_header) (write_packets plain gateway replies 0 []).1
write_packets-Honest_example = write_packets-Honest plain gateway replies
