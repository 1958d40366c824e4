-- ===== src/Http/Tests.antt =====
-- A client and a server with one zone, and the theorems at instances.
use mathlib.Core.List.{Mem, reverse, reverse_perm}
use mathlib.Core.List.Perm
use gvisor_tap_vsock.Base.{
  ◌≡◌, refl, true, false, none, some, List, [], ◌∷◌, ◌++◌, Text, codes, text_eq, nat_eq, drop,
  lookup, insert,
}
use gvisor_tap_vsock.Tap.Switch.{new_switch}
use gvisor_tap_vsock.Services.Dns.{
  Zone, Question, Msg, Resolver, a_rr, type_a, matches_record, add_answers,
}
use gvisor_tap_vsock.Services.Forwarder.Address.{tcpip_address, atoi}
use gvisor_tap_vsock.Services.Forwarder.Ports.{
  tcp, Proxy, PortsEnv, new_ports_forwarder, start, expose_protocol, expose_tcp,
  expose as ports_expose,
}
use gvisor_tap_vsock.Services.Forwarder.Ports.Exposing.{new_proxy}
use gvisor_tap_vsock.Services.Forwarder.Ports.Calls.{
  Call, exposes, run, new_ports_forwarder-IsValid,
}
use gvisor_tap_vsock.Services.Forwarder.Endpoints.{ExposeRequest, remote_of, expose_endpoint}
use gvisor_tap_vsock.Http.{HttpRequest, serve_mux, strip_prefix, route, fits}
use gvisor_tap_vsock.Http.Server.{
  Network, Json, HttpEnv, all, expose_handler, forwarder_mux, services_mux, mux_with, mux,
  gateway_mux, sort_slice,
}
use gvisor_tap_vsock.Http.Server.Guests.{Limited, gateway_mux-Limited}
use gvisor_tap_vsock.Http.Server.Order.{all-Perm}
use gvisor_tap_vsock.GoNet.{GoNet}
use gvisor_tap_vsock.Tap.IpPool.History.{assigns, releases}
use gvisor_tap_vsock.Http.Server.Events.{
  Event, requests, guests, machines, calls, calls_of, Kept, after, after-Kept,
}
use gvisor_tap_vsock.Http.Client.{HttpClient, expose, post_to, post_error, add_dns}
use gvisor_tap_vsock.Http.Client.Exposing.{
  Connected, answer_of, request, ExposesOrNot, client_exposes,
}
use gvisor_tap_vsock.Http.Client.Listing.{Decodes, ListsAll, list-expose}
use gvisor_tap_vsock.Http.Client.Names.{add_answers-add_dns}

abbrev ports : PortsEnv
ports = record {
  parse_url = λ t. none;
  parse_ip4 = λ t. 192 ∷ 168 ∷ 127 ∷ 2 ∷ [];
  resolves_udp = λ t. true;
  starts = λ opened protocol local_address. true;
  closes = λ handle. true;
}

abbrev asked : ExposeRequest
asked = record { local_address = codes ":6443"; remote_address = codes "vm:80"; protocol = [] }

abbrev added : Zone
added = record {
  name = codes "testing.";
  records = record { name = codes "www"; ip = 10 ∷ 0 ∷ 0 ∷ 7 ∷ []; regexp = none } ∷ [];
  default_ip = [];
}

-- One body stands for each of the two requests.
abbrev json : Json
json = record {
  encode_proxies = λ ps. codes "proxies";
  encode_zones = λ zones. codes "zones";
  encode_leases = λ leases. codes "leases";
  encode_cam = λ cam. codes "cam";
  encode_stats = λ sent received. codes "stats";
  decode_expose = λ t. some asked;
  decode_unexpose = λ t. none;
  decode_zone = λ t. some added;
}

abbrev env : HttpEnv
env = record {
  json = json;
  ports = ports;
  split_host_port = λ t. some (codes "vm", codes "80");
  error_text = λ req n. codes "failed";
  switch_env = record {
    destination_address = λ t. none;
    source_address = λ t. none;
    ethernet_type = λ t. none;
    broadcast = 255 ∷ [];
    ethernet_minimum_size = 3;
    gateway_address = 1 ∷ [];
    accepts = λ log id bytes. true;
  };
  address_string = λ address. address;
  conn = record { split_host_port = λ t. none; parse_ip = λ t. none; to4 = λ t. none };
  hijack = λ req. record { hijacker = false; hijacks = true; flushes = true; writes = true };
  incoming = λ req. record { bytes = []; datagrams = [] };
  rounds = λ req. 3;
  protocol = codes "hyperkit";
}

abbrev idle : Network
idle = record {
  forwarder = new_ports_forwarder;
  zones = [];
  pool = record { base = record { ip = []; mask = [] }; count = 4; leases = [] };
  switch = new_switch;
}

abbrev caller : Text
caller = codes "192.168.127.2:40000"

abbrev base : Text
base = codes "http://gateway"

abbrev client : HttpClient Network
client = record {
  base = base;
  get = λ url n. (
    answer_of (mux env (request caller (codes "GET") (drop 14 url) []) n).0,
    (mux env (request caller (codes "GET") (drop 14 url) []) n).1,
  );
  post = λ url bin n. (
    answer_of (mux env (request caller (codes "POST") (drop 14 url) bin) n).0,
    (mux env (request caller (codes "POST") (drop 14 url) bin) n).1,
  );
  marshal_expose = λ req. some (codes "{}");
  marshal_unexpose = λ req. none;
  marshal_zone = λ zone. some (codes "{}");
  decode_ports = λ t. some (record asked { protocol = tcp } ∷ []);
  decode_zones = λ t. none;
}

connected : Connected client (mux env) caller
connected = record { posts = λ path bin n. refl; gets = λ path n. refl }

client_exposes_example :
    ExposesOrNot env client caller connected asked (codes "{}") idle (expose client asked idle)
client_exposes_example =
    client_exposes env client caller connected asked (codes "{}") idle refl refl

exposed : (expose client asked idle).0 ≡ none
unfolding expose post_to post_error mux mux_with serve_mux strip_prefix route fits services_mux
    forwarder_mux expose_handler expose_endpoint remote_of ports_expose expose_protocol expose_tcp
    start lookup tcpip_address atoi
exposed = refl

listed_back : Decodes env client caller connected (expose client asked idle).1
unfolding expose post_to post_error mux mux_with serve_mux strip_prefix route fits services_mux
    forwarder_mux expose_handler expose_endpoint remote_of ports_expose expose_protocol expose_tcp
    start lookup insert tcpip_address atoi sort_slice
listed_back = refl

list-expose_example :
    (ps : List Proxy) × (remote_address : Text) × ListsAll env client caller connected
      (expose client asked idle).1
      ps
    × (remote_of env.split_host_port asked caller ≡ some remote_address)
    × Mem (new_proxy tcp (codes ":6443") remote_address 0) ps
list-expose_example =
    list-expose env client caller connected asked (codes "{}") idle refl refl exposed listed_back

resolver : Resolver
resolver = record {
  lookup_ip_addr = λ name. none;
  lookup_cname = λ name. none;
  lookup_mx = λ name. none;
  lookup_ns = λ name. none;
  lookup_srv = λ name. none;
  lookup_txt = λ name. none;
  to4 = λ ip. ip;
}

abbrev question : Question
question = record { name = codes "www.testing."; qtype = type_a }

abbrev empty_msg : Msg
empty_msg = record { questions = []; answers = []; rcode = 0; recursion_available = true }

add_answers-add_dns_example :
    ((add_dns client added idle).0 ≡ none)
    × (add_answers (add_dns client added idle).1.zones resolver (question ∷ []) empty_msg
        ≡ record empty_msg {
          answers = [] ++ a_rr (codes "www.testing.") (10 ∷ 0 ∷ 0 ∷ 7 ∷ []) ∷ [];
        })
unfolding matches_record
add_answers-add_dns_example =
    add_answers-add_dns env client caller connected added (codes "{}") idle refl refl question
      (codes "www") [] (record { name = codes "www"; ip = 10 ∷ 0 ∷ 0 ∷ 7 ∷ []; regexp = none }) []
      refl refl tt refl tt refl resolver [] empty_msg

abbrev steal : HttpRequest
steal = request caller (codes "POST") (codes "/services/dns/add") (codes "{}")

gateway_mux-Limited_example : Limited env steal idle (gateway_mux env steal idle)
gateway_mux-Limited_example = gateway_mux-Limited env steal idle

abbrev plain_net : GoNet
plain_net = record {
  ip_string = λ ip. ip;
  parse_ip = λ t. t;
  mask_ones = λ mask. 8;
  address_count = λ base. 4;
  host = λ base i. some (i ∷ base.ip);
}

abbrev events : List Event
events =
    requests (request caller (codes "POST") (codes "/services/forwarder/expose") (codes "{}"))
    ∷ guests steal
    ∷ calls (assigns (codes "5a:94"))
    ∷ requests (request caller (codes "GET") (codes "/connect") [])
    ∷ machines (codes "qemu") 3 (record { bytes = []; datagrams = [] })
    ∷ calls (releases (codes "5a:94"))
    ∷ []

after-Kept_example :
    Kept plain_net idle (after plain_net env true (λ req. none) events idle) (calls_of events)
after-Kept_example =
    after-Kept plain_net env true (λ req. none) events idle new_ports_forwarder-IsValid

-- Two forwards, and the same map in the other order
abbrev two_calls : List Call
two_calls =
    exposes tcp (codes ":53") (codes "192.168.127.2:53")
    ∷ exposes tcp (codes ":80") (codes "192.168.127.2:80")
    ∷ []

abbrev busy : Network
busy = record idle { forwarder = run ports new_ports_forwarder two_calls }

abbrev turned : Network
turned = record idle {
  forwarder = record new_ports_forwarder { proxies = reverse busy.forwarder.proxies };
}

all-Perm_example : (all env steal busy).0 ≡ (all env steal turned).0
all-Perm_example =
    all-Perm env steal busy turned two_calls refl (Perm.symm (reverse_perm busy.forwarder.proxies))
