-- ===== src/Services/Dhcp/Tests.antt =====
-- The server on a small network, and the theorems at instances.
use gvisor_tap_vsock.Base.{
  ℕ, ◌≡◌, refl, arith, ◌≢◌, some, [], ◌∷◌, ◌++◌, Text, codes, text_eq, nat_eq, lookup, insert,
}
use gvisor_tap_vsock.GoNet.{GoNet, Ip, IpNet, HostsAreAddresses}
use gvisor_tap_vsock.Tap.IpPool.{IpPool, new_ip_pool, find_ip, free_host, get_or_assign}
use gvisor_tap_vsock.Tap.IpPool.Leases.{IsValid, new_ip_pool-IsValid}
use gvisor_tap_vsock.Services.Dhcp.{
  Configuration, server_identifier, lease_time, subnet_mask, router, domain_name_server,
  interface_mtu, dns_domain_search_list, message_type, Message, Reply, DhcpLib, fill, reply_to,
  handler, serve,
}
use gvisor_tap_vsock.Services.Dhcp.Leases.{offer_lasts, offers_differ}

abbrev net : GoNet
net = record {
  ip_string = λ ip. ip;
  parse_ip = λ t. t;
  mask_ones = λ mask. 8;
  address_count = λ base. 4;
  host = λ base i. some (i ∷ base.ip);
}

abbrev ten : IpNet
ten = record { ip = 0 ∷ 0 ∷ 10 ∷ []; mask = 255 ∷ 0 ∷ 0 ∷ 0 ∷ [] }

hosts : HostsAreAddresses net ten
hosts = λ i ip e. (refl, λ n. ground arith)

abbrev pool : IpPool
pool = record { base = ten; count = 4; leases = [] }

pool-IsValid : IsValid net pool
unfolding new_ip_pool
pool-IsValid = new_ip_pool-IsValid net ten

abbrev lib : DhcpLib
lib = record {
  new_reply_from_request = λ m. some (record { header = m.bytes; your_ip_addr = []; options = [] });
  update_option = λ option options. options ++ option ∷ [];
  parse_cidr = λ t. some (255 ∷ 0 ∷ 0 ∷ 0 ∷ []);
}

abbrev config : Configuration
config = record {
  subnet = codes "10.0.0.0/8";
  gateway_ip = 1 ∷ 0 ∷ 0 ∷ 10 ∷ [];
  mtu = 1500;
  dns_search_domains = [];
}

abbrev message : Text → ℕ → Message
message mac mtype = record { client_hw_addr = mac; mtype = mtype; bytes = [] }

abbrev mac1 : Text
mac1 = codes "mac1"

abbrev mac2 : Text
mac2 = codes "mac2"

abbrev reply_of : Ip → ℕ → Reply
reply_of ip t = record {
  header = [];
  your_ip_addr = ip;
  options =
      server_identifier (1 ∷ 0 ∷ 0 ∷ 10 ∷ [])
      ∷ lease_time 3600
      ∷ subnet_mask (255 ∷ 0 ∷ 0 ∷ 0 ∷ [])
      ∷ router (1 ∷ 0 ∷ 0 ∷ 10 ∷ [])
      ∷ domain_name_server ((1 ∷ 0 ∷ 0 ∷ 10 ∷ []) ∷ [])
      ∷ interface_mtu 1500
      ∷ dns_domain_search_list []
      ∷ message_type t
      ∷ [];
}

abbrev host_ip : ℕ → Ip
host_ip i = i ∷ 0 ∷ 0 ∷ 10 ∷ []

offered : (handler net lib config (message mac1 1) pool).0 ≡ some (reply_of (host_ip 1) 2)
unfolding handler reply_to fill get_or_assign find_ip free_host lookup
offered = refl

acked :
    (handler net lib config
      (message mac1 3)
      (serve net lib config (message mac1 1 ∷ message mac2 1 ∷ []) pool)).0
    ≡ some (reply_of (host_ip 1) 5)
unfolding handler reply_to fill serve get_or_assign find_ip free_host lookup insert
acked = refl

offered_next :
    (handler net lib config
      (message mac2 1)
      (serve net lib config (message mac1 1 ∷ message mac1 3 ∷ []) pool)).0
    ≡ some (reply_of (host_ip 2) 2)
unfolding handler reply_to fill serve get_or_assign find_ip free_host lookup insert
offered_next = refl

offer_lasts_example : (reply_of (host_ip 1) 5).your_ip_addr ≡ (reply_of (host_ip 1) 2).your_ip_addr
offer_lasts_example =
    offer_lasts net lib config ten hosts pool (message mac1 1) (message mac1 3)
      (message mac2 1 ∷ []) (reply_of (host_ip 1) 2) (reply_of (host_ip 1) 5) refl pool-IsValid
      offered acked refl

offers_differ_example :
    (reply_of (host_ip 2) 2).your_ip_addr ≢ (reply_of (host_ip 1) 2).your_ip_addr
offers_differ_example =
    offers_differ net lib config ten hosts pool (message mac1 1) (message mac2 1)
      (message mac1 3 ∷ []) (reply_of (host_ip 1) 2) (reply_of (host_ip 2) 2) refl pool-IsValid
      offered offered_next (λ e. ground arith)

first_free : (get_or_assign net pool mac1).0 ≡ some (host_ip 1)
unfolding get_or_assign find_ip free_host lookup
first_free = refl
