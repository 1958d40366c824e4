-- ===== src/Gvproxy/Config/Addresses.antt =====
-- What gvproxy promises a machine: the address that SSH is forwarded to, and the name of the host.
use gvisor_tap_vsock.Base.{
  ℕ, ◌≡◌, ◌≢◌, refl, true, false, Option, some, List, [], ◌∷◌, ◌++◌, Text, codes, text_eq, nat_eq,
  lookup, insert, All,
}
use gvisor_tap_vsock.GoNet.{GoNet, Ip, IpNet, IsAddress, HostsAreAddresses}
use gvisor_tap_vsock.Tap.IpPool.{get_or_assign, find_ip}
use gvisor_tap_vsock.Tap.IpPool.History.{Call, releases, run}
use gvisor_tap_vsock.Network.Pool as Pool
use gvisor_tap_vsock.Network.Pool.{new_pool}
use gvisor_tap_vsock.Network.Pool.Leases.{Fresh, configured, new_pool_keeps}
use gvisor_tap_vsock.Services.Dns.{
  Resolver, Question, Msg, a_rr, type_a, add_answers, answer_question, answer_zone, answer_locally,
  matches_record,
}
use gvisor_tap_vsock.Services.Forwarder.Address.{tcpip_address, address, atoi, digits_value}
use gvisor_tap_vsock.Services.Forwarder.Gateway.{GatewayEnv, relayed, tcp_handler, parse_nat_table}
use gvisor_tap_vsock.Services.Forwarder.Gateway.Translation.{handlers_translate}
use gvisor_tap_vsock.Gvproxy.Options.{Strconv, Options}
use gvisor_tap_vsock.Gvproxy.Config.{Configuration, config, host_ip, gateway_ip}

abbrev pub vm_mac : Text
vm_mac = codes "5a:94:ef:e4:0c:ee"

abbrev pub vm_ip : Text
vm_ip = codes "192.168.127.2"

-- What New takes for its pool
abbrev pub pool_of : Configuration → Pool.Configuration
pool_of c = record {
  gateway_ip = c.gateway_ip;
  gateway_mac_address = c.gateway_mac_address;
  dhcp_static_leases = c.dhcp_static_leases;
}

module _ (lib : Strconv) (net : GoNet) (o : Options) (protocol : Text)
    (domains : Option (List Text)) where
  fresh :
      IsAddress net gateway_ip
      → IsAddress net vm_ip
      → Fresh net (configured (pool_of (config lib net o protocol domains))) []
  unfolding config lookup insert find_ip
  fresh gateway vm = (gateway, refl, refl, (vm, refl, refl, tt))

  listed : lookup vm_ip (configured (pool_of (config lib net o protocol domains))) ≡ some vm_mac
  unfolding config lookup
  listed = refl

  host_answered :
      (r : Resolver) (m : Msg) (questions : List Question)
      → add_answers
          (config lib net o protocol domains).dns
          r
          (record { name = codes "host.containers.internal."; qtype = type_a } ∷ questions)
          m
        ≡ record m {
          answers =
              m.answers ++ a_rr (codes "host.containers.internal.") (net.parse_ip host_ip) ∷ [];
        }
  unfolding config add_answers answer_question answer_zone answer_locally matches_record
  host_answered r m questions = refl

  forwards_lead :
      (parse_ip4 : Text → Ip)
      → parse_ip4 vm_ip ≡ 192 ∷ 168 ∷ 127 ∷ 2 ∷ []
      → All
          (λ (forward : Text × Text).
            tcpip_address parse_ip4 1 forward.1
            ≡ address (record { nic = 1; addr = 192 ∷ 168 ∷ 127 ∷ 2 ∷ []; port = 22 }))
          (config lib net o protocol domains).forwards
  unfolding config tcpip_address atoi digits_value
  forwards_lead parse_ip4 four = (rw four refl, tt)

  module _ (subnet : IpNet) (hosts : HostsAreAddresses net subnet)
      (gateway : IsAddress net gateway_ip) (vm : IsAddress net vm_ip) where
    -- Whatever machines ask for addresses and release them, as long as the lease is not released, the
    -- machine with the MAC address that gvproxy knows is given 192.168.127.2; and every forward of the
    -- configuration leads to port 22 of this address. Package net reads and prints this address and
    -- that of the gateway, and the hosts of the subnet print as addresses.
    pub vm_forwarded :
        (parse_ip4 : Text → Ip) (calls : List Call)
        → parse_ip4 vm_ip ≡ 192 ∷ 168 ∷ 127 ∷ 2 ∷ []
        → All (λ call. call ≢ releases vm_mac) calls
        → ((get_or_assign net
              (run net (new_pool net (pool_of (config lib net o protocol domains)) subnet) calls)
              vm_mac).0
            ≡ some (net.parse_ip vm_ip))
          × All
              (λ (forward : Text × Text).
                tcpip_address parse_ip4 1 forward.1
                ≡ address (record { nic = 1; addr = 192 ∷ 168 ∷ 127 ∷ 2 ∷ []; port = 22 }))
              (config lib net o protocol domains).forwards
    vm_forwarded parse_ip4 calls four kept = (
      (new_pool_keeps net subnet (pool_of (config lib net o protocol domains)) hosts
          (fresh gateway vm) calls vm_ip vm_mac [] (net.parse_ip vm_ip) listed kept (λ e. cc)
          vm.0).0,
      forwards_lead parse_ip4 four,
    )

  -- A machine that asks for host.containers.internal is answered with 192.168.127.254, and a TCP
  -- connection that it opens to this address is relayed to 127.0.0.1 of the host at the same port, if
  -- that can be dialled, an endpoint created, and the address is neither link-local nor the broadcast
  -- address.
  pub host_reached :
      (r : Resolver) (m : Msg) (questions : List Question) (env : GatewayEnv)
      (parse_ip4 : Text → Option Text) (table : _) (a b : Text) (port outbound : ℕ)
      → parse_nat_table parse_ip4 (config lib net o protocol domains).nat ≡ some table
      → parse_ip4 host_ip ≡ some a
      → parse_ip4 (codes "127.0.0.1") ≡ some b
      → env.link_local a ≡ false
      → a ≢ env.broadcast
      → env.creates_endpoint ≡ true
      → env.dials b port ≡ some outbound
      → (add_answers
            (config lib net o protocol domains).dns
            r
            (record { name = codes "host.containers.internal."; qtype = type_a } ∷ questions)
            m
          ≡ record m {
            answers =
                m.answers ++ a_rr (codes "host.containers.internal.") (net.parse_ip host_ip) ∷ [];
          })
        × (tcp_handler env table (record { local_address = a; local_port = port })
            ≡ (relayed outbound, []))
  unfolding config
  host_reached r m questions env parse_ip4 table a b port outbound parsed sa db local ne ep
        dialled =
      (
        host_answered r m questions,
        (handlers_translate parse_ip4 env (config lib net o protocol domains).nat table parsed [] []
            host_ip (codes "127.0.0.1") (record { local_address = a; local_port = port }) b outbound
            refl sa db tt local ne ep dialled).1,
      )
