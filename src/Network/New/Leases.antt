-- ===== src/Network/New/Leases.antt =====
-- A network from New on, with the machines that ask it for addresses and the requests that it serves.
use gvisor_tap_vsock.Base.{
  ◌≡◌, ap, ◌∙◌, ◌≢◌, Bool, Option, some, List, [], Text, text_eq, GoMap, lookup, All,
}
use gvisor_tap_vsock.GoNet.{Ip, IpNet, HostsAreAddresses}
use gvisor_tap_vsock.Tap.IpPool.{IpPool, get_or_assign}
use gvisor_tap_vsock.Tap.IpPool.History.{releases, run}
use gvisor_tap_vsock.Services.Forwarder.Ports.Handles.{IsValid}
use gvisor_tap_vsock.Gvproxy.Config.{Configuration}
use gvisor_tap_vsock.Network.Pool.{new_pool}
use gvisor_tap_vsock.Network.Pool.Leases.{Fresh, configured, new_pool_keeps}
use gvisor_tap_vsock.Network.New.{NewEnv, made, pool_configuration, new}
use gvisor_tap_vsock.Network.New.Created.{new-IsNew}
use gvisor_tap_vsock.Http.{HttpRequest, HttpReply}
use gvisor_tap_vsock.Http.Server.{Network, HttpEnv}
use gvisor_tap_vsock.Http.Server.Events.{Event, calls_of, after, after-Kept}

-- The configured addresses are kept for good: in a network that New has made, whatever machines ask
-- for addresses and release them and whatever requests the interface serves meanwhile, in any order,
-- the MAC address of the gateway and that of each static lease is given its configured address,
-- which no other MAC address is given, as long as the lease itself is not released; and the
-- forwarder stays valid. No address and no MAC address stands twice among the configured leases, and
-- they and the hosts of the network print as addresses.
pub new-after :
    (env : NewEnv) (c : Configuration) (n : Network) (nat : GoMap Text Text) (subnet : IpNet)
    → (new env c).0 ≡ made (n, nat)
    → env.parse_cidr c.subnet ≡ some subnet
    → HostsAreAddresses env.net subnet
    → Fresh env.net (configured (pool_configuration c)) []
    → (http : HttpEnv) (debug : Bool) (pprof : HttpRequest → Option HttpReply) (events : List Event)
      (ip mac other : Text) (a : Ip)
    → lookup ip (configured (pool_configuration c)) ≡ some mac
    → All (λ call. call ≢ releases mac) (calls_of events)
    → other ≢ mac
    → env.net.ip_string a ≡ ip
    → ((get_or_assign env.net (after env.net http debug pprof events n).pool mac).0
        ≡ some (env.net.parse_ip ip))
      × ((get_or_assign env.net (after env.net http debug pprof events n).pool other).0 ≢ some a)
      × IsValid (after env.net http debug pprof events n).forwarder
new-after env c n nat subnet h parsed hosts fresh http debug pprof events ip mac other a found kept
      ne same =
    let is_new = new-IsNew env c fresh n nat h in
    let subnet_eq : is_new.subnet ≡ subnet = cc (is_new.parsed, parsed) in
    let kept_network = after-Kept env.net http debug pprof events n is_new.valid in
    let pool_eq : (after env.net http debug pprof events n).pool
        ≡ run env.net (new_pool env.net (pool_configuration c) subnet) (calls_of events) =
      kept_network.leases
      ∙ ap (λ (p : IpPool). run env.net p (calls_of events)) is_new.pool
      ∙ ap
          (λ (s : IpNet). run env.net (new_pool env.net (pool_configuration c) s) (calls_of events))
          subnet_eq in
    let (mine, others) =
      new_pool_keeps env.net subnet (pool_configuration c) hosts fresh (calls_of events) ip mac
        other a found kept ne same in
    rw pool_eq (mine, others, kept_network.valid)
