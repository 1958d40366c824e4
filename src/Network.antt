-- ===== src/Network.antt =====
-- Package virtualnetwork: forwardHostVM of pkg/virtualnetwork/services.go, which starts the configured
-- forwards from the host to the virtual machines.
pub mod Forwards
pub mod Vpnkit
pub mod Pool
pub mod Conn
pub mod New
mod Tests
use gvisor_tap_vsock.Base.{Option, none, some, List, [], ◌∷◌, Text, codes, GoMap, cut_prefix}
use gvisor_tap_vsock.Services.Forwarder.Ports.{
  udp, tcp, PortsEnv, PortsForwarder, Result, done, panics, fails, new_ports_forwarder, key, expose,
}

-- if err := fw.Expose(...); err != nil { return nil, err }
abbrev pub unless_fails :
    Result × PortsForwarder → (PortsForwarder → Result × PortsForwarder) → Result × PortsForwarder
unless_fails (done, f) next = next f
unless_fails (panics, f) next = (panics, f)
unless_fails (fails e, f) next = (fails e, f)

-- The protocol and the local address of a forward: udp if it begins with "udp:"
abbrev pub forward_protocol : Text → Option Text → Text × Text
forward_protocol local_address none = (tcp, local_address)
forward_protocol local_address (some rest) = (udp, rest)

-- The loop over configuration.Forwards
unfoldable pub expose_all : PortsEnv → GoMap Text Text → PortsForwarder → Result × PortsForwarder
expose_all env [] f = (done, f)
expose_all env ((local_address, remote) ∷ forwards) f =
    let (protocol, address) =
      forward_protocol local_address (cut_prefix local_address (codes "udp:")) in
    unless_fails (expose env protocol address remote f) λ f'. expose_all env forwards f'

-- forwardHostVM
unfoldable pub forward_host_vm : PortsEnv → GoMap Text Text → Result × PortsForwarder
unfolding expose_all
forward_host_vm env forwards = expose_all env forwards new_ports_forwarder
