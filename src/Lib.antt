-- ===== src/Lib.antt =====
-- Verification of gvisor-tap-vsock, the user-mode network of a virtual machine.
--
-- The program connects virtual machines to a virtual network whose gateway is gvisor's network
-- stack. An Ethernet switch (pkg/tap/switch.go) carries frames between the machines and the
-- gateway, whose end of it is a link endpoint (pkg/tap/link.go). The gateway runs a DHCP server with
-- a pool of addresses (pkg/tap/ip_pool.go), a DNS server (pkg/services/dns/dns.go), and a forwarder
-- of ports and sockets of the host (pkg/services/forwarder/ports.go), which HTTP endpoints drive.
-- cmd/gvproxy starts all this on the host from its options, which pkg/types/gvproxy_command.go can
-- write for it, and forwards sockets over SSH (pkg/sshclient); cmd/vm carries the frames of a tap
-- device in a guest.
--
-- Which module models which part:
--   Base                    texts, Boolean tests, lists, and Go maps as association lists
--   GoNet                   what the code takes from net and go-cidr, as a record of operations
--   Tap/IpPool              pkg/tap/ip_pool.go: new_ip_pool, leases_copy, mask, get_or_assign,
--                           reserve and release are the methods of IPPool
--   Tap/Framing             pkg/tap/protocols.go, protocolImplementation, and the frame on the wire
--   Tap/Switch              pkg/tap/switch.go: connect, disconnect, tx_pkt, tx_buf and rx_buf are the
--                           methods of Switch; Rx has rx, its two loops and accept
--   Tap/Link                pkg/tap/link.go: new_link_endpoint, write_packets and write_packet; Wiring
--                           has the pointers between the endpoint, the switch and the stack
--   Services/Dhcp           pkg/services/dhcp/dhcp.go: handler, and serve for what it does to the pool
--                           over a sequence of messages
--   Services/Dns            pkg/services/dns/dns.go: handle, add_answers, add_zone and /add
--   Services/Forwarder      pkg/services/forwarder/ports.go: tcpip_address in Address, expose and
--                           unexpose in Ports, /expose, /unexpose and the order of /all in
--                           Endpoints; UdpProxy has pkg/services/forwarder/udp_proxy.go, and
--                           Gateway the handlers of tcp.go and udp.go with parseNATTable
--   Network                 forwardHostVM of pkg/virtualnetwork/services.go; Pool has the pool that
--                           New of virtualnetwork.go makes, New that function with createStack and
--                           addServices, Vpnkit vpnkit.go, and Conn conn.go and the endpoint /tunnel
--                           of mux.go
--   Http                    what the code uses of net/http; Server has the multiplexers of mux.go, of
--                           addServices, of the three services and of cmd/gvproxy with their
--                           handlers, on a record Network of the state behind them, Server/Events
--                           what happens to it in any order, and Client pkg/client/client.go
--   Ssh                     pkg/sshclient: initial_connection in Initial, connect_forward in Tunnel,
--                           and setup_proxy, close_forward and accept_connection in Proxy are
--                           functions of ssh_forwarder.go; Bastion has bastion.go
--   Vm                      cmd/vm/main_linux.go: rx and tx in Tap; main_start, run and link_up in
--                           Run
--   WinProxy                cmd/win-sshproxy: main of main.go in Setup, read_args for its arguments,
--                           setup_proxies setupProxies, and event-hook.go in Log
--   Transport               pkg/transport: listen and dial on Linux, and accept_vfkit
--   Gvproxy                 cmd/gvproxy/main.go: the flags and their parsing in Options, main in
--                           Main, its configuration in Config, run in Run, and the goroutines that
--                           it leaves running in Run/Group; Command has
--                           pkg/types/gvproxy_command.go, and Version pkg/types/version.go
--
-- Conventions. A string, an IP address and a frame are lists of codes or bytes. A method that holds
-- a lock is one step from a state to a state, and what concurrent callers do is a sequence of such
-- steps. A panic is a result of its own. The order of a range loop over a map is the order of the
-- list that stands for the map, and theorems hold for every list. A counter of uint64 keeps its
-- wrap-around. Code outside the repository is a record of parameters: net, go-cidr and net/url, the
-- accessors of gvisor's header.Ethernet and header.ARP, miekg/dns, insomniacslk/dhcp, and the
-- host's resolver. Whether a write succeeds and whether a listener starts are parameters too, which
-- may depend on the past.
--
-- The loops of rxStream and rxNonStream take a number of rounds, after which their context is done;
-- each round of rxStream takes at least the header of a frame off the stream, so that more rounds
-- than bytes are enough. The loop tx of cmd/vm takes fuel likewise. The first connection over SSH
-- has the 60 rounds of the source; connectForward and its inner loop have fuel for the three tries
-- that their counters allow. All other loops are structural.
--
-- How the parts meet: New gives a Network, the state that the handlers of the interface share with
-- the switch and the DHCP server; the client of Http/Client is connected to the multiplexer of
-- Http/Server by a hypothesis that says what it is answered; and the goroutines of Run/Group are
-- those that run starts. Accept of a connection changes the switch only: the packets that it hands to
-- the gateway are taken up by the DHCP server and the HTTP server of the gateway in goroutines of
-- their own, whose calls and requests are events of Http/Server/Events.
--
-- Not modelled: the wiring of sockets and the gvisor stack below the calls of New, logging and debug
-- prints, deadlines, the JSON of the interface and the counters of gvisor's stack in /stats, the
-- home directory of pkg/sshclient, the connection over standard input (pkg/net/stdio) and the
-- sockets of pkg/transport, which are thin calls of other packages or of the system; the window, the
-- event log and the thread id of cmd/win-sshproxy, which are calls of Windows; and the small helper
-- programs. The removal of a unix socket's file before it is listened to is a part of whether a
-- listener starts, and a write to a machine is taken not to wait.

pub mod Base
pub mod GoNet
pub mod Tap
pub mod Services
pub mod Network
pub mod Http
pub mod Ssh
pub mod Vm
pub mod Gvproxy
pub mod Transport
pub mod WinProxy
