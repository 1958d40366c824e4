-- ===== src/Ssh.antt =====
-- Package sshclient: pkg/sshclient/ssh_forwarder.go and pkg/sshclient/bastion.go, which forward a
-- local socket to a socket of the virtual machine over SSH.
pub mod Initial
pub mod Tunnel
pub mod Bastion
pub mod Proxy
mod Tests
