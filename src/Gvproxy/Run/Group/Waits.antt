-- ===== src/Gvproxy/Run/Group/Waits.antt =====
-- What keeps the program from ending.
use gvisor_tap_vsock.Base.{ℕ, ◌⊎◌, false, List, [], ◌∷◌}
use gvisor_tap_vsock.Gvproxy.Run.{
  Task, accept_vpnkit, accept_qemu, accept_bess, accept_stdio, ssh_forward,
}
use gvisor_tap_vsock.Gvproxy.Run.Group.{
  Phase, waiting, looping, reading, greeting, dialling, greeting_again, ended, GroupEnv, Group,
  round, connects, signal, input,
}

-- In a read from a machine of qemu, bess or the standard input, or anywhere with one of vpnkit, whose
-- context is never done; in the accept of vpnkit, whose listener nothing closes; in the handshake of an
-- SSH forward, or in a call of a client that was made after Close
abbrev pub Stuck : Task × Phase → Type 0
Stuck (task, ended e) = ⊥
Stuck (accept_qemu socket, reading) = Unit
Stuck (accept_bess socket, reading) = Unit
Stuck (accept_stdio, reading) = Unit
Stuck (accept_vpnkit socket, reading) = Unit
Stuck (accept_vpnkit socket, looping) = Unit
Stuck (accept_vpnkit socket, waiting) = Unit
Stuck (ssh_forward forward, greeting) = Unit
Stuck (ssh_forward forward, greeting_again) = Unit
Stuck (ssh_forward forward, dialling false) = Unit
Stuck _ = ⊥

abbrev pub AnyStuck : List (Task × Phase) → Type 0
AnyStuck [] = ⊥
AnyStuck (g ∷ goroutines) = Stuck g ⊎ AnyStuck goroutines

-- What happens: a step of each goroutine, a signal, or a connection
pub data Event : Type 0 where
  steps signals : Event
  machine : ℕ → Event

unfoldable pub after : GroupEnv → List Event → Group → Group
after env [] g = g
after env (steps ∷ events) g = after env events (round env g.done g.closed g.goroutines)
after env (signals ∷ events) g = after env events (input g signal)
after env (machine i ∷ events) g = after env events (input g (connects i))
