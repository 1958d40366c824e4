-- ===== src/Gvproxy/Run/Group/Shutdown.antt =====
-- Whether the program ends once its context is done.
use gvisor_tap_vsock.Base.{◌≡◌, true, false, List, [], ◌∷◌, Text, text_eq, nat_eq}
use gvisor_tap_vsock.Gvproxy.Options.{Options}
use gvisor_tap_vsock.Gvproxy.Run.{
  Task, close_at_end, close_and_remove, serve_endpoint, accept_vpnkit, accept_qemu, accept_bess,
  accept_vfkit, serve_gateway, accept_stdio, ssh_forward, gateway_address,
}
use gvisor_tap_vsock.Gvproxy.Run.Group.{
  Phase, checking, looping, reading, connecting, greeting, dialling, greeting_again, ended,
  is_closed,
}

-- What a goroutine waits for has been closed before its turn, or it needs nothing but the context.
abbrev pub Attended : List Text → Task → Type 0
Attended closed (serve_endpoint endpoint) = is_closed endpoint closed ≡ true
Attended closed serve_gateway = is_closed gateway_address closed ≡ true
Attended closed (accept_qemu socket) = is_closed socket closed ≡ true
Attended closed (accept_bess socket) = is_closed socket closed ≡ true
Attended closed (accept_vfkit socket) = is_closed socket closed ≡ true
Attended closed (accept_vpnkit socket) = ⊥
Attended closed _ = Unit

abbrev closes_of : Task → List Text → List Text
closes_of (close_at_end listener) closed = listener ∷ closed
closes_of (close_and_remove socket) closed = socket ∷ closed
closes_of _ closed = closed

abbrev Covered : List Text → List Task → Type 0
Covered closed [] = Unit
Covered closed (task ∷ tasks) = Attended closed task × Covered (closes_of task closed) tasks

-- The goroutine needs nothing from outside: it is not in a read from a machine, but for vfkit, and not
-- with the server of an SSH forward on a client that Close does not close. One that is to close a
-- listener has not done so.
abbrev pub Idle : Task × Phase → Type 0
Idle (close_at_end listener, ended e) = ⊥
Idle (close_and_remove socket, ended e) = ⊥
Idle (accept_vfkit socket, reading) = Unit
Idle (task, reading) = ⊥
Idle (ssh_forward forward, connecting false) = ⊥
Idle (ssh_forward forward, greeting) = ⊥
Idle (ssh_forward forward, looping) = ⊥
Idle (ssh_forward forward, greeting_again) = ⊥
Idle (ssh_forward forward, dialling false) = ⊥
Idle _ = Unit

-- After one round: at its end, or about to look at the context
abbrev Almost : Task × Phase → Type 0
Almost (task, ended e) = Unit
Almost (ssh_forward forward, checking) = Unit
Almost (accept_stdio, looping) = Unit
Almost _ = ⊥

-- Tasks that are covered whatever has been closed before them
abbrev Part : List Task → Type 0
Part tasks = (closed : List Text) → Covered closed tasks
