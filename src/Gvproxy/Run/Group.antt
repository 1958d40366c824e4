-- ===== src/Gvproxy/Run/Group.antt =====
-- The goroutines of run in cmd/gvproxy/main.go after it has started them, in an errgroup: what each does
-- by itself, and when the wait of main for them ends.
pub mod Shutdown
pub mod Waits
use gvisor_tap_vsock.Base.{
  ℕ, zero, suc, Bool, true, false, List, [], ◌∷◌, ◌++◌, Text, text_eq, nat_eq, ◌==◌, if◌then◌else◌,
  not, ◌||◌, map,
}
use gvisor_tap_vsock.Gvproxy.Run.{
  Forward, Task, close_at_end, close_and_remove, serve_endpoint, accept_vpnkit, accept_qemu,
  accept_bess, accept_vfkit, serve_gateway, log_traffic, accept_stdio, ssh_forward, gateway_address,
}

-- Where a goroutine is. `checking` is at its start and before it looks at the context in its loop,
-- `waiting` at its wait for a signal, a listener or a connection. With a machine, `looping` is before
-- the rx loop looks at the context and `reading` in the handshake or a read: a write to a machine is
-- taken not to wait. A forward starts `connecting` in initialConnection, before its first try or behind
-- the start of one, and then is `greeting` in the dial or the handshake of CreateBastion. For a
-- connection it is `dialling` in connectForward, where Close and the context make it return or, on a
-- client made after Close, do not, and `greeting_again` in a handshake of Reconnect. `ended` is with an
-- error or without. The timeout of a dial is taken as an answer from outside.
pub data Phase : Type 0 where
  checking waiting looping reading greeting greeting_again : Phase
  connecting dialling ended : Bool → Phase

-- Whether Close of a listener and os.Remove succeed, and whether CreateBastion of a forward gets as far
-- as its connection, which it does not without an authentication method
pub record GroupEnv : Type 0 where
  pub closes : Text → Bool
  pub removes : Text → Bool
  pub prepares : Forward → Bool

-- Whether the context is done, the listeners closed, and the goroutines
pub record Group : Type 0 where
  pub done : Bool
  pub closed : List Text
  pub goroutines : List (Task × Phase)

unfoldable pub is_closed : Text → List Text → Bool
is_closed listener [] = false
is_closed listener (c ∷ closed) = c == listener || is_closed listener closed

-- Serve and Accept return with an error once their listener is closed.
abbrev pub served : Text → List Text → Phase
served listener closed = if is_closed listener closed then ended true else waiting

abbrev pub once : Bool → Phase → Phase
once done next = if done then next else waiting

-- An SSH forward. Once the context is done, initialConnection returns the error of the try that it has
-- begun; if it has begun none, CreateBastion dials by itself. A goroutine that is not of the group
-- then calls Close, which ends the pending accept and the calls of the client that it finds.
unfoldable pub advance_forward : Bool → Bool → Phase → Phase
advance_forward prepared done (connecting true) = if done then ended true else connecting true
advance_forward prepared done (connecting false) =
    if done then (if prepared then greeting else ended true) else connecting true
advance_forward prepared done checking = once done (ended false)
advance_forward prepared done waiting = once done checking
advance_forward prepared done (dialling true) = if done then checking else dialling true
advance_forward prepared done phase = phase

-- What a goroutine does without anything from outside. The loop of vpnkit looks at the context
-- before each Accept, and nothing closes its listener; its machines are served with a context that is
-- never done. The connection of vfkit is the socket itself, so that closing it ends a read.
unfoldable pub advance : GroupEnv → Bool → List Text → Task → Phase → Phase
unfolding is_closed advance_forward
advance env done closed task (ended e) = ended e
advance env done closed (ssh_forward forward) phase =
    advance_forward (env.prepares forward) done phase
advance env done closed (accept_vpnkit socket) checking = once done (ended false)
advance env done closed (accept_vpnkit socket) looping = reading
advance env done closed (accept_vpnkit socket) phase = phase
advance env done closed (accept_vfkit socket) reading =
    if is_closed socket closed then ended true else reading
advance env done closed task reading = reading
advance env done closed task looping = if done then ended false else reading
advance env done closed accept_stdio phase = looping
advance env done closed (close_at_end listener) phase =
    once done (ended (not (env.closes listener)))
advance env done closed (close_and_remove socket) phase =
    once done (ended (not (env.removes socket)))
advance env done closed log_traffic phase = once done (ended false)
advance env done closed (serve_endpoint endpoint) phase = served endpoint closed
advance env done closed serve_gateway phase = served gateway_address closed
advance env done closed (accept_qemu socket) phase = served socket closed
advance env done closed (accept_bess socket) phase = served socket closed
advance env done closed (accept_vfkit socket) phase = served socket closed

-- The listener that the goroutine closes with this step
unfoldable pub closing : Bool → Task → Phase → List Text → List Text
closing done task (ended e) closed = closed
closing done (close_at_end listener) phase closed = if done then listener ∷ closed else closed
closing done (close_and_remove socket) phase closed = if done then socket ∷ closed else closed
closing done task phase closed = closed

abbrev pub fails : Phase → Bool
fails (ended e) = e
fails _ = false

-- One step of each goroutine, in the order of the list. The first error makes the context done.
unfoldable pub round : GroupEnv → Bool → List Text → List (Task × Phase) → Group
unfolding advance closing
round env done closed [] = record { done = done; closed = closed; goroutines = [] }
round env done closed ((task, phase) ∷ goroutines) =
    let next = advance env done closed task phase in
    let rest = round env (done || fails next) (closing done task phase closed) goroutines in
    record rest { goroutines = (task, next) ∷ rest.goroutines }

unfoldable pub rounds : GroupEnv → ℕ → Group → Group
rounds env zero g = g
rounds env (suc n) g = rounds env n (round env g.done g.closed g.goroutines)

-- What happens outside: a signal, a connection or a frame for the goroutine of a position, success or
-- failure of what it is at, or the failure that makes it give up
pub data Input : Type 0 where
  signal : Input
  connects receives gives_up : ℕ → Input
  leaves : ℕ → Bool → Input

-- A connection ends the wait of an accept; the loop of vpnkit starts a goroutine for it.
abbrev pub connected : Task × Phase → List (Task × Phase)
connected (accept_vpnkit socket, waiting) =
    (accept_vpnkit socket, checking) ∷ (accept_vpnkit socket, reading) ∷ []
connected (accept_qemu socket, waiting) = (accept_qemu socket, looping) ∷ []
connected (accept_bess socket, waiting) = (accept_bess socket, looping) ∷ []
connected (accept_vfkit socket, waiting) = (accept_vfkit socket, looping) ∷ []
connected (ssh_forward forward, waiting) = (ssh_forward forward, dialling true) ∷ []
connected goroutine = goroutine ∷ []

-- A frame, or for vpnkit its handshake, has been read.
abbrev pub frame_read : Task × Phase → List (Task × Phase)
frame_read (task, reading) = (task, looping) ∷ []
frame_read goroutine = goroutine ∷ []

-- AcceptVpnKit returns nil also if a read has failed. A forward ends if CreateBastion fails, and goes on
-- after connectForward, whether it fails or not. When a handshake of Reconnect fails, connectForward
-- tries again, or returns if the context is done; the client of one that succeeds is dialled on, and
-- not closed any more if the context is done.
abbrev pub left : Bool → Bool → Task × Phase → List (Task × Phase)
left done failed (accept_vpnkit socket, reading) = (accept_vpnkit socket, ended false) ∷ []
left done failed (task, reading) = (task, ended failed) ∷ []
left done failed (task, connecting true) = (task, if failed then connecting true else greeting) ∷ []
left done failed (task, greeting) = (task, if failed then ended true else checking) ∷ []
left done failed (task, dialling closed) = (task, checking) ∷ []
left done failed (task, greeting_again) =
    (task, if failed then (if done then checking else dialling true) else dialling (not done)) ∷ []
left done failed goroutine = goroutine ∷ []

-- The last try of initialConnection has failed, or CreateBastion before its connection; or the client
-- of a forward is dead, and Reconnect has a new connection.
abbrev pub gave_up : Task × Phase → List (Task × Phase)
gave_up (task, connecting true) = (task, ended true) ∷ []
gave_up (task, dialling closed) = (task, greeting_again) ∷ []
gave_up goroutine = goroutine ∷ []

abbrev pub at {ℓ} : {A : Type ℓ} → ℕ → (A → List A) → List A → List A
at i f [] = []
at zero f (x ∷ xs) = f x ++ xs
at (suc i) f (x ∷ xs) = x ∷ at i f xs

-- The first error of a goroutine makes the context done.
unfoldable pub any_fails : List (Task × Phase) → Bool
any_fails [] = false
any_fails ((task, phase) ∷ goroutines) = fails phase || any_fails goroutines

abbrev pub changed : Group → (Task × Phase → List (Task × Phase)) → ℕ → Group
changed g f i =
    let goroutines = at i f g.goroutines in
    record g { done = g.done || any_fails goroutines; goroutines = goroutines }

unfoldable pub input : Group → Input → Group
unfolding any_fails
input g signal = record g { done = true }
input g (connects i) = changed g connected i
input g (receives i) = changed g frame_read i
input g (gives_up i) = changed g gave_up i
input g (leaves i failed) = changed g (left g.done failed) i

-- groupErrs.Wait returns once all have ended.
unfoldable pub wait_returns : List (Task × Phase) → Bool
wait_returns [] = true
wait_returns ((task, ended e) ∷ goroutines) = wait_returns goroutines
wait_returns ((task, phase) ∷ goroutines) = false
