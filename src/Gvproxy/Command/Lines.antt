-- ===== src/Gvproxy/Command/Lines.antt =====
-- What gvproxy's flags make of the parts of a command line that GvproxyCommand writes.
use gvisor_tap_vsock.Base.{
  ◌≡◌, refl, ap, ◌∙◌, Option, none, some, List, [], ◌∷◌, ◌++◌, Text, text_eq, nat_eq, append_assoc,
  append-nil, GoMap, lookup, KeysDistinct, All,
}
use gvisor_tap_vsock.Gvproxy.Options.{
  Strconv, Options, flag_kind, valued, set, set_flag, read_argument, flag, parse,
}
use gvisor_tap_vsock.Gvproxy.Command.{
  SocketKind, vpnkit, qemu, bess, stdio, vfkit, socket_flag, sockets_to_cmdline, values_to_cmdline,
}

-- The values that are not empty
abbrev pub given : Text → List Text
given [] = []
given (c ∷ s) = (c ∷ s) ∷ []

abbrev pub all_given : List Text → List Text
all_given [] = []
all_given (value ∷ values) = given value ++ all_given values

-- A flag of gvproxy that takes a value
abbrev pub Takes : Text → Type 0
Takes name = (read_argument (b'-' ∷ name) ≡ flag name none) × (flag_kind name ≡ valued)

socket_flag-Takes : (kind : SocketKind) → Takes (socket_flag kind)
unfolding read_argument flag_kind
socket_flag-Takes vpnkit = (refl, refl)
socket_flag-Takes qemu = (refl, refl)
socket_flag-Takes bess = (refl, refl)
socket_flag-Takes stdio = (refl, refl)
socket_flag-Takes vfkit = (refl, refl)

module _ (lib : Strconv) where
  parse-name :
      (name : Text) (args : List Text) (o : Options)
      → Takes name
      → parse lib none ((b'-' ∷ name) ∷ args) o ≡ parse lib (some name) args o
  unfolding parse
  parse-name name args o takes = rw (takes.0, parse) (rw takes.1 refl)

  parse-value :
      (name value : Text) (args : List Text) (o o' : Options)
      → set_flag lib name value o ≡ some o'
      → parse lib (some name) (value ∷ args) o ≡ parse lib none args o'
  unfolding parse
  parse-value name value args o o' sets = rw (sets, parse) refl

  pub parse-flag :
      (name value : Text) (args : List Text) (o o' : Options)
      → Takes name
      → set_flag lib name value o ≡ some o'
      → parse lib none ((b'-' ∷ name) ∷ value ∷ args) o ≡ parse lib none args o'
  parse-flag name value args o o' takes sets =
      parse-name name (value ∷ args) o takes ∙ parse-value name value args o o' sets

  pub parse-values :
      (name : Text) (values : List Text) (args : List Text) (g : List Text → Options)
      (xs : List Text)
      → Takes name
      → ((ys : List Text) (v : Text) → set_flag lib name v (g ys) ≡ some (g (set ys v)))
      → parse lib none (values_to_cmdline name values ++ args) (g xs)
        ≡ parse lib none args (g (xs ++ all_given values))
  unfolding values_to_cmdline
  parse-values name [] args g xs takes sets = rw (append-nil xs) refl
  parse-values name ([] ∷ values) args g xs takes sets =
      parse-values name values args g xs takes sets
  parse-values name ((c ∷ s) ∷ values) args g xs takes sets =
      parse-flag name (c ∷ s) (values_to_cmdline name values ++ args) (g xs) (g (set xs (c ∷ s)))
        takes (sets xs (c ∷ s))
      ∙ (parse-values name values args g (set xs (c ∷ s)) takes sets
          ∙ rw (append_assoc xs ((c ∷ s) ∷ []) (all_given values)) refl)

-- The value of one socket
abbrev pub or_old : Text → Option Text → Text
or_old old none = old
or_old old (some []) = old
or_old old (some (c ∷ s)) = c ∷ s

abbrev pub with_sockets : GoMap Text Text → Options → Options
with_sockets m o = record o {
  vpnkit_socket = or_old o.vpnkit_socket (lookup (socket_flag vpnkit) m);
  qemu_socket = or_old o.qemu_socket (lookup (socket_flag qemu) m);
  bess_socket = or_old o.bess_socket (lookup (socket_flag bess) m);
  stdio_socket = or_old o.stdio_socket (lookup (socket_flag stdio) m);
  vfkit_socket = or_old o.vfkit_socket (lookup (socket_flag vfkit) m);
}

abbrev pub put_socket : SocketKind → Text → Options → Options
put_socket vpnkit socket o = record o { vpnkit_socket = socket }
put_socket qemu socket o = record o { qemu_socket = socket }
put_socket bess socket o = record o { bess_socket = socket }
put_socket stdio socket o = record o { stdio_socket = socket }
put_socket vfkit socket o = record o { vfkit_socket = socket }

abbrev pub IsSocket : Text × Text → Type 0
IsSocket (name, socket) = (kind : SocketKind) × (name ≡ socket_flag kind)

module _ (lib : Strconv) where
  set_flag-socket :
      (kind : SocketKind) (socket : Text) (o : Options)
      → set_flag lib (socket_flag kind) socket o ≡ some (put_socket kind socket o)
  unfolding set_flag
  set_flag-socket vpnkit socket o = refl
  set_flag-socket qemu socket o = refl
  set_flag-socket bess socket o = refl
  set_flag-socket stdio socket o = refl
  set_flag-socket vfkit socket o = refl

with_sockets-skip :
    (kind : SocketKind) (m : GoMap Text Text) (o : Options)
    → lookup (socket_flag kind) m ≡ none
    → with_sockets m o ≡ with_sockets ((socket_flag kind, []) ∷ m) o
unfolding lookup
with_sockets-skip vpnkit m o h = rw h refl
with_sockets-skip qemu m o h = rw h refl
with_sockets-skip bess m o h = rw h refl
with_sockets-skip stdio m o h = rw h refl
with_sockets-skip vfkit m o h = rw h refl

with_sockets-put_socket :
    (kind : SocketKind) (c : _) (s : Text) (m : GoMap Text Text) (o : Options)
    → lookup (socket_flag kind) m ≡ none
    → with_sockets m (put_socket kind (c ∷ s) o) ≡ with_sockets ((socket_flag kind, c ∷ s) ∷ m) o
unfolding lookup
with_sockets-put_socket vpnkit c s m o h = rw h refl
with_sockets-put_socket qemu c s m o h = rw h refl
with_sockets-put_socket bess c s m o h = rw h refl
with_sockets-put_socket stdio c s m o h = rw h refl
with_sockets-put_socket vfkit c s m o h = rw h refl

module _ (lib : Strconv) where
  pub parse-sockets :
      (m : GoMap Text Text) (args : List Text) (o : Options)
      → KeysDistinct m
      → All IsSocket m
      → parse lib none (sockets_to_cmdline m ++ args) o ≡ parse lib none args (with_sockets m o)
  unfolding sockets_to_cmdline lookup
  parse-sockets [] args o distinct sockets = refl
  parse-sockets ((name, []) ∷ m) args o distinct ((kind, e), sockets) =
      parse-sockets m args o distinct.1 sockets
      ∙ ap (parse lib none args) (rw e (with_sockets-skip kind m o (rw (← e) distinct.0)))
  parse-sockets ((name, c ∷ s) ∷ m) args o distinct ((kind, e), sockets) =
      parse-flag lib name (c ∷ s) (sockets_to_cmdline m ++ args) o (put_socket kind (c ∷ s) o)
        (rw e (socket_flag-Takes kind)) (rw e (set_flag-socket lib kind (c ∷ s) o))
      ∙ (parse-sockets m args (put_socket kind (c ∷ s) o) distinct.1 sockets
          ∙ ap (parse lib none args)
              (rw e (with_sockets-put_socket kind c s m o (rw (← e) distinct.0))))
