-- ===== src/Gvproxy/Command/Calls.antt =====
-- The methods of GvproxyCommand, by what gvproxy then reads from its command line.
use gvisor_tap_vsock.Base.{
  suc, ◌≡◌, refl, ap, ◌∙◌, Bool, false, arith, none, some, List, [], ◌∷◌, ◌++◌, Text, text_eq,
  nat_eq, append_assoc, append-nil, GoMap, lookup, insert, All, insert-KeysDistinct, ltb, length,
  if◌then◌else◌, ==_iff, ◌==◌, Bool-cases, inl, inr, map_laws,
}
use gvisor_tap_vsock.Gvproxy.Options.{
  ℤ, Strconv, ReadsBack, Options, default_options, parsed, parse,
}
use gvisor_tap_vsock.Gvproxy.Command.{
  GvproxyCommand, new_gvproxy_command, add_endpoint, SocketKind, vpnkit, qemu, bess, stdio, vfkit,
  socket_flag, add_socket, ForwardKind, sock, dest, user, identity, forward_flag, add_forward,
  add_forward_info, check_sockets_initialized, check_forward_info_initialized, or_empty, to_cmdline,
}
use gvisor_tap_vsock.Gvproxy.Command.Lines.{given, all_given, or_old, put_socket, IsSocket}
use gvisor_tap_vsock.Gvproxy.Command.Forwards.{put_forwards, forwards_of, IsForward}
use gvisor_tap_vsock.Gvproxy.Command.Read.{IsValid, options_of, parse-to_cmdline}

-- The calls that build a command, and the public fields that a program sets
pub data Call : Type 0 where
  endpoint set_pid_file : Text → Call
  socket : SocketKind → Text → Call
  forward : ForwardKind → Text → Call
  set_debug : Bool → Call
  set_mtu set_ssh_port : ℤ → Call

abbrev pub do_call : Call → GvproxyCommand → GvproxyCommand
do_call (endpoint value) c = add_endpoint value c
do_call (set_pid_file value) c = record c { pid_file = value }
do_call (socket kind value) c = add_socket kind value c
do_call (forward kind value) c = add_forward kind value c
do_call (set_debug value) c = record c { debug = value }
do_call (set_mtu value) c = record c { mtu = value }
do_call (set_ssh_port value) c = record c { ssh_port = value }

abbrev pub do_calls : List Call → GvproxyCommand → GvproxyCommand
do_calls [] c = c
do_calls (call ∷ calls) c = do_calls calls (do_call call c)

-- What a call asks of gvproxy: a later socket of a kind replaces the earlier one, an endpoint or a
-- part of a forward is one more, and an empty text is none.
abbrev pub asked : Call → Options → Options
asked (endpoint value) o = record o { endpoints = o.endpoints ++ given value }
asked (set_pid_file value) o = record o { pid_file = value }
asked (socket kind value) o = put_socket kind value o
asked (forward kind value) o = put_forwards kind o (forwards_of kind o ++ given value)
asked (set_debug value) o = record o { debug = value }
asked (set_mtu value) o = record o { mtu = value }
asked (set_ssh_port value) o = record o { ssh_port = value }

abbrev pub all_asked : List Call → Options → Options
all_asked [] o = o
all_asked (call ∷ calls) o = all_asked calls (asked call o)

all_given-append : (xs ys : List Text) → all_given (xs ++ ys) ≡ all_given xs ++ all_given ys
all_given-append [] ys = refl
all_given-append (x ∷ xs) ys =
    rw (append_assoc (given x) (all_given xs) (all_given ys))
      (ap (λ (t : List Text). given x ++ t) (all_given-append xs ys))

-- An empty map is replaced by an empty one.
sockets_initialized : (c : GvproxyCommand) → check_sockets_initialized c ≡ c
sockets_initialized c = go c.sockets
  where
    go :
        (m : GoMap Text Text)
        → (if ltb (length m) 1 then record c { sockets = [] } else record c { sockets = m })
          ≡ record c { sockets = m }
    go [] = refl
    go (entry ∷ m) = let full : ltb (suc (length m)) 1 ≡ false = ground arith in rw full refl

forward_info_initialized : (c : GvproxyCommand) → check_forward_info_initialized c ≡ c
forward_info_initialized c = go c.forward_info
  where
    go :
        (m : GoMap Text (List Text))
        → (if ltb (length m) 1
            then record c { forward_info = [] }
            else record c { forward_info = m })
          ≡ record c { forward_info = m }
    go [] = refl
    go (entry ∷ m) = let full : ltb (suc (length m)) 1 ≡ false = ground arith in rw full refl

endpoints_initialized :
    (c : GvproxyCommand)
    → (if ltb (length c.endpoints) 1 then record c { endpoints = [] } else c) ≡ c
endpoints_initialized c = go c.endpoints
  where
    go :
        (m : List Text)
        → (if ltb (length m) 1 then record c { endpoints = [] } else record c { endpoints = m })
          ≡ record c { endpoints = m }
    go [] = refl
    go (entry ∷ m) = let full : ltb (suc (length m)) 1 ≡ false = ground arith in rw full refl

add_endpoint_lem :
    (value : Text) (c : GvproxyCommand)
    → add_endpoint value c ≡ record c { endpoints = c.endpoints ++ value ∷ [] }
unfolding add_endpoint
add_endpoint_lem value c =
    ap (λ (d : GvproxyCommand). record d { endpoints = d.endpoints ++ value ∷ [] })
      (endpoints_initialized c)

add_socket_lem :
    (kind : SocketKind) (value : Text) (c : GvproxyCommand)
    → add_socket kind value c ≡ record c { sockets = insert (socket_flag kind) value c.sockets }
unfolding add_socket
add_socket_lem kind value c =
    ap (λ (d : GvproxyCommand). record d { sockets = insert (socket_flag kind) value d.sockets })
      (sockets_initialized c)

abbrev with_forward : ForwardKind → Text → GvproxyCommand → GvproxyCommand
with_forward kind value c = record c {
  forward_info =
      insert (forward_flag kind)
        (or_empty (lookup (forward_flag kind) c.forward_info) ++ value ∷ []) c.forward_info;
}

add_forward_lem :
    (kind : ForwardKind) (value : Text) (c : GvproxyCommand)
    → add_forward kind value c ≡ with_forward kind value c
unfolding add_forward add_forward_info
add_forward_lem kind value c = ap (with_forward kind value) (forward_info_initialized c)

-- Every call keeps the maps well formed.
module _ {ℓ} {V : Type ℓ} (P : Text × V → Type ℓ) where
  insert-All :
      (k : Text) (v : V) (m : GoMap Text V)
      → ((name : Text) → name ≡ k → P (name, v))
      → All P m
      → All P (insert k v m)
  unfolding insert
  insert-All k v [] new h = (new k refl, tt)
  insert-All k v ((name, old) ∷ m) new h = elim (Bool-cases (name == k)) [
    | inl same ↦ rw same (new name ((==_iff name k).0 same), h.1)
    | inr other ↦ rw other (h.0, insert-All k v m new h.1)
  ]

pub do_call-IsValid : (call : Call) (c : GvproxyCommand) → IsValid c → IsValid (do_call call c)
do_call-IsValid (endpoint value) c valid = rw (add_endpoint_lem value c) valid
do_call-IsValid (set_pid_file value) c valid = valid
do_call-IsValid (socket kind value) c ((distinct, named), forwards) =
    rw (add_socket_lem kind value c) (
      (
        insert-KeysDistinct (socket_flag kind) value c.sockets distinct,
        insert-All IsSocket (socket_flag kind) value c.sockets (λ name e. (kind, e)) named,
      ),
      forwards,
    )
do_call-IsValid (forward kind value) c (sockets, (distinct, named)) =
    let values = or_empty (lookup (forward_flag kind) c.forward_info) ++ value ∷ [] in
    rw (add_forward_lem kind value c) (
      sockets,
      (
        insert-KeysDistinct (forward_flag kind) values c.forward_info distinct,
        insert-All IsForward (forward_flag kind) values c.forward_info (λ name e. (kind, e)) named,
      ),
    )
do_call-IsValid (set_debug value) c valid = valid
do_call-IsValid (set_mtu value) c valid = valid
do_call-IsValid (set_ssh_port value) c valid = valid

or_old-empty : (value : Text) → or_old [] (some value) ≡ value
or_old-empty [] = refl
or_old-empty (c ∷ s) = refl

all_given-set :
    (values : List Text) (value : Text)
    → all_given (values ++ value ∷ []) ≡ all_given values ++ given value
all_given-set values value =
    rw (all_given-append values (value ∷ []), append-nil (given value)) refl

ruleset reading = (map_laws, or_old-empty, all_given-set)

options_of-do_call :
    (call : Call) (c : GvproxyCommand) → options_of (do_call call c) ≡ asked call (options_of c)
options_of-do_call (endpoint value) c = rw (add_endpoint_lem value c) (simp reading refl)
options_of-do_call (set_pid_file value) c = refl
options_of-do_call (socket vpnkit value) c = rw (add_socket_lem vpnkit value c) (simp reading refl)
options_of-do_call (socket qemu value) c = rw (add_socket_lem qemu value c) (simp reading refl)
options_of-do_call (socket bess value) c = rw (add_socket_lem bess value c) (simp reading refl)
options_of-do_call (socket stdio value) c = rw (add_socket_lem stdio value c) (simp reading refl)
options_of-do_call (socket vfkit value) c = rw (add_socket_lem vfkit value c) (simp reading refl)
options_of-do_call (forward sock value) c = rw (add_forward_lem sock value c) (simp reading refl)
options_of-do_call (forward dest value) c = rw (add_forward_lem dest value c) (simp reading refl)
options_of-do_call (forward user value) c = rw (add_forward_lem user value c) (simp reading refl)
options_of-do_call (forward identity value) c =
    rw (add_forward_lem identity value c) (simp reading refl)
options_of-do_call (set_debug value) c = refl
options_of-do_call (set_mtu value) c = refl
options_of-do_call (set_ssh_port value) c = refl

options_of-do_calls :
    (calls : List Call) (c : GvproxyCommand)
    → options_of (do_calls calls c) ≡ all_asked calls (options_of c)
options_of-do_calls [] c = refl
options_of-do_calls (call ∷ calls) c =
    options_of-do_calls calls (do_call call c) ∙ ap (all_asked calls) (options_of-do_call call c)

do_calls-IsValid : (calls : List Call) (c : GvproxyCommand) → IsValid c → IsValid (do_calls calls c)
do_calls-IsValid [] c valid = valid
do_calls-IsValid (call ∷ calls) c valid =
    do_calls-IsValid calls (do_call call c) (do_call-IsValid call c valid)

-- The command line refines the calls: whatever calls build a command, gvproxy's flags read from its
-- command line exactly the options that the calls ask for one after the other, from the defaults, if
-- the two numbers in it can be printed and read back.
pub parse-do_calls :
    (lib : Strconv) (calls : List Call)
    → ReadsBack lib (all_asked calls default_options).mtu
    → ReadsBack lib (all_asked calls default_options).ssh_port
    → parse lib none (to_cmdline lib (do_calls calls new_gvproxy_command)) default_options
      ≡ parsed (all_asked calls default_options)
unfolding new_gvproxy_command lookup
parse-do_calls lib calls m ssh =
    let c = do_calls calls new_gvproxy_command in
    let same : options_of c ≡ all_asked calls default_options =
      options_of-do_calls calls new_gvproxy_command in
    let mtus : c.mtu ≡ (all_asked calls default_options).mtu = ap (λ (o : Options). o.mtu) same in
    let ports : c.ssh_port ≡ (all_asked calls default_options).ssh_port =
      ap (λ (o : Options). o.ssh_port) same in
    parse-to_cmdline lib c (do_calls-IsValid calls new_gvproxy_command ((tt, tt), (tt, tt)))
      (rw mtus m) (rw ports ssh)
    ∙ ap parsed same
