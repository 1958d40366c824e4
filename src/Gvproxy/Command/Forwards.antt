-- ===== src/Gvproxy/Command/Forwards.antt =====
-- What gvproxy's flags make of the forwards that GvproxyCommand writes.
use gvisor_tap_vsock.Base.{
  ◌≡◌, refl, sym, ap, ◌∙◌, none, some, List, [], ◌∷◌, ◌++◌, Text, text_eq, nat_eq, append_assoc,
  append-nil, GoMap, lookup, KeysDistinct, All,
}
use gvisor_tap_vsock.Gvproxy.Options.{
  Strconv, Options, flag_kind, set, set_flag, read_argument, parse,
}
use gvisor_tap_vsock.Gvproxy.Command.{
  ForwardKind, sock, dest, user, identity, forward_flag, or_empty, values_to_cmdline,
  forward_info_to_cmdline,
}
use gvisor_tap_vsock.Gvproxy.Command.Lines.{all_given, Takes, parse-values}

forward_flag-Takes : (kind : ForwardKind) → Takes (forward_flag kind)
unfolding read_argument flag_kind
forward_flag-Takes sock = (refl, refl)
forward_flag-Takes dest = (refl, refl)
forward_flag-Takes user = (refl, refl)
forward_flag-Takes identity = (refl, refl)

-- The values of the flags of forwards
abbrev pub with_forwards : GoMap Text (List Text) → Options → Options
with_forwards m o = record o {
  forward_socket = o.forward_socket ++ all_given (or_empty (lookup (forward_flag sock) m));
  forward_dest = o.forward_dest ++ all_given (or_empty (lookup (forward_flag dest) m));
  forward_user = o.forward_user ++ all_given (or_empty (lookup (forward_flag user) m));
  forward_identify = o.forward_identify ++ all_given (or_empty (lookup (forward_flag identity) m));
}

abbrev pub put_forwards : ForwardKind → Options → List Text → Options
put_forwards sock o values = record o { forward_socket = values }
put_forwards dest o values = record o { forward_dest = values }
put_forwards user o values = record o { forward_user = values }
put_forwards identity o values = record o { forward_identify = values }

abbrev pub forwards_of : ForwardKind → Options → List Text
forwards_of sock o = o.forward_socket
forwards_of dest o = o.forward_dest
forwards_of user o = o.forward_user
forwards_of identity o = o.forward_identify

abbrev pub IsForward : Text × List Text → Type 0
IsForward (name, values) = (kind : ForwardKind) × (name ≡ forward_flag kind)

set_flag-forward :
    (lib : Strconv) (kind : ForwardKind) (o : Options) (values : List Text) (value : Text)
    → set_flag lib (forward_flag kind) value (put_forwards kind o values)
      ≡ some (put_forwards kind o (set values value))
unfolding set_flag
set_flag-forward lib sock o values value = refl
set_flag-forward lib dest o values value = refl
set_flag-forward lib user o values value = refl
set_flag-forward lib identity o values value = refl

put_forwards-forwards_of :
    (kind : ForwardKind) (o : Options) → put_forwards kind o (forwards_of kind o) ≡ o
put_forwards-forwards_of sock o = refl
put_forwards-forwards_of dest o = refl
put_forwards-forwards_of user o = refl
put_forwards-forwards_of identity o = refl

with_forwards-put_forwards :
    (kind : ForwardKind) (values : List Text) (m : GoMap Text (List Text)) (o : Options)
    → lookup (forward_flag kind) m ≡ none
    → with_forwards m (put_forwards kind o (forwards_of kind o ++ all_given values))
      ≡ with_forwards ((forward_flag kind, values) ∷ m) o
unfolding lookup
with_forwards-put_forwards sock values m o h =
    rw (h, append-nil (o.forward_socket ++ all_given values)) refl
with_forwards-put_forwards dest values m o h =
    rw (h, append-nil (o.forward_dest ++ all_given values)) refl
with_forwards-put_forwards user values m o h =
    rw (h, append-nil (o.forward_user ++ all_given values)) refl
with_forwards-put_forwards identity values m o h =
    rw (h, append-nil (o.forward_identify ++ all_given values)) refl

module _ (lib : Strconv) where
  pub parse-forwards :
      (m : GoMap Text (List Text)) (args : List Text) (o : Options)
      → KeysDistinct m
      → All IsForward m
      → parse lib none (forward_info_to_cmdline m ++ args) o
        ≡ parse lib none args (with_forwards m o)
  unfolding forward_info_to_cmdline lookup
  parse-forwards [] args o distinct forwards =
      rw
        (
          append-nil o.forward_socket,
          append-nil o.forward_dest,
          append-nil o.forward_user,
          append-nil o.forward_identify,
        )
        refl
  parse-forwards ((name, values) ∷ m) args o distinct ((kind, e), forwards) =
      let later = forward_info_to_cmdline m ++ args in
      let put = put_forwards kind o (forwards_of kind o ++ all_given values) in
      rw (append_assoc (values_to_cmdline name values) (forward_info_to_cmdline m) args) (
        ap (parse lib none (values_to_cmdline name values ++ later))
          (sym (put_forwards-forwards_of kind o))
        ∙ (parse-values lib name values later (put_forwards kind o) (forwards_of kind o)
              (rw e (forward_flag-Takes kind)) (rw e (set_flag-forward lib kind o))
            ∙ (parse-forwards m args put distinct.1 forwards
                ∙ ap (parse lib none args)
                    (rw e (with_forwards-put_forwards kind values m o (rw (← e) distinct.0))))))
