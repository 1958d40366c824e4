-- ===== src/Gvproxy/Options.antt =====
-- The flags of cmd/gvproxy/main.go and what package flag makes of a command line.
use gvisor_tap_vsock.Base.{
  ℕ, Bool, true, false, Option, none, some, List, [], ◌∷◌, ◌++◌, Text, codes, text_eq, nat_eq, ◌==◌,
  ◌≡◌, if◌then◌else◌, ◌||◌,
}
use mathlib.Core.Option

-- The values of a Go int
pub data ℤ : Type 0 where
  pos negsuc : ℕ → ℤ

-- strconv.Itoa, and strconv.ParseInt as package flag calls it
pub record Strconv : Type 0 where
  pub itoa : ℤ → Text
  pub parse_int : Text → Option ℤ

-- An int that is printed is read back.
abbrev pub ReadsBack : Strconv → ℤ → Type 0
ReadsBack lib n = lib.parse_int (lib.itoa n) ≡ some n

-- strconv.ParseBool
abbrev parse_bool : Text → Option Bool
parse_bool t =
    if t == codes "1"
      || t == codes "t"
      || t == codes "T"
      || t == codes "TRUE"
      || t == codes "true"
      || t == codes "True"
    then some true
    else if t == codes "0"
        || t == codes "f"
        || t == codes "F"
        || t == codes "FALSE"
        || t == codes "false"
        || t == codes "False"
    then some false
    else none

-- The variables that the flags set
pub record Options : Type 0 where
  pub show_version : Bool
  pub debug : Bool
  pub mtu : ℤ
  pub endpoints : List Text
  pub vpnkit_socket : Text
  pub qemu_socket : Text
  pub bess_socket : Text
  pub stdio_socket : Text
  pub vfkit_socket : Text
  pub forward_socket : List Text
  pub forward_dest : List Text
  pub forward_user : List Text
  pub forward_identify : List Text
  pub ssh_port : ℤ
  pub pid_file : Text

-- The defaults of the flags
abbrev pub default_options : Options
default_options = record {
  show_version = false;
  debug = false;
  mtu = pos 1500;
  endpoints = [];
  vpnkit_socket = [];
  qemu_socket = [];
  bess_socket = [];
  stdio_socket = [];
  vfkit_socket = [];
  forward_socket = [];
  forward_dest = [];
  forward_user = [];
  forward_identify = [];
  ssh_port = pos 2222;
  pid_file = [];
}

pub data FlagKind : Type 0 where
  boolean valued unknown : FlagKind

-- Which flags there are, and which of them need no value
unfoldable pub flag_kind : Text → FlagKind
flag_kind name =
    if name == codes "version" || name == codes "debug"
    then boolean
    else if name == codes "listen"
        || name == codes "mtu"
        || name == codes "ssh-port"
        || name == codes "listen-vpnkit"
        || name == codes "listen-qemu"
        || name == codes "listen-bess"
        || name == codes "listen-stdio"
        || name == codes "listen-vfkit"
        || name == codes "forward-sock"
        || name == codes "forward-dest"
        || name == codes "forward-user"
        || name == codes "forward-identity"
        || name == codes "pid-file"
    then valued
    else unknown

-- arrayFlags.Set
abbrev pub set : List Text → Text → List Text
set i value = i ++ value ∷ []

-- Set of the value of a flag, none on an error
unfoldable pub set_flag : Strconv → Text → Text → Options → Option Options
set_flag lib name value o =
    if name == codes "version"
    then Option.map (λ b. record o { show_version = b }) (parse_bool value)
    else if name == codes "debug"
    then Option.map (λ b. record o { debug = b }) (parse_bool value)
    else if name == codes "listen"
    then some (record o { endpoints = set o.endpoints value })
    else if name == codes "mtu"
    then Option.map (λ n. record o { mtu = n }) (lib.parse_int value)
    else if name == codes "ssh-port"
    then Option.map (λ n. record o { ssh_port = n }) (lib.parse_int value)
    else if name == codes "listen-vpnkit"
    then some (record o { vpnkit_socket = value })
    else if name == codes "listen-qemu"
    then some (record o { qemu_socket = value })
    else if name == codes "listen-bess"
    then some (record o { bess_socket = value })
    else if name == codes "listen-stdio"
    then some (record o { stdio_socket = value })
    else if name == codes "listen-vfkit"
    then some (record o { vfkit_socket = value })
    else if name == codes "forward-sock"
    then some (record o { forward_socket = set o.forward_socket value })
    else if name == codes "forward-dest"
    then some (record o { forward_dest = set o.forward_dest value })
    else if name == codes "forward-user"
    then some (record o { forward_user = set o.forward_user value })
    else if name == codes "forward-identity"
    then some (record o { forward_identify = set o.forward_identify value })
    else if name == codes "pid-file"
    then some (record o { pid_file = value })
    else none

-- What package flag makes of one argument: the end of the flags, an error, or a flag with the value
-- behind an equals sign
pub data Argument : Type 0 where
  no_flag bad_syntax : Argument
  flag : Text → Option Text → Argument

abbrev pub with_name : ℕ → Text × Option Text → Text × Option Text
with_name c (name, value) = (c ∷ name, value)

-- The name and the value around the first equals sign behind the first byte
unfoldable pub cut_value : Text → Text × Option Text
cut_value [] = ([], none)
cut_value (c ∷ s) = let rest = cut_value s in if c == b'=' then ([], some s) else with_name c rest

abbrev pub flag_of : Text × Option Text → Argument
flag_of (name, value) = flag name value

abbrev pub named : Text → Argument
named [] = bad_syntax
named (c ∷ s) = if c == b'-' || c == b'=' then bad_syntax else flag_of (with_name c (cut_value s))

unfoldable pub read_argument : Text → Argument
unfolding cut_value
read_argument [] = no_flag
read_argument (c ∷ []) = no_flag
read_argument (c ∷ d ∷ s) =
    if c == b'-'
    then if d == b'-' then if s == [] then no_flag else named s else named (d ∷ s)
    else no_flag

-- How flag.Parse ends: it leaves the program on an error and for -help.
pub data Parsed : Type 0 where
  parsed : Options → Parsed
  usage_error helped : Parsed

abbrev pub unknown_flag : Text → Parsed
unknown_flag name = if name == codes "help" || name == codes "h" then helped else usage_error

abbrev pub given : Text → Option Text → Text
given default none = default
given default (some value) = value

-- flag.Parse, with the flag that waits for its value
unfoldable pub parse : Strconv → Option Text → List Text → Options → Parsed
unfolding read_argument
parse lib none [] o = parsed o
parse lib (some name) [] o = usage_error
parse lib (some name) (value ∷ args) o = elim (set_flag lib name value o) [
  | none ↦ usage_error
  | some o' ↦ parse lib none args o'
]
parse lib none (arg ∷ args) o = elim (read_argument arg) [
  | no_flag ↦ parsed o
  | bad_syntax ↦ usage_error
  | flag name value ↦ elim (flag_kind name) [
    | unknown ↦ unknown_flag name
    | boolean ↦ elim (set_flag lib name (given (codes "true") value) o) [
      | none ↦ usage_error
      | some o' ↦ parse lib none args o'
    ]
    | valued ↦ elim value [
      | none ↦ parse lib (some name) args o
      | some v ↦ elim (set_flag lib name v o) [
        | none ↦ usage_error
        | some o' ↦ parse lib none args o'
      ]
    ]
  ]
]
