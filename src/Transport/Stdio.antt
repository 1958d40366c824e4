-- ===== src/Transport/Stdio.antt =====
-- The flags that Dial gives to the program of a stdio endpoint, as that program reads them.
use gvisor_tap_vsock.Base.{
  ◌≡◌, ◌≢◌, refl, ◌∙◌, false, Option, none, some, List, [], ◌∷◌, ◌++◌, Text, text_eq, nat_eq, ◌==◌,
  ==_ne, All, append_assoc,
}
use gvisor_tap_vsock.Transport.{stdio_arg, stdio_args, stdio_values}
use gvisor_tap_vsock.Gvproxy.Options.{
  Strconv, Options, flag, cut_value, read_argument, flag_kind, valued, boolean, unknown,
  unknown_flag, FlagKind, set_flag, parse, Parsed, usage_error,
}

-- A name of a flag: it is not empty, does not begin with a dash and has no equals sign.
abbrev pub IsName : Text → Type 0
IsName [] = ⊥
IsName (c ∷ s) = (c ≢ b'-') × (c ≢ b'=') × All (λ d. d ≢ b'=') s

cut_value-append : (s v : Text) → All (λ d. d ≢ b'=') s → cut_value (s ++ b'=' ∷ v) ≡ (s, some v)
unfolding cut_value
cut_value-append [] v h = refl
cut_value-append (c ∷ s) v h = rw (==_ne c b'=' h.0) (rw (cut_value-append s v h.1) refl)

pub read_argument-stdio_arg :
    (k v : Text) → IsName k → read_argument (stdio_arg k v) ≡ flag k (some v)
unfolding read_argument
read_argument-stdio_arg [] v h = absurd h
read_argument-stdio_arg (c ∷ s) v h =
    let no_dash : (c == b'-') ≡ false = ==_ne c b'-' h.0 in
    let no_equals : (c == b'=') ≡ false = ==_ne c b'=' h.1 in
    rw (no_dash, no_equals) (rw (cut_value-append s v h.2) refl)

abbrev pub and_then : Option Options → (Options → Option Options) → Option Options
and_then none next = none
and_then (some o) next = next o

-- Set of the values of a flag, and of those of a query, one after the other
abbrev pub set_values : Strconv → Text → List Text → Options → Option Options
set_values lib k [] o = some o
set_values lib k (v ∷ vs) o = and_then (set_flag lib k v o) (set_values lib k vs)

abbrev pub set_query : Strconv → List (Text × List Text) → Options → Option Options
set_query lib [] o = some o
set_query lib ((k, vs) ∷ query) o = and_then (set_values lib k vs o) (set_query lib query)

-- An error leaves the program, or the rest of the arguments is read.
abbrev pub parse_rest : Strconv → List Text → Option Options → Parsed
parse_rest lib args none = usage_error
parse_rest lib args (some o) = parse lib none args o

-- The key is the name of a flag of gvproxy.
abbrev pub Known : Text × List Text → Type 0
Known entry = IsName entry.0 × (flag_kind entry.0 ≢ unknown)

module _ (lib : Strconv) where
  parse-stdio_arg :
      (k v : Text) (args : List Text) (o : Options)
      → IsName k
      → flag_kind k ≢ unknown
      → parse lib none (stdio_arg k v ∷ args) o ≡ parse_rest lib args (set_flag lib k v o)
  unfolding parse
  parse-stdio_arg k v args o name known =
      rw (read_argument-stdio_arg k v name, parse) (go (flag_kind k) known (set_flag lib k v o))
    where
      go :
          (kind : FlagKind)
          → kind ≢ unknown
          → (set : Option Options)
          → (elim kind [
            | unknown ↦ unknown_flag k
            | boolean ↦ elim set [ none ↦ usage_error | some o' ↦ parse lib none args o' ]
            | valued ↦ elim set [ none ↦ usage_error | some o' ↦ parse lib none args o' ]
          ])
            ≡ parse_rest lib args set
      go boolean ne none = refl
      go boolean ne (some o') = refl
      go valued ne none = refl
      go valued ne (some o') = refl
      go unknown ne set = absurd (ne refl)

  parse_rest-and_then :
      (first args : List Text) (set : Option Options) (next : Options → Option Options)
      → ((o : Options) → parse lib none (first ++ args) o ≡ parse_rest lib args (next o))
      → parse_rest lib (first ++ args) set ≡ parse_rest lib args (and_then set next)
  parse_rest-and_then first args none next h = refl
  parse_rest-and_then first args (some o) next h = h o

  parse-stdio_args :
      (k : Text) (vs args : List Text) (o : Options)
      → IsName k
      → flag_kind k ≢ unknown
      → parse lib none (stdio_args k vs ++ args) o ≡ parse_rest lib args (set_values lib k vs o)
  unfolding stdio_args
  parse-stdio_args k [] args o name known = refl
  parse-stdio_args k (v ∷ vs) args o name known =
      parse-stdio_arg k v (stdio_args k vs ++ args) o name known
      ∙ parse_rest-and_then (stdio_args k vs) args (set_flag lib k v o) (set_values lib k vs)
          (λ o'. parse-stdio_args k vs args o' name known)

  -- The arguments that Dial makes of the query of a stdio endpoint are read by the flags of gvproxy,
  -- if the keys are names of its flags, as its values set one after the other: the program goes on with
  -- the arguments behind them, or leaves on the first value that a flag refuses.
  pub parse-stdio_values :
      (query : List (Text × List Text)) (args : List Text) (o : Options)
      → All Known query
      → parse lib none (stdio_values query ++ args) o ≡ parse_rest lib args (set_query lib query o)
  unfolding stdio_values
  parse-stdio_values [] args o known = refl
  parse-stdio_values ((k, vs) ∷ query) args o ((name, known), later) =
      rw (append_assoc (stdio_args k vs) (stdio_values query) args) (
        parse-stdio_args k vs (stdio_values query ++ args) o name known
        ∙ parse_rest-and_then (stdio_values query) args (set_values lib k vs o)
            (set_query lib query) (λ o'. parse-stdio_values query args o' later))
