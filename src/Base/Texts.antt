-- ===== src/Base/Texts.antt =====
-- Go strings and byte slices as lists of bytes, and what the code uses of package strings.
use Prim.Native.Nat.{ℕ}
use Prim.Native.Char.{code}
use Prim.Native.String.{String}
use mathlib.Core.Option
use mathlib.Core.Option.{Option, none, some}
use mathlib.Core.List.{List, [], ◌∷◌}
use gvisor_tap_vsock.Base.Tests.{◌==◌, text_eq, nat_eq, if◌then◌else◌, list_beq}

abbrev pub Text : Type 0
Text = List ℕ

-- The bytes of an ASCII literal.
abbrev pub codes : String → Text
codes String.[] = []
codes (String.◌∷◌ c s) = code c ∷ codes s

-- What stands before a suffix, if the text ends in it: strings.HasSuffix and strings.TrimSuffix.
abbrev pub cut_suffix : Text → Text → Option Text
cut_suffix [] suffix = if list_beq [] suffix then some [] else none
cut_suffix (c ∷ s) suffix =
    if list_beq (c ∷ s) suffix then some [] else Option.map (λ t. c ∷ t) (cut_suffix s suffix)

-- What stands behind a prefix, if the text begins with it: strings.HasPrefix and strings.TrimPrefix.
abbrev pub cut_prefix : Text → Text → Option Text
cut_prefix s [] = some s
cut_prefix [] (p ∷ prefix) = none
cut_prefix (c ∷ s) (p ∷ prefix) = if c == p then cut_prefix s prefix else none
