-- ===== src/WinProxy/Setup.antt =====
-- main of cmd/win-sshproxy/main.go behind its arguments.
use mathlib.Core.Path.{subst}
use gvisor_tap_vsock.Base.{
  ℕ, ◌≡◌, refl, ap, ◌⊎◌, inl, inr, Bool, none, some, List, [], ◌∷◌, ◌++◌, Text, if◌then◌else◌,
  Option-cases, Bool-cases, ◌≤◌, length,
}
use gvisor_tap_vsock.WinProxy.Arguments.{debug_flag, flat, read_args-goes_on}
use gvisor_tap_vsock.WinProxy.{
  Entry, Forward, ReadArgs, shows_version, bad_args, goes_on, read_args, setup_entry, setup_proxies,
}

-- How the program ends or goes on: with a status, or waiting for the goroutines that it has started
pub data Outcome : Type 0 where
  exits : ℕ → Outcome
  waits : List Forward → Outcome

-- main, where the event log can be opened or not; the result of setupProxies is dropped.
unfoldable pub main : Bool → (Text → Bool) → List Text → Outcome
main opens_log parses args = elim (read_args args) [
  | shows_version ↦ exits 0
  | bad_args ↦ exits 10
  | goes_on debug name state_dir entries ↦
      if opens_log then waits (setup_proxies parses entries).1 else exits 1
]

-- The status behind the wait
abbrev pub status : Bool → ℕ
status failed = if failed then 1 else 0

-- The forwards of these entries, by position
abbrev pub Forwards : (Text → Bool) → List Entry → List Forward → Type 0
Forwards parses [] [] = Unit
Forwards parses (e ∷ es) (f ∷ fs) = (setup_entry parses e ≡ some f) × Forwards parses es fs
Forwards parses _ _ = ⊥

-- The entries that have been set up, and those behind them: none, or from the first that does not
-- parse on
pub record Started (parses : Text → Bool) (es : List Entry) (fs : List Forward) : Type 0 where
  pub started : List Entry
  pub rest : List Entry
  pub split : es ≡ started ++ rest
  pub forwards : Forwards parses started fs
  pub stopped :
      (rest ≡ [])
      ⊎ ((e : Entry) × (later : List Entry) × (rest ≡ e ∷ later) × (setup_entry parses e ≡ none))

setup_proxies-Started :
    (parses : Text → Bool) (es : List Entry) → Started parses es (setup_proxies parses es).1
unfolding setup_proxies
setup_proxies-Started parses [] = record {
  started = [];
  rest = [];
  split = refl;
  forwards = tt;
  stopped = inl refl;
}
setup_proxies-Started parses (e ∷ es) = elim (Option-cases (setup_entry parses e)) [
  | inl none_of_it ↦ rw none_of_it (record {
    started = [];
    rest = e ∷ es;
    split = refl;
    forwards = tt;
    stopped = inr (e, es, refl, none_of_it);
  })
  | inr (f, set_up) ↦
      let later = setup_proxies-Started parses es in
      rw set_up (record {
        started = e ∷ later.started;
        rest = later.rest;
        split = ap (λ (t : List Entry). e ∷ t) later.split;
        forwards = (set_up, later.forwards);
        stopped = later.stopped;
      })
]

-- When the proxy waits, its arguments spell a name, a directory and at least one entry, and it has
-- started the forwards of the first entries, in order: of all of them, or of those before the first
-- that does not parse.
pub main-Started :
    (opens_log : Bool) (parses : Text → Bool) (program : Text) (args : List Text)
    (fs : List Forward)
    → main opens_log parses (program ∷ args) ≡ waits fs
    → (d : Bool) × (name : Text) × (state_dir : Text) × (es : List Entry) × (args
        ≡ debug_flag d ++ name ∷ state_dir ∷ flat es)
      × (1 ≤ length es)
      × Started parses es fs
unfolding main
main-Started opens_log parses program args fs e = go (read_args (program ∷ args)) refl
  where
    go :
        (r : ReadArgs)
        → read_args (program ∷ args) ≡ r
        → (d : Bool) × (name : Text) × (state_dir : Text) × (es : List Entry) × (args
            ≡ debug_flag d ++ name ∷ state_dir ∷ flat es)
          × (1 ≤ length es)
          × Started parses es fs
    go shows_version r = absurd (cc (rw (r, main) at e))
    go bad_args r = absurd (cc (rw (r, main) at e))
    go (goes_on d name state_dir es) r = elim (Bool-cases opens_log) [
      | inl opens ↦
          let waiting : waits (setup_proxies parses es).1 ≡ waits fs =
            rw (r, main) at (rw opens at e) in
          let same : (setup_proxies parses es).1 ≡ fs = cc waiting in
          let (spelled, some_there) = read_args-goes_on program args d name state_dir es r in
          (
            d,
            name,
            state_dir,
            es,
            spelled,
            some_there,
            subst (Started parses es) same (setup_proxies-Started parses es),
          )
      | inr closed ↦ absurd (cc (rw (r, main) at (rw closed at e)))
    ]
