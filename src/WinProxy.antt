-- ===== src/WinProxy.antt =====
-- cmd/win-sshproxy/main.go: the arguments of the proxy for Windows, and the forwards that it starts.
pub mod Arguments
pub mod Log
pub mod Setup
mod Tests
use gvisor_tap_vsock.Base.{
  ℕ, ◌-◌, ◌%◌, Bool, true, false, Option, none, some, List, [], ◌∷◌, ◌++◌, Text, codes, text_eq,
  nat_eq, ◌==◌, if◌then◌else◌, ltb, not, ◌||◌, ◌&&◌, length,
}
use gvisor_tap_vsock.Gvproxy.Run.{Source, url, unix_socket, has_scheme}

-- One entry of the three lists sources, dests and identities
pub record Entry : Type 0 where
  pub source : Text
  pub dest : Text
  pub identity : Text

-- How main reads its arguments: it prints the version, complains about them, or goes on with debug, the
-- name for the log, the directory for its state, and the entries.
pub data ReadArgs : Type 0 where
  shows_version bad_args : ReadArgs
  goes_on : Bool → Text → Text → List Entry → ReadArgs

-- for i := 2; i < len(args)-2; i += 3, of the arguments from the third on
unfoldable pub entries : List Text → List Entry
entries (source ∷ dest ∷ identity ∷ rest) =
    record { source = source; dest = dest; identity = identity } ∷ entries rest
entries _ = []

-- The check of the number of arguments, and the loop
unfoldable pub read_entries : Bool → List Text → ReadArgs
unfolding entries
read_entries debug (name ∷ state_dir ∷ rest) =
    let args = name ∷ state_dir ∷ rest in
    if ltb (length args) 5 || not ((length args - 2) % 3 == 0)
    then bad_args
    else goes_on debug name state_dir (entries rest)
read_entries debug _ = bad_args

-- main up to its log, with os.Args
unfoldable pub read_args : List Text → ReadArgs
unfolding read_entries
read_args (program ∷ first ∷ rest) =
    if first == codes "-version"
    then shows_version
    else if first == codes "-debug"
    then read_entries true rest
    else read_entries false (first ∷ rest)
read_args args = read_entries false args

-- The goroutine of an entry
pub record Forward : Type 0 where
  pub from : Source
  pub to : Text
  pub identity : Text

-- One round of setupProxies, where url.Parse succeeds on some texts: none on an error
unfoldable pub setup_entry : (Text → Bool) → Entry → Option Forward
unfolding has_scheme
setup_entry parses e =
    if has_scheme e.source && not (parses e.source)
    then none
    else if parses e.dest
    then some (record {
      from = if has_scheme e.source then url e.source else unix_socket e.source;
      to = e.dest;
      identity = e.identity;
    })
    else none

-- setupProxies: whether it returns nil, and what it has started; main drops the error.
abbrev pub and_setup : Option Forward → Bool × List Forward → Bool × List Forward
and_setup none later = (false, [])
and_setup (some forward) (ok, later) = (ok, forward ∷ later)

unfoldable pub setup_proxies : (Text → Bool) → List Entry → Bool × List Forward
unfolding setup_entry
setup_proxies parses [] = (true, [])
setup_proxies parses (e ∷ rest) = and_setup (setup_entry parses e) (setup_proxies parses rest)
