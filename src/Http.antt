-- ===== src/Http.antt =====
-- What the code uses of net/http: requests, replies, ServeMux, StripPrefix and Error. The paths are
-- clean ones: ServeMux redirects any other to a clean path.
pub mod Server
pub mod Client
mod Tests
use gvisor_tap_vsock.Base.{
  ℕ, Bool, true, false, Option, none, some, List, [], ◌∷◌, ◌++◌, Text, codes, text_eq, nat_eq, ◌==◌,
  if◌then◌else◌, length, ltb, cut_prefix, cut_suffix,
}

pub record HttpRequest : Type 0 where
  pub method : Text
  pub path : Text
  pub query : Text → Text
  pub body : Text
  pub remote_addr : Text

pub record HttpReply : Type 0 where
  pub status : ℕ
  pub text : Text

-- A handler of a server with the state S. It gives no reply if it panics, since the server then
-- cuts the connection, or if it has taken the connection over.
abbrev pub Handler {ℓ} : Type ℓ → Type ℓ
Handler S = HttpRequest → S → Option HttpReply × S

-- http.Error
abbrev pub http_error : ℕ → Text → Option HttpReply
http_error status message = some (record { status = status; text = message ++ 10 ∷ [] })

abbrev pub not_found : Option HttpReply
not_found = http_error 404 (codes "404 page not found")

-- A pattern stands for its own path, or for all paths below it if it ends in a slash.
unfoldable pub fits : Text → Text → Bool
fits pattern path = elim (cut_suffix pattern (codes "/")) [
  | none ↦ pattern == path
  | some above ↦ elim (cut_prefix path pattern) [ none ↦ false | some below ↦ true ]
]

abbrev pub longer {ℓ} : {A : Type ℓ} → Text × A → Option (Text × A) → Text × A
longer (pattern, h) none = (pattern, h)
longer (pattern, h) (some (other, h')) =
    if ltb (length pattern) (length other) then (other, h') else (pattern, h)

-- The longest of the patterns that fit the path, with its handler
unfoldable pub route {ℓ} : {A : Type ℓ} → List (Text × A) → Text → Option (Text × A)
unfolding fits
route [] path = none
route ((pattern, h) ∷ routes) path =
    let rest = route routes path in
    if fits pattern path then some (longer (pattern, h) rest) else rest

-- A path without the slash at the end of a pattern is redirected to it.
unfoldable pub redirects {ℓ} : {A : Type ℓ} → List (Text × A) → Text → Bool
redirects [] path = false
redirects ((pattern, h) ∷ routes) path =
    let rest = redirects routes path in if pattern == path ++ codes "/" then true else rest

abbrev pub moved : Text → Option HttpReply
moved path = some (record { status = 301; text = path ++ codes "/" })

module _ {ℓ} {S : Type ℓ} where
  -- ServeMux.ServeHTTP
  unfoldable pub serve_mux : List (Text × Handler S) → Handler S
  serve_mux routes req s = elim (route routes req.path) [
    | some (pattern, h) ↦ h req s
    | none ↦ (if redirects routes req.path then moved req.path else not_found, s)
  ]

  -- http.StripPrefix
  unfoldable pub strip_prefix : Text → Handler S → Handler S
  strip_prefix prefix h req s = elim (cut_prefix req.path prefix) [
    | none ↦ (not_found, s)
    | some rest ↦ h (record req { path = rest }) s
  ]
