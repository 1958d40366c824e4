-- ===== src/Http/Client.antt =====
-- pkg/client/client.go: the client of the HTTP interface.
pub mod Exposing
pub mod Listing
pub mod Names
use gvisor_tap_vsock.Base.{
  ℕ, Bool, true, false, Option, none, some, List, [], ◌∷◌, ◌++◌, Text, codes, text_eq, nat_eq, ◌==◌,
  if◌then◌else◌, ◌||◌, ◌&&◌, not, ltb,
}
use gvisor_tap_vsock.Services.Dns.{Zone}
use gvisor_tap_vsock.Services.Forwarder.Endpoints.{ExposeRequest, UnexposeRequest}

-- What Get and Post of http.Client give: none for an error, or the status and what can be read of the
-- body. They may change the state S of what answers.
abbrev pub Answer : Type 0
Answer = Option (ℕ × Option Text)

-- The fields of the struct, http.Client by the two methods that are called, and encoding/json on the
-- types of the client
pub record HttpClient {ℓ} (S : Type ℓ) : Type ℓ where
  pub base : Text
  pub get : Text → S → Answer × S
  pub post : Text → Text → S → Answer × S
  pub marshal_expose : ExposeRequest → Option Text
  pub marshal_unexpose : UnexposeRequest → Option Text
  pub marshal_zone : Zone → Option Text
  pub decode_ports : Text → Option (List ExposeRequest)
  pub decode_zones : Text → Option (List Zone)

pub data ClientError : Type 0 where
  cannot_marshal no_answer cannot_read_error cannot_decode : ClientError
  unexpected_status : ℕ → ClientError
  message : Text → ClientError

-- unicode.IsSpace, of the code of a character
abbrev pub is_space : ℕ → Bool
is_space c =
    c == 32
    || (ltb 8 c && ltb c 14)
    || c == 133
    || c == 160
    || c == 5760
    || (ltb 8191 c && ltb c 8203)
    || c == 8232
    || c == 8233
    || c == 8239
    || c == 8287
    || c == 12288

unfoldable pub trim_left : Text → Text
trim_left [] = []
trim_left (c ∷ s) = let rest = trim_left s in if is_space c then rest else c ∷ s

unfoldable pub trim_right : Text → Text
trim_right [] = []
trim_right (c ∷ s) = let rest = trim_right s in if is_space c && rest == [] then [] else c ∷ rest

-- strings.TrimSpace, of a text as its characters
unfoldable pub trim_space : Text → Text
unfolding trim_left trim_right
trim_space s = trim_left (trim_right s)

-- The end of Expose, Unexpose and AddDNS; none is nil
unfoldable pub post_error : Answer → Option ClientError
unfolding trim_space
post_error none = some no_answer
post_error (some (status, body)) =
    if status == 200
    then none
    else elim body [ none ↦ some cannot_read_error | some text ↦ some (message (trim_space text)) ]

pub data Listed {ℓ} (A : Type ℓ) : Type ℓ where
  fails : ClientError → Listed A
  listed : A → Listed A

abbrev pub decoded {ℓ} : {A : Type ℓ} → Option A → Listed A
decoded none = fails cannot_decode
decoded (some a) = listed a

-- The end of List and ListDNS; a body that cannot be read does not decode.
unfoldable pub get_result {ℓ} : {A : Type ℓ} → (Text → Option A) → Answer → Listed A
get_result decode none = fails no_answer
get_result decode (some (status, body)) =
    if not (status == 200)
    then fails (unexpected_status status)
    else elim body [ none ↦ fails cannot_decode | some text ↦ decoded (decode text) ]

module _ {ℓ} {S : Type ℓ} (c : HttpClient S) where
  -- What Expose, Unexpose and AddDNS do
  unfoldable pub post_to : Text → Option Text → S → Option ClientError × S
  unfolding post_error
  post_to path none s = (some cannot_marshal, s)
  post_to path (some bin) s =
      let (answer, s') = c.post (c.base ++ path) bin s in (post_error answer, s')

  -- Expose
  unfoldable pub expose : ExposeRequest → S → Option ClientError × S
  unfolding post_to
  expose req = post_to (codes "/services/forwarder/expose") (c.marshal_expose req)

  -- Unexpose
  unfoldable pub unexpose : UnexposeRequest → S → Option ClientError × S
  unfolding post_to
  unexpose req = post_to (codes "/services/forwarder/unexpose") (c.marshal_unexpose req)

  -- AddDNS
  unfoldable pub add_dns : Zone → S → Option ClientError × S
  unfolding post_to
  add_dns req = post_to (codes "/services/dns/add") (c.marshal_zone req)

  -- List
  unfoldable pub list : S → Listed (List ExposeRequest) × S
  unfolding get_result
  list s =
      let (answer, s') = c.get (c.base ++ codes "/services/forwarder/all") s in
      (get_result c.decode_ports answer, s')

  -- ListDNS
  unfoldable pub list_dns : S → Listed (List Zone) × S
  unfolding get_result
  list_dns s =
      let (answer, s') = c.get (c.base ++ codes "/services/dns/all") s in
      (get_result c.decode_zones answer, s')
