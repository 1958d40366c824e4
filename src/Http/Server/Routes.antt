-- ===== src/Http/Server/Routes.antt =====
-- Where the paths of the interface lead.
use gvisor_tap_vsock.Base.{
  ◌≡◌, refl, ◌⊎◌, inl, inr, false, none, List, [], ◌∷◌, Text, codes, ◌≢◌, sym, All, text_eq, nat_eq,
  ==_ne, Bool-cases,
}
use gvisor_tap_vsock.Http.{
  HttpRequest, Handler, fits, route, redirects, serve_mux, strip_prefix, not_found, moved,
}
use gvisor_tap_vsock.Http.Server.{
  Network, HttpEnv, all, expose_handler, unexpose_handler, forwarder_mux, add_handler, dns_mux,
  services_mux, mux_with, mux, gateway_mux,
}

route-none :
    {A : Type 0} (routes : List (Text × A)) (path : Text)
    → All (λ r. fits r.0 path ≡ false) routes
    → route routes path ≡ none
unfolding route
route-none [] path h = refl
route-none ((pattern, handler) ∷ routes) path h = rw h.0 (route-none routes path h.1)

-- A path that no pattern fits has no handler.
serve_mux_none :
    {S : Type 0} (routes : List (Text × Handler S)) (req : HttpRequest) (s : S)
    → All (λ r. fits r.0 req.path ≡ false) routes
    → (((serve_mux routes req s).0 ≡ moved req.path) ⊎ ((serve_mux routes req s).0 ≡ not_found))
      × ((serve_mux routes req s).1 ≡ s)
unfolding serve_mux
serve_mux_none routes req s h =
    rw (route-none routes req.path h, serve_mux)
      (elim (Bool-cases (redirects routes req.path)) [
        | inl e ↦ (inl (rw e), refl)
        | inr e ↦ (inr (rw e), refl)
      ])

module _ (env : HttpEnv) (req : HttpRequest) (n : Network) where
  pub mux-expose :
      mux env (record req { path = codes "/services/forwarder/expose" }) n
      ≡ expose_handler env (record req { path = codes "/expose" }) n
  unfolding mux mux_with serve_mux strip_prefix route fits services_mux forwarder_mux
  mux-expose = refl

  pub gateway_mux-expose :
      gateway_mux env (record req { path = codes "/services/forwarder/expose" }) n
      ≡ expose_handler env (record req { path = codes "/expose" }) n
  unfolding gateway_mux mux mux_with serve_mux strip_prefix route fits services_mux forwarder_mux
  gateway_mux-expose = refl

  pub mux-add :
      mux env (record req { path = codes "/services/dns/add" }) n
      ≡ add_handler env (record req { path = codes "/add" }) n
  unfolding mux mux_with serve_mux strip_prefix route fits services_mux dns_mux
  mux-add = refl

  pub mux-all :
      mux env (record req { path = codes "/services/forwarder/all" }) n
      ≡ all env (record req { path = codes "/all" }) n
  unfolding mux mux_with serve_mux strip_prefix route fits services_mux forwarder_mux
  mux-all = refl

  pub gateway_mux-all :
      gateway_mux env (record req { path = codes "/services/forwarder/all" }) n
      ≡ all env (record req { path = codes "/all" }) n
  unfolding gateway_mux mux mux_with serve_mux strip_prefix route fits services_mux forwarder_mux
  gateway_mux-all = refl

  pub gateway_mux-unexpose :
      gateway_mux env (record req { path = codes "/services/forwarder/unexpose" }) n
      ≡ unexpose_handler env (record req { path = codes "/unexpose" }) n
  unfolding gateway_mux mux mux_with serve_mux strip_prefix route fits services_mux forwarder_mux
  gateway_mux-unexpose = refl

  -- Every other path leads to no handler.
  pub gateway_mux_none :
      req.path ≢ codes "/services/forwarder/all"
      → req.path ≢ codes "/services/forwarder/expose"
      → req.path ≢ codes "/services/forwarder/unexpose"
      → (((gateway_mux env req n).0 ≡ moved req.path) ⊎ ((gateway_mux env req n).0 ≡ not_found))
        × ((gateway_mux env req n).1 ≡ n)
  unfolding gateway_mux fits
  gateway_mux_none not_all not_expose not_unexpose = serve_mux_none _ req n (
    ==_ne (codes "/services/forwarder/all") req.path (λ e. not_all (sym e)),
    (
      ==_ne (codes "/services/forwarder/expose") req.path (λ e. not_expose (sym e)),
      (==_ne (codes "/services/forwarder/unexpose") req.path (λ e. not_unexpose (sym e)), tt),
    ),
  )
