-- ===== src/Http/Server/Guests.antt =====
-- What the virtual machines reach at port 80 of the gateway.
use gvisor_tap_vsock.Base.{
  ◌≡◌, refl, ap, false, ◌∙◌, ◌≢◌, ◌⊎◌, inl, inr, Option, Text, codes, text_eq, nat_eq, ◌==◌, ==_iff,
  Bool-cases,
}
use gvisor_tap_vsock.Http.{HttpRequest, HttpReply, not_found, moved}
use gvisor_tap_vsock.Http.Server.{
  Network, HttpEnv, all, expose_handler, unexpose_handler, gateway_mux,
}
use gvisor_tap_vsock.Http.Server.Routes.{
  gateway_mux-all, gateway_mux-expose, gateway_mux-unexpose, gateway_mux_none,
}

abbrev pub expose_path : Text
expose_path = codes "/services/forwarder/expose"

abbrev pub unexpose_path : Text
unexpose_path = codes "/services/forwarder/unexpose"

abbrev pub all_path : Text
all_path = codes "/services/forwarder/all"

module _ (env : HttpEnv) (req : HttpRequest) (n : Network) where
  -- The zones, the leases and the switch are left as they are; so are the forwards, unless the path
  -- is that of /expose or /unexpose; and any path but these two and that of /all is not found or
  -- redirected.
  abbrev pub Limited : Option HttpReply × Network → Type 0
  Limited r =
      (r.1.zones ≡ n.zones)
      × (r.1.pool ≡ n.pool)
      × (r.1.switch ≡ n.switch)
      × (req.path ≢ expose_path → req.path ≢ unexpose_path → r.1.forwarder ≡ n.forwarder)
      × (req.path ≢ all_path
          → req.path ≢ expose_path
          → req.path ≢ unexpose_path
          → (r.0 ≡ moved req.path) ⊎ (r.0 ≡ not_found))

  on_path :
      (path : Text)
      → req.path ≡ path
      → gateway_mux env req n ≡ gateway_mux env (record req { path = path }) n
  on_path path e = ap (λ (p : Text). gateway_mux env (record req { path = p }) n) e

  apart : (path : Text) → (req.path == path) ≡ false → req.path ≢ path
  apart path differ e = absurd (cc ((==_iff req.path path).1 e, differ))

  -- A virtual machine cannot touch more than the forwards: whatever it asks of the gateway's HTTP
  -- server, the zones, the leases and the switch are left as they are, and so are the forwards
  -- unless the path is that of /expose or /unexpose of the forwarder. Any path but these two and
  -- that of /all is not found, or redirected.
  pub gateway_mux-Limited : Limited (gateway_mux env req n)
  unfolding all expose_handler unexpose_handler
  gateway_mux-Limited = elim (Bool-cases (req.path == all_path)) [
    | inl same ↦
        let e = (==_iff req.path all_path).0 same in
        rw (on_path all_path e ∙ gateway_mux-all env req n)
          (refl, refl, refl, λ _ _. refl, λ other _ _. absurd (other e))
    | inr first ↦ elim (Bool-cases (req.path == expose_path)) [
      | inl same ↦
          let e = (==_iff req.path expose_path).0 same in
          rw (on_path expose_path e ∙ gateway_mux-expose env req n)
            (refl, refl, refl, λ other _. absurd (other e), λ _ other _. absurd (other e))
      | inr second ↦ elim (Bool-cases (req.path == unexpose_path)) [
        | inl same ↦
            let e = (==_iff req.path unexpose_path).0 same in
            rw (on_path unexpose_path e ∙ gateway_mux-unexpose env req n)
              (refl, refl, refl, λ _ other. absurd (other e), λ _ _ other. absurd (other e))
        | inr third ↦
            let (reply, same) =
              gateway_mux_none env req n (apart all_path first) (apart expose_path second)
                (apart unexpose_path third) in
            (
              ap (λ (m : Network). m.zones) same,
              ap (λ (m : Network). m.pool) same,
              ap (λ (m : Network). m.switch) same,
              λ _ _. ap (λ (m : Network). m.forwarder) same,
              λ _ _ _. reply,
            )
      ]
    ]
  ]
