-- ===== src/Services/Forwarder/Endpoints/Requests.antt =====
-- What requests to /expose and /unexpose do.
use gvisor_tap_vsock.Base.{
  ◌≡◌, refl, ap, ◌≢◌, ◌⊎◌, inl, inr, Bool, true, false, Option, none, some, [], Text, text_eq,
  Option-cases,
}
use gvisor_tap_vsock.Services.Forwarder.Ports.{
  PortsEnv, PortsForwarder, Result, done, panics, fails,
}
use gvisor_tap_vsock.Services.Forwarder.Ports.Exposing.{started, expose_lem}
use gvisor_tap_vsock.Services.Forwarder.Ports.Handles.{IsValid}
use gvisor_tap_vsock.Services.Forwarder.Ports.Calls.{unexpose-expose}
use gvisor_tap_vsock.Services.Forwarder.Endpoints.{
  ExposeRequest, status_ok, status_of, default_protocol, remote_of, expose_endpoint,
  unexpose_endpoint,
}

status-done : (r : Result) → status_of r ≡ status_ok → r ≡ done
status-done done e = refl
status-done panics e = absurd (cc)
status-done (fails err) e = absurd (cc)

module _ (env : PortsEnv) (split_host_port : Text → Option (Text × Text)) where
  -- The status 200 of /expose: the request was a POST with a body that decodes, its remote address
  -- was resolved, and the forwarder has one more listener and proxy than before, for TCP if the
  -- request names no protocol.
  abbrev pub Exposes : Bool → Option ExposeRequest → Text → PortsForwarder → PortsForwarder → Type 0
  Exposes post body ip f f' =
      (req : ExposeRequest) × (remote_address : Text) × (post ≡ true)
      × (body ≡ some req)
      × (remote_of split_host_port req ip ≡ some remote_address)
      × (f' ≡ started (default_protocol req.protocol) req.local_address remote_address f)

  -- A request to /expose is answered with the status 200 and starts a listener, for TCP if it names
  -- no protocol, or it gets another status and changes nothing, whatever its method and body.
  pub expose_endpoint_lem :
      (post : Bool) (body : Option ExposeRequest) (ip : Text) (f : PortsForwarder)
      → (((expose_endpoint env split_host_port post body ip f).0 ≡ status_ok)
          × Exposes post body ip f (expose_endpoint env split_host_port post body ip f).1)
        ⊎ (((expose_endpoint env split_host_port post body ip f).0 ≢ status_ok)
            × ((expose_endpoint env split_host_port post body ip f).1 ≡ f))
  unfolding expose_endpoint
  expose_endpoint_lem false body ip f = inr (λ e. cc, refl)
  expose_endpoint_lem true none ip f = inr (λ e. cc, refl)
  expose_endpoint_lem true (some req) ip f =
      elim (Option-cases (remote_of split_host_port req ip)) [
        | inl r ↦ rw (r, expose_endpoint) (inr (λ e. cc, refl))
        | inr (remote_address, r) ↦
            rw (r, expose_endpoint)
              (elim (expose_lem env (default_protocol req.protocol) req.local_address remote_address
                f) [
                  | inl (e, s) ↦ inl (rw e refl, (req, remote_address, refl, refl, r, rw e refl))
                  | inr (e, same) ↦ inr (λ d. e (status-done _ d), same)
                ])
      ]

  -- A request to /unexpose undoes one to /expose that was answered with the status 200, if they name
  -- the same local address and protocol and the listener closes: it is answered with the status 200,
  -- and the listeners that are open are those of before, on a valid forwarder.
  pub unexpose_endpoint-expose_endpoint :
      (req : ExposeRequest) (ip : Text) (f : PortsForwarder)
      → IsValid f
      → (expose_endpoint env split_host_port true (some req) ip f).0 ≡ status_ok
      → env.closes f.next_handle ≡ true
      → ((unexpose_endpoint env true
            (some (record { local_address = req.local_address; protocol = req.protocol }))
            (expose_endpoint env split_host_port true (some req) ip f).1).0
          ≡ status_ok)
        × ((unexpose_endpoint env true
              (some (record { local_address = req.local_address; protocol = req.protocol }))
              (expose_endpoint env split_host_port true (some req) ip f).1).1.open_listeners
            ≡ f.open_listeners)
  unfolding expose_endpoint unexpose_endpoint
  unexpose_endpoint-expose_endpoint req ip f v ok c =
      elim (Option-cases (remote_of split_host_port req ip)) [
        | inl r ↦ absurd (cc (rw (r, expose_endpoint) at ok))
        | inr (remote_address, r) ↦
            let ok' = rw (r, expose_endpoint) at ok in
            let (d, same, gone) =
              unexpose-expose env (default_protocol req.protocol) req.local_address remote_address f
                v [] (status-done _ ok') c in
            rw (r, expose_endpoint) (ap status_of d, same)
      ]
