-- ===== src/Http/Client/Exposing.antt =====
-- The client against the server.
use gvisor_tap_vsock.Base.{
  ◌≡◌, refl, sym, ap, ◌∙◌, ◌≢◌, ◌⊎◌, inl, inr, true, Option, none, some, [], ◌∷◌, ◌++◌, Text, codes,
  text_eq, nat_eq,
}
use gvisor_tap_vsock.Services.Forwarder.Ports.{PortsForwarder}
use gvisor_tap_vsock.Services.Forwarder.Ports.Exposing.{started}
use gvisor_tap_vsock.Services.Forwarder.Endpoints.{
  ExposeRequest, Response, status_ok, bad_request, internal_server_error, aborted, default_protocol,
  remote_of, expose_endpoint,
}
use gvisor_tap_vsock.Services.Forwarder.Endpoints.Requests.{expose_endpoint_lem}
use gvisor_tap_vsock.Http.{HttpRequest, HttpReply, Handler}
use gvisor_tap_vsock.Http.Server.{Network, HttpEnv, reply_of, expose_handler, mux}
use gvisor_tap_vsock.Http.Server.Routes.{mux-expose}
use gvisor_tap_vsock.Http.Client.{
  Answer, HttpClient, ClientError, no_answer, message, trim_left, trim_right, trim_space,
  post_error, post_to, expose,
}

-- What the client gets of a reply; of none, a connection that is cut
abbrev pub answer_of : Option HttpReply → Answer
answer_of none = none
answer_of (some reply) = some (reply.status, some reply.text)

abbrev pub request : Text → Text → Text → Text → HttpRequest
request caller method path body = record {
  method = method;
  path = path;
  query = λ k. [];
  body = body;
  remote_addr = caller;
}

-- The client's requests reach the handler from the address of the caller, and the replies the client.
pub record Connected {S : Type 0} (c : HttpClient S) (h : Handler S) (caller : Text) : Type 0 where
  pub posts :
      (path bin : Text) (s : S)
      → c.post (c.base ++ path) bin s ≡ (
        answer_of (h (request caller (codes "POST") path bin) s).0,
        (h (request caller (codes "POST") path bin) s).1,
      )
  pub gets :
      (path : Text) (s : S)
      → c.get (c.base ++ path) s ≡ (
        answer_of (h (request caller (codes "GET") path []) s).0,
        (h (request caller (codes "GET") path []) s).1,
      )

-- The newline that http.Error writes is trimmed.
trim_right-newline : (s : Text) → trim_right (s ++ 10 ∷ []) ≡ trim_right s
unfolding trim_right
trim_right-newline [] = refl
trim_right-newline (c ∷ s) = rw (trim_right-newline s) refl

pub trim_space-newline : (s : Text) → trim_space (s ++ 10 ∷ []) ≡ trim_space s
unfolding trim_space
trim_space-newline s = ap trim_left (trim_right-newline s)

-- The error of a call, from the response of the handler
pub post_error-reply_of :
    (text : Text) (r : Response)
    → ((r ≡ status_ok) × (post_error (answer_of (reply_of text r)) ≡ none))
      ⊎ ((r ≢ status_ok)
          × ((post_error (answer_of (reply_of text r)) ≡ some no_answer)
              ⊎ (post_error (answer_of (reply_of text r)) ≡ some (message (trim_space text)))))
unfolding post_error
post_error-reply_of text status_ok = inl (refl, refl)
post_error-reply_of text bad_request =
    inr (λ e. cc, inr (ap (λ (t : Text). some (message t)) (trim_space-newline text)))
post_error-reply_of text internal_server_error =
    inr (λ e. cc, inr (ap (λ (t : Text). some (message t)) (trim_space-newline text)))
post_error-reply_of text aborted = inr (λ e. cc, inl refl)

module _ (env : HttpEnv) (c : HttpClient Network) (caller : Text)
    (connected : Connected c (mux env) caller) where
  abbrev pub expose_request : Text → HttpRequest
  expose_request bin = request caller (codes "POST") (codes "/expose") bin

  expose_handled :
      (req : ExposeRequest) (bin : Text) (n : Network)
      → c.marshal_expose req ≡ some bin
      → expose c req n ≡ (
        post_error (answer_of (expose_handler env (expose_request bin) n).0),
        (expose_handler env (expose_request bin) n).1,
      )
  unfolding expose post_to
  expose_handled req bin n m =
      let sent = connected.posts (codes "/services/forwarder/expose") bin n in
      let path = codes "/services/forwarder/expose" in
      let routed = mux-expose env (request caller (codes "POST") path bin) n in
      rw (m, post_to) (rw (sent, routed) refl)

  handler_answers :
      (req : ExposeRequest) (bin : Text) (n : Network)
      → env.json.decode_expose bin ≡ some req
      → expose_handler env (expose_request bin) n ≡ (
        reply_of
            (env.error_text (expose_request bin) n)
            (expose_endpoint env.ports env.split_host_port true (some req) caller n.forwarder).0,
        record n {
          forwarder =
              (expose_endpoint env.ports env.split_host_port true (some req) caller n.forwarder).1;
        },
      )
  unfolding expose_handler
  handler_answers req bin n d = rw d refl

  -- The client's Expose returns nil, or it returns an error and changes nothing.
  abbrev pub ExposesOrNot : ExposeRequest → Text → Network → Option ClientError × Network → Type 0
  ExposesOrNot req bin n r =
      ((r.0 ≡ none)
        × ((remote_address : Text) × (remote_of env.split_host_port req caller
              ≡ some remote_address)
            × (r.1 ≡ record n {
              forwarder =
                  started (default_protocol req.protocol) req.local_address remote_address
                    n.forwarder;
            })))
      ⊎ (((r.0 ≡ some no_answer)
            ⊎ (r.0 ≡ some (message (trim_space (env.error_text (expose_request bin) n)))))
          × (r.1 ≡ n))

  -- Expose of the client, connected to the network's interface: it returns nil just if the forwarder
  -- has started and stored the proxy that was asked for; else nothing of the network has changed,
  -- and the error is the text of the server's, without the white space around it, or says that the
  -- server gave no answer. The request is encoded, and decodes to itself.
  pub client_exposes :
      (req : ExposeRequest) (bin : Text) (n : Network)
      → c.marshal_expose req ≡ some bin
      → env.json.decode_expose bin ≡ some req
      → ExposesOrNot req bin n (expose c req n)
  client_exposes req bin n m d =
      let text = env.error_text (expose_request bin) n in
      let response =
        (expose_endpoint env.ports env.split_host_port true (some req) caller n.forwarder).0 in
      rw (expose_handled req bin n m, handler_answers req bin n d)
        (elim (expose_endpoint_lem env.ports env.split_host_port true (some req) caller
          n.forwarder) [
            | inl (ok, (req', remote_address, _, same, found, s)) ↦
                let e : req ≡ req' = cc same in
                let as_asked = ap λ (r : ExposeRequest).
                  started (default_protocol r.protocol) r.local_address remote_address
                    n.forwarder in
                inl (
                  (elim (post_error-reply_of text response) [
                    | inl (_, nil) ↦ nil
                    | inr (not_ok, _) ↦ absurd (not_ok ok)
                  ]),
                  (
                    remote_address,
                    rw e found,
                    ap (λ (f : PortsForwarder). record n { forwarder = f }) (s ∙ as_asked (sym e)),
                  ),
                )
            | inr (not_ok, same) ↦ elim (post_error-reply_of text response) [
              | inl (ok, _) ↦ absurd (not_ok ok)
              | inr (_, e) ↦ inr (e, ap (λ (f : PortsForwarder). record n { forwarder = f }) same)
            ]
          ])
