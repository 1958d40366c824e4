-- ===== src/Http/Client/Listing.antt =====
-- What the client lists.
use mathlib.Core.List.{Perm, Mem}
use mathlib.Core.List.Perm
use gvisor_tap_vsock.Base.{
  ◌≡◌, refl, ap, ◌∙◌, inl, inr, none, some, List, [], Text, codes, text_eq, nat_eq, map, lookup,
  lookup-insert_self,
}
use gvisor_tap_vsock.Services.Forwarder.Ports.{Proxy, key}
use gvisor_tap_vsock.Services.Forwarder.Ports.Exposing.{new_proxy}
use gvisor_tap_vsock.Services.Forwarder.Endpoints.{ExposeRequest, default_protocol, less, remote_of}
use gvisor_tap_vsock.Services.Forwarder.Endpoints.Listing.{less_asym}
use gvisor_tap_vsock.Http.Server.{Network, HttpEnv, all, mux, sort_slice, values}
use gvisor_tap_vsock.Http.Server.Routes.{mux-all}
use gvisor_tap_vsock.Http.Server.Sorting.{InOrder, sort_slice-perm, sort_slice-InOrder, lookup-mem}
use gvisor_tap_vsock.Http.Client.{HttpClient, listed, get_result, list, expose}
use gvisor_tap_vsock.Http.Client.Exposing.{Connected, request, client_exposes}

-- The request that would expose a proxy: the JSON of a proxy has its fields.
abbrev pub request_of : Proxy → ExposeRequest
request_of p = record {
  local_address = p.local_address;
  remote_address = p.remote_address;
  protocol = p.protocol;
}

abbrev pub sorted : Network → List Proxy
sorted n = sort_slice less (values n.forwarder.proxies)

module _ (env : HttpEnv) (c : HttpClient Network) (caller : Text)
    (connected : Connected c (mux env) caller) where
  -- The proxies that are listed decode as the requests with their fields.
  abbrev pub Decodes : Network → Type 0
  Decodes n = c.decode_ports (env.json.encode_proxies (sorted n)) ≡ some (map request_of (sorted n))

  list-sorted : (n : Network) → Decodes n → list c n ≡ (listed (map request_of (sorted n)), n)
  unfolding list get_result all
  list-sorted n d =
      let path = codes "/services/forwarder/all" in
      rw (connected.gets path n, mux-all env (request caller (codes "GET") path []) n) (rw d refl)

  -- List of the client gives every proxy of the forwarder, each as often as its map has it, in the
  -- order of local address and protocol.
  abbrev pub ListsAll : Network → List Proxy → Type 0
  ListsAll n ps =
      (list c n ≡ (listed (map request_of ps), n))
      × Perm ps (values n.forwarder.proxies)
      × InOrder less ps

  list_all : (n : Network) → Decodes n → ListsAll n (sorted n)
  list_all n d = (
    list-sorted n d,
    sort_slice-perm less (values n.forwarder.proxies),
    sort_slice-InOrder less less_asym (values n.forwarder.proxies),
  )

  -- What the client has exposed it then lists: once Expose has returned nil, List gives every proxy
  -- of the forwarder, in the order of local address and protocol, and among them the one that was
  -- asked for, with its remote address resolved. The proxies that are listed decode as the requests with
  -- their fields, and the request is encoded and decodes to itself.
  pub list-expose :
      (req : ExposeRequest) (bin : Text) (n : Network)
      → c.marshal_expose req ≡ some bin
      → env.json.decode_expose bin ≡ some req
      → (expose c req n).0 ≡ none
      → Decodes (expose c req n).1
      → (ps : List Proxy) × (remote_address : Text) × ListsAll (expose c req n).1 ps
        × (remote_of env.split_host_port req caller ≡ some remote_address)
        × Mem
            (new_proxy
              (default_protocol req.protocol)
              req.local_address
              remote_address
              n.forwarder.next_handle)
            ps
  list-expose req bin n m d ok back = elim (client_exposes env c caller connected req bin n m d) [
    | inl (_, (remote_address, found, s)) ↦
        let protocol = default_protocol req.protocol in
        let p = new_proxy protocol req.local_address remote_address n.forwarder.next_handle in
        let after = (expose c req n).1 in
        let stored : lookup (key protocol req.local_address) after.forwarder.proxies ≡ some p =
          ap (λ (n' : Network). lookup (key protocol req.local_address) n'.forwarder.proxies) s
          ∙ lookup-insert_self (key protocol req.local_address) p n.forwarder.proxies in
        let among = lookup-mem (key protocol req.local_address) p after.forwarder.proxies stored in
        (
          sorted after,
          remote_address,
          list_all after back,
          found,
          (Perm.mem_iff (sort_slice-perm less (values after.forwarder.proxies))).1 among,
        )
    | inr (inl e, _) ↦ absurd (cc (e, ok))
    | inr (inr e, _) ↦ absurd (cc (e, ok))
  ]
