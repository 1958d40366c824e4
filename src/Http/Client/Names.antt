-- ===== src/Http/Client/Names.antt =====
-- What the DNS server answers once the client has added a zone.
use gvisor_tap_vsock.Base.{
  ◌≡◌, refl, sym, ap, ◌∙◌, ◌⊎◌, inl, inr, true, false, none, some, List, [], ◌∷◌, ◌++◌,
  append_assoc, append-nil, Text, codes, text_eq, nat_eq, ◌==◌, ==_iff, All, cut_suffix, Bool-cases,
}
use gvisor_tap_vsock.Services.Dns.{
  Zone, Record, Question, Msg, Resolver, a_rr, type_a, matches_record, add_zone, add_answers,
  add_endpoint,
}
use gvisor_tap_vsock.Services.Dns.Answers.{InZone, add_answers_record}
use gvisor_tap_vsock.Http.Server.{Network, HttpEnv, add_handler, mux}
use gvisor_tap_vsock.Http.Server.Routes.{mux-add}
use gvisor_tap_vsock.Http.Client.{HttpClient, post_error, post_to, add_dns}
use gvisor_tap_vsock.Http.Client.Exposing.{Connected, request}

-- No zone of another name has a suffix of the text.
abbrev pub OnlyZone : Text → Text → List Zone → Type 0
OnlyZone name asked = All λ z. (z.name ≡ name) ⊎ (cut_suffix asked (b'.' ∷ z.name) ≡ none)

-- Where the zone of a request stands once it is added: with its own records first, behind zones that
-- the text has no suffix of
record Added (req : Zone) (asked : Text) (zones : List Zone) : Type 0 where
  before : List Zone
  extra : List Record
  after : List Zone
  split : zones ≡ before ++ record req { records = req.records ++ extra } ∷ after
  first : All (λ z. cut_suffix asked (b'.' ∷ z.name) ≡ none) before

add_zone-Added :
    (req : Zone) (asked : Text) (zones : List Zone)
    → OnlyZone req.name asked zones
    → Added req asked (add_zone req zones)
unfolding add_zone
add_zone-Added req asked [] only = record {
  before = [];
  extra = [];
  after = [];
  split =
      ap (λ (rs : List Record). record req { records = rs } ∷ []) (sym (append-nil req.records));
  first = tt;
}
add_zone-Added req asked (z ∷ zones) only = elim (Bool-cases (z.name == req.name)) [
  | inl same ↦ record {
    before = [];
    extra = z.records;
    after = zones;
    split = rw same refl;
    first = tt;
  }
  | inr differ ↦
      let rest = add_zone-Added req asked zones only.1 in
      record {
        before = z ∷ rest.before;
        extra = rest.extra;
        after = rest.after;
        split = rw differ (ap (λ (zs : List Zone). z ∷ zs) rest.split);
        first = (
          elim only.0 [ inl e ↦ absurd (cc ((==_iff z.name req.name).1 e, differ)) | inr n ↦ n ],
          rest.first,
        );
      }
]

module _ (env : HttpEnv) (c : HttpClient Network) (caller : Text)
    (connected : Connected c (mux env) caller) where
  -- AddDNS of the client returns nil and adds the zone.
  add_dns_lem :
      (req : Zone) (bin : Text) (n : Network)
      → c.marshal_zone req ≡ some bin
      → env.json.decode_zone bin ≡ some req
      → add_dns c req n ≡ (none, record n { zones = add_zone req n.zones })
  unfolding add_dns post_to post_error add_handler add_endpoint
  add_dns_lem req bin n m d =
      let path = codes "/services/dns/add" in
      rw (m, post_to)
        (rw (connected.posts path bin n, mux-add env (request caller (codes "POST") path bin) n)
          (rw (d, add_endpoint) refl))

  -- A name that the client has added resolves: AddDNS returns nil, and after it a question of type A
  -- for a name in the zone is answered with the address of the first record of the request that
  -- matches what stands before the zone's name, and with nothing else, whatever the host's resolver
  -- knows. No zone of another name has a suffix of the name in question, and the zone is encoded and
  -- decodes to itself.
  pub add_answers-add_dns :
      (req : Zone) (bin : Text) (n : Network)
      → c.marshal_zone req ≡ some bin
      → env.json.decode_zone bin ≡ some req
      → (q : Question) (without_zone : Text) (before : List Record) (found : Record)
        (after : List Record)
      → q.qtype ≡ type_a
      → q.name ≡ without_zone ++ b'.' ∷ req.name
      → OnlyZone req.name q.name n.zones
      → req.records ≡ before ++ found ∷ after
      → All (λ r. matches_record r without_zone ≡ false) before
      → matches_record found without_zone ≡ true
      → (r : Resolver) (questions : List Question) (m : Msg)
      → ((add_dns c req n).0 ≡ none)
        × (add_answers (add_dns c req n).1.zones r (q ∷ questions) m
            ≡ record m { answers = m.answers ++ a_rr q.name found.ip ∷ [] })
  add_answers-add_dns req bin n m d q without_zone before found after a suffix only split
        none_before match r questions msg =
      let added = add_zone-Added req q.name n.zones only in
      let in_zone : InZone (add_zone req n.zones) q = record {
        before = added.before;
        zone = record req { records = req.records ++ added.extra };
        after = added.after;
        without_zone = without_zone;
        split = added.split;
        first = added.first;
        suffix = suffix;
      } in
      let records : req.records ++ added.extra ≡ before ++ found ∷ (after ++ added.extra) =
        ap (λ (rs : List Record). rs ++ added.extra) split
        ∙ append_assoc before (found ∷ after) added.extra in
      rw (add_dns_lem req bin n m d) (
        refl,
        add_answers_record q msg (add_zone req n.zones) r questions in_zone before found
            (after ++ added.extra) a records none_before match,
      )
