-- ===== src/Services/Forwarder/Gateway/Translation.antt =====
-- Where the connections of the machines go.
use gvisor_tap_vsock.Base.{
  ℕ, ◌≡◌, ◌≢◌, refl, ap, ◌∙◌, true, false, arith, Option, some, [], ◌∷◌, ◌++◌, Text, text_eq, ◌==◌,
  ==_ne, GoMap, lookup, insert, lookup-insert, lookup-insert_self, All, Option-cases, inl, inr,
}
use gvisor_tap_vsock.Services.Forwarder.Gateway.{
  GatewayEnv, Request, translate, no_endpoint, relayed, tcp_handler, udp_handler, proxied,
  add_translations, parse_nat_table,
}

module _ (parse_ip4 : Text → Option Text) where
  -- No source of these is this address.
  abbrev pub NoSource : Text → GoMap Text Text → Type 0
  NoSource a nat = All (λ (e : Text × Text). parse_ip4 e.0 ≢ some a) nat

  add_translations-cons :
      (source destination : Text) (nat translation table : GoMap Text Text)
      → add_translations parse_ip4 ((source, destination) ∷ nat) translation ≡ some table
      → (x : Text) × (y : Text) × (parse_ip4 source ≡ some x)
        × (parse_ip4 destination ≡ some y)
        × (add_translations parse_ip4 nat (insert x y translation) ≡ some table)
  unfolding add_translations
  add_translations-cons source destination nat translation table e =
      elim (Option-cases (parse_ip4 source)) [
        | inl bad ↦ ground arith
        | inr (x, read) ↦ elim (Option-cases (parse_ip4 destination)) [
          | inl bad ↦ ground arith
          | inr (y, read_too) ↦ (x, y, read, read_too, ground arith)
        ]
      ]

  lookup-add_translations_other :
      (a : Text) (nat translation table : GoMap Text Text)
      → NoSource a nat
      → add_translations parse_ip4 nat translation ≡ some table
      → lookup a table ≡ lookup a translation
  unfolding add_translations
  lookup-add_translations_other a [] translation table other e =
      let same : translation ≡ table = ground arith in rw same refl
  lookup-add_translations_other a ((source, destination) ∷ nat) translation table (first, others)
        e =
      let (x, y, read, read_too, later) =
        add_translations-cons source destination nat translation table e in
      let ne : x ≢ a = λ same. first (read ∙ ap some same) in
      lookup-add_translations_other a nat (insert x y translation) table others later
      ∙ rw (lookup-insert x a y translation, ==_ne x a ne) refl

  lookup-add_translations :
      (before after translation table : GoMap Text Text) (source destination a b : Text)
      → add_translations parse_ip4 (before ++ (source, destination) ∷ after) translation
        ≡ some table
      → parse_ip4 source ≡ some a
      → parse_ip4 destination ≡ some b
      → NoSource a after
      → lookup a table ≡ some b
  lookup-add_translations [] after translation table source destination a b e sa db others =
      let (x, y, read, read_too, later) =
        add_translations-cons source destination after translation table e in
      let xa : x ≡ a = cc in
      let yb : y ≡ b = cc in
      lookup-add_translations_other a after (insert x y translation) table others later
      ∙ rw (xa, yb) (lookup-insert_self a b translation)
  lookup-add_translations ((s, d) ∷ before) after translation table source destination a b e sa db
        others =
      let (x, y, read, read_too, later) =
        add_translations-cons s d (before ++ (source, destination) ∷ after) translation table e in
      lookup-add_translations before after (insert x y translation) table source destination a b
        later sa db others

  module _ (env : GatewayEnv) (nat table : GoMap Text Text)
      (parsed : parse_nat_table parse_ip4 nat ≡ some table) where
    -- A connection to the address of a source of the NAT table, the last source of this address, is
    -- dialled to its destination at the same port over UDP; over TCP, it is relayed over what net.Dial
    -- to that destination gives. The address is neither link-local nor the broadcast address, its
    -- endpoint can be created, and the destination can be dialled.
    pub handlers_translate :
        (before after : GoMap Text Text) (source destination : Text) (r : Request) (b : Text)
        (outbound : ℕ)
        → nat ≡ before ++ (source, destination) ∷ after
        → parse_ip4 source ≡ some r.local_address
        → parse_ip4 destination ≡ some b
        → NoSource r.local_address after
        → env.link_local r.local_address ≡ false
        → r.local_address ≢ env.broadcast
        → env.creates_endpoint ≡ true
        → env.dials b r.local_port ≡ some outbound
        → (udp_handler env table r ≡ proxied b r.local_port)
          × (tcp_handler env table r ≡ (relayed outbound, []))
    unfolding udp_handler tcp_handler translate parse_nat_table
    handlers_translate before after source destination r b outbound split sa db others local ne ep
          dialled =
        let listed : add_translations parse_ip4 (before ++ (source, destination) ∷ after) []
            ≡ some table =
          rw (← split) parsed in
        let found : lookup r.local_address table ≡ some b =
          lookup-add_translations before after [] table source destination r.local_address b listed
            sa db others in
        let no_broadcast : (r.local_address == env.broadcast) ≡ false =
          ==_ne r.local_address env.broadcast ne in
        (ground arith, ground arith)

-- A TCP request whose outbound connection is there and whose endpoint cannot be created leaves the
-- outbound connection open, with nobody to close it.
pub tcp_handler_leaks :
    (env : GatewayEnv) (nat : GoMap Text Text) (r : Request) (outbound : ℕ)
    → env.link_local r.local_address ≡ false
    → env.dials (translate nat r.local_address) r.local_port ≡ some outbound
    → env.creates_endpoint ≡ false
    → tcp_handler env nat r ≡ (no_endpoint, outbound ∷ [])
unfolding tcp_handler
tcp_handler_leaks env nat r outbound local dialled ep = ground arith
