-- ===== src/Services/Forwarder/Endpoints/Listing.antt =====
-- The order in which /all lists the proxies. sort.Slice is not stable: its result is determined if
-- the order is total on what it sorts.
use gvisor_tap_vsock.Base.{
  ◌≡◌, refl, sym, ◌∙◌, ◌≢◌, ◌⊎◌, inl, inr, true, false, arith, some, [], ◌∷◌, Text, text_eq, nat_eq,
  lookup, ◌==◌, ==_iff, Bool-cases,
}
use gvisor_tap_vsock.Services.Forwarder.Ports.{Proxy, PortsForwarder, key}
use gvisor_tap_vsock.Services.Forwarder.Ports.Handles.{IsValid}
use gvisor_tap_vsock.Services.Forwarder.Endpoints.{text_less, less}

pub text_less_total : (s t : Text) → s ≢ t → (text_less s t ≡ true) ⊎ (text_less t s ≡ true)
unfolding text_less
text_less_total [] [] ne = absurd (ne refl)
text_less_total [] (d ∷ t) ne = inl refl
text_less_total (c ∷ s) [] ne = inr refl
text_less_total (c ∷ s) (d ∷ t) ne = ground (arith, ==_iff c d, ==_iff d c, text_less_total s t)

text_less_asym : (s t : Text) → text_less s t ≡ true → text_less t s ≡ false
unfolding text_less
text_less_asym [] [] h = refl
text_less_asym [] (d ∷ t) h = refl
text_less_asym (c ∷ s) [] h = absurd (cc)
text_less_asym (c ∷ s) (d ∷ t) h = ground (arith, ==_iff c d, ==_iff d c, text_less_asym s t)

pub less_asym : (p q : Proxy) → less p q ≡ true → less q p ≡ false
unfolding less
less_asym p q h = ground (
  arith,
  ==_iff p.local_address q.local_address,
  ==_iff q.local_address p.local_address,
  text_less_asym p.local_address q.local_address,
  text_less_asym p.protocol q.protocol,
  h,
)

pub less_total :
    (p q : Proxy)
    → key p.protocol p.local_address ≢ key q.protocol q.local_address
    → (less p q ≡ true) ⊎ (less q p ≡ true)
unfolding less key
less_total p q ne = elim (Bool-cases (p.local_address == q.local_address)) [
  | inl e ↦
      let at_same = (==_iff p.local_address q.local_address).0 e in
      let total = text_less_total p.protocol q.protocol (λ same. ne (cc (at_same, same))) in
      ground (arith, e, ==_iff q.local_address p.local_address, at_same, total)
  | inr e ↦
      let apart = ==_iff p.local_address q.local_address in
      let total = text_less_total p.local_address q.local_address (λ same. cc (apart.1 same, e)) in
      ground (arith, e, ==_iff q.local_address p.local_address, apart, total)
]

-- /all has one order: of two proxies that a valid forwarder holds under different keys, exactly one
-- comes before the other.
pub less_listed :
    (f : PortsForwarder) (k k' : Text) (p q : Proxy)
    → IsValid f
    → lookup k f.proxies ≡ some p
    → lookup k' f.proxies ≡ some q
    → k ≢ k'
    → ((less p q ≡ true) × (less q p ≡ false)) ⊎ ((less q p ≡ true) × (less p q ≡ false))
less_listed f k k' p q v e e' ne =
    elim (less_total p q (λ same. ne (sym (v.own_key k p e) ∙ same ∙ v.own_key k' q e'))) [
      | inl h ↦ inl (h, less_asym p q h)
      | inr h ↦ inr (h, less_asym q p h)
    ]
