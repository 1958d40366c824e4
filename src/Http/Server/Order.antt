-- ===== src/Http/Server/Order.antt =====
-- The listing of the forwards does not depend on the order in which Go ranges over their map.
use mathlib.Core.List.{Perm, Permᴰ, Mem, Memᴰ, mem-cons_self, mem-cons_of_mem}
use mathlib.Core.List.Permᴰ
use mathlib.Core.Logic.{∥∥₁_elim}
use gvisor_tap_vsock.Base.{
  ◌≡◌, refl, sym, ap, ◌∙◌, ◌⊎◌, inl, inr, Bool, true, false, arith, some, List, [], ◌∷◌, Text,
  text_eq, nat_eq, ◌==◌, ==_iff, ==_refl, ==_ne, KeysDistinct, if◌then◌else◌, GoMap, lookup,
  Bool-cases,
}
use gvisor_tap_vsock.Services.Forwarder.Ports.{Proxy, PortsForwarder, key, new_ports_forwarder}
use gvisor_tap_vsock.Services.Forwarder.Ports.Calls.{Call, run, run_holds}
use gvisor_tap_vsock.Services.Forwarder.Ports.Keys.{run-KeysDistinct}
use gvisor_tap_vsock.Services.Forwarder.Ports.Handles.{IsValid}
use gvisor_tap_vsock.Services.Forwarder.Endpoints.{text_less, less}
use gvisor_tap_vsock.Services.Forwarder.Endpoints.Listing.{text_less_total, less_asym, less_total}
use gvisor_tap_vsock.Http.{HttpRequest}
use gvisor_tap_vsock.Http.Server.{Network, HttpEnv, all, replies, insert_sorted, sort_slice, values}

-- What is less than a third text is less than any second one, or the second is less than the third.
text_less_cotrans :
    (s t u : Text) → text_less s u ≡ true → (text_less s t ≡ true) ⊎ (text_less t u ≡ true)
unfolding text_less
text_less_cotrans s t [] h = absurd (cc)
text_less_cotrans [] [] (c ∷ u) h = inr refl
text_less_cotrans [] (b ∷ t) (c ∷ u) h = inl refl
text_less_cotrans (a ∷ s) [] (c ∷ u) h = inr refl
text_less_cotrans (a ∷ s) (b ∷ t) (c ∷ u) h =
    ground (arith, text_less_cotrans s t u, ==_iff a c, ==_iff a b, ==_iff b c, h)

-- The same for the pairs of texts that `less` compares
pairs_cotrans :
    (a b c x y z : Text)
    → (if a == c then text_less x z else text_less a c) ≡ true
    → ((if a == b then text_less x y else text_less a b) ≡ true)
      ⊎ ((if b == c then text_less y z else text_less b c) ≡ true)
pairs_cotrans a b c x y z h = ground (
  arith,
  ==_iff a b,
  ==_iff b c,
  ==_iff a c,
  text_less_cotrans a b c,
  text_less_cotrans x y z,
  text_less_total a b,
  h,
)

less_cotrans : (p q r : Proxy) → less p r ≡ true → (less p q ≡ true) ⊎ (less q r ≡ true)
unfolding less
less_cotrans p q r h =
    pairs_cotrans p.local_address q.local_address r.local_address p.protocol q.protocol r.protocol h

module _ {A : Type 0} (less : A → A → Bool) (asym : (x y : A) → less x y ≡ true → less y x ≡ false)
    (cotrans : (x y z : A) → less x z ≡ true → (less x y ≡ true) ⊎ (less y z ≡ true)) where
  insert_sorted_comm_lt :
      (x y : A) (zs : List A)
      → less x y ≡ true
      → insert_sorted less x (insert_sorted less y zs)
        ≡ insert_sorted less y (insert_sorted less x zs)
  unfolding insert_sorted
  insert_sorted_comm_lt x y [] h = rw (h, asym x y h) refl
  insert_sorted_comm_lt x y (z ∷ zs) h =
      ground (arith, insert_sorted_comm_lt x y zs h, asym x y h, cotrans z y x)

  insert_sorted_comm :
      (x y : A) (zs : List A)
      → (less x y ≡ false → less y x ≡ false → x ≡ y)
      → insert_sorted less x (insert_sorted less y zs)
        ≡ insert_sorted less y (insert_sorted less x zs)
  insert_sorted_comm x y zs tie = elim (Bool-cases (less x y)) [
    | inl h ↦ insert_sorted_comm_lt x y zs h
    | inr h ↦ elim (Bool-cases (less y x)) [
      | inl h' ↦ sym (insert_sorted_comm_lt y x zs h')
      | inr h' ↦ rw (tie h h') refl
    ]
  ]

  -- Only equal elements of the list tie.
  abbrev pub TiesAreEqual : List A → Type 0
  TiesAreEqual xs = (x y : A) → Mem x xs → Mem y xs → less x y ≡ false → less y x ≡ false → x ≡ y

  sort_slice-Permᴰ :
      {xs ys : List A} → Permᴰ xs ys → TiesAreEqual xs → sort_slice less xs ≡ sort_slice less ys
  unfolding sort_slice
  sort_slice-Permᴰ Permᴰ.nil ties = refl
  sort_slice-Permᴰ (Permᴰ.cons {a} {b} {l₁} {l₂} e d) ties =
      ap (λ (x : A). insert_sorted less x (sort_slice less l₁)) e
      ∙ ap (insert_sorted less b)
          (sort_slice-Permᴰ d (λ x y mx my. ties x y (mem-cons_of_mem a mx) (mem-cons_of_mem a my)))
  sort_slice-Permᴰ (Permᴰ.swap {a} {b} {a'} {b'} {l} e₁ e₂) ties =
      insert_sorted_comm a b (sort_slice less l)
        (ties a b mem-cons_self (mem-cons_of_mem a mem-cons_self))
      ∙ ap (λ (x : A). insert_sorted less x (insert_sorted less a (sort_slice less l))) e₂
      ∙ ap (λ (x : A). insert_sorted less a' (insert_sorted less x (sort_slice less l))) e₁
  sort_slice-Permᴰ (Permᴰ.trans d₁ d₂) ties =
      sort_slice-Permᴰ d₁ ties
      ∙ sort_slice-Permᴰ d₂
          (λ x y mx my. ties x y (Permᴰ.mem (Permᴰ.symm d₁) mx) (Permᴰ.mem (Permᴰ.symm d₁) my))

-- A value of a map without a key twice stands under a key.
mem-lookup :
    {V : Type 0} (v : V) (m : GoMap Text V)
    → KeysDistinct m
    → Memᴰ v (values m)
    → (k : Text) × (lookup k m ≡ some v)
unfolding lookup
mem-lookup v [] d none_there = elim none_there [ ]
mem-lookup v ((j, w) ∷ m) d (Memᴰ.head e) = (j, rw (==_refl j) (ap some (sym e)))
mem-lookup v ((j, w) ∷ m) (new, d) (Memᴰ.tail t) =
    let (k, found) = mem-lookup v m d t in (k, rw (==_ne j k (λ same. cc (new, found, same))) found)

Proxy-set : IsSet Proxy
Proxy-set = hlevel

Proxies-set : IsSet (List Proxy)
Proxies-set = hlevel

-- Two proxies of a valid forwarder that no order tells apart are the same.
ties-Proxy :
    (f : PortsForwarder)
    → IsValid f
    → KeysDistinct f.proxies
    → TiesAreEqual less less_asym less_cotrans (values f.proxies)
ties-Proxy f v d p q mp mq pq qp =
    ∥∥₁_elim mp (Proxy-set p q) λ at_p. ∥∥₁_elim mq (Proxy-set p q) λ at_q. go at_p at_q
  where
    go : Memᴰ p (values f.proxies) → Memᴰ q (values f.proxies) → p ≡ q
    go at_p at_q =
        let (k, found) = mem-lookup p f.proxies d at_p in
        let (k', found') = mem-lookup q f.proxies d at_q in
        elim (Bool-cases (key p.protocol p.local_address == key q.protocol q.local_address)) [
          | inl same ↦
              let keys =
                sym (v.own_key k p found)
                ∙ (==_iff (key p.protocol p.local_address) (key q.protocol q.local_address)).0 same
                ∙ v.own_key k' q found' in
              let both : some p ≡ some q =
                sym found ∙ ap (λ (t : Text). lookup t f.proxies) keys ∙ found' in
              cc both
          | inr differ ↦
              elim (less_total p q (λ e. cc (
                (==_iff (key p.protocol p.local_address) (key q.protocol q.local_address)).1 e,
                differ,
              ))) [ inl h ↦ absurd (cc (h, pq)) | inr h ↦ absurd (cc (h, qp)) ]
        ]

-- The order of Go's map does not show: after any calls of Expose and Unexpose, of two networks whose
-- forwarders list the same proxies, in whatever order their maps are ranged over, /all gives the same
-- reply.
pub all-Perm :
    (env : HttpEnv) (req : HttpRequest) (n n' : Network) (calls : List Call)
    → n.forwarder ≡ run env.ports new_ports_forwarder calls
    → Perm n.forwarder.proxies n'.forwarder.proxies
    → (all env req n).0 ≡ (all env req n').0
unfolding all
all-Perm env req n n' calls reached same =
    let valid : IsValid n.forwarder = rw reached (run_holds env.ports calls) in
    let distinct : KeysDistinct n.forwarder.proxies =
      rw reached (run-KeysDistinct env.ports calls) in
    let sorted : sort_slice less (values n.forwarder.proxies)
        ≡ sort_slice less (values n'.forwarder.proxies) =
      ∥∥₁_elim same (Proxies-set _ _) (λ p.
        sort_slice-Permᴰ less less_asym less_cotrans (Permᴰ.map (λ (e : Text × Proxy). e.1) p)
          (ties-Proxy n.forwarder valid distinct)) in
    ap (λ (ps : List Proxy). replies (env.json.encode_proxies ps)) sorted
