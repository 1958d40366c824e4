-- ===== src/Tap/IpPool/Search.antt =====
-- The two searches of GetOrAssign: over the leases and over the hosts of the network.
use gvisor_tap_vsock.Base.{
  ℕ, zero, suc, ◌+◌, ◌≤◌, ◌<◌, ◌≡◌, refl, sym, ◌∙◌, ◌≢◌, ◌⊎◌, inl, inr, false, arith, none, some,
  [], ◌∷◌, Text, text_eq, GoMap, lookup, insert, delete, KeysDistinct, ==_iff, ◌==◌, Option-cases,
}
use native.Mathlib.Decide.{dec_lt}
use gvisor_tap_vsock.GoNet.{GoNet, Ip, IpNet}
use gvisor_tap_vsock.Tap.IpPool.{find_ip, free_host}

-- What the search returns is leased to the MAC address.
pub lookup-find_ip :
    (mac ip : Text) (m : GoMap Text Text)
    → KeysDistinct m
    → find_ip mac m ≡ some ip
    → lookup ip m ≡ some mac
unfolding find_ip lookup
lookup-find_ip mac ip [] h e = cc
lookup-find_ip mac ip ((j, v) ∷ m) h e =
    ground (arith, lookup-find_ip mac ip m h.1, ==_iff v mac, ==_iff j ip)

-- A MAC address with a lease is found.
pub find_ip-ne-none :
    (mac ip : Text) (m : GoMap Text Text) → lookup ip m ≡ some mac → find_ip mac m ≢ none
unfolding find_ip lookup
find_ip-ne-none mac ip [] e = ground arith
find_ip-ne-none mac ip ((j, v) ∷ m) e =
    ground (arith, find_ip-ne-none mac ip m, ==_iff v mac, ==_iff j ip)

-- No MAC address stands twice.
abbrev pub MacsDistinct : GoMap Text Text → Type 0
MacsDistinct [] = Unit
MacsDistinct ((ip, mac) ∷ m) = (find_ip mac m ≡ none) × MacsDistinct m

pub find_ip-insert_ne :
    (mac other ip : Text) (m : GoMap Text Text)
    → (other == mac) ≡ false
    → find_ip other m ≡ none
    → find_ip other (insert ip mac m) ≡ none
unfolding find_ip insert
find_ip-insert_ne mac other ip [] h e = ground (arith, ==_iff mac other, ==_iff other mac)
find_ip-insert_ne mac other ip ((j, v) ∷ m) h e =
    ground (arith, find_ip-insert_ne mac other ip m h, ==_iff mac other, ==_iff other mac)

pub insert-MacsDistinct :
    (ip mac : Text) (m : GoMap Text Text)
    → find_ip mac m ≡ none
    → MacsDistinct m
    → MacsDistinct (insert ip mac m)
unfolding find_ip insert
insert-MacsDistinct ip mac [] e h = (refl, tt)
insert-MacsDistinct ip mac ((j, v) ∷ m) e h =
    ground (arith, insert-MacsDistinct ip mac m, find_ip-insert_ne mac v ip m, ==_iff v mac)

pub find_ip-delete :
    (other ip : Text) (m : GoMap Text Text)
    → find_ip other m ≡ none
    → find_ip other (delete ip m) ≡ none
unfolding find_ip delete
find_ip-delete other ip [] e = refl
find_ip-delete other ip ((j, v) ∷ m) e = ground (arith, find_ip-delete other ip m)

pub delete-MacsDistinct :
    (ip : Text) (m : GoMap Text Text) → MacsDistinct m → MacsDistinct (delete ip m)
unfolding delete
delete-MacsDistinct ip [] h = tt
delete-MacsDistinct ip ((j, v) ∷ m) h =
    ground (arith, delete-MacsDistinct ip m h.1, find_ip-delete v ip m)

-- With distinct keys and MAC addresses, a lease is what the search finds.
pub find_ip-eq_of_lookup :
    (mac ip : Text) (m : GoMap Text Text)
    → MacsDistinct m
    → lookup ip m ≡ some mac
    → find_ip mac m ≡ some ip
unfolding find_ip lookup
find_ip-eq_of_lookup mac ip [] h e = cc
find_ip-eq_of_lookup mac ip ((j, v) ∷ m) h e =
    ground (
      arith,
      find_ip-eq_of_lookup mac ip m h.1,
      find_ip-ne-none mac ip m,
      ==_iff v mac,
      ==_iff j ip,
    )

-- The host with this number cannot be leased: it has no address, or the address is taken.
abbrev pub Taken : GoNet → IpNet → GoMap Text Text → ℕ → Type 0
Taken net base m i =
    (net.host base i ≡ none)
    ⊎ ((ip : Ip) × (net.host base i ≡ some ip) × (lookup (net.ip_string ip) m ≢ none))

module _ (net : GoNet) (base : IpNet) (m : GoMap Text Text) where
  -- One round: the host is taken and the loop goes on, or it is free and returned.
  abbrev Round : ℕ → ℕ → Type 0
  Round rounds i =
      (Taken net base m i
        × (free_host net base m (suc rounds) i ≡ free_host net base m rounds (i + 1)))
      ⊎ ((ip : Ip) × (net.host base i ≡ some ip)
          × (lookup (net.ip_string ip) m ≡ none)
          × (free_host net base m (suc rounds) i ≡ some ip))

  Round-at : (rounds i : ℕ) (ip : Ip) → net.host base i ≡ some ip → Round rounds i
  unfolding free_host
  Round-at rounds i ip e = elim (Option-cases (lookup (net.ip_string ip) m)) [
    | inl vacant ↦ inr (ip, e, vacant, ground arith)
    | inr (mac, held) ↦ inl (inr (ip, e, λ v. cc), ground arith)
  ]

  round : (rounds i : ℕ) → Round rounds i
  unfolding free_host
  round rounds i = elim (Option-cases (net.host base i)) [
    | inl e ↦ inl (inl e, ground arith)
    | inr (ip, e) ↦ Round-at rounds i ip e
  ]

  -- What holds of `i` and from `i + 1` on holds from `i` on.
  Taken-from :
      (i n k : ℕ)
      → Taken net base m i
      → ((j : ℕ) → i + 1 ≤ j → j < n → Taken net base m j)
      → i ≤ k
      → k < n
      → Taken net base m k
  Taken-from i n k here later l u = elim (dec_lt i k) [
    | yes above ↦ later k (omega arith) u
    | no same ↦ let e : k ≡ i = omega arith in rw e here
  ]

  -- The search returns the free host with the least number.
  pub free_host-some :
      (rounds i : ℕ) (ip : Ip)
      → free_host net base m rounds i ≡ some ip
      → (n : ℕ) × (i ≤ n)
        × (n < i + rounds)
        × (net.host base n ≡ some ip)
        × (lookup (net.ip_string ip) m ≡ none)
        × ((k : ℕ) → i ≤ k → k < n → Taken net base m k)
  free_host-some zero i ip e = unfold free_host in cc
  free_host-some (suc rounds) i ip e = elim (round rounds i) [
    | inl (t, step) ↦
        let (n, l, u, at, vacant, below) = free_host-some rounds (i + 1) ip (sym step ∙ e) in
        (n, omega arith, omega arith, at, vacant, λ k. Taken-from i n k t below)
    | inr (c, at, vacant, step) ↦
        let same : c ≡ ip = cc in
        (
          i,
          omega arith,
          omega arith,
          rw (← same) at,
          rw (← same) vacant,
          λ k l u. absurd (omega arith),
        )
  ]

  -- It fails only if every host is taken, and then it does.
  pub free_host-none :
      (rounds i : ℕ)
      → free_host net base m rounds i ≡ none
      → (k : ℕ) → i ≤ k
      → k < i + rounds
      → Taken net base m k
  free_host-none zero i e k l u = absurd (omega arith)
  free_host-none (suc rounds) i e k l u = elim (round rounds i) [
    | inl (t, step) ↦
        Taken-from i (i + suc rounds) k t
          (λ j above below. free_host-none rounds (i + 1) (sym step ∙ e) j above (omega arith)) l u
    | inr (c, at, vacant, step) ↦ absurd (cc)
  ]

  pub free_host-Taken :
      (rounds i : ℕ)
      → ((k : ℕ) → i ≤ k → k < i + rounds → Taken net base m k)
      → free_host net base m rounds i ≡ none
  unfolding free_host
  free_host-Taken zero i t = refl
  free_host-Taken (suc rounds) i t = ground (
    arith,
    t i (omega arith) (omega arith),
    free_host-Taken rounds (i + 1) (λ k l u. t k (omega arith) (omega arith)),
  )
