-- ===== src/Services/Forwarder/Ports/Handles.antt =====
-- Which listeners the proxies of the forwarder hold.
use gvisor_tap_vsock.Base.{
  ℕ, ◌+◌, ◌<◌, ◌≡◌, refl, sym, ap, ◌∙◌, ◌≢◌, ◌⊎◌, inl, inr, arith, some, List, [], ◌∷◌, Text,
  text_eq, nat_eq, ◌==◌, ==_iff, lookup, delete, lookup-insert, lookup-delete, Bool-cases,
  Option-cases, All,
}
use gvisor_tap_vsock.Services.Forwarder.Ports.{
  Opened, Proxy, PortsEnv, PortsForwarder, key, expose, close_listener, close_proxy, unexpose,
}
use gvisor_tap_vsock.Services.Forwarder.Ports.Exposing.{new_proxy, started, expose_lem}

-- The listener of the proxy is open.
abbrev pub Holds : Proxy → List Opened → Type 0
Holds p [] = ⊥
Holds p (o ∷ opened) =
    ((o.handle ≡ p.underlying) × (o.protocol ≡ p.protocol) × (o.local_address ≡ p.local_address))
    ⊎ Holds p opened

abbrev pub Below : ℕ → List Opened → Type 0
Below next = All (λ o. o.handle < next)

-- Each listed proxy stands under its own key and holds an open listener, two proxies never the
-- same, and the next listener has a new number.
pub record IsValid (f : PortsForwarder) : Type 0 where
  pub below : Below f.next_handle f.open_listeners
  pub own_key :
      (k : Text) (p : Proxy) → lookup k f.proxies ≡ some p → key p.protocol p.local_address ≡ k
  pub holds : (k : Text) (p : Proxy) → lookup k f.proxies ≡ some p → Holds p f.open_listeners
  pub apart :
      (k k' : Text) (p p' : Proxy)
      → lookup k f.proxies ≡ some p
      → lookup k' f.proxies ≡ some p'
      → p.underlying ≡ p'.underlying
      → k ≡ k'

pub Holds-Below :
    (p : Proxy) (next : ℕ) (opened : List Opened)
    → Below next opened
    → Holds p opened
    → p.underlying < next
Holds-Below p next [] b h = absurd h
Holds-Below p next (o ∷ opened) b (inl h) = rw (← h.0) (b.0)
Holds-Below p next (o ∷ opened) b (inr h) = Holds-Below p next opened b.1 h

Below-suc : (next : ℕ) (opened : List Opened) → Below next opened → Below (next + 1) opened
Below-suc next [] b = tt
Below-suc next (o ∷ opened) b = (omega (arith, b.0), Below-suc next opened b.1)

Below-close :
    (h next : ℕ) (opened : List Opened) → Below next opened → Below next (close_listener h opened)
unfolding close_listener
Below-close h next [] b = tt
Below-close h next (o ∷ opened) b = elim (Bool-cases (o.handle == h)) [
  | inl e ↦ rw e (Below-close h next opened b.1)
  | inr e ↦ rw e (b.0, Below-close h next opened b.1)
]

Holds-close :
    (h : ℕ) (p : Proxy) (opened : List Opened)
    → p.underlying ≢ h
    → Holds p opened
    → Holds p (close_listener h opened)
unfolding close_listener
Holds-close h p [] ne holds = holds
Holds-close h p (o ∷ opened) ne (inl holds) = elim (Bool-cases (o.handle == h)) [
  | inl e ↦ absurd (ne (sym holds.0 ∙ (==_iff o.handle h).0 e))
  | inr e ↦ rw e (inl holds)
]
Holds-close h p (o ∷ opened) ne (inr holds) = elim (Bool-cases (o.handle == h)) [
  | inl e ↦ rw e (Holds-close h p opened ne holds)
  | inr e ↦ rw e (inr (Holds-close h p opened ne holds))
]

pub close_listener-Below :
    (next : ℕ) (opened : List Opened) → Below next opened → close_listener next opened ≡ opened
unfolding close_listener
close_listener-Below next [] b = refl
close_listener-Below next (o ∷ opened) b = elim (Bool-cases (o.handle == next)) [
  | inl e ↦ absurd (omega (arith, b.0, (==_iff o.handle next).0 e))
  | inr e ↦ rw e (ap (λ os. o ∷ os) (close_listener-Below next opened b.1))
]

module _ (protocol local_address remote_address : Text) (f : PortsForwarder) (v : IsValid f) where
  -- A proxy that is listed afterwards is the new one, or was listed before under another key.
  pub started_cases :
      (k : Text) (p : Proxy)
      → lookup k (started protocol local_address remote_address f).proxies ≡ some p
      → ((k ≡ key protocol local_address)
          × (p ≡ new_proxy protocol local_address remote_address f.next_handle))
        ⊎ ((k ≢ key protocol local_address) × (lookup k f.proxies ≡ some p))
  started_cases k p e =
      let e' =
        rw
          (lookup-insert (key protocol local_address) k
            (new_proxy protocol local_address remote_address f.next_handle) f.proxies)
          at e in
      ground (arith, ==_iff (key protocol local_address) k, e')

  pub started-IsValid : IsValid (started protocol local_address remote_address f)
  started-IsValid = record {
    below = (omega arith, Below-suc f.next_handle f.open_listeners v.below);
    own_key = λ k p e. elim (started_cases k p e) [
      | inl (same, new) ↦ rw (new, same) refl
      | inr (other, old) ↦ v.own_key k p old
    ];
    holds = λ k p e. elim (started_cases k p e) [
      | inl (same, new) ↦ rw new (inl (refl, refl, refl))
      | inr (other, old) ↦ inr (v.holds k p old)
    ];
    apart = λ k k' p p' e e' same_handle. elim (started_cases k p e) [
      | inl (same, new) ↦ elim (started_cases k' p' e') [
        | inl (same', new') ↦ same ∙ sym same'
        | inr (other', old') ↦
            let lt = Holds-Below p' f.next_handle f.open_listeners v.below (v.holds k' p' old') in
            let eq = ap (λ (q : Proxy). q.underlying) new in
            absurd (omega (arith, lt, eq, same_handle))
      ]
      | inr (other, old) ↦ elim (started_cases k' p' e') [
        | inl (same', new') ↦
            let lt = Holds-Below p f.next_handle f.open_listeners v.below (v.holds k p old) in
            let eq = ap (λ (q : Proxy). q.underlying) new' in
            absurd (omega (arith, lt, eq, same_handle))
        | inr (other', old') ↦ v.apart k k' p p' old old' same_handle
      ]
    ];
  }

module _ (f : PortsForwarder) (v : IsValid f) (key' : Text) (proxy : Proxy)
    (listed : lookup key' f.proxies ≡ some proxy) where
  deleted_cases :
      (k : Text) (p : Proxy)
      → lookup k (delete key' f.proxies) ≡ some p
      → (k ≢ key') × (lookup k f.proxies ≡ some p)
  deleted_cases k p e =
      let e' = rw (lookup-delete key' k f.proxies) at e in ground (arith, ==_iff key' k, e')

  deleted-IsValid : IsValid (record f { proxies = delete key' f.proxies })
  deleted-IsValid = record {
    below = v.below;
    own_key = λ k p e. v.own_key k p (deleted_cases k p e).1;
    holds = λ k p e. v.holds k p (deleted_cases k p e).1;
    apart = λ k k' p p' e e'. v.apart k k' p p' (deleted_cases k p e).1 (deleted_cases k' p' e').1;
  }

  closed-IsValid : IsValid (record f {
    proxies = delete key' f.proxies;
    open_listeners = close_listener proxy.underlying f.open_listeners;
  })
  closed-IsValid = record {
    below = Below-close proxy.underlying f.next_handle f.open_listeners v.below;
    own_key = λ k p e. v.own_key k p (deleted_cases k p e).1;
    holds = λ k p e.
        let (other, old) = deleted_cases k p e in
        Holds-close proxy.underlying p f.open_listeners
          (λ same. other (v.apart k key' p proxy old listed same)) (v.holds k p old);
    apart = λ k k' p p' e e'. v.apart k k' p p' (deleted_cases k p e).1 (deleted_cases k' p' e').1;
  }

module _ (env : PortsEnv) where
  pub expose-IsValid :
      (protocol local_address remote_address : Text) (f : PortsForwarder)
      → IsValid f
      → IsValid (expose env protocol local_address remote_address f).1
  expose-IsValid protocol local_address remote_address f v =
      elim (expose_lem env protocol local_address remote_address f) [
        | inl (e, s) ↦ rw e (started-IsValid protocol local_address remote_address f v)
        | inr (e, same) ↦ rw same v
      ]

  pub unexpose-IsValid :
      (protocol local_address : Text) (f : PortsForwarder)
      → IsValid f
      → IsValid (unexpose env protocol local_address f).1
  unfolding unexpose close_proxy
  unexpose-IsValid protocol local_address f v =
      elim (Option-cases (lookup (key protocol local_address) f.proxies)) [
        | inl e ↦ rw (e, unexpose) v
        | inr (p, e) ↦ elim (Bool-cases (env.closes p.underlying)) [
          | inl c ↦
              rw (e, unexpose)
                (rw (close_proxy, c) (closed-IsValid f v (key protocol local_address) p e))
          | inr c ↦
              rw (e, unexpose)
                (rw (close_proxy, c) (deleted-IsValid f v (key protocol local_address) p e))
        ]
      ]
