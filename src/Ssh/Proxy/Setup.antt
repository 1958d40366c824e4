-- ===== src/Ssh/Proxy/Setup.antt =====
-- What setupProxy leaves behind, and what Close takes away.
use gvisor_tap_vsock.Base.{
  ℕ, ◌<◌, ◌≡◌, refl, ap, ◌≢◌, ◌⊎◌, inl, inr, false, arith, Option, none, some, List, [], ◌∷◌, Text,
  codes, text_eq, nat_eq, ◌==◌, ==_iff, ==_refl, All, Bool-cases,
}
use gvisor_tap_vsock.Ssh.Initial.{DialEnv, Dialed, connected, refused, neither, initial_connection}
use gvisor_tap_vsock.Ssh.Bastion.{BastionUrl, BastionEnv, Bastion, BastionError}
use gvisor_tap_vsock.Ssh.Proxy.{
  ProxyEnv, Listeners, ForwardError, empty_forward, opens, unix_path, listen_unix, opening_of,
  listening, open_listener, with_bastion, connect_proxy, setup_proxy, without, close_forward,
}

with_bastion_cases :
    (listener : Option ℕ) (sock : Text) (r : Option BastionError × Option Bastion)
    → (((with_bastion listener sock r).0 ≡ none)
        × ((with_bastion listener sock r).1.listener ≡ listener))
      ⊎ (((with_bastion listener sock r).0 ≢ none)
          × ((with_bastion listener sock r).1 ≡ empty_forward))
with_bastion_cases listener sock (some e, b) = inr (λ h. cc, refl)
with_bastion_cases listener sock (none, b) = inl (refl, refl)

module _ (denv : DialEnv) (benv : BastionEnv) (path : Text) (dest : BastionUrl)
    (identity passphrase : Text) (listener : Option ℕ) where
  connect_proxy_cases :
      (((connect_proxy denv benv path dest identity passphrase listener).0 ≡ none)
        × ((connect_proxy denv benv path dest identity passphrase listener).1.listener ≡ listener))
      ⊎ (((connect_proxy denv benv path dest identity passphrase listener).0 ≢ none)
          × ((connect_proxy denv benv path dest identity passphrase listener).1 ≡ empty_forward))
  unfolding connect_proxy
  connect_proxy_cases = go (initial_connection denv).0 refl
    where
      go :
          (d : Dialed)
          → (initial_connection denv).0 ≡ d
          → (((connect_proxy denv benv path dest identity passphrase listener).0 ≡ none)
              × ((connect_proxy denv benv path dest identity passphrase listener).1.listener
                  ≡ listener))
            ⊎ (((connect_proxy denv benv path dest identity passphrase listener).0 ≢ none)
                × ((connect_proxy denv benv path dest identity passphrase listener).1
                    ≡ empty_forward))
      go refused e = rw (e, connect_proxy) (inr (λ h. cc, refl))
      go (connected conn) e = rw (e, connect_proxy) (with_bastion_cases listener path _)
      go neither e = rw (e, connect_proxy) (with_bastion_cases listener path _)

without_absent :
    (handle : ℕ) (opened : List ℕ) → All (λ o. o < handle) opened → without handle opened ≡ opened
unfolding without
without_absent handle [] h = refl
without_absent handle (o ∷ opened) h =
    let differs : (o == handle) ≡ false = ground (arith, h.0, ==_iff o handle) in
    rw differs (ap (λ os. o ∷ os) (without_absent handle opened h.1))

opening_of-opens :
    (n : ℕ) (l : Listeners) (r : Option ForwardError × Listeners) (handle : ℕ) (l' : Listeners)
    → (r.0 ≢ none) ⊎ (r.1 ≡ opens l)
    → opening_of n r ≡ listening handle l'
    → (handle ≡ n) × (l' ≡ opens l)
opening_of-opens n l (some e, l'') handle l' h o = absurd (cc)
opening_of-opens n l (none, l'') handle l' (inl h) o = absurd (h refl)
opening_of-opens n l (none, l'') handle l' (inr h) o = (cc, cc)

listen_unix-opens :
    (env : ProxyEnv) (path : Text) (l : Listeners)
    → ((listen_unix env path l).0 ≢ none) ⊎ ((listen_unix env path l).1 ≡ opens l)
unfolding listen_unix
listen_unix-opens env path l = elim (Bool-cases (env.removes (unix_path env.windows path))) [
  | inr r ↦ rw r (inl (λ h. cc))
  | inl r ↦ elim (Bool-cases (env.listens_unix (unix_path env.windows path))) [
    | inl u ↦ rw (r, u) (inr refl)
    | inr u ↦ rw (r, u) (inl (λ h. cc))
  ]
]

-- A listener gets the next number and is open.
open_listener-opens :
    (env : ProxyEnv) (scheme path : Text) (l l' : Listeners) (handle : ℕ)
    → open_listener env scheme path l ≡ listening handle l'
    → (handle ≡ l.next_listener) × (l' ≡ opens l)
unfolding open_listener
open_listener-opens env scheme path l l' handle o = elim (Bool-cases (scheme == codes "unix")) [
  | inl u ↦
      opening_of-opens l.next_listener l (listen_unix env path l) handle l'
        (listen_unix-opens env path l) (rw u at o)
  | inr u ↦ elim (Bool-cases (scheme == codes "npipe")) [
    | inl n ↦ elim (Bool-cases (env.listens_npipe path)) [
      | inl ok ↦ let same = rw (u, n, ok) at o in (cc, cc)
      | inr bad ↦ absurd (cc (rw (u, n, bad) at o))
    ]
    | inr n ↦ elim (Bool-cases (scheme == [])) [
      | inl t ↦ absurd (cc (rw (u, n, t) at o))
      | inr t ↦ absurd (cc (rw (u, n, t) at o))
    ]
  ]
]

module _ (env : ProxyEnv) (denv : DialEnv) (benv : BastionEnv) (scheme path : Text)
    (dest : BastionUrl) (identity passphrase : Text) (l l' : Listeners) (handle : ℕ)
    (opened : open_listener env scheme path l ≡ listening handle l') where
  -- A setupProxy that fails once its listener is open returns an empty SSHForward, and leaves the
  -- listener open: Close of what it returns closes nothing.
  pub setup_proxy_leaks :
      (setup_proxy env denv benv scheme path dest identity passphrase l).0.0 ≢ none
      → ((setup_proxy env denv benv scheme path dest identity passphrase l).0.1 ≡ empty_forward)
        × (close_forward
              (setup_proxy env denv benv scheme path dest identity passphrase l).0.1
              (setup_proxy env denv benv scheme path dest identity passphrase l).1
            ≡ opens l)
  unfolding setup_proxy close_forward
  setup_proxy_leaks fails =
      elim (connect_proxy_cases denv benv path dest identity passphrase (some handle)) [
        | inl (ok, held) ↦ absurd ((rw (opened, setup_proxy) at fails) ok)
        | inr (error, empty) ↦
            let (number, grown) = open_listener-opens env scheme path l l' handle opened in
            rw (opened, setup_proxy) (empty, rw empty grown)
      ]

  -- Close after a successful setupProxy closes its listener, and leaves open those that were open
  -- before, whose numbers are smaller.
  pub close_forward-setup_proxy :
      (setup_proxy env denv benv scheme path dest identity passphrase l).0.0 ≡ none
      → All (λ o. o < l.next_listener) l.opened
      → (close_forward
          (setup_proxy env denv benv scheme path dest identity passphrase l).0.1
          (setup_proxy env denv benv scheme path dest identity passphrase l).1).opened
        ≡ l.opened
  unfolding setup_proxy close_forward without
  close_forward-setup_proxy works smaller =
      let (number, grown) = open_listener-opens env scheme path l l' handle opened in
      elim (connect_proxy_cases denv benv path dest identity passphrase (some handle)) [
        | inr (error, empty) ↦ absurd (error (rw (opened, setup_proxy) at works))
        | inl (ok, held) ↦
            rw (opened, setup_proxy)
              (rw (held, close_forward)
                (rw (number, grown, ==_refl l.next_listener)
                  (without_absent l.next_listener l.opened smaller)))
      ]
