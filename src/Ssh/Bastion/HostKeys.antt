-- ===== src/Ssh/Bastion/HostKeys.antt =====
-- Which host key CreateBastion checks the server against, and what a bastion holds.
use gvisor_tap_vsock.Base.{
  ◌≡◌, refl, Bool, true, false, Option, none, some, List, [], ◌∷◌, ◌++◌, Text, text_eq, nat_eq, All,
}
use gvisor_tap_vsock.Ssh.Bastion.{
  KnownHost, BastionUrl, BastionEnv, names_host, host_key_of, host_key, key_host, port_of,
  insecure_ignore_host_key, fixed_host_key, host_key_callback,
}

-- The line is read, and names the host or its hash.
abbrev pub line_names : Text → Text → Option KnownHost → Bool
line_names host hashhost none = false
line_names host hashhost (some line) = names_host host hashhost line.hosts

module _ (host hashhost : Text) where
  host_key_of-append :
      (before after : List (Option KnownHost))
      → All (λ line. line_names host hashhost line ≡ false) before
      → host_key_of host hashhost (before ++ after) ≡ host_key_of host hashhost after
  unfolding host_key_of
  host_key_of-append [] after h = refl
  host_key_of-append (none ∷ before) after h = host_key_of-append before after h.1
  host_key_of-append (some line ∷ before) after h = rw h.0 (host_key_of-append before after h.1)

  host_key_of-none :
      (lines : List (Option KnownHost))
      → All (λ line. line_names host hashhost line ≡ false) lines
      → host_key_of host hashhost lines ≡ none
  unfolding host_key_of
  host_key_of-none [] h = refl
  host_key_of-none (none ∷ lines) h = host_key_of-none lines h.1
  host_key_of-none (some line ∷ lines) h = rw h.0 (host_key_of-none lines h.1)

module _ (env : BastionEnv) (url : BastionUrl) (lines : List (Option KnownHost)) where
  -- The name that is looked up
  abbrev pub looked_up : Text
  looked_up = key_host url.hostname (port_of url.port)

  -- With `secure`, the server must have the key of the first line of known_hosts that can be read and
  -- names the host or its hash.
  pub host_key_callback_known :
      (before after : List (Option KnownHost)) (line : KnownHost)
      → env.parse_bool url.secure ≡ true
      → env.known_hosts ≡ some lines
      → lines ≡ before ++ some line ∷ after
      → All (λ other. line_names looked_up (env.hash_hostname looked_up) other ≡ false) before
      → line_names looked_up (env.hash_hostname looked_up) (some line) ≡ true
      → host_key_callback env url ≡ fixed_host_key line.host_key
  unfolding host_key_callback host_key host_key_of
  host_key_callback_known before after line s k split others found = rw s (
      rw (k, host_key)
        (rw
          (
            split,
            host_key_of-append looked_up (env.hash_hostname looked_up) before (some line ∷ after)
                others,
          )
          (rw found refl)))

  -- With `secure` too, any key is accepted if no line of known_hosts names the host.
  pub host_key_callback_unknown :
      env.parse_bool url.secure ≡ true
      → env.known_hosts ≡ some lines
      → All (λ line. line_names looked_up (env.hash_hostname looked_up) line ≡ false) lines
      → host_key_callback env url ≡ insecure_ignore_host_key
  unfolding host_key_callback host_key
  host_key_callback_unknown s k others = rw s (
      rw (k, host_key)
        (rw (host_key_of-none looked_up (env.hash_hostname looked_up) lines others) refl))
