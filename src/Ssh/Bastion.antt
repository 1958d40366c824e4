-- ===== src/Ssh/Bastion.antt =====
-- pkg/sshclient/bastion.go: the SSH connection to the virtual machine.
pub mod HostKeys
use gvisor_tap_vsock.Base.{
  ℕ, suc, ◌+◌, Bool, true, false, Option, none, some, List, [], ◌∷◌, ◌++◌, Text, codes, text_eq,
  nat_eq, ◌==◌, if◌then◌else◌, not, ◌||◌, length, ltb,
}

-- A line of known_hosts as ssh.ParseKnownHosts reads it: its hosts and its key
pub record KnownHost : Type 0 where
  pub hosts : List Text
  pub host_key : Text

-- What the code reads of the URL: the user name, the password if there is one, the host, the port,
-- the path, and the value of `secure` in the query
pub record BastionUrl : Type 0 where
  pub username : Text
  pub password : Option Text
  pub hostname : Text
  pub port : Text
  pub path : Text
  pub secure : Text

-- What ssh.ParsePrivateKey makes of a key
pub data Parsed : Type 0 where
  signer : Text → Parsed
  passphrase_missing parse_error : Parsed

-- What the code calls of os, strconv and golang.org/x/crypto/ssh: os.ReadFile; parsing of a private
-- key, also with a passphrase; strconv.ParseBool, false on an error; knownhosts.HashHostname; the
-- lines of known_hosts, none if the file does not open, and each line none if it does not parse; the
-- connect callback; and whether ssh.NewClientConn succeeds on the connection. The last two are by
-- the number of the call.
pub record BastionEnv : Type 0 where
  pub read_file : Text → Option Text
  pub parse_private_key : Text → Parsed
  pub parse_private_key_with_passphrase : Text → Text → Option Text
  pub parse_bool : Text → Bool
  pub hash_hostname : Text → Text
  pub known_hosts : Option (List (Option KnownHost))
  pub connects : ℕ → Option ℕ
  pub handshakes : ℕ → Bool

-- PublicKey
unfoldable pub public_key : BastionEnv → Text → Text → Option Text
public_key env path passphrase = elim (env.read_file path) [
  | none ↦ none
  | some key ↦ elim (env.parse_private_key key) [
    | signer s ↦ some s
    | passphrase_missing ↦ env.parse_private_key_with_passphrase key passphrase
    | parse_error ↦ none
  ]
]

-- for _, h := range hosts
unfoldable pub names_host : Text → Text → List Text → Bool
names_host host hashhost [] = false
names_host host hashhost (h ∷ hosts) = h == host || h == hashhost || names_host host hashhost hosts

-- The loop of HostKey over the lines
unfoldable pub host_key_of : Text → Text → List (Option KnownHost) → Option Text
unfolding names_host
host_key_of host hashhost [] = none
host_key_of host hashhost (none ∷ lines) = host_key_of host hashhost lines
host_key_of host hashhost (some line ∷ lines) =
    if names_host host hashhost line.hosts
    then some line.host_key
    else host_key_of host hashhost lines

-- HostKey, none for nil
unfoldable pub host_key : BastionEnv → Text → Option Text
unfolding host_key_of
host_key env host = elim env.known_hosts [
  | none ↦ none
  | some lines ↦ host_key_of host (env.hash_hostname host) lines
]

-- ssh.AuthMethod, and ssh.HostKeyCallback: any key, or one only
pub data AuthMethod : Type 0 where
  public_keys password_auth : Text → AuthMethod

pub data HostKeyCallback : Type 0 where
  insecure_ignore_host_key : HostKeyCallback
  fixed_host_key : Text → HostKeyCallback

-- Bastion, with its Config, and the client by the number of its connection, none for nil
pub record Bastion : Type 0 where
  pub client : Option ℕ
  pub user : Text
  pub auth : List AuthMethod
  pub callback : HostKeyCallback
  pub host : Text
  pub port : Text
  pub path : Text

pub data BastionError : Type 0 where
  bad_identity no_auth_methods connection_failed handshake_failed : BastionError

-- reconnect, at the n-th call of the callback: its second argument is none for a nil connection
unfoldable pub reconnect : BastionEnv → ℕ → Option ℕ → Bastion → Option BastionError × Bastion
reconnect env n (some conn) b =
    if env.handshakes conn
    then (none, record b { client = some conn })
    else (some handshake_failed, b)
reconnect env n none b = elim (env.connects n) [
  | none ↦ (some connection_failed, b)
  | some conn ↦
      if env.handshakes conn
      then (none, record b { client = some conn })
      else (some handshake_failed, b)
]

-- if len(identity) > 0: none is the error of PublicKey
unfoldable pub identity_auth : BastionEnv → Text → Text → Option (List AuthMethod)
unfolding public_key
identity_auth env [] passphrase = some []
identity_auth env (c ∷ identity) passphrase = elim (public_key env (c ∷ identity) passphrase) [
  | none ↦ none
  | some s ↦ some (public_keys s ∷ [])
]

-- if pw, found := _url.User.Password(); found
abbrev pub password_methods : Option Text → List AuthMethod
password_methods none = []
password_methods (some pw) = password_auth pw ∷ []

-- port := _url.Port(); if port == "" { port = "22" }
abbrev pub port_of : Text → Text
port_of [] = codes "22"
port_of (c ∷ port) = c ∷ port

-- The host name that HostKey is asked for
unfoldable pub key_host : Text → Text → Text
key_host hostname port =
    if port == codes "22" then hostname else b'[' ∷ hostname ++ b']' ∷ b':' ∷ port

-- The host key callback
abbrev pub fixed_if_known : Option Text → HostKeyCallback
fixed_if_known none = insecure_ignore_host_key
fixed_if_known (some key) = fixed_host_key key

unfoldable pub host_key_callback : BastionEnv → BastionUrl → HostKeyCallback
unfolding host_key key_host
host_key_callback env url =
    if env.parse_bool url.secure
    then fixed_if_known (host_key env (key_host url.hostname (port_of url.port)))
    else insecure_ignore_host_key

-- CreateBastion; on an error before the first connection there is no bastion
unfoldable pub create_bastion :
    BastionEnv → ℕ → BastionUrl → Text → Text → Option ℕ → Option BastionError × Option Bastion
unfolding identity_auth host_key_callback reconnect
create_bastion env n url passphrase identity initial =
    elim (identity_auth env identity passphrase) [
      | none ↦ (some bad_identity, none)
      | some methods ↦
          if length (methods ++ password_methods url.password) == 0
          then (some no_auth_methods, none)
          else let (e, b) = reconnect env n initial (record {
            client = none;
            user = url.username;
            auth = methods ++ password_methods url.password;
            callback = host_key_callback env url;
            host = url.hostname;
            port = port_of url.port;
            path = url.path;
          }) in
            (e, some b)
    ]
