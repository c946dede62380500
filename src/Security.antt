-- ===== src/Security.antt =====
-- src/security/authentication.h and authentication.cpp: the choice of the server's credentials and
-- the check of user names and passwords. TLS itself is gRPC's; a file is read through `file`, whose
-- `none` is a file that cannot be opened.
pub mod Choice
pub mod Process
use psc_mock_server.Prelude.{
  ℕ, Bool, true, false, not, ◌&&◌, ◌||◌, Option, none, some, List, [], ◌∷◌, ◌++◌, if◌then◌else◌,
  ◌==◌, is_empty,
}
use psc_mock_server.Prelude.Texts.{Text, codes, eq_text}
use psc_mock_server.OrderedMap.{find}
use psc_mock_server.Gnmi.{
  Status, ok, error, unauthenticated, no_username_field, no_password_field,
  invalid_username_password,
}

-- The fields that the setters of `AuthBuilder` assign.
pub record AuthBuilder : Type 0 where
  pub private_key_path : Text
  pub cert_path : Text
  pub root_cert_path : Text
  pub username : Text
  pub password : Text
  pub insecure : Bool

abbrev pub new_builder : AuthBuilder
new_builder = record {
  private_key_path = [];
  cert_path = [];
  root_cert_path = [];
  username = [];
  password = [];
  insecure = false;
}

-- The setters.
abbrev pub set_key_path : Text → AuthBuilder → AuthBuilder
set_key_path key_path b = record b { private_key_path = key_path }

abbrev pub set_cert_path : Text → AuthBuilder → AuthBuilder
set_cert_path cert_path b = record b { cert_path = cert_path }

abbrev pub set_root_cert_path : Text → AuthBuilder → AuthBuilder
set_root_cert_path root_path b = record b { root_cert_path = root_path }

abbrev pub set_username : Text → AuthBuilder → AuthBuilder
set_username user b = record b { username = user }

abbrev pub set_password : Text → AuthBuilder → AuthBuilder
set_password pass b = record b { password = pass }

abbrev pub set_insecure : Bool → AuthBuilder → AuthBuilder
set_insecure mode b = record b { insecure = mode }

-- `SslServerCredentialsOptions`: is a client certificate required, and the texts of the files.
pub record SslOptions : Type 0 where
  pub require_client_certificate : Bool
  pub private_key : Text
  pub cert_chain : Text
  pub root_certs : Text

-- What `build` ends in: credentials, with or without the authenticator, or the process's exit.
pub data Credentials : Type 0 where
  tls : SslOptions → Credentials
  tls_with_password : SslOptions → Text → Text → Credentials
  plain : Credentials
  exit_missing_file : Text → Credentials
  exit_unsupported : Credentials

-- A result of the code that may exit on the way.
pub data Loaded : Type 0 where
  loaded : SslOptions → Loaded
  missing : Text → Loaded

unfoldable pub root_text : (Text → Option Text) → Text → Option Text
root_text file rpath = if is_empty rpath then some [] else file rpath

-- `SslCredentialsHelper`: the key, the certificate and the root are read in this order
unfoldable pub ssl_options : (Text → Option Text) → Text → Text → Text → Bool → Loaded
unfolding root_text
ssl_options file ppath cpath rpath client_cert = elim (file ppath) [
  | none ↦ missing ppath
  | some key ↦ elim (file cpath) [
    | none ↦ missing cpath
    | some cert ↦ elim (root_text file rpath) [
      | none ↦ missing rpath
      | some root ↦ loaded (record {
        require_client_certificate = client_cert;
        private_key = key;
        cert_chain = cert;
        root_certs = root;
      })
    ]
  ]
]

-- `AuthBuilder::build`
unfoldable pub build : (Text → Option Text) → AuthBuilder → Credentials
unfolding ssl_options
build file b =
    if not (is_empty b.private_key_path)
      && not (is_empty b.cert_path)
      && is_empty b.username
      && is_empty b.password
    then elim (ssl_options file b.private_key_path b.cert_path b.root_cert_path true) [
      | missing path ↦ exit_missing_file path
      | loaded opts ↦ tls opts
    ]
    else if not (is_empty b.private_key_path)
        && not (is_empty b.cert_path)
        && not (is_empty b.username)
        && not (is_empty b.password)
    then elim (ssl_options file b.private_key_path b.cert_path b.root_cert_path false) [
      | missing path ↦ exit_missing_file path
      | loaded opts ↦ tls_with_password opts b.username b.password
    ]
    else if b.insecure
    then plain
    else exit_unsupported

-- A `grpc::string_ref` of the call's metadata: its bytes, and the bytes of memory behind them.
pub record StringRef : Type 0 where
  pub chars : Text
  pub behind : Text

-- What a comparison with a `const char*` reads: everything up to the first zero byte.
unfoldable pub c_string : Text → Text
c_string [] = []
c_string (c ∷ s) = let rest = c_string s in if c == 0 then [] else c ∷ rest

-- `s.compare(ref.data()) == 0`
unfoldable pub equals_data : Text → StringRef → Bool
unfolding c_string
equals_data s ref = eq_text s (c_string (ref.chars ++ ref.behind))

-- The tests of `Process` on the two entries that it looks up.
unfoldable pub judge :
    Text → Text → Option StringRef → Option StringRef → Status × List (Text × Text)
unfolding equals_data
judge username password none pass = (error unauthenticated no_username_field, [])
judge username password (some user) none = (error unauthenticated no_password_field, [])
judge username password (some user) (some pass) =
    if not (equals_data password pass) || not (equals_data username user)
    then (error unauthenticated invalid_username_password, [])
    else (ok, (codes "username", user.chars) ∷ (codes "password", pass.chars) ∷ [])

-- `UserPassAuthenticator::Process`: the status, and what is added to the consumed metadata
unfoldable pub process : Text → Text → List (Text × StringRef) → Status × List (Text × Text)
unfolding judge
process username password metadata =
    judge username password (find (codes "username") metadata) (find (codes "password") metadata)
