-- ===== src/Security/Choice.antt =====
-- Which settings of the command line give which credentials.
use psc_mock_server.Prelude.{
  ◌≡◌, ◌↔◌, Bool, true, false, not, ◌&&◌, ◌||◌, Option, arith, is_empty, if◌then◌else◌,
}
use psc_mock_server.Prelude.Texts.{Text}
use psc_mock_server.Security.{
  AuthBuilder, SslOptions, tls, tls_with_password, plain, set_insecure, build,
}

-- A key and a certificate are given; a user name and a password are given, or neither is.
abbrev pub has_tls : AuthBuilder → Bool
has_tls b = not (is_empty b.private_key_path) && not (is_empty b.cert_path)

abbrev pub has_user : AuthBuilder → Bool
has_user b = not (is_empty b.username) && not (is_empty b.password)

abbrev pub has_no_user : AuthBuilder → Bool
has_no_user b = is_empty b.username && is_empty b.password

-- The server runs without encryption exactly when it is forced to, and the key and certificate are
-- not both given together with both or neither of user name and password. Where they are so given,
-- the force flag changes nothing: the credentials with it are the ones without it.
pub build-plain_iff :
    (file : Text → Option Text) (b : AuthBuilder)
    → ((build file b ≡ plain)
        ↔ ((b.insecure ≡ true) × ((has_tls b && (has_user b || has_no_user b)) ≡ false)))
      × (build file (set_insecure true b) ≡ (
          if has_tls b && (has_user b || has_no_user b)
          then build file (set_insecure false b)
          else plain))
unfolding build
build-plain_iff file b = ((λ h. ground arith, λ h. ground arith), ground arith)

-- Credentials that check passwords are over TLS, do not ask for a client certificate, and check the
-- user name and the password that were set, of which neither is empty.
build-tls_with_password :
    (file : Text → Option Text) (b : AuthBuilder) (opts : SslOptions) (user pass : Text)
    → build file b ≡ tls_with_password opts user pass
    → (opts.require_client_certificate ≡ false)
      × (user ≡ b.username)
      × (pass ≡ b.password)
      × (has_tls b ≡ true)
      × (has_user b ≡ true)
unfolding build
build-tls_with_password file b opts user pass h = ground arith

-- Credentials without passwords ask every client for a certificate.
pub build-tls :
    (file : Text → Option Text) (b : AuthBuilder) (opts : SslOptions)
    → build file b ≡ tls opts
    → (opts.require_client_certificate ≡ true) × (has_tls b ≡ true) × (has_no_user b ≡ true)
unfolding build
build-tls file b opts h = ground arith
