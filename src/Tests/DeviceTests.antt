-- ===== src/Tests/DeviceTests.antt =====
-- The sensors' thread, the log levels, the credentials and the capabilities.
use psc_mock_server.Prelude.{
  ℕ, ◌≡◌, ◌≢◌, ◌↔◌, refl, true, false, ◌&&◌, ◌||◌, Option, some, List, [], ◌∷◌, arith, ltb,
  if◌then◌else◌,
}
use psc_mock_server.Prelude.Texts.{Text, codes, eq_text}
use psc_mock_server.Prelude.Int.{pos}
use psc_mock_server.OrderedMap.{find}
use psc_mock_server.Gnmi.{ok}
use psc_mock_server.PowerSensor.{Walk, Generator, Simulation}
use psc_mock_server.PowerSensor.Walks.{InRange}
use psc_mock_server.Options.{
  Flag, username, password, Settings, first_settings, goes_on, parse_options, Gives,
  Gives-parse_options,
}
use psc_mock_server.Security.{
  AuthBuilder, new_builder, SslOptions, StringRef, build, plain, tls, tls_with_password, process,
  set_insecure,
}
use psc_mock_server.Security.Choice.{has_tls, has_user, has_no_user, build-plain_iff}
use psc_mock_server.Security.Process.{entered, process-ok_iff, process_overread}
use psc_mock_server.Tests.Data.{whole_numbers, sensor}

abbrev always : Generator ℕ
always = record { step_now = λ r. (true, r); step_up = λ r. (true, r) }

abbrev walk : Walk
walk = record { path = codes "/w"; value = 5; step = 1; lo = 4; hi = 6 }

abbrev start : Simulation whole_numbers always
start = record { provider = sensor; walks = walk ∷ []; rng = 0 }

irrefl : (x : ℕ) → ltb x x ≡ false
irrefl x = ground arith

walk-InRange : InRange whole_numbers walk
walk-InRange = record { not_below = refl; not_above = refl; ordered = refl }

-- The command line `-u u -p p -p q`.
abbrev arguments : List Flag
arguments = username (codes "u") ∷ password (codes "p") ∷ password (codes "q") ∷ []

abbrev final : Settings
final = record first_settings {
  auth = record new_builder { username = codes "u"; password = codes "q" };
}

arguments-final : parse_options (λ t. pos 3) arguments first_settings ≡ goes_on final
unfolding parse_options
arguments-final = refl

Gives-parse_options_example : Gives arguments first_settings final
Gives-parse_options_example =
    Gives-parse_options (λ t. pos 3) arguments first_settings final arguments-final

abbrev file : Text → Option Text
file path = some path

abbrev secure : AuthBuilder
secure = record new_builder {
  private_key_path = codes "k";
  cert_path = codes "c";
  username = codes "u";
  password = codes "p";
}

abbrev options : SslOptions
options = record {
  require_client_certificate = false;
  private_key = codes "k";
  cert_chain = codes "c";
  root_certs = [];
}

secure-build : build file secure ≡ tls_with_password options (codes "u") (codes "p")
unfolding build
secure-build = refl

-- A key and a certificate, and the force flag.
abbrev forced : AuthBuilder
forced = record new_builder { private_key_path = codes "k"; cert_path = codes "c"; insecure = true }

-- The flag does not make this server plain.
forced-build : build file forced ≡ tls (record options { require_client_certificate = true })
unfolding build
forced-build = refl

build-plain_iff_example :
    ((build file forced ≡ plain) ↔ (
      (forced.insecure ≡ true)
      × ((has_tls forced && (has_user forced || has_no_user forced)) ≡ false)))
    × (build file (set_insecure true forced) ≡ (
        if has_tls forced && (has_user forced || has_no_user forced)
        then build file (set_insecure false forced)
        else plain))
build-plain_iff_example = build-plain_iff file forced

abbrev metadata : List (Text × StringRef)
metadata =
    (codes "username", record { chars = codes "u"; behind = 0 ∷ [] })
    ∷ (codes "password", record { chars = codes "p"; behind = 7 ∷ [] })
    ∷ []

process-ok_iff_example : ((process (codes "u") (codes "p") metadata).0 ≡ ok) ↔ (
    (entered (find (codes "username") metadata) ≡ some (codes "u"))
    × (entered (find (codes "password") metadata) ≡ some (codes "p")))
process-ok_iff_example = process-ok_iff (codes "u") (codes "p") metadata

found_password :
    find (codes "password") metadata ≡ some (record { chars = codes "p"; behind = 7 ∷ [] })
unfolding find eq_text
found_password = refl

process_overread_example : (process (codes "u") (codes "p") metadata).0 ≢ ok
process_overread_example =
    process_overread (codes "u") (codes "p") metadata 7 [] (omega arith) (omega arith)
      found_password
