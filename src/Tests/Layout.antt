-- ===== src/Tests/Layout.antt =====
-- Two paths of the configuration, and that they are laid out with the containers of the server.
use psc_mock_server.Prelude.{
  ◌≡◌, inl, inr, refl, true, false, none, some, inl, inr, Bool-cases, [], ◌∷◌, ◌++◌,
}
use mathlib.Core.Path.{subst}
use psc_mock_server.Prelude.Texts.{Text, codes, eq_text, eq_text_sound}
use psc_mock_server.OrderedMap.{find}
use psc_mock_server.Utils.Nested.{elems_of}
use psc_mock_server.DataProvider.{Leaf, Snapshot, default_atomic_prefix}
use psc_mock_server.Registry
use psc_mock_server.Registry.{Registry, matches}
use psc_mock_server.Server
use psc_mock_server.SystemConfig
use psc_mock_server.SystemConfig.{starts_with, container_of, find_text, ends_with}
use psc_mock_server.Utils.{
  is_path_prefix, strip_path_quotes, strip_prefix, at_boundary, xpath_to_gnmi_path, skip_slash,
  split_on, parse_parts, parse_elem, parse_keys, find_byte, predicate_value, unquote, assign_key,
}
use psc_mock_server.Emit.Full.{Located}
use psc_mock_server.Server.{Provider, server_provider}
use psc_mock_server.Server.Commits.{server_registry}
use psc_mock_server.Emit.Client.{under}
use psc_mock_server.Emit.Follow.{IsLaidOut, Within}
use psc_mock_server.Tests.Data.{sensor, settings}

abbrev pub server : Registry Provider
server = server_registry sensor settings

abbrev pub hostname : Text
hostname = codes "/system/config/hostname"

abbrev ntp : Text
ntp = codes "/system/ntp/servers/server[address=10.0.0.1]/config"

abbrev pub port : Text
port = ntp ++ codes "/port"

-- One path outside of containers, and one in the container of the time server.
pub data IsKnown : Text → Type 0 where
  plain : IsKnown hostname
  inside : IsKnown port

at_hostname : Registry.atomic_prefix server hostname ≡ none
unfolding Registry.atomic_prefix matches Server.atomic_prefix SystemConfig.atomic_prefix
    default_atomic_prefix is_path_prefix strip_path_quotes strip_prefix at_boundary starts_with
    container_of find_text ends_with eq_text
at_hostname = refl

at_port : Registry.atomic_prefix server port ≡ some ntp
unfolding Registry.atomic_prefix matches Server.atomic_prefix SystemConfig.atomic_prefix
    default_atomic_prefix is_path_prefix strip_path_quotes strip_prefix at_boundary starts_with
    container_of find_text ends_with eq_text
at_port = refl

known_apart : (j k : Text) → IsKnown j → IsKnown k → under (elems_of j) (elems_of k) ≡ true → j ≡ k
unfolding xpath_to_gnmi_path skip_slash split_on parse_parts parse_elem parse_keys find_byte
    predicate_value unquote assign_key eq_text
known_apart j k plain plain h = refl
known_apart j k plain inside h = cc
known_apart j k inside plain h = cc
known_apart j k inside inside h = refl

port-Located : Located (some ntp) port
port-Located = (codes "/port", refl, refl)

known-Located : (k : Text) → IsKnown k → Located (Registry.atomic_prefix server k) k
known-Located k plain = rw at_hostname tt
known-Located k inside = rw at_port port-Located

hostname_outside : under (elems_of ntp) (elems_of hostname) ≡ false
unfolding xpath_to_gnmi_path skip_slash split_on parse_parts parse_elem parse_keys find_byte
    predicate_value unquote assign_key eq_text
hostname_outside = refl

known_closed :
    (j k c : Text)
    → IsKnown j
    → IsKnown k
    → Registry.atomic_prefix server j ≡ some c
    → under (elems_of c) (elems_of k) ≡ true
    → Registry.atomic_prefix server k ≡ some c
known_closed j k c plain i e h = cc (at_hostname, e)
known_closed j k c inside inside e h = e
known_closed j k c inside plain e h =
    let same : ntp ≡ c = cc (at_port, e) in
    let away = subst (λ x. under (elems_of x) (elems_of hostname) ≡ false) same hostname_outside in
    cc (away, h)

pub IsKnown-IsLaidOut : IsLaidOut IsKnown (Registry.atomic_prefix server)
IsKnown-IsLaidOut = record { apart = known_apart; located = known-Located; closed = known_closed }

pub Within-cons :
    (p : Text) (l : Leaf) (snap : Snapshot)
    → IsKnown p
    → Within IsKnown snap
    → Within IsKnown ((p, l) ∷ snap)
unfolding find
Within-cons p l snap i w k leaf h = elim (Bool-cases (eq_text p k)) [
  | inl e ↦ subst IsKnown (eq_text_sound p k e) i
  | inr e ↦ w k leaf (rw (find, e) at h)
]

pub Within-nil : Within IsKnown []
unfolding find
Within-nil k leaf h = cc
