-- ===== src/Server/Layout.antt =====
-- The paths that the two providers of the server declare, and that they are laid out.
use psc_mock_server.Prelude.{
  ◌≡◌, refl, ap, Bool, true, not, ◌||◌, Option, none, some, List, [], ◌∷◌, ◌++◌, map, Member, inl,
  inr, Bool-cases, every, every-Member, Member-append, Member-append_left,
}
use mathlib.Core.Path.{subst}
use psc_mock_server.Prelude.Texts.{Text, codes, eq_text, eq_text_sound}
use psc_mock_server.Utils.{
  strip_path_quotes, strip_prefix, at_boundary, is_path_prefix, xpath_to_gnmi_path, skip_slash,
  split_on, parse_parts, parse_elem, parse_keys, find_byte, predicate_value, unquote, assign_key,
}
use psc_mock_server.Utils.Nested.{elems_of}
use psc_mock_server.Utils.PathPrefix.{IsQuoteFree, strip_path_quotes-IsQuoteFree}
use psc_mock_server.Emit.Mirror.{AreApart}
use psc_mock_server.Emit.Client.{under}
use psc_mock_server.DataProvider.{default_atomic_prefix}
use psc_mock_server.Emit.Follow.{IsLaidOut}
use psc_mock_server.StoreBacked.{StoreBackedProvider}
use psc_mock_server.Registry
use psc_mock_server.Registry.{Registry, matches}
use psc_mock_server.SystemConfig
use psc_mock_server.SystemConfig.{starts_with, container_of, find_text, ends_with}
use psc_mock_server.Server
use psc_mock_server.Server.{Provider, server_provider}
use psc_mock_server.Server.Commits.{server_registry}
use psc_mock_server.Server.Delivery.{Located-server_registry}
use psc_mock_server.PowerSensor.{SensorDef, sensors, psc_units, leaf_path}
use psc_mock_server.SystemConfig.{ConfigLeaf, defaults, timezone_name, ntp_config}

abbrev unit_paths : Text → List SensorDef → List Text
unit_paths unit [] = []
unit_paths unit (s ∷ defs) = leaf_path unit s.suffix ∷ unit_paths unit defs

abbrev paths_for : List Text → List Text
paths_for [] = []
paths_for (unit ∷ units) = unit_paths unit sensors ++ paths_for units

abbrev pub sensor_paths : List Text
sensor_paths = paths_for psc_units

abbrev default_paths : List ConfigLeaf → List Text
default_paths [] = []
default_paths (c ∷ leaves) = c.path ∷ default_paths leaves

abbrev ntp_names : List Text
ntp_names =
    codes "/address"
    ∷ codes "/port"
    ∷ codes "/version"
    ∷ codes "/iburst"
    ∷ codes "/association-type"
    ∷ []

abbrev pub config_paths : List Text
config_paths = default_paths defaults ++ timezone_name ∷ map (λ s. ntp_config ++ s) ntp_names

-- A path that one of the providers declares.
abbrev pub known_paths : List Text
known_paths = sensor_paths ++ config_paths

every_pair {ℓ} :
    {A : Type ℓ} (test : A → A → Bool) (xs : List A) (x y : A)
    → every (λ a. every (test a) xs) xs ≡ true
    → Member x xs
    → Member y xs
    → test x y ≡ true
every_pair test xs x y h mx my =
    every-Member (test x) xs y (every-Member (λ a. every (test a) xs) xs x h mx) my

-- Neither path lies at or under the other, unless they are the same.
abbrev are_apart : Text → Text → Bool
are_apart j k = eq_text j k || not (under (elems_of j) (elems_of k))

known_apart : every (λ j. every (are_apart j) known_paths) known_paths ≡ true
unfolding leaf_path xpath_to_gnmi_path skip_slash split_on parse_parts parse_elem parse_keys
    find_byte predicate_value unquote assign_key eq_text
known_apart = refl

-- A path under a container has that container.
abbrev same_container : Option Text → Text → Option Text → Bool
same_container none k o = true
same_container (some c) k none = not (under (elems_of c) (elems_of k))
same_container (some c) k (some d) = eq_text d c || not (under (elems_of c) (elems_of k))

same_container_lem :
    (c k : Text) (o : Option Text)
    → same_container (some c) k o ≡ true
    → under (elems_of c) (elems_of k) ≡ true
    → o ≡ some c
same_container_lem c k none h u = cc (rw u at h)
same_container_lem c k (some d) h u = elim (Bool-cases (eq_text d c)) [
  | inl e ↦ ap some (eq_text_sound d c e)
  | inr e ↦ cc (rw (e, u) at h)
]

known_plain : every (λ k. eq_text (strip_path_quotes k) k) known_paths ≡ true
unfolding leaf_path strip_path_quotes eq_text
known_plain = refl

-- A path that one of the providers declares.
abbrev pub IsKnown : Text → Type 0
IsKnown k = Member k known_paths

abbrev pub IsSensor : Text → Type 0
IsSensor k = Member k sensor_paths

abbrev pub IsSetting : Text → Type 0
IsSetting k = Member k config_paths

pub IsSensor-IsKnown : (k : Text) → IsSensor k → IsKnown k
IsSensor-IsKnown k m = Member-append_left sensor_paths config_paths m

pub IsSetting-IsKnown : (k : Text) → IsSetting k → IsKnown k
IsSetting-IsKnown k m = Member-append sensor_paths config_paths m

pub IsKnown-strip_path_quotes : (k : Text) → IsKnown k → strip_path_quotes k ≡ k
IsKnown-strip_path_quotes k m =
    eq_text_sound (strip_path_quotes k) k
      (every-Member (λ k. eq_text (strip_path_quotes k) k) known_paths k known_plain m)

IsKnown-AreApart : AreApart IsKnown
IsKnown-AreApart j k mj mk u = elim (Bool-cases (eq_text j k)) [
  | inl e ↦ eq_text_sound j k e
  | inr e ↦ cc (rw (e, u) at (every_pair are_apart known_paths j k known_apart mj mk))
]

module _ (sensor config : StoreBackedProvider) where
  abbrev container : Text → Option Text
  container = Registry.atomic_prefix (server_registry sensor config)

  known_closed :
      every (λ j. every (λ k. same_container (container j) k (container k)) known_paths) known_paths
      ≡ true
  unfolding leaf_path xpath_to_gnmi_path skip_slash split_on parse_parts parse_elem parse_keys
      find_byte predicate_value unquote assign_key eq_text Registry.atomic_prefix matches
      Server.atomic_prefix SystemConfig.atomic_prefix default_atomic_prefix is_path_prefix
      strip_path_quotes strip_prefix at_boundary starts_with container_of find_text ends_with
  known_closed = refl

  -- The paths that the server declares are laid out with the containers that its registry names,
  -- whatever its stores hold.
  pub IsKnown-IsLaidOut : IsLaidOut IsKnown container
  IsKnown-IsLaidOut = record {
    apart = IsKnown-AreApart;
    located = λ k m.
        Located-server_registry sensor config k (container k)
          (subst IsQuoteFree (IsKnown-strip_path_quotes k m) (strip_path_quotes-IsQuoteFree k))
          refl;
    closed = λ j k c mj mk e u.
        same_container_lem c k (container k)
          (subst (λ o. same_container o k (container k) ≡ true) e
            (every_pair (λ j k. same_container (container j) k (container k)) known_paths j k
              known_closed mj mk))
          u;
  }
