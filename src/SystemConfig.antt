-- ===== src/SystemConfig.antt =====
-- src/backend/system_config_provider.hpp and system_config_provider.cpp: the writable `/system`
-- configuration. The clock that the constructor reads is an argument.
pub mod Search
pub mod Container
use psc_mock_server.Prelude.{
  ℕ, suc, ◌+◌, ◌-◌, Bool, true, false, ◌&&◌, Option, none, some, List, [], ◌∷◌, ◌++◌, if◌then◌else◌,
  leb, length, take, drop,
}
use psc_mock_server.Prelude.Texts.{Text, codes, eq_text}
use psc_mock_server.Prelude.Int.{ℤ}
use psc_mock_server.Gnmi.{TypedValue, SubscriptionMode, on_change}
use psc_mock_server.Utils.{strip_path_quotes, strip_prefix}
use psc_mock_server.DataProvider.{config, WriteBatch, boolean, uint64, string, typed_value}
use psc_mock_server.StoreBacked.{
  StoreBackedProvider, DeclaredLeaf, new_provider, init_leaves, commit_stamped,
}

pub record ConfigLeaf : Type 0 where
  pub path : Text
  pub value : Text

abbrev pub defaults : List ConfigLeaf
defaults =
    record { path = codes "/system/config/hostname"; value = codes "psc-mock" }
    ∷ record { path = codes "/system/config/login-banner"; value = [] }
    ∷ record { path = codes "/system/config/motd-banner"; value = codes "ORv3 PSC mock" }
    ∷ []

abbrev pub timezone_name : Text
timezone_name = codes "/system/config/timezone-name"

abbrev pub ntp_config : Text
ntp_config = codes "/system/ntp/servers/server[address=10.0.0.1]/config"

unfoldable pub declare_defaults : ℤ → List ConfigLeaf → List DeclaredLeaf
unfolding typed_value
declare_defaults now [] = []
declare_defaults now (c ∷ leaves) =
    record {
      path = c.path;
      leaf_type = config;
      value = some (typed_value (string c.value));
      collected_ns = now;
    }
    ∷ declare_defaults now leaves

abbrev declared : ℤ → Text → Option TypedValue → DeclaredLeaf
declared now path value = record {
  path = path;
  leaf_type = config;
  value = value;
  collected_ns = now;
}

unfoldable pub declare_leaves : ℤ → List DeclaredLeaf
unfolding declare_defaults typed_value
declare_leaves now =
    declare_defaults now defaults
    ++ declared now timezone_name none
      ∷ declared now (ntp_config ++ codes "/address")
          (some (typed_value (string (codes "10.0.0.1"))))
      ∷ declared now (ntp_config ++ codes "/port") (some (typed_value (uint64 123)))
      ∷ declared now (ntp_config ++ codes "/version") (some (typed_value (uint64 4)))
      ∷ declared now (ntp_config ++ codes "/iburst") (some (typed_value (boolean true)))
      ∷ declared now (ntp_config ++ codes "/association-type")
          (some (typed_value (string (codes "SERVER"))))
      ∷ []

-- the constructor
unfoldable pub new_system_config : ℤ → StoreBackedProvider
unfolding declare_leaves init_leaves
new_system_config now = init_leaves (declare_leaves now) new_provider

unfoldable pub preferred_mode : StoreBackedProvider → Text → SubscriptionMode
preferred_mode p xpath = on_change

unfoldable pub apply_batch : StoreBackedProvider → WriteBatch → StoreBackedProvider × Bool
unfolding commit_stamped
apply_batch p batch = (commit_stamped p batch, true)

-- `p.compare(0, root.size(), root) == 0`
unfoldable pub starts_with : Text → Text → Bool
unfolding strip_prefix
starts_with p root = elim (strip_prefix root p) [ none ↦ false | some rest ↦ true ]

-- `p.find(s)` of a text; `none` is `npos`
unfoldable pub find_text : Text → Text → Option ℕ
unfolding starts_with
find_text s [] = if starts_with [] s then some 0 else none
find_text s (c ∷ p) =
    let rest = find_text s p in
    if starts_with (c ∷ p) s then some 0 else elim rest [ none ↦ none | some i ↦ some (suc i) ]

abbrev pub server_root : Text
server_root = codes "/system/ntp/servers/server["

abbrev pub marker : Text
marker = codes "/config"

-- `p.size() >= marker.size() && p.compare(p.size() - marker.size(), marker.size(), marker) == 0`
unfoldable pub ends_with : Text → Text → Bool
ends_with p s = leb (length s) (length p) && eq_text (drop (length p - length s) p) s

-- The part behind the test on the root, on the path without its quotes.
unfoldable pub container_of : Text → Option Text
unfolding find_text ends_with
container_of p = elim (find_text (marker ++ codes "/") p) [
  | some c ↦ some (take (c + length marker) p)
  | none ↦ if ends_with p marker then some p else none
]

unfoldable pub atomic_prefix : StoreBackedProvider → Text → Option Text
unfolding starts_with container_of
atomic_prefix provider xpath =
    let p = strip_path_quotes xpath in if starts_with p server_root then container_of p else none
