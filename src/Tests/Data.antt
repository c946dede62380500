-- ===== src/Tests/Data.antt =====
-- Concrete paths, requests and providers for the tests.
use psc_mock_server.Prelude.{ℕ, true, false, none, some, List, [], ◌∷◌, ltb, ◌+◌}
use psc_mock_server.Prelude.Texts.{Text, codes}
use psc_mock_server.Prelude.Int.{pos, negsuc}
use psc_mock_server.Gnmi.{
  GnmiPath, PathElem, TypedValue, unset, string_val, int_val, uint_val, bool_val, double_val,
  other_val, Update, all, json,
}
use psc_mock_server.Gnmi.Requests.{SetRequest, GetRequest}
use psc_mock_server.DataProvider.{Leaf, LeafType, Snapshot}
use psc_mock_server.StoreBacked.{StoreBackedProvider}
use psc_mock_server.SystemConfig.{new_system_config}
use psc_mock_server.PowerSensor.{Doubles, new_power_sensor}

abbrev pub elem : Text → PathElem
elem name = record { name = name; key = [] }

abbrev pub path_of : List PathElem → GnmiPath
path_of elems = record { origin = []; elem = elems; target = [] }

abbrev pub hostname_path : GnmiPath
hostname_path =
    path_of (elem (codes "system") ∷ elem (codes "config") ∷ elem (codes "hostname") ∷ [])

abbrev pub timezone_path : GnmiPath
timezone_path =
    path_of (elem (codes "system") ∷ elem (codes "config") ∷ elem (codes "timezone-name") ∷ [])

abbrev pub hostname_update : Update
hostname_update = record { path = some hostname_path; val = some (string_val (codes "new")) }

abbrev pub hostname_request : SetRequest
hostname_request = record {
  prefix = none;
  delete = timezone_path ∷ [];
  replace = [];
  update = hostname_update ∷ [];
  union_replace = [];
  extension_size = 0;
}

abbrev pub hostname_get : GetRequest
hostname_get = record {
  prefix = none;
  path = hostname_path ∷ [];
  data_type = all;
  encoding = json;
  use_models_size = 0;
  extension_size = 0;
}

-- Whole numbers in place of doubles.
abbrev pub whole_numbers : Doubles
whole_numbers = record {
  plus = λ a b. a + b;
  minus = λ a b. a;
  times = λ a b. a;
  negate = λ a. a;
  less = ltb;
}

abbrev pub sensor : StoreBackedProvider
sensor = new_power_sensor whole_numbers (pos 1)

abbrev pub settings : StoreBackedProvider
settings = new_system_config (pos 1)

-- An injective serialisation, with the number of the field in front.
abbrev pub serialize : TypedValue → Text
serialize unset = []
serialize (string_val s) = 1 ∷ s
serialize (int_val (pos n)) = 2 ∷ 0 ∷ n ∷ []
serialize (int_val (negsuc n)) = 2 ∷ 1 ∷ n ∷ []
serialize (uint_val n) = 3 ∷ n ∷ []
serialize (bool_val true) = 4 ∷ 1 ∷ []
serialize (bool_val false) = 4 ∷ 0 ∷ []
serialize (double_val n) = 14 ∷ n ∷ []
serialize (other_val n s) = 5 ∷ n ∷ s

abbrev pub leaf_at : ℕ → ℕ → Leaf
leaf_at v t = record { val = uint_val v; collected_ns = pos t; leaf_type = LeafType.operational }

abbrev pub previous : Snapshot
previous = (codes "/a", leaf_at 1 1) ∷ (codes "/b", leaf_at 2 1) ∷ []

abbrev pub current : Snapshot
current = (codes "/a", leaf_at 5 2) ∷ (codes "/c", leaf_at 3 2) ∷ []
