-- ===== src/DataProvider.antt =====
-- src/backend/data_provider.hpp, its first two parts: the read model and the write model that
-- providers and handlers share, the `addLeaf` helpers, and the interface of a provider.
-- The registry of the same file is in Registry.
use psc_mock_server.Prelude.{ℕ, Bool, false, Option, none, some, List, [], ◌∷◌, ◌++◌}
use psc_mock_server.Prelude.Texts.{Text}
use psc_mock_server.Prelude.Int.{ℤ, pos}
use psc_mock_server.OrderedMap.{OrderedMap}
use psc_mock_server.Gnmi.{
  TypedValue, unset, string_val, int_val, uint_val, bool_val, double_val, Update, SubscriptionMode,
  sample, empty_path,
}
use psc_mock_server.Utils.{xpath_to_gnmi_path}

pub data LeafType : Type 0 where
  config state operational : LeafType

pub record Leaf : Type 0 where
  pub val : TypedValue
  pub collected_ns : ℤ
  pub leaf_type : LeafType

abbrev pub Snapshot : Type 0
Snapshot = OrderedMap Leaf

pub data Kind : Type 0 where
  set remove : Kind

pub record WriteOp : Type 0 where
  pub xpath : Text
  pub kind : Kind
  pub val : TypedValue
  pub collected_ns : ℤ
  pub leaf_type : LeafType

-- The operations in the order in which they were added.
abbrev pub WriteBatch : Type 0
WriteBatch = List WriteOp

-- The overloads of `typedValue`.
pub data Scalar : Type 0 where
  double : ℕ → Scalar
  boolean : Bool → Scalar
  int64 : ℤ → Scalar
  uint64 : ℕ → Scalar
  string : Text → Scalar

unfoldable pub typed_value : Scalar → TypedValue
typed_value (double v) = double_val v
typed_value (boolean v) = bool_val v
typed_value (int64 v) = int_val v
typed_value (uint64 v) = uint_val v
typed_value (string v) = string_val v

-- `WriteBatch::add`
unfoldable pub add : WriteBatch → WriteOp → WriteBatch
add batch op = batch ++ op ∷ []

-- `WriteBatch::set` of a built value; the leaf type is the default of the struct
unfoldable pub set_op : Text → TypedValue → ℤ → WriteOp
set_op xpath value ns = record {
  xpath = xpath;
  kind = set;
  val = value;
  collected_ns = ns;
  leaf_type = operational;
}

unfoldable pub remove_op : Text → WriteOp
remove_op xpath = record {
  xpath = xpath;
  kind = remove;
  val = unset;
  collected_ns = pos 0;
  leaf_type = operational;
}

unfoldable pub batch_set : WriteBatch → Text → TypedValue → ℤ → WriteBatch
unfolding add set_op
batch_set batch xpath value ns = add batch (set_op xpath value ns)

-- the overloads of `WriteBatch::set` for scalars
unfoldable pub batch_set_scalar : WriteBatch → Text → Scalar → ℤ → WriteBatch
unfolding batch_set typed_value
batch_set_scalar batch xpath value ns = batch_set batch xpath (typed_value value) ns

unfoldable pub batch_remove : WriteBatch → Text → WriteBatch
unfolding add remove_op
batch_remove batch xpath = add batch (remove_op xpath)

-- One `Update` for a path and a value, as `addLeaf`, `collect` and `appendLeaf` build it.
unfoldable pub leaf_update : Text → TypedValue → Update
leaf_update xpath value = record {
  path = some (xpath_to_gnmi_path xpath empty_path);
  val = some value;
}

-- the overloads of `addLeaf`
unfoldable pub add_leaf : List Update → Text → Scalar → List Update
unfolding leaf_update typed_value
add_leaf list xpath value = list ++ leaf_update xpath (typed_value value) ∷ []

-- `IDataProvider`: the virtual methods of a provider, over its state. `apply_batch` returns the
-- state that it leaves and whether it accepted.
pub record DataProvider (P : Type 0) : Type 0 where
  pub fill : P → List Update → Text → List Update
  pub preferred_mode : P → Text → SubscriptionMode
  pub snapshot : P → Text → Snapshot
  pub writable : P → Text → Bool
  pub apply_batch : P → WriteBatch → P × Bool
  pub atomic_prefix : P → Text → Option Text

-- The defaults of the methods that a provider need not override.
module _ {P : Type 0} where
  unfoldable pub default_preferred_mode : P → Text → SubscriptionMode
  default_preferred_mode p xpath = sample

  unfoldable pub default_writable : P → Text → Bool
  default_writable p xpath = false

  unfoldable pub default_apply_batch : P → WriteBatch → P × Bool
  default_apply_batch p batch = (p, false)

  unfoldable pub default_atomic_prefix : P → Text → Option Text
  default_atomic_prefix p xpath = none
