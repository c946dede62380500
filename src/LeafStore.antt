-- ===== src/LeafStore.antt =====
-- src/backend/leaf_store.hpp and leaf_store.cpp. A store is its map; each method runs under one
-- lock in the source, so it is one step here.
pub mod Commit
pub mod Select
pub mod Diff
use psc_mock_server.Prelude.{
  Bool, true, false, not, ◌&&◌, ◌||◌, Option, none, some, List, [], ◌∷◌, ◌++◌, if◌then◌else◌, ◌==◌,
  ltb, length,
}
use psc_mock_server.Prelude.Texts.{Text, eq_text}
use psc_mock_server.OrderedMap.{OrderedMap, find, assign, erase, emplace}
use psc_mock_server.Gnmi.{TypedValue, Update}
use psc_mock_server.Utils.{strip_path_quotes, is_path_prefix, find_byte}
use psc_mock_server.DataProvider.{
  Leaf, Snapshot, Kind, set, remove, WriteOp, WriteBatch, leaf_update,
}

pub record LeafStore : Type 0 where
  pub leaves : OrderedMap Leaf

abbrev pub empty_store : LeafStore
empty_store = record { leaves = [] }

-- the loop of `stripKeys`; the flag is `inKey`
unfoldable pub strip_keys_from : Bool → Text → Text
strip_keys_from in_key [] = []
strip_keys_from in_key (c ∷ s) =
    let out = strip_keys_from (if c == b'[' then true else if c == b']' then false else in_key) s in
    if c == b'[' then out else if c == b']' then out else if not in_key then c ∷ out else out

unfoldable pub strip_keys : Text → Text
unfolding strip_keys_from
strip_keys = strip_keys_from false

-- `query.find('[') == npos`
unfoldable pub has_no_keys : Text → Bool
has_no_keys query = elim (find_byte b'[' query) [ none ↦ true | some i ↦ false ]

unfoldable pub selects : Text → Text → Bool
unfolding has_no_keys
selects query leaf =
    if is_path_prefix query leaf
    then true
    else if has_no_keys query
    then is_path_prefix query (strip_keys leaf)
    else false

-- One operation of the loop in `commit`.
unfoldable pub apply_kind : Kind → Text → Leaf → OrderedMap Leaf → OrderedMap Leaf
apply_kind set key leaf leaves = assign key leaf leaves
apply_kind remove key leaf leaves = erase key leaves

unfoldable pub apply_op : WriteOp → OrderedMap Leaf → OrderedMap Leaf
unfolding apply_kind
apply_op op leaves =
    apply_kind op.kind (strip_path_quotes op.xpath)
      (record { val = op.val; collected_ns = op.collected_ns; leaf_type = op.leaf_type }) leaves

unfoldable pub apply_ops : WriteBatch → OrderedMap Leaf → OrderedMap Leaf
unfolding apply_op
apply_ops [] leaves = leaves
apply_ops (op ∷ ops) leaves = apply_ops ops (apply_op op leaves)

unfoldable pub commit : LeafStore → WriteBatch → LeafStore
unfolding apply_ops
commit store batch = record { leaves = apply_ops batch store.leaves }

unfoldable pub get : LeafStore → Text → Option Leaf
get store xpath = find (strip_path_quotes xpath) store.leaves

unfoldable pub collect_from : Text → OrderedMap Leaf → List Update → List Update
collect_from query [] list = list
collect_from query ((path, leaf) ∷ leaves) list =
    collect_from query leaves
      (if selects query path then list ++ leaf_update path leaf.val ∷ [] else list)

unfoldable pub collect : LeafStore → Text → List Update → List Update × Bool
unfolding collect_from
collect store query_xpath list =
    let after = collect_from (strip_path_quotes query_xpath) store.leaves list in
    (after, ltb (length list) (length after))

unfoldable pub snapshot_from : Text → OrderedMap Leaf → Snapshot → Snapshot
snapshot_from query [] out = out
snapshot_from query ((path, leaf) ∷ leaves) out =
    snapshot_from query leaves (if selects query path then emplace path leaf out else out)

unfoldable pub snapshot : LeafStore → Text → Snapshot
unfolding snapshot_from
snapshot store query_xpath = snapshot_from (strip_path_quotes query_xpath) store.leaves []

pub record Difference : Type 0 where
  pub updated : List (Text × Leaf)
  pub removed : List Text

-- `TypedValue::SerializeAsString` of protobuf is a parameter.
module _ (serialize : TypedValue → Text) where
  unfoldable pub value_equals : TypedValue → TypedValue → Bool
  value_equals a b = eq_text (serialize a) (serialize b)

  -- `it == prev.end() || !valueEquals(it->second.val, leaf.val)`
  unfoldable pub is_change : Option Leaf → Leaf → Bool
  unfolding value_equals
  is_change none leaf = true
  is_change (some old) leaf = not (value_equals old.val leaf.val)

  unfoldable pub updated_in : Snapshot → Snapshot → List (Text × Leaf)
  unfolding is_change
  updated_in prev [] = []
  updated_in prev ((path, leaf) ∷ cur) =
      let rest = updated_in prev cur in
      if is_change (find path prev) leaf then (path, leaf) ∷ rest else rest

  unfoldable pub removed_in : Snapshot → Snapshot → List Text
  removed_in [] cur = []
  removed_in ((path, leaf) ∷ prev) cur =
      let rest = removed_in prev cur in elim (find path cur) [ none ↦ path ∷ rest | some l ↦ rest ]

  unfoldable pub diff : Snapshot → Snapshot → Difference
  unfolding updated_in removed_in
  diff prev cur = record { updated = updated_in prev cur; removed = removed_in prev cur }
