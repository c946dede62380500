-- ===== src/GetRpc/Filter.antt =====
-- The type filter of Get.
use psc_mock_server.Prelude.{
  ◌≡◌, ◌↔◌, ◌⊎◌, refl, sym, true, Option, none, some, [], ◌∷◌, arith, if◌then◌else◌,
}
use psc_mock_server.Prelude.Texts.{Text, eq_text_iff}
use psc_mock_server.OrderedMap.{find}
use psc_mock_server.OrderedMap.Sorted.{IsSorted, find-Above}
use psc_mock_server.Gnmi.{DataType, all, config, state, operational, unknown_data_type}
use psc_mock_server.DataProvider.{LeafType, Leaf, Snapshot}
use psc_mock_server.GetRpc.{matches_type, is_valid_data_type, erase_other, filter_by_data_type}

-- A leaf, if it matches the requested type.
abbrev pub kept : DataType → Option Leaf → Option Leaf
kept t none = none
kept t (some leaf) = if matches_type leaf.leaf_type t then some leaf else none

find-erase_other :
    (t : DataType) (snap : Snapshot) (k : Text)
    → IsSorted snap
    → find k (erase_other t snap) ≡ kept t (find k snap)
unfolding erase_other find
find-erase_other t [] k s = refl
find-erase_other t ((path, leaf) ∷ snap) k s =
    ground (arith, eq_text_iff path k, find-erase_other t snap k, find-Above k snap)

kept_all : (o : Option Leaf) → kept all o ≡ o
unfolding matches_type
kept_all none = refl
kept_all (some leaf) = ground arith

-- The filter keeps exactly the leaves that match the requested type, each as it was.
pub find-filter_by_data_type :
    (t : DataType) (snap : Snapshot) (k : Text)
    → IsSorted snap
    → find k (filter_by_data_type t snap) ≡ kept t (find k snap)
unfolding filter_by_data_type
find-filter_by_data_type all snap k s = sym (kept_all (find k snap))
find-filter_by_data_type config snap k s = find-erase_other config snap k s
find-filter_by_data_type state snap k s = find-erase_other state snap k s
find-filter_by_data_type operational snap k s = find-erase_other operational snap k s
find-filter_by_data_type (unknown_data_type n) snap k s =
    find-erase_other (unknown_data_type n) snap k s

-- The one request type among CONFIG, STATE and OPERATIONAL that returns a leaf.
abbrev pub request_for : LeafType → DataType
request_for LeafType.config = config
request_for LeafType.state = state
request_for LeafType.operational = operational

matches_type_iff :
    (l : LeafType) (t : DataType)
    → is_valid_data_type t ≡ true
    → (matches_type l t ≡ true) ↔ ((t ≡ request_for l) ⊎ (t ≡ all))
unfolding matches_type
matches_type_iff LeafType.config t v = (λ h. ground arith, λ h. ground arith)
matches_type_iff LeafType.state t v = (λ h. ground arith, λ h. ground arith)
matches_type_iff LeafType.operational t v = (λ h. ground arith, λ h. ground arith)

-- A leaf of a snapshot is returned by ALL and, of the types CONFIG, STATE and OPERATIONAL, by
-- exactly the one that is named like the leaf's own type.
pub filter_exclusive :
    (snap : Snapshot) (k : Text) (leaf : Leaf) (t : DataType)
    → IsSorted snap
    → find k snap ≡ some leaf
    → is_valid_data_type t ≡ true
    → (find k (filter_by_data_type t snap) ≡ some leaf)
      ↔ ((t ≡ request_for leaf.leaf_type) ⊎ (t ≡ all))
filter_exclusive snap k leaf t s h v =
    let found = find-filter_by_data_type t snap k s in
    let m = matches_type_iff leaf.leaf_type t v in
    (λ e. m.0 (ground arith), λ e. let yes_match = m.1 e in ground arith)
