-- ===== src/Emit/Partition.antt =====
-- `partition` puts every leaf of a snapshot into exactly one place: the group of its container, or
-- the rest.
use psc_mock_server.Prelude.{◌≡◌, ap, Option, none, some, [], ◌∷◌, arith, if◌then◌else◌}
use psc_mock_server.Prelude.Texts.{Text, eq_text, eq_text_iff}
use psc_mock_server.OrderedMap.{find, emplace}
use psc_mock_server.OrderedMap.Laws.{first, find-emplace, find-assign}
use psc_mock_server.DataProvider.{DataProvider, Leaf, Snapshot}
use psc_mock_server.Registry
use psc_mock_server.Registry.{Registry}
use psc_mock_server.Emit.{Parts, or_empty, put_leaf, partition_from, partition}

-- What the group of a container holds at a path.
abbrev pub find_in : Text → Text → Parts → Option Leaf
find_in ap k parts = find k (or_empty (find ap parts.groups))

-- The leaf, if the container is absent.
abbrev pub if_free : Option Text → Option Leaf → Option Leaf
if_free none leaf = leaf
if_free (some c) leaf = none

-- The leaf, if the container is the given one.
abbrev pub if_in : Text → Option Text → Option Leaf → Option Leaf
if_in ap none leaf = none
if_in ap (some c) leaf = if eq_text c ap then leaf else none

abbrev single : Text → Text → Leaf → Option Leaf
single path k leaf = if eq_text path k then some leaf else none

put_rest :
    (o : Option Text) (path k : Text) (leaf : Leaf) (parts : Parts)
    → find k (put_leaf o path leaf parts).non_atomic
      ≡ first (find k parts.non_atomic) (if_free o (single path k leaf))
unfolding put_leaf
put_rest none path k leaf parts = find-emplace path k leaf parts.non_atomic
put_rest (some c) path k leaf parts = ground arith

put_group :
    (o : Option Text) (path ap k : Text) (leaf : Leaf) (parts : Parts)
    → find_in ap k (put_leaf o path leaf parts)
      ≡ first (find_in ap k parts) (if_in ap o (single path k leaf))
unfolding put_leaf
put_group none path ap k leaf parts = ground arith
put_group (some c) path ap k leaf parts = ground (
  arith,
  eq_text_iff c ap,
  find-assign c ap (emplace path leaf (or_empty (find c parts.groups))) parts.groups,
  find-emplace path k leaf (or_empty (find c parts.groups)),
)

module _ {P : Type 0} ⦃i : DataProvider P⦄ (registry : Registry P) where
  rest_from :
      (snap : Snapshot) (k : Text) (parts : Parts)
      → find k (partition_from registry snap parts).non_atomic
        ≡ first
            (find k parts.non_atomic)
            (if_free (Registry.atomic_prefix registry k) (find k snap))
  unfolding partition_from find
  rest_from [] k parts = ground arith
  rest_from ((path, leaf) ∷ snap) k parts =
      let o = Registry.atomic_prefix registry path in
      ground (
        arith,
        rest_from snap k (put_leaf o path leaf parts),
        put_rest o path k leaf parts,
        eq_text_iff path k,
      )

  group_from :
      (snap : Snapshot) (c k : Text) (parts : Parts)
      → find_in c k (partition_from registry snap parts)
        ≡ first (find_in c k parts) (if_in c (Registry.atomic_prefix registry k) (find k snap))
  unfolding partition_from find
  group_from [] c k parts = ground arith
  group_from ((path, leaf) ∷ snap) c k parts =
      let o = Registry.atomic_prefix registry path in
      ground (
        arith,
        group_from snap c k (put_leaf o path leaf parts),
        put_group o path c k leaf parts,
        eq_text_iff path k,
      )

  -- A path of the snapshot whose container the registry does not name stands in the rest and in no
  -- group; any other stands, with its leaf, in the group of its container and nowhere else.
  pub partition_lem :
      (snap : Snapshot) (c k : Text)
      → (find k (partition registry snap).non_atomic
          ≡ if_free (Registry.atomic_prefix registry k) (find k snap))
        × (find_in c k (partition registry snap)
            ≡ if_in c (Registry.atomic_prefix registry k) (find k snap))
  unfolding partition find
  partition_lem snap c k = (
    rest_from snap k (record { non_atomic = []; groups = [] }),
    group_from snap c k (record { non_atomic = []; groups = [] }),
  )
