-- ===== src/Emit/Sorting.antt =====
-- `partition` makes sorted maps.
use psc_mock_server.Prelude.{
  ◌≡◌, ◌∙◌, refl, sym, ap, false, none, some, Option, [], ◌∷◌, arith, is_empty, inl, inr,
  Bool-cases,
}
use psc_mock_server.Prelude.Texts.{Text, eq_text}
use psc_mock_server.OrderedMap.{OrderedMap, find, assign, emplace}
use psc_mock_server.OrderedMap.Laws.{find-assign}
use psc_mock_server.OrderedMap.Sorted.{IsSorted, IsSorted-assign, IsSorted-emplace}
use psc_mock_server.DataProvider.{DataProvider, Leaf, Snapshot}
use psc_mock_server.Registry
use psc_mock_server.Registry.{Registry}
use psc_mock_server.Emit.{Parts, or_empty, put_leaf, partition_from, partition}

-- Both parts hold sorted snapshots.
abbrev pub AreSorted : Parts → Type 0
AreSorted parts =
    IsSorted parts.non_atomic × ((c : Text) → IsSorted (or_empty (find c parts.groups)))

AreSorted-put_leaf :
    (o : Option Text) (path : Text) (leaf : Leaf) (parts : Parts)
    → AreSorted parts
    → AreSorted (put_leaf o path leaf parts)
unfolding put_leaf
AreSorted-put_leaf none path leaf parts s = (IsSorted-emplace path leaf parts.non_atomic s.0, s.1)
AreSorted-put_leaf (some ap) path leaf parts s = (
  s.0,
  λ c. ground (
    arith,
    find-assign ap c (emplace path leaf (or_empty (find ap parts.groups))) parts.groups,
    IsSorted-emplace path leaf (or_empty (find ap parts.groups)) (s.1 ap),
    s.1 c,
  ),
)

module _ {P : Type 0} ⦃i : DataProvider P⦄ (registry : Registry P) where
  AreSorted-partition_from :
      (snap : Snapshot) (parts : Parts)
      → AreSorted parts
      → AreSorted (partition_from registry snap parts)
  unfolding partition_from
  AreSorted-partition_from [] parts s = s
  AreSorted-partition_from ((path, leaf) ∷ snap) parts s =
      let o = Registry.atomic_prefix registry path in
      AreSorted-partition_from snap (put_leaf o path leaf parts)
        (AreSorted-put_leaf o path leaf parts s)

  pub AreSorted-partition : (snap : Snapshot) → AreSorted (partition registry snap)
  unfolding partition find
  AreSorted-partition snap =
      AreSorted-partition_from snap (record { non_atomic = []; groups = [] }) (tt, λ c. tt)

-- Each group has a leaf.
abbrev pub AreFilled : OrderedMap Snapshot → Type 0
AreFilled groups = (c : Text) (g : Snapshot) → find c groups ≡ some g → is_empty g ≡ false

assign_filled : (k : Text) (v : Leaf) (m : Snapshot) → is_empty (assign k v m) ≡ false
unfolding assign
assign_filled k v [] = refl
assign_filled k v ((j, w) ∷ m) = ground arith

emplace_filled : (k : Text) (v : Leaf) (m : Snapshot) → is_empty (emplace k v m) ≡ false
unfolding emplace find
emplace_filled k v [] = assign_filled k v []
emplace_filled k v ((j, w) ∷ m) = ground (arith, assign_filled k v ((j, w) ∷ m))

groups-put_leaf :
    (o : Option Text) (path : Text) (leaf : Leaf) (parts : Parts)
    → IsSorted parts.groups × AreFilled parts.groups
    → IsSorted (put_leaf o path leaf parts).groups × AreFilled (put_leaf o path leaf parts).groups
unfolding put_leaf
groups-put_leaf none path leaf parts h = h
groups-put_leaf (some a) path leaf parts h =
    let group = emplace path leaf (or_empty (find a parts.groups)) in
    (
      IsSorted-assign a group parts.groups h.0,
      λ c g e. elim (Bool-cases (eq_text a c)) [
        | inl same ↦
            let here : group ≡ g = cc (rw (find-assign a c group parts.groups, same) at e) in
            ap (λ (m : Snapshot). is_empty m) (sym here)
            ∙ emplace_filled path leaf (or_empty (find a parts.groups))
        | inr other ↦ h.1 c g (rw (find-assign a c group parts.groups, other) at e)
      ],
    )

module _ {P : Type 0} ⦃i : DataProvider P⦄ (registry : Registry P) where
  groups-partition_from :
      (snap : Snapshot) (parts : Parts)
      → IsSorted parts.groups × AreFilled parts.groups
      → IsSorted (partition_from registry snap parts).groups
        × AreFilled (partition_from registry snap parts).groups
  unfolding partition_from
  groups-partition_from [] parts h = h
  groups-partition_from ((path, leaf) ∷ snap) parts h =
      let o = Registry.atomic_prefix registry path in
      groups-partition_from snap (put_leaf o path leaf parts) (groups-put_leaf o path leaf parts h)

  -- The containers stand in order, and each has a leaf.
  pub groups-partition :
      (snap : Snapshot)
      → IsSorted (partition registry snap).groups × AreFilled (partition registry snap).groups
  unfolding partition find
  groups-partition snap =
      groups-partition_from snap (record { non_atomic = []; groups = [] }) (tt, λ c g e. cc)
