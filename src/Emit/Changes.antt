-- ===== src/Emit/Changes.antt =====
-- When `buildChangeNotifications` has nothing to say.
use psc_mock_server.Prelude.{
  ◌≡◌, ◌↔◌, refl, ap, Option, none, some, List, [], ◌∷◌, ◌++◌, arith, Option-cases, inl, inr,
}
use psc_mock_server.Prelude.Int.{ℤ}
use psc_mock_server.Prelude.Texts.{Text, eq_text_iff, eq_text_refl}
use psc_mock_server.OrderedMap.{OrderedMap, find, assign}
use psc_mock_server.OrderedMap.Laws.{first, find-assign}
use psc_mock_server.OrderedMap.Sorted.{IsSorted}
use psc_mock_server.Gnmi.{TypedValue, Notification}
use psc_mock_server.DataProvider.{DataProvider, Leaf, Snapshot}
use psc_mock_server.LeafStore.{diff}
use psc_mock_server.LeafStore.Diff.{SameValues, value_at, diff_silent_iff}
use psc_mock_server.Registry
use psc_mock_server.Registry.{Registry}
use psc_mock_server.Emit.{
  Parts, or_empty, partition, diff_notifications, container_changes, change_containers, insert_keys,
  change_notifications, build_change_notifications,
}
use psc_mock_server.Emit.Sorting.{AreSorted-partition}
use psc_mock_server.Emit.Partition.{if_free, if_in, partition_lem}

abbrev mark {ℓ} : {A : Type ℓ} → Option A → Option (Unit {0})
mark none = none
mark (some a) = some tt

pub find-insert_keys :
    (k : Text) (groups : OrderedMap Snapshot) (prefixes : OrderedMap (Unit {0}))
    → find k (insert_keys groups prefixes) ≡ first (mark (find k groups)) (find k prefixes)
unfolding insert_keys find
find-insert_keys k [] prefixes = refl
find-insert_keys k ((p, group) ∷ groups) prefixes =
    ground (arith, find-insert_keys k groups (assign p tt prefixes), find-assign p k tt prefixes)

append_nil_iff {ℓ} : {A : Type ℓ} (xs ys : List A) → (xs ++ ys ≡ []) ↔ ((xs ≡ []) × (ys ≡ []))
append_nil_iff [] ys = (λ h. (refl, h), λ h. h.1)
append_nil_iff (x ∷ xs) ys = (λ h. cc, λ h. cc (h.0))

module _ (clock : Option Text → ℤ) (serialize : TypedValue → Text) where
  diff_notifications_iff :
      (prev cur : Snapshot)
      → IsSorted cur
      → (diff_notifications clock serialize prev cur ≡ []) ↔ SameValues serialize prev cur
  unfolding diff_notifications
  diff_notifications_iff prev cur s =
      let iff = diff_silent_iff serialize prev cur s in
      (λ h. iff.0 (ground arith), λ h. ground (arith, iff.1 h))

  pub container_changes_iff :
      (prefix : Text) (prev cur : Snapshot)
      → IsSorted cur
      → (container_changes clock serialize prefix prev cur ≡ []) ↔ SameValues serialize prev cur
  unfolding container_changes
  container_changes_iff prefix prev cur s =
      let iff = diff_silent_iff serialize prev cur s in
      (λ h. iff.0 (ground arith), λ h. ground (arith, iff.1 h))

  -- The turn of the loop for one container.
  abbrev turn : OrderedMap Snapshot → OrderedMap Snapshot → Text → List Notification
  turn prev cur k =
      container_changes clock serialize k (or_empty (find k prev)) (or_empty (find k cur))

  change_containers-nil :
      (prefixes : OrderedMap (Unit {0})) (prev cur : OrderedMap Snapshot) (k : Text)
      → change_containers clock serialize prefixes prev cur ≡ []
      → find k prefixes ≡ some tt
      → turn prev cur k ≡ []
  unfolding change_containers find
  change_containers-nil [] prev cur k h e = cc
  change_containers-nil ((p, u) ∷ prefixes) prev cur k h e =
      let both =
        (append_nil_iff (turn prev cur p) (change_containers clock serialize prefixes prev cur)).0
          h in
      ground (arith, eq_text_iff p k, change_containers-nil prefixes prev cur k both.1, both.0)

  quiet_containers :
      (prefixes : OrderedMap (Unit {0})) (prev cur : OrderedMap Snapshot)
      → ((k : Text) → turn prev cur k ≡ [])
      → change_containers clock serialize prefixes prev cur ≡ []
  unfolding change_containers
  quiet_containers [] prev cur h = refl
  quiet_containers ((p, u) ∷ prefixes) prev cur h =
      (append_nil_iff (turn prev cur p) (change_containers clock serialize prefixes prev cur)).1
        (h p, quiet_containers prefixes prev cur h)

  -- A container that neither snapshot has is quiet.
  absent_turn :
      (prev cur : OrderedMap Snapshot) (k : Text)
      → find k prev ≡ none
      → find k cur ≡ none
      → turn prev cur k ≡ []
  unfolding container_changes diff
  absent_turn prev cur k h e = rw (h, e) refl

  containers_iff :
      (prev cur : OrderedMap Snapshot)
      → (change_containers clock serialize (insert_keys cur (insert_keys prev [])) prev cur ≡ [])
        ↔ ((k : Text) → turn prev cur k ≡ [])
  unfolding find
  containers_iff prev cur = (
    λ h k.
        let keys = insert_keys cur (insert_keys prev []) in
        let found = find-insert_keys k cur (insert_keys prev []) in
        let found' = find-insert_keys k prev [] in
        elim (Option-cases (find k cur)) [
          | inr (g, e) ↦ change_containers-nil keys prev cur k h (ground arith)
          | inl e ↦ elim (Option-cases (find k prev)) [
            | inr (g, e') ↦ change_containers-nil keys prev cur k h (ground arith)
            | inl e' ↦ absent_turn prev cur k e' e
          ]
        ],
    λ h. quiet_containers (insert_keys cur (insert_keys prev [])) prev cur h,
  )

module _ {P : Type 0} ⦃i : DataProvider P⦄ (registry : Registry P) where
  module _ (serialize : TypedValue → Text) where
    -- The values outside of containers, and in each container.
    abbrev SameParts : Parts → Parts → Type 0
    SameParts p c =
        SameValues serialize p.non_atomic c.non_atomic
        × ((ap : Text)
            → SameValues serialize (or_empty (find ap p.groups)) (or_empty (find ap c.groups)))

    free_value :
        (o : Option Text) (a b : Option Leaf)
        → value_at serialize a ≡ value_at serialize b
        → value_at serialize (if_free o a) ≡ value_at serialize (if_free o b)
    free_value none a b h = h
    free_value (some c) a b h = refl

    group_value :
        (ap : Text) (o : Option Text) (a b : Option Leaf)
        → value_at serialize a ≡ value_at serialize b
        → value_at serialize (if_in ap o a) ≡ value_at serialize (if_in ap o b)
    group_value ap none a b h = refl
    group_value ap (some c) a b h = ground arith

    -- The part in which a path stands decides its value.
    value_by_part :
        (o : Option Text) (a b : Option Leaf)
        → value_at serialize (if_free o a) ≡ value_at serialize (if_free o b)
        → ((ap : Text) → value_at serialize (if_in ap o a) ≡ value_at serialize (if_in ap o b))
        → value_at serialize a ≡ value_at serialize b
    value_by_part none a b h g = h
    value_by_part (some c) a b h g = rw eq_text_refl at (g c)

    SameParts-partition :
        (prev cur : Snapshot)
        → SameParts (partition registry prev) (partition registry cur)
          ↔ SameValues serialize prev cur
    SameParts-partition prev cur = (
      λ h k.
          value_by_part (Registry.atomic_prefix registry k) (find k prev) (find k cur)
            (rw ((partition_lem registry prev [] k).0, (partition_lem registry cur [] k).0) at
              (h.0 k))
            (λ ap.
              rw ((partition_lem registry prev ap k).1, (partition_lem registry cur ap k).1) at
                (h.1 ap k)),
      λ h. (
        λ k.
            rw ((partition_lem registry prev [] k).0, (partition_lem registry cur [] k).0)
              (free_value (Registry.atomic_prefix registry k) (find k prev) (find k cur) (h k)),
        λ ap k.
            rw ((partition_lem registry prev ap k).1, (partition_lem registry cur ap k).1)
              (group_value ap (Registry.atomic_prefix registry k) (find k prev) (find k cur) (h k)),
      ),
    )

    -- A poll has no notification, neither for single leaves nor for a container, exactly when both
    -- snapshots hold the same serialised value, or none, at every path.
    pub change_silent_iff :
        (clock : Option Text → ℤ) (prev cur : Snapshot)
        → (build_change_notifications clock serialize prev cur registry ≡ [])
          ↔ SameValues serialize prev cur
    unfolding build_change_notifications change_notifications
    change_silent_iff clock prev cur =
        let p = partition registry prev in
        let c = partition registry cur in
        let s = AreSorted-partition registry cur in
        let rest = diff_notifications_iff clock serialize p.non_atomic c.non_atomic s.0 in
        let all = containers_iff clock serialize p.groups c.groups in
        let each = λ (ap : Text).
          container_changes_iff clock serialize ap (or_empty (find ap p.groups))
            (or_empty (find ap c.groups)) (s.1 ap) in
        let same = SameParts-partition prev cur in
        let split = append_nil_iff (diff_notifications clock serialize p.non_atomic c.non_atomic) (
          change_containers clock serialize (insert_keys c.groups (insert_keys p.groups []))
            p.groups c.groups) in
        (
          λ h. same.0 (rest.0 (split.0 h).0, λ ap. (each ap).0 (all.0 (split.0 h).1 ap)),
          λ h. split.1 (rest.1 (same.1 h).0, all.1 (λ ap. (each ap).1 ((same.1 h).1 ap))),
        )
