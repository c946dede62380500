-- ===== src/Emit/Resends.antt =====
-- `buildFullNotifications` as a client hears it: what it has is told again, and what it lacks is
-- cleared inside a container that it has, and only there.
use psc_mock_server.Prelude.{
  ◌≡◌, ◌≢◌, ◌∙◌, refl, sym, ap, Bool, false, not, ◌||◌, Option, none, some, List, [], All, ◌∷◌,
  is_empty, if◌then◌else◌, Bool-cases, inl, inr,
}
use mathlib.Core.Path.{subst}
use psc_mock_server.Prelude.Texts.{
  Text, eq_text, eq_text_iff, eq_text_sound, eq_text_refl, lt_text, lt_text_irrefl,
}
use psc_mock_server.Prelude.Int.{ℤ}
use psc_mock_server.OrderedMap.{OrderedMap, find}
use psc_mock_server.OrderedMap.Laws.{first}
use psc_mock_server.OrderedMap.Sorted.{IsSorted, Above, find_head, find-Above}
use psc_mock_server.Gnmi.{TypedValue, Notification, PathElem}
use psc_mock_server.Utils.Nested.{elems_of}
use psc_mock_server.DataProvider.{DataProvider, Leaf, Snapshot}
use psc_mock_server.LeafStore.Diff.{is_some}
use psc_mock_server.Registry
use psc_mock_server.Registry.{Registry}
use psc_mock_server.Emit.{
  Parts, or_empty, partition, container_notification, non_atomic_notification, group_notifications,
  full_notifications, build_full_notifications,
}
use psc_mock_server.Emit.Sorting.{AreSorted-partition, groups-partition}
use psc_mock_server.Emit.Partition.{find_in, if_free, partition_lem}
use psc_mock_server.Emit.Client.{under, told, told_one, told-append}
use psc_mock_server.Emit.Mirror.{value_of}
use psc_mock_server.Emit.Follow.{IsLaidOut, Within, told-non_atomic, told-container}
use psc_mock_server.Emit.Polls.{Within-rest, IsGrouped-partition}
use psc_mock_server.Emit.Refines.{under_own, not_under, absent_elsewhere}
use psc_mock_server.Emit.Polls.{Within-rest, IsGrouped-partition}

-- The group of a container, or what the client has.
abbrev in_group : Option Snapshot → Text → Option TypedValue → Option TypedValue
in_group none k v = v
in_group (some g) k v = value_of (find k g)

All-found :
    (Q : Text → Snapshot → Type 0) (m : OrderedMap Snapshot)
    → IsSorted m
    → ((c : Text) (g : Snapshot) → find c m ≡ some g → Q c g)
    → All (λ (x : Text × Snapshot). Q x.0 x.1) m
unfolding find
All-found Q [] s h = tt
All-found Q ((p, g) ∷ m) s h = (
  h p g (find_head p g m),
  All-found Q m s.1 (λ c x e. elim (Bool-cases (eq_text p c)) [
    | inl same ↦
        let gone : find p m ≡ none = find-Above p m s.0 in
        let one : p ≡ c = eq_text_sound p c same in
        let there : find p m ≡ find c m = ap (λ (y : Text). find y m) one in cc (gone, there, e)
    | inr other ↦ h c x (rw (find, other) e)
  ]),
)

-- No key behind the head is the head.
Above-apart :
    (c : Text) (m : OrderedMap Snapshot) (o : Option Text)
    → o ≡ some c
    → Above c m
    → All (λ (x : Text × Snapshot). o ≢ some x.0) m
Above-apart c [] o e a = tt
Above-apart c ((j, g) ∷ m) o e a = (
  λ h.
      let same : c ≡ j = cc (e, h) in
      let before : lt_text c c ≡ lt_text c j = ap (λ (x : Text). lt_text c x) same in
      cc (before, a.0, lt_text_irrefl c),
  Above-apart c m o e a.1,
)

none_apart :
    (m : OrderedMap Snapshot) (o : Option Text)
    → o ≡ none
    → All (λ (x : Text × Snapshot). o ≢ some x.0) m
none_apart [] o e = tt
none_apart ((j, g) ∷ m) o e = (λ h. cc (h, e), none_apart m o e)

first-none : (o : Option TypedValue) → first o none ≡ o
first-none none = refl
first-none (some v) = refl

module _ (serialize : TypedValue → Text) (clock : Option Text → ℤ) (K : Text → Type 0)
    (container : Text → Option Text) (laid : IsLaidOut K container) where
  -- A container with leaves of its own, in order.
  abbrev IsEntry : Text → Snapshot → Type 0
  IsEntry c g = Within (λ j. K j × (container j ≡ some c)) g × IsSorted g × (is_empty g ≡ false)

  nonempty_away :
      (c : Text) (g : Snapshot) (k : Text)
      → Within (λ j. K j × (container j ≡ some c)) g
      → is_empty g ≡ false
      → K k
      → container k ≢ some c
      → under (elems_of c) (elems_of k) ≡ false
  nonempty_away c [] k w f kk ne = cc
  nonempty_away c ((j, l) ∷ g) k w f kk ne =
      not_under serialize clock K container laid k c j kk ne (w j l (find_head j l g))

  -- The notification of another container does not touch the path.
  other_group :
      (c : Text) (g : Snapshot) (k : Text) (v : Option TypedValue)
      → Within (λ j. K j × (container j ≡ some c)) g
      → IsSorted g
      → is_empty g ≡ false
      → K k
      → container k ≢ some c
      → told_one (elems_of k) (container_notification (clock (some c)) c g) v ≡ v
  other_group c g k v w s f kk ne =
      rw
        (
          told-container K container laid (clock (some c)) c g k v w s kk,
          absent_elsewhere serialize clock K container laid k c g ne w,
          nonempty_away c g k w f kk ne,
        )
        refl

  -- That of its own container says what the group holds, and takes what it does not hold.
  own_group :
      (c : Text) (g : Snapshot) (k : Text) (v : Option TypedValue)
      → Within (λ j. K j × (container j ≡ some c)) g
      → IsSorted g
      → K k
      → container k ≡ some c
      → told_one (elems_of k) (container_notification (clock (some c)) c g) v ≡ value_of (find k g)
  own_group c g k v w s kk e =
      rw
        (
          told-container K container laid (clock (some c)) c g k v w s kk,
          under_own serialize clock K container laid k c kk e,
        )
        (first-none (value_of (find k g)))

  free_groups :
      (groups : OrderedMap Snapshot) (k : Text) (v : Option TypedValue)
      → All (λ (x : Text × Snapshot). IsEntry x.0 x.1) groups
      → All (λ (x : Text × Snapshot). container k ≢ some x.0) groups
      → K k
      → told (elems_of k) (group_notifications clock groups) v ≡ v
  unfolding group_notifications
  free_groups [] k v a ne kk = refl
  free_groups ((c, g) ∷ groups) k v a ne kk =
      ap (told (elems_of k) (group_notifications clock groups))
        (other_group c g k v a.0.0 a.0.1 a.0.2 kk ne.0)
      ∙ free_groups groups k v a.1 ne.1 kk

  elsewhere : (p c k : Text) → container k ≡ some c → eq_text p c ≡ false → container k ≢ some p
  elsewhere p c k e other h = let same : p ≡ c = cc (h, e) in cc ((eq_text_iff p c).1 same, other)

  own_groups :
      (groups : OrderedMap Snapshot) (c k : Text) (v : Option TypedValue)
      → All (λ (x : Text × Snapshot). IsEntry x.0 x.1) groups
      → IsSorted groups
      → K k
      → container k ≡ some c
      → told (elems_of k) (group_notifications clock groups) v ≡ in_group (find c groups) k v
  unfolding group_notifications find
  own_groups [] c k v a s kk e = refl
  own_groups ((p, g) ∷ groups) c k v a s kk e = elim (Bool-cases (eq_text p c)) [
    | inl same ↦
        let here : container k ≡ some p = e ∙ ap some (sym (eq_text_sound p c same)) in
        ap (told (elems_of k) (group_notifications clock groups))
          (own_group p g k v a.0.0 a.0.1 kk here)
        ∙ free_groups groups k (value_of (find k g)) a.1
            (Above-apart p groups (container k) here s.0) kk
        ∙ rw (find, same) refl
    | inr other ↦
        ap (told (elems_of k) (group_notifications clock groups))
          (other_group p g k v a.0.0 a.0.1 a.0.2 kk (elsewhere p c k e other))
        ∙ own_groups groups c k v a.1 s.1 kk e
        ∙ rw (find, other) refl
  ]

-- A leaf of the container, if the snapshot has one, is told in its notification.
abbrev pub is_resent : Option Text → OrderedMap Snapshot → Bool
is_resent none groups = false
is_resent (some c) groups = is_some (find c groups)

rest_told :
    (e : List PathElem) (k : Text) (n : Notification) (v : Option TypedValue) (m : Snapshot)
    (groups : OrderedMap Snapshot)
    → told_one e n v ≡ first (value_of (find k m)) v
    → told e (if not (is_empty m) || is_empty groups then n ∷ [] else []) v
      ≡ first (value_of (find k m)) v
unfolding find
rest_told e k n v [] [] h = h
rest_told e k n v [] (x ∷ groups) h = refl
rest_told e k n v (x ∷ m) groups h = h

grouped :
    (o : Option Snapshot) (k : Text) (x : Option Leaf) (v : Option TypedValue)
    → find k (or_empty o) ≡ x
    → in_group o k v ≡ first (value_of x) (if is_some o then none else v)
unfolding find
grouped none k x v h = rw (← h) refl
grouped (some g) k x v h = ap value_of h ∙ sym (first-none (value_of x))

module _ {P : Type 0} ⦃i : DataProvider P⦄ (registry : Registry P) (K : Text → Type 0)
    (laid : IsLaidOut K (Registry.atomic_prefix registry)) (serialize : TypedValue → Text)
    (clock : Option Text → ℤ) (snap : Snapshot) (k : Text) (v : Option TypedValue)
    (w : Within K snap) (kk : K k) where
  abbrev parts : Parts
  parts = partition registry snap

  entries :
      All
        (λ (x : Text × Snapshot).
          IsEntry serialize clock K (Registry.atomic_prefix registry) laid x.0 x.1)
        parts.groups
  entries =
      All-found (IsEntry serialize clock K (Registry.atomic_prefix registry) laid) parts.groups
        (groups-partition registry snap).0
        (λ c g e.
          let held : or_empty (find c parts.groups) ≡ g = ap or_empty e in
          let (inside, order) = IsGrouped-partition registry K laid clock serialize snap w c in
          (
            subst (Within (λ j. K j × (Registry.atomic_prefix registry j ≡ some c))) held inside,
            subst IsSorted held order,
            (groups-partition registry snap).1 c g e,
          ))

  after_rest :
      told
        (elems_of k)
        (if not (is_empty parts.non_atomic) || is_empty parts.groups
          then non_atomic_notification (clock none) parts.non_atomic ∷ []
          else [])
        v
      ≡ first (value_of (find k parts.non_atomic)) v
  after_rest =
      rest_told (elems_of k) k (non_atomic_notification (clock none) parts.non_atomic) v
        parts.non_atomic parts.groups
        (told-non_atomic K (Registry.atomic_prefix registry) laid (clock none) parts.non_atomic k v
          (Within-rest registry K laid snap w) (AreSorted-partition registry snap).0 kk)

  by_groups :
      (o : Option Text)
      → Registry.atomic_prefix registry k ≡ o
      → told
          (elems_of k)
          (group_notifications clock parts.groups)
          (first (value_of (find k parts.non_atomic)) v)
        ≡ first (value_of (find k snap)) (if is_resent o parts.groups then none else v)
  by_groups none e =
      let free : find k parts.non_atomic ≡ find k snap =
        (partition_lem registry snap [] k).0
        ∙ ap (λ (o : Option Text). if_free o (find k snap)) e in
      free_groups serialize clock K (Registry.atomic_prefix registry) laid parts.groups k
        (first (value_of (find k parts.non_atomic)) v) entries
        (none_apart parts.groups (Registry.atomic_prefix registry k) e) kk
      ∙ rw free refl
  by_groups (some c) e =
      let gone : find k parts.non_atomic ≡ none =
        (partition_lem registry snap [] k).0
        ∙ ap (λ (o : Option Text). if_free o (find k snap)) e in
      let held : find_in c k parts ≡ find k snap =
        (partition_lem registry snap c k).1 ∙ rw (e, eq_text_refl c) refl in
      rw gone (
        own_groups serialize clock K (Registry.atomic_prefix registry) laid parts.groups c k v
          entries (groups-partition registry snap).0 kk e)
      ∙ grouped (find c parts.groups) k (find k snap) v held

  pub full_told :
      told (elems_of k) (build_full_notifications clock snap registry) v
      ≡ first
          (value_of (find k snap))
          (if is_resent (Registry.atomic_prefix registry k) parts.groups then none else v)
  unfolding build_full_notifications full_notifications
  full_told =
      told-append (elems_of k)
        (if not (is_empty parts.non_atomic) || is_empty parts.groups
          then non_atomic_notification (clock none) parts.non_atomic ∷ []
          else [])
        (group_notifications clock parts.groups) v
      ∙ ap (told (elems_of k) (group_notifications clock parts.groups)) after_rest
      ∙ by_groups (Registry.atomic_prefix registry k) refl
