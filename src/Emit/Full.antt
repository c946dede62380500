-- ===== src/Emit/Full.antt =====
-- `buildFullNotifications` delivers every leaf, under its own path.
use psc_mock_server.Prelude.{
  ℕ, ◌≡◌, ◌∙◌, refl, sym, Option, none, some, List, [], ◌∷◌, ◌++◌, true, false, length, drop,
  Member, Member-append, here, there, append_assoc, append-nil, drop-append, inl, inr, Option-cases,
  Bool-cases, is_empty, not, ◌||◌, if◌then◌else◌,
}
use mathlib.Core.Path.{subst}
use psc_mock_server.Prelude.Int.{ℤ, pos, max_ℤ}
use psc_mock_server.Prelude.Texts.{Text, eq_text, eq_text_iff, eq_text_refl}
use psc_mock_server.OrderedMap.{OrderedMap, find}
use psc_mock_server.Gnmi.{TypedValue, Notification, Update, GnmiPath, PathElem}
use psc_mock_server.Utils.Nested.{elems_of, opens_segment, elems_of-append}
use psc_mock_server.DataProvider.{DataProvider, Leaf, Snapshot, leaf_update}
use psc_mock_server.Registry
use psc_mock_server.Registry.{Registry}
use psc_mock_server.Emit.{
  Parts, append_leaf, emit_snapshot_from, emit_relative, partition, non_atomic_notification,
  container_notification, group_notifications, full_notifications, build_full_notifications,
}
use psc_mock_server.Emit.Partition.{find_in, partition_lem}

-- The elements of a path that may be unset.
abbrev pub elems_or_none : Option GnmiPath → List PathElem
elems_or_none none = []
elems_or_none (some path) = path.elem

-- What an update of a notification says to a client: its prefix with the path behind it, and the
-- value.
pub record Says (notes : List Notification) (elems : List PathElem) (val : TypedValue)
    : Type 0 where
  pub note : Notification
  pub upd : Update
  pub note_in : Member note notes
  pub upd_in : Member upd note.update
  pub named : elems_or_none note.prefix ++ elems_or_none upd.path ≡ elems
  pub valued : upd.val ≡ some val

-- The updates of a snapshot, each path without its first bytes.
abbrev pub updates_of : ℕ → Snapshot → List Update
updates_of size [] = []
updates_of size ((path, leaf) ∷ snap) = leaf_update (drop size path) leaf.val ∷ updates_of size snap

Member-head {ℓ} : {A : Type ℓ} {a b : A} (xs : List A) → a ≡ b → Member a (b ∷ xs)
Member-head {a = a} xs e = subst (λ x. Member a (x ∷ xs)) e here

Member-updates_of :
    (size : ℕ) (k : Text) (leaf : Leaf) (snap : Snapshot)
    → find k snap ≡ some leaf
    → Member (leaf_update (drop size k) leaf.val) (updates_of size snap)
unfolding find
Member-updates_of size k leaf [] h = cc
Member-updates_of size k leaf ((path, l) ∷ snap) h = elim (Bool-cases (eq_text path k)) [
  | inl e ↦
      let same = (eq_text_iff path k).0 e in
      let value : l ≡ leaf = cc (rw (find, e) at h) in
      Member-head (updates_of size snap) (cc (same, value))
  | inr e ↦ there (Member-updates_of size k leaf snap (rw (find, e) at h))
]

pub emit_relative_lem :
    (size : ℕ) (snap : Snapshot) (list : List Update) (ts : ℤ)
    → (emit_relative size snap list ts).0 ≡ list ++ updates_of size snap
unfolding emit_relative
emit_relative_lem size [] list ts = sym (append-nil list)
emit_relative_lem size ((path, leaf) ∷ snap) list ts =
    emit_relative_lem size snap (append_leaf list (drop size path) leaf.val)
      (max_ℤ ts leaf.collected_ns)
    ∙ append_assoc list (leaf_update (drop size path) leaf.val ∷ []) (updates_of size snap)

pub emit_snapshot_from_lem :
    (snap : Snapshot) (list : List Update) (ts : ℤ)
    → (emit_snapshot_from snap list ts).0 ≡ list ++ updates_of 0 snap
unfolding emit_snapshot_from
emit_snapshot_from_lem [] list ts = sym (append-nil list)
emit_snapshot_from_lem ((path, leaf) ∷ snap) list ts =
    emit_snapshot_from_lem snap (append_leaf list path leaf.val) (max_ℤ ts leaf.collected_ns)
    ∙ append_assoc list (leaf_update path leaf.val ∷ []) (updates_of 0 snap)

found_nonempty :
    (snap : Snapshot) (k : Text) (leaf : Leaf) → find k snap ≡ some leaf → is_empty snap ≡ false
unfolding find
found_nonempty [] k leaf h = cc
found_nonempty (entry ∷ snap) k leaf h = refl

module _ (clock : Option Text → ℤ) where
  Member-group_notifications :
      (c : Text) (group : Snapshot) (groups : OrderedMap Snapshot)
      → find c groups ≡ some group
      → Member (container_notification (clock (some c)) c group) (group_notifications clock groups)
  unfolding find group_notifications
  Member-group_notifications c group [] h = cc
  Member-group_notifications c group ((p, g) ∷ groups) h = elim (Bool-cases (eq_text p c)) [
    | inl e ↦
        let same = (eq_text_iff p c).0 e in
        let value : g ≡ group = cc (rw (find, e) at h) in
        Member-head (group_notifications clock groups) (cc (same, value))
    | inr e ↦ there (Member-group_notifications c group groups (rw (find, e) at h))
  ]

  -- A leaf outside of containers.
  Says-rest :
      (parts : Parts) (k : Text) (leaf : Leaf)
      → find k parts.non_atomic ≡ some leaf
      → Says (full_notifications clock parts) (elems_of k) leaf.val
  unfolding full_notifications
  Says-rest parts k leaf h = record {
    note = non_atomic_notification (clock none) parts.non_atomic;
    upd = leaf_update k leaf.val;
    note_in = rw (found_nonempty parts.non_atomic k leaf h) here;
    upd_in =
        rw (emit_snapshot_from_lem parts.non_atomic [] (pos 0))
          (Member-updates_of 0 k leaf parts.non_atomic h);
    named = refl;
    valued = refl;
  }

  -- A leaf of a container, whose path is the container's with a rest.
  Says-group :
      (parts : Parts) (c rest : Text) (leaf : Leaf)
      → opens_segment rest ≡ true
      → find_in c (c ++ rest) parts ≡ some leaf
      → Says (full_notifications clock parts) (elems_of (c ++ rest)) leaf.val
  unfolding full_notifications find
  Says-group parts c rest leaf o h = elim (Option-cases (find c parts.groups)) [
    | inl e ↦ cc (rw e at h)
    | inr (group, e) ↦ record {
      note = container_notification (clock (some c)) c group;
      upd = leaf_update rest leaf.val;
      note_in =
          Member-append
            (if not (is_empty parts.non_atomic) || is_empty parts.groups
              then non_atomic_notification (clock none) parts.non_atomic ∷ []
              else [])
            (group_notifications clock parts.groups)
            (Member-group_notifications c group parts.groups e);
      upd_in =
          rw (emit_relative_lem (length c) group [] (pos 0), ← drop-append c rest)
            (Member-updates_of (length c) (c ++ rest) leaf group (rw e at h));
      named = sym (elems_of-append c rest o);
      valued = refl;
    }
  ]

-- The path has no container, or is its container with a rest that opens a segment.
abbrev pub Located : Option Text → Text → Type 0
Located none k = Unit
Located (some c) k = (rest : Text) × (k ≡ c ++ rest) × (opens_segment rest ≡ true)

module _ {P : Type 0} ⦃i : DataProvider P⦄ (clock : Option Text → ℤ) (registry : Registry P) where
  Says-at :
      (o : Option Text) (snap : Snapshot) (k : Text) (leaf : Leaf)
      → Registry.atomic_prefix registry k ≡ o
      → Located o k
      → find k snap ≡ some leaf
      → Says (build_full_notifications clock snap registry) (elems_of k) leaf.val
  unfolding build_full_notifications
  Says-at none snap k leaf e l h =
      Says-rest clock (partition registry snap) k leaf
        (rw ((partition_lem registry snap [] k).0, e) h)
  Says-at (some c) snap k leaf e (rest, cut, o) h =
      let at_rest : Registry.atomic_prefix registry (c ++ rest) ≡ some c = rw (← cut) e in
      rw cut (
        Says-group clock (partition registry snap) c rest leaf o (
          rw ((partition_lem registry snap c (c ++ rest)).1, at_rest, eq_text_refl c)
            (rw (← cut) h)))

  -- Each leaf of a snapshot is said by some update of the notifications, with its value and with
  -- the elements of its path, if a container that the registry names for the path ends at a
  -- segment of it.
  pub full_covers :
      (snap : Snapshot) (k : Text) (leaf : Leaf)
      → Located (Registry.atomic_prefix registry k) k
      → find k snap ≡ some leaf
      → Says (build_full_notifications clock snap registry) (elems_of k) leaf.val
  full_covers snap k leaf l h = Says-at (Registry.atomic_prefix registry k) snap k leaf refl l h
