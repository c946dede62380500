-- ===== src/Emit/Follow.antt =====
-- One notification after another, as a client hears them at one path.
use psc_mock_server.Prelude.{
  ◌≡◌, ◌∙◌, inl, inr, refl, sym, Bool, true, false, not, ◌&&◌, ◌||◌, Option, none, some, List, [],
  ◌∷◌, ◌++◌, All, length, drop, drop-append, is_empty, arith, if◌then◌else◌, Option-cases,
  append-nil, append_assoc,
}
use mathlib.Core.Path.{subst}
use psc_mock_server.Prelude.Texts.{Text, eq_text_refl}
use psc_mock_server.Prelude.Int.{ℤ, pos}
use psc_mock_server.OrderedMap.{OrderedMap, find}
use psc_mock_server.OrderedMap.Laws.{first}
use psc_mock_server.OrderedMap.Sorted.{IsSorted}
use psc_mock_server.Gnmi.{
  TypedValue, Notification, new_notification, GnmiPath, PathElem, empty_path,
}
use psc_mock_server.Utils.{xpath_to_gnmi_path}
use psc_mock_server.Utils.Nested.{elems_of, elems_of-append}
use psc_mock_server.DataProvider.{Leaf, Snapshot}
use psc_mock_server.LeafStore.{diff}
use psc_mock_server.LeafStore.Diff.{contains, is_some, updated_at, find-diff, IsSorted-updated_in}
use psc_mock_server.Emit.{
  emit_removed, non_atomic_notification, container_notification, gone_notification,
  diff_notifications, emit_diff, time_or,
}
use psc_mock_server.Emit.Full.{Located, emit_relative_lem, emit_snapshot_from_lem}
use psc_mock_server.Emit.Client.{under, told_one, told}
use psc_mock_server.Emit.Mirror.{value_of, paths_of, All-keys, AreApart, said_lem, deleted_lem}

emit_removed_lem :
    (removed : List Text) (list : List GnmiPath)
    → emit_removed removed list ≡ list ++ paths_of removed
unfolding emit_removed
emit_removed_lem [] list = sym (append-nil list)
emit_removed_lem (path ∷ removed) list =
    emit_removed_lem removed (list ++ xpath_to_gnmi_path path empty_path ∷ [])
    ∙ append_assoc list (xpath_to_gnmi_path path empty_path ∷ []) (paths_of removed)

All-contained :
    (Q : Text → Type 0) (ks : List Text) → ((k : Text) → contains k ks ≡ true → Q k) → All Q ks
All-contained Q [] h = tt
All-contained Q (k ∷ ks) h =
    (h k (ground (arith, eq_text_refl k)), All-contained Q ks (λ j e. h j (ground arith)))

only_under : (b : Bool) → ((true && b) || false) ≡ b
only_under true = refl
only_under false = refl

twice_under : (b : Bool) → ((true && b) || (b || false)) ≡ b
twice_under true = refl
twice_under false = refl

-- A notification that is left out if there is nothing to tell.
if_told :
    (e : List PathElem) (k : Text) (n : Notification) (v : Option TypedValue)
    (updated : List (Text × Leaf)) (removed : List Text)
    → told_one e n v ≡ first (value_of (find k updated)) (if contains k removed then none else v)
    → told e (if not (is_empty updated) || not (is_empty removed) then n ∷ [] else []) v
      ≡ first (value_of (find k updated)) (if contains k removed then none else v)
unfolding find
if_told e k n v [] [] h = refl
if_told e k n v (x ∷ updated) removed h = h
if_told e k n v [] (x ∷ removed) h = h

-- The paths that a server may hold: none at or under another, each with its container as the text
-- in front of a segment, and the subtree of a container with that container only.
pub record IsLaidOut (K : Text → Type 0) (container : Text → Option Text) : Type 0 where
  pub apart : AreApart K
  pub located : (k : Text) → K k → Located (container k) k
  pub closed :
      (j k c : Text)
      → K j
      → K k
      → container j ≡ some c
      → under (elems_of c) (elems_of k) ≡ true
      → container k ≡ some c

-- Every path of the snapshot satisfies a predicate.
abbrev pub Within : (Text → Type 0) → Snapshot → Type 0
Within Q snap = (k : Text) (leaf : Leaf) → find k snap ≡ some leaf → Q k

module _ (K : Text → Type 0) (container : Text → Option Text) (laid : IsLaidOut K container) where
  named_plain :
      (m : OrderedMap Leaf)
      → All (λ (x : Text × Leaf). [] ++ elems_of (drop 0 x.0) ≡ elems_of x.0) m
  named_plain [] = tt
  named_plain ((p, l) ∷ m) = (refl, named_plain m)

  pub told-non_atomic :
      (now : ℤ) (m : Snapshot) (k : Text) (v : Option TypedValue)
      → Within K m
      → IsSorted m
      → K k
      → told_one (elems_of k) (non_atomic_notification now m) v ≡ first (value_of (find k m)) v
  unfolding non_atomic_notification
  told-non_atomic now m k v w s kk =
      rw
        (
          emit_snapshot_from_lem m [] (pos 0),
          said_lem K laid.apart [] 0 m k (All-keys K m w) (named_plain m) s kk,
        )
        refl

  named_inside :
      (c j : Text)
      → K j
      → container j ≡ some c
      → elems_of c ++ elems_of (drop (length c) j) ≡ elems_of j
  named_inside c j kj e =
      let (rest, cut, opens) = subst (λ o. Located o j) e (laid.located j kj) in
      rw (cut, drop-append c rest) (sym (elems_of-append c rest opens))

  pub told-container :
      (now : ℤ) (c : Text) (g : Snapshot) (k : Text) (v : Option TypedValue)
      → Within (λ j. K j × (container j ≡ some c)) g
      → IsSorted g
      → K k
      → told_one (elems_of k) (container_notification now c g) v
        ≡ first (value_of (find k g)) (if under (elems_of c) (elems_of k) then none else v)
  unfolding container_notification
  told-container now c g k v w s kk =
      rw
        (
          emit_relative_lem (length c) g [] (pos 0),
          said_lem K laid.apart (elems_of c) (length c) g k
              (All-keys K g (λ j leaf e. (w j leaf e).0))
              (All-keys (λ j. elems_of c ++ elems_of (drop (length c) j) ≡ elems_of j) g
                (λ j leaf e. named_inside c j (w j leaf e).0 (w j leaf e).1))
              s kk,
          only_under (under (elems_of c) (elems_of k)),
        )
        refl

  pub told-gone :
      (now : ℤ) (c : Text) (k : Text) (v : Option TypedValue)
      → told_one (elems_of k) (gone_notification now c) v
        ≡ (if under (elems_of c) (elems_of k) then none else v)
  unfolding gone_notification
  told-gone now c k v = rw (append-nil, twice_under (under (elems_of c) (elems_of k))) refl

  module _ (clock : Option Text → ℤ) (serialize : TypedValue → Text) where
    -- The notification of a difference.
    abbrev change_notification : Snapshot → Snapshot → Notification
    change_notification prev cur =
        let (n, ts) = emit_diff (diff serialize prev cur) new_notification in
        record n { timestamp = time_or ts (clock none); atomic = false }

    from_updated :
        (prev cur : Snapshot) (j : Text) (leaf : Leaf)
        → Within K cur
        → updated_at serialize (find j prev) (find j cur) ≡ some leaf
        → K j
    from_updated prev cur j leaf w e = elim (Option-cases (find j cur)) [
      | inl n ↦ cc (rw n at e)
      | inr (l, h) ↦ w j l h
    ]

    from_removed :
        (prev cur : Snapshot) (j : Text)
        → Within K prev
        → (is_some (find j prev) && not (is_some (find j cur))) ≡ true
        → K j
    from_removed prev cur j w e = elim (Option-cases (find j prev)) [
      | inl n ↦ cc (rw n at e)
      | inr (l, h) ↦ w j l h
    ]

    pub told-diff :
        (prev cur : Snapshot) (k : Text) (v : Option TypedValue)
        → Within K prev
        → Within K cur
        → IsSorted cur
        → K k
        → told (elems_of k) (diff_notifications clock serialize prev cur) v
          ≡ first
              (value_of (updated_at serialize (find k prev) (find k cur)))
              (if is_some (find k prev) && not (is_some (find k cur)) then none else v)
    unfolding diff_notifications
    told-diff prev cur k v wp wc s kk =
        let d = diff serialize prev cur in
        let exact = λ (j : Text). find-diff serialize prev cur j s in
        let updates : Within K d.updated =
          λ j leaf e. from_updated prev cur j leaf wc (sym (exact j).0 ∙ e) in
        let removals : All K d.removed =
          All-contained K d.removed (λ j e. from_removed prev cur j wp (sym (exact j).1 ∙ e)) in
        let heard : told_one (elems_of k) (change_notification prev cur) v
            ≡ first (value_of (find k d.updated)) (if contains k d.removed then none else v) =
          rw
            (
              emit_snapshot_from_lem d.updated [] (pos 0),
              said_lem K laid.apart [] 0 d.updated k (All-keys K d.updated updates)
                  (named_plain d.updated) (unfold diff in IsSorted-updated_in serialize prev cur s)
                  kk,
              emit_removed_lem d.removed [],
              deleted_lem K laid.apart d.removed k removals kk,
            )
            refl in
        rw (← (exact k).0, ← (exact k).1)
          (if_told (elems_of k) k (change_notification prev cur) v d.updated d.removed heard)
