-- ===== src/Emit/Polls.antt =====
-- `buildChangeNotifications` as a refinement: a client in step with the previous snapshot is in step
-- with the current one.
use psc_mock_server.Prelude.{
  ◌≡◌, ◌∙◌, refl, sym, ap, not, ◌&&◌, Option, none, some, [], if◌then◌else◌, Bool-cases,
  Option-cases, inl, inr,
}
use psc_mock_server.Prelude.Texts.{Text, eq_text, eq_text_sound, eq_text_refl}
use psc_mock_server.Prelude.Int.{ℤ}
use psc_mock_server.OrderedMap.{OrderedMap, find}
use psc_mock_server.OrderedMap.Laws.{first}
use psc_mock_server.Gnmi.{TypedValue}
use psc_mock_server.Utils.Nested.{elems_of}
use psc_mock_server.DataProvider.{DataProvider, Leaf, Snapshot}
use psc_mock_server.LeafStore.Diff.{value_at, is_some, updated_at}
use psc_mock_server.Registry
use psc_mock_server.Registry.{Registry}
use psc_mock_server.Emit.{
  Parts, partition, diff_notifications, change_containers, insert_keys, build_change_notifications,
}
use psc_mock_server.Emit.Sorting.{AreSorted-partition}
use psc_mock_server.Emit.Partition.{find_in, if_free, if_in, partition_lem}
use psc_mock_server.Emit.Client.{told, told-append}
use psc_mock_server.Emit.Mirror.{value_of}
use psc_mock_server.Emit.Follow.{IsLaidOut, Within, told-diff}
use psc_mock_server.Emit.Refines.{
  serial, settled_value, IsGrouped, free_of_containers, polled_current,
}

from_free :
    (o : Option Text) (x : Option Leaf) (leaf : Leaf)
    → if_free o x ≡ some leaf
    → (o ≡ none) × (x ≡ some leaf)
from_free none x leaf h = (refl, h)
from_free (some c) x leaf h = cc

from_in :
    (c : Text) (o : Option Text) (x : Option Leaf) (leaf : Leaf)
    → if_in c o x ≡ some leaf
    → (o ≡ some c) × (x ≡ some leaf)
from_in c none x leaf h = cc
from_in c (some d) x leaf h = elim (Bool-cases (eq_text d c)) [
  | inl e ↦ (ap some (eq_text_sound d c e), rw e at h)
  | inr e ↦ cc (rw e at h)
]

module _ {P : Type 0} ⦃i : DataProvider P⦄ (registry : Registry P) (K : Text → Type 0)
    (laid : IsLaidOut K (Registry.atomic_prefix registry)) where
  -- What the parts of a snapshot hold.
  pub Within-rest :
      (snap : Snapshot) → Within K snap → Within K (partition registry snap).non_atomic
  Within-rest snap w k leaf e =
      w k leaf
        (from_free (Registry.atomic_prefix registry k) (find k snap) leaf
          (sym (partition_lem registry snap [] k).0 ∙ e)).1

  module _ (clock : Option Text → ℤ) (serialize : TypedValue → Text) where
    pub IsGrouped-partition :
        (snap : Snapshot)
        → Within K snap
        → IsGrouped serialize clock K
            (Registry.atomic_prefix registry)
            laid
            (partition registry snap).groups
    IsGrouped-partition snap w c = (
      λ k leaf e.
          let both =
            from_in c (Registry.atomic_prefix registry k) (find k snap) leaf
              (sym (partition_lem registry snap c k).1 ∙ e) in
          (w k leaf both.1, both.0),
      (AreSorted-partition registry snap).1 c,
    )

    module _ (prev cur : Snapshot) (k : Text) (v : Option TypedValue) (wp : Within K prev)
        (wc : Within K cur) (kk : K k)
        (h : serial serialize v ≡ value_at serialize (find k prev)) where
      abbrev p : Parts
      p = partition registry prev

      abbrev c : Parts
      c = partition registry cur

      abbrev keys : OrderedMap (Unit {0})
      keys = insert_keys c.groups (insert_keys p.groups [])

      after_diff :
          told (elems_of k) (diff_notifications clock serialize p.non_atomic c.non_atomic) v
          ≡ first (value_of (updated_at serialize (find k p.non_atomic) (find k c.non_atomic))) (
              if is_some (find k p.non_atomic) && not (is_some (find k c.non_atomic))
              then none
              else v)
      after_diff =
          told-diff K (Registry.atomic_prefix registry) laid clock serialize p.non_atomic
            c.non_atomic k v (Within-rest prev wp) (Within-rest cur wc)
            (AreSorted-partition registry cur).0 kk

      -- What the container polls make of a value.
      abbrev polled : Option TypedValue → Option TypedValue
      polled x = told (elems_of k) (change_containers clock serialize keys p.groups c.groups) x

      mirrors_free :
          Registry.atomic_prefix registry k ≡ none
          → serial serialize (
              polled (
                told (elems_of k) (diff_notifications clock serialize p.non_atomic c.non_atomic) v))
            ≡ value_at serialize (find k cur)
      mirrors_free e =
          let old : find k p.non_atomic ≡ find k prev =
            (partition_lem registry prev [] k).0
            ∙ ap (λ (o : Option Text). if_free o (find k prev)) e in
          let new : find k c.non_atomic ≡ find k cur =
            (partition_lem registry cur [] k).0
            ∙ ap (λ (o : Option Text). if_free o (find k cur)) e in
          ap (serial serialize) (
            free_of_containers serialize clock K (Registry.atomic_prefix registry) laid p.groups
              c.groups (IsGrouped-partition prev wp) (IsGrouped-partition cur wc) k kk keys
              (told (elems_of k) (diff_notifications clock serialize p.non_atomic c.non_atomic) v)
              e)
          ∙ ap (serial serialize) after_diff
          ∙ settled_value serialize (find k p.non_atomic) (find k c.non_atomic) v
              (h ∙ ap (value_at serialize) (sym old))
          ∙ ap (value_at serialize) new

      mirrors_inside :
          (ct : Text)
          → Registry.atomic_prefix registry k ≡ some ct
          → serial serialize (
              polled (
                told (elems_of k) (diff_notifications clock serialize p.non_atomic c.non_atomic) v))
            ≡ value_at serialize (find k cur)
      mirrors_inside ct e =
          let gone_old : find k p.non_atomic ≡ none =
            (partition_lem registry prev [] k).0
            ∙ ap (λ (o : Option Text). if_free o (find k prev)) e in
          let gone_new : find k c.non_atomic ≡ none =
            (partition_lem registry cur [] k).0
            ∙ ap (λ (o : Option Text). if_free o (find k cur)) e in
          let old : find_in ct k p ≡ find k prev =
            (partition_lem registry prev ct k).1 ∙ rw (e, eq_text_refl ct) refl in
          let new : find_in ct k c ≡ find k cur =
            (partition_lem registry cur ct k).1 ∙ rw (e, eq_text_refl ct) refl in
          let kept : told (elems_of k)
                (diff_notifications clock serialize p.non_atomic c.non_atomic) v
              ≡ v =
            after_diff ∙ rw (gone_old, gone_new) refl in
          ap (λ (x : Option TypedValue). serial serialize (polled x)) kept
          ∙ polled_current serialize clock K (Registry.atomic_prefix registry) laid p.groups
              c.groups (IsGrouped-partition prev wp) (IsGrouped-partition cur wc) k kk ct e v
              (h ∙ ap (value_at serialize) (sym old))
          ∙ ap (value_at serialize) new

    -- Where no known path lies at or under another, each has its container as the text in front of
    -- a segment, and a known path under a container has that container, the value that a client
    -- holds at a known path follows a poll: if it is, serialised, the value of the previous
    -- snapshot, or none where that has none, then after the notifications of the poll it is that
    -- of the current snapshot, in which, as in the previous one, all paths are known.
    pub change_mirrors :
        (prev cur : Snapshot) (k : Text) (v : Option TypedValue)
        → Within K prev
        → Within K cur
        → K k
        → serial serialize v ≡ value_at serialize (find k prev)
        → serial serialize
            (told (elems_of k) (build_change_notifications clock serialize prev cur registry) v)
          ≡ value_at serialize (find k cur)
    unfolding build_change_notifications
    change_mirrors prev cur k v wp wc kk h =
        let p = partition registry prev in
        let c = partition registry cur in
        ap (serial serialize) (
          told-append (elems_of k) (diff_notifications clock serialize p.non_atomic c.non_atomic)
            (change_containers clock serialize (insert_keys c.groups (insert_keys p.groups []))
              p.groups c.groups)
            v)
        ∙ elim (Option-cases (Registry.atomic_prefix registry k)) [
          | inl e ↦ mirrors_free prev cur k v wp wc kk h e
          | inr (ct, e) ↦ mirrors_inside prev cur k v wp wc kk h ct e
        ]
