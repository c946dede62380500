-- ===== src/Emit.antt =====
-- src/gnmi/subscribe_emit.h and subscribe_emit.cpp: snapshots and differences as Notifications.
-- `clock` is what `get_time_nanosec` returns for the notification of a container, or for the
-- non-atomic one at `none`: each notification reads the time at most once.
pub mod Partition
pub mod Heartbeat
pub mod Sorting
pub mod Changes
pub mod Full
pub mod Client
pub mod Mirror
pub mod Follow
pub mod Refines
pub mod Polls
pub mod Resends
use psc_mock_server.Prelude.{
  ℕ, zero, suc, ◌+◌, Bool, true, false, not, ◌&&◌, ◌||◌, Option, none, some, List, [], ◌∷◌, ◌++◌,
  if◌then◌else◌, ◌==◌, ltb, leb, length, drop, is_empty, ◌-◌, ◌^◌,
}
use psc_mock_server.Prelude.Texts.{Text}
use psc_mock_server.Prelude.Int.{ℤ, pos, negsuc, max_ℤ, leb_ℤ, pos_part, neg_part}
use psc_mock_server.OrderedMap.{OrderedMap, find, assign, emplace}
use psc_mock_server.Gnmi.{
  TypedValue, Update, Notification, new_notification, GnmiPath, empty_path, SubscriptionMode,
  target_defined, on_change, sample, unknown_mode,
}
use psc_mock_server.Gnmi.Requests.{Subscription}
use psc_mock_server.Utils.{xpath_to_gnmi_path, gnmi_to_xpath}
use psc_mock_server.DataProvider.{DataProvider, Leaf, Snapshot, leaf_update}
use psc_mock_server.LeafStore.{Difference, diff}
use psc_mock_server.Registry
use psc_mock_server.Registry.{Registry}

-- An unset field of a map is the empty value: `groups[*ap]`, and the empty snapshot of a lookup.
abbrev pub or_empty : Option Snapshot → Snapshot
or_empty none = []
or_empty (some snap) = snap

unfoldable pub append_leaf : List Update → Text → TypedValue → List Update
unfolding leaf_update
append_leaf list path val = list ++ leaf_update path val ∷ []

-- The list of updates and the newest time, carried through the loop of `emitSnapshot`.
unfoldable pub emit_snapshot_from : Snapshot → List Update → ℤ → List Update × ℤ
unfolding append_leaf
emit_snapshot_from [] list ts = (list, ts)
emit_snapshot_from ((path, leaf) ∷ snap) list ts =
    emit_snapshot_from snap (append_leaf list path leaf.val) (max_ℤ ts leaf.collected_ns)

unfoldable pub emit_snapshot : Snapshot → List Update → List Update × ℤ
unfolding emit_snapshot_from
emit_snapshot snap list = emit_snapshot_from snap list (pos 0)

-- The loop over the removed paths.
unfoldable pub emit_removed : List Text → List GnmiPath → List GnmiPath
emit_removed [] list = list
emit_removed (path ∷ removed) list =
    emit_removed removed (list ++ xpath_to_gnmi_path path empty_path ∷ [])

unfoldable pub emit_diff : Difference → Notification → Notification × ℤ
unfolding emit_snapshot_from emit_removed
emit_diff d n =
    let (update, ts) = emit_snapshot_from d.updated n.update (pos 0) in
    (record n { update = update; delete = emit_removed d.removed n.delete }, ts)

-- The loop of `emitAtomic`: `path.substr(atomicPrefix.size())` of each path.
unfoldable pub emit_relative : ℕ → Snapshot → List Update → ℤ → List Update × ℤ
unfolding append_leaf
emit_relative size [] list ts = (list, ts)
emit_relative size ((path, leaf) ∷ snap) list ts =
    emit_relative size snap (append_leaf list (drop size path) leaf.val)
      (max_ℤ ts leaf.collected_ns)

unfoldable pub emit_atomic : Snapshot → Text → Notification → Notification × ℤ
unfolding emit_relative
emit_atomic snap atomic_prefix n =
    let (update, ts) = emit_relative (length atomic_prefix) snap n.update (pos 0) in
    (
      record n {
        prefix = some (xpath_to_gnmi_path atomic_prefix empty_path);
        atomic = true;
        update = update;
      },
      ts,
    )

-- `ts ? ts : get_time_nanosec()`
unfoldable pub time_or : ℤ → ℤ → ℤ
time_or (pos zero) now = now
time_or (pos (suc n)) now = pos (suc n)
time_or (negsuc n) now = negsuc n

-- The two maps that `partition` fills.
pub record Parts : Type 0 where
  pub non_atomic : Snapshot
  pub groups : OrderedMap Snapshot

unfoldable pub put_leaf : Option Text → Text → Leaf → Parts → Parts
put_leaf none path leaf parts = record parts { non_atomic = emplace path leaf parts.non_atomic }
put_leaf (some ap) path leaf parts = record parts {
  groups = assign ap (emplace path leaf (or_empty (find ap parts.groups))) parts.groups;
}

module _ {P : Type 0} ⦃i : DataProvider P⦄ (registry : Registry P) where
  unfoldable pub partition_from : Snapshot → Parts → Parts
  unfolding put_leaf
  partition_from [] parts = parts
  partition_from ((path, leaf) ∷ snap) parts =
      partition_from snap (put_leaf (Registry.atomic_prefix registry path) path leaf parts)

  unfoldable pub partition : Snapshot → Parts
  unfolding partition_from
  partition snap = partition_from snap (record { non_atomic = []; groups = [] })

  unfoldable pub resolve_stream_mode : Subscription → SubscriptionMode
  resolve_stream_mode sub = elim (sub.mode) [
    | target_defined ↦ Registry.preferred_mode registry (gnmi_to_xpath sub.path)
    | on_change ↦ on_change
    | sample ↦ sample
    | unknown_mode n ↦ unknown_mode n
  ]

-- The notification for the leaves outside of containers.
unfoldable pub non_atomic_notification : ℤ → Snapshot → Notification
unfolding emit_snapshot time_or
non_atomic_notification now snap =
    let (update, ts) = emit_snapshot snap [] in
    record new_notification { update = update; timestamp = time_or ts now; atomic = false }

-- The notification with the complete state of a container.
unfoldable pub container_notification : ℤ → Text → Snapshot → Notification
unfolding emit_atomic time_or
container_notification now prefix group =
    let (n, ts) = emit_atomic group prefix new_notification in
    record n { timestamp = time_or ts now }

-- The notification for a container that is gone: an empty path is deleted under its prefix.
unfoldable pub gone_notification : ℤ → Text → Notification
gone_notification now prefix = record new_notification {
  prefix = some (xpath_to_gnmi_path prefix empty_path);
  atomic = true;
  delete = empty_path ∷ [];
  timestamp = now;
}

unfoldable pub group_notifications : (Option Text → ℤ) → OrderedMap Snapshot → List Notification
unfolding container_notification
group_notifications clock [] = []
group_notifications clock ((prefix, group) ∷ groups) =
    container_notification (clock (some prefix)) prefix group ∷ group_notifications clock groups

-- The keys that the loops over `gPrev` and `gCur` insert into the set.
unfoldable pub insert_keys : OrderedMap Snapshot → OrderedMap (Unit {0}) → OrderedMap (Unit {0})
insert_keys [] prefixes = prefixes
insert_keys ((p, group) ∷ groups) prefixes = insert_keys groups (assign p tt prefixes)

module _ (clock : Option Text → ℤ) where
  -- `buildFullNotifications`, on the parts of the snapshot
  unfoldable pub full_notifications : Parts → List Notification
  unfolding non_atomic_notification group_notifications
  full_notifications parts =
      (if not (is_empty parts.non_atomic) || is_empty parts.groups
        then non_atomic_notification (clock none) parts.non_atomic ∷ []
        else [])
      ++ group_notifications clock parts.groups

  module _ (serialize : TypedValue → Text) where
    -- The notification for the changes outside of containers, if there are any.
    unfoldable pub diff_notifications : Snapshot → Snapshot → List Notification
    unfolding diff emit_diff time_or
    diff_notifications prev cur =
        let d = diff serialize prev cur in
        let (n, ts) = emit_diff d new_notification in
        if not (is_empty d.updated) || not (is_empty d.removed)
        then record n { timestamp = time_or ts (clock none); atomic = false } ∷ []
        else []

    -- One turn of the loop over the containers.
    unfoldable pub container_changes : Text → Snapshot → Snapshot → List Notification
    unfolding diff gone_notification container_notification
    container_changes prefix pg cg =
        let gd = diff serialize pg cg in
        if is_empty gd.updated && is_empty gd.removed
        then []
        else if is_empty cg
        then gone_notification (clock (some prefix)) prefix ∷ []
        else container_notification (clock (some prefix)) prefix cg ∷ []

    unfoldable pub change_containers :
        OrderedMap (Unit {0}) → OrderedMap Snapshot → OrderedMap Snapshot → List Notification
    unfolding container_changes
    change_containers [] prev cur = []
    change_containers ((prefix, u) ∷ prefixes) prev cur =
        container_changes prefix (or_empty (find prefix prev)) (or_empty (find prefix cur))
        ++ change_containers prefixes prev cur

    -- `buildChangeNotifications`, on the parts of both snapshots
    unfoldable pub change_notifications : Parts → Parts → List Notification
    unfolding diff_notifications change_containers insert_keys
    change_notifications p c =
        diff_notifications p.non_atomic c.non_atomic
        ++ change_containers (insert_keys c.groups (insert_keys p.groups [])) p.groups c.groups

module _ {P : Type 0} ⦃i : DataProvider P⦄ where
  unfoldable pub build_full_notifications :
      (Option Text → ℤ) → Snapshot → Registry P → List Notification
  unfolding full_notifications partition
  build_full_notifications clock snap registry = full_notifications clock (partition registry snap)

  unfoldable pub build_change_notifications :
      (Option Text → ℤ) → (TypedValue → Text) → Snapshot → Snapshot → Registry P → List Notification
  unfolding change_notifications partition
  build_change_notifications clock serialize prev cur registry =
      change_notifications clock serialize (partition registry prev) (partition registry cur)
