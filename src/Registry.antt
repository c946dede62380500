-- ===== src/Registry.antt =====
-- `DataProviderRegistry` of src/backend/data_provider.hpp, over any type of providers that
-- implements the interface. The routes are pairs of a prefix and a provider, in registration order;
-- the vector that owns the providers has no other use.
pub mod Routing
pub mod Writes
use psc_mock_server.Prelude.{
  Bool, true, false, ◌||◌, Option, none, some, List, [], ◌∷◌, ◌++◌, if◌then◌else◌, ltb, length,
  is_empty,
}
use psc_mock_server.Prelude.Texts.{Text}
use psc_mock_server.OrderedMap.{merge}
use psc_mock_server.Gnmi.{Update, SubscriptionMode, sample}
use psc_mock_server.Utils.{is_path_prefix, strip_path_quotes}
use psc_mock_server.DataProvider.{DataProvider, Snapshot, WriteOp, WriteBatch, add}

pub record FillResult : Type 0 where
  pub routed : Bool
  pub produced : Bool

pub record SnapResult : Type 0 where
  pub snap : Snapshot
  pub routed : Bool

pub record WriteResult : Type 0 where
  pub routed : Bool
  pub applied : Bool

abbrev pub Registry : Type 0 → Type 0
Registry P = List (Text × P)

unfoldable pub matches : Text → Text → Bool
matches xpath prefix = is_path_prefix prefix (strip_path_quotes xpath)

-- The inner loop of `commit`: the operations that a prefix owns.
unfoldable pub slice_for : Text → WriteBatch → WriteBatch → WriteBatch
unfolding add
slice_for prefix [] slice = slice
slice_for prefix (op ∷ ops) slice =
    slice_for prefix ops (if matches op.xpath prefix then add slice op else slice)

module _ {P : Type 0} where
  unfoldable pub add_provider : Registry P → Text → P → Registry P
  add_provider routes prefix provider = routes ++ (prefix, provider) ∷ []

module _ {P : Type 0} ⦃i : DataProvider P⦄ where
  open i use {fill as fill_one, snapshot as snapshot_one, writable as writable_one}

  -- The loop of `fill`: `routed`, and the list.
  unfoldable pub fill_routes : Registry P → Text → Bool → List Update → Bool × List Update
  fill_routes [] xpath routed list = (routed, list)
  fill_routes ((prefix, provider) ∷ routes) xpath routed list =
      fill_routes routes xpath (if matches xpath prefix then true else routed)
        (if matches xpath prefix then fill_one provider list xpath else list)

  unfoldable pub fill : Registry P → List Update → Text → List Update × FillResult
  unfolding fill_routes
  fill registry list xpath =
      let (routed, after) = fill_routes registry xpath false list in
      (after, record { routed = routed; produced = ltb (length list) (length after) })

  unfoldable pub snapshot_routes : Registry P → Text → SnapResult → SnapResult
  snapshot_routes [] xpath res = res
  snapshot_routes ((prefix, provider) ∷ routes) xpath res = snapshot_routes routes xpath (
      if matches xpath prefix
      then record { snap = merge res.snap (snapshot_one provider xpath); routed = true }
      else res)

  unfoldable pub snapshot : Registry P → Text → SnapResult
  unfolding snapshot_routes
  snapshot registry xpath = snapshot_routes registry xpath (record { snap = []; routed = false })

  unfoldable pub preferred_mode : Registry P → Text → SubscriptionMode
  preferred_mode [] xpath = sample
  preferred_mode ((prefix, provider) ∷ routes) xpath =
      let rest = preferred_mode routes xpath in
      if matches xpath prefix then i.preferred_mode provider xpath else rest

  unfoldable pub atomic_prefix : Registry P → Text → Option Text
  atomic_prefix [] xpath = none
  atomic_prefix ((prefix, provider) ∷ routes) xpath =
      let rest = atomic_prefix routes xpath in
      if matches xpath prefix
      then elim (i.atomic_prefix provider xpath) [ some ap ↦ some ap | none ↦ rest ]
      else rest

  unfoldable pub writable_routes : Registry P → Text → WriteResult → WriteResult
  writable_routes [] xpath res = res
  writable_routes ((prefix, provider) ∷ routes) xpath res = writable_routes routes xpath (
      if matches xpath prefix
      then record {
        routed = true;
        applied = if writable_one provider xpath then true else res.applied;
      }
      else res)

  unfoldable pub writable : Registry P → Text → WriteResult
  unfolding writable_routes
  writable registry xpath =
      writable_routes registry xpath (record { routed = false; applied = false })

  -- The loop of `commit` changes the providers in place.
  unfoldable pub commit_routes : Registry P → WriteBatch → WriteResult → Registry P × WriteResult
  unfolding slice_for
  commit_routes [] batch res = ([], res)
  commit_routes ((prefix, provider) ∷ routes) batch res =
      let slice = slice_for prefix batch [] in
      let (provider', accepted) =
        if is_empty slice then (provider, false) else i.apply_batch provider slice in
      let res' : WriteResult =
        if is_empty slice
        then res
        else record { routed = true; applied = if accepted then true else res.applied } in
      let (routes', res'') = commit_routes routes batch res' in
      ((prefix, provider') ∷ routes', res'')

  unfoldable pub commit : Registry P → WriteBatch → Registry P × WriteResult
  unfolding commit_routes
  commit registry batch = commit_routes registry batch (record { routed = false; applied = false })
