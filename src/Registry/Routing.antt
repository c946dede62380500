-- ===== src/Registry/Routing.antt =====
-- The read side of the registry: which providers a path reaches, and what their answers make.
use psc_mock_server.Prelude.{
  ◌≡◌, Bool, true, false, ◌||◌, Option, none, [], ◌∷◌, arith, if◌then◌else◌,
}
use psc_mock_server.Prelude.Texts.{Text}
use psc_mock_server.OrderedMap.{find, merge}
use psc_mock_server.OrderedMap.Laws.{first, find-merge}
use psc_mock_server.OrderedMap.Sorted.{IsSorted, IsSorted-merge}
use psc_mock_server.DataProvider.{DataProvider, Leaf}
use psc_mock_server.Registry.{
  Registry, SnapResult, matches, snapshot_routes, snapshot, writable_routes, writable, WriteResult,
}

module _ {P : Type 0} where
  -- Some registered prefix owns the path.
  abbrev pub is_routed : Registry P → Text → Bool
  is_routed [] xpath = false
  is_routed ((prefix, provider) ∷ routes) xpath = matches xpath prefix || is_routed routes xpath

module _ {P : Type 0} ⦃i : DataProvider P⦄ where
  -- The leaf at `k` of the first matching provider whose snapshot has one.
  abbrev pub first_leaf : Registry P → Text → Text → Option Leaf
  first_leaf [] xpath k = none
  first_leaf ((prefix, provider) ∷ routes) xpath k =
      let rest = first_leaf routes xpath k in
      if matches xpath prefix then first (find k (i.snapshot provider xpath)) rest else rest

  find-snapshot_routes :
      (routes : Registry P) (xpath k : Text) (res : SnapResult)
      → find k (snapshot_routes routes xpath res).snap
        ≡ first (find k res.snap) (first_leaf routes xpath k)
  unfolding snapshot_routes
  find-snapshot_routes [] xpath k res = ground arith
  find-snapshot_routes ((prefix, provider) ∷ routes) xpath k res = ground (
    arith,
    find-merge k res.snap (i.snapshot provider xpath),
    find-snapshot_routes routes xpath k res,
    find-snapshot_routes routes xpath k
        (record { snap = merge res.snap (i.snapshot provider xpath); routed = true }),
  )

  routed-snapshot_routes :
      (routes : Registry P) (xpath : Text) (res : SnapResult)
      → (snapshot_routes routes xpath res).routed ≡ (res.routed || is_routed routes xpath)
  unfolding snapshot_routes
  routed-snapshot_routes [] xpath res = ground arith
  routed-snapshot_routes ((prefix, provider) ∷ routes) xpath res = ground (
    arith,
    routed-snapshot_routes routes xpath res,
    routed-snapshot_routes routes xpath
        (record { snap = merge res.snap (i.snapshot provider xpath); routed = true }),
  )

  -- The registry's snapshot is routed exactly when a registered prefix owns the path, and holds at
  -- each key the leaf of the first matching provider that has one there.
  pub snapshot_lem :
      (registry : Registry P) (xpath k : Text)
      → ((snapshot registry xpath).routed ≡ is_routed registry xpath)
        × (find k (snapshot registry xpath).snap ≡ first_leaf registry xpath k)
  unfolding snapshot find
  snapshot_lem registry xpath k = (
    routed-snapshot_routes registry xpath (record { snap = []; routed = false }),
    find-snapshot_routes registry xpath k (record { snap = []; routed = false }),
  )

  IsSorted-snapshot_routes :
      (routes : Registry P) (xpath : Text) (res : SnapResult)
      → IsSorted res.snap
      → IsSorted (snapshot_routes routes xpath res).snap
  unfolding snapshot_routes
  IsSorted-snapshot_routes [] xpath res s = s
  IsSorted-snapshot_routes ((prefix, provider) ∷ routes) xpath res s =
      IsSorted-snapshot_routes routes xpath
        (if matches xpath prefix
          then record { snap = merge res.snap (i.snapshot provider xpath); routed = true }
          else res)
        (ground (arith, IsSorted-merge res.snap (i.snapshot provider xpath) s))

  pub snapshot-IsSorted :
      (registry : Registry P) (xpath : Text) → IsSorted (snapshot registry xpath).snap
  unfolding snapshot
  snapshot-IsSorted registry xpath =
      IsSorted-snapshot_routes registry xpath (record { snap = []; routed = false }) tt

  -- Some matching provider accepts writes to the path.
  abbrev pub is_writable : Registry P → Text → Bool
  is_writable [] xpath = false
  is_writable ((prefix, provider) ∷ routes) xpath =
      let rest = is_writable routes xpath in
      if matches xpath prefix then i.writable provider xpath || rest else rest

  writable_routes_lem :
      (routes : Registry P) (xpath : Text) (res : WriteResult)
      → writable_routes routes xpath res ≡ record {
        routed = res.routed || is_routed routes xpath;
        applied = res.applied || is_writable routes xpath;
      }
  unfolding writable_routes
  writable_routes_lem [] xpath res = ground arith
  writable_routes_lem ((prefix, provider) ∷ routes) xpath res = ground (
    arith,
    writable_routes_lem routes xpath res,
    writable_routes_lem routes xpath (record {
      routed = true;
      applied = if i.writable provider xpath then true else res.applied;
    }),
  )

  pub writable_lem :
      (registry : Registry P) (xpath : Text)
      → writable registry xpath
        ≡ record { routed = is_routed registry xpath; applied = is_writable registry xpath }
  unfolding writable
  writable_lem registry xpath =
      writable_routes_lem registry xpath (record { routed = false; applied = false })
