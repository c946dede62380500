-- ===== src/Server/Delivery.antt =====
-- The notifications that the server builds for a snapshot of its own registry.
use psc_mock_server.Prelude.{◌≡◌, Bool, true, false, refl, Option, none, some, if◌then◌else◌}
use psc_mock_server.Prelude.Texts.{Text}
use psc_mock_server.Prelude.Int.{ℤ}
use psc_mock_server.OrderedMap.{find}
use psc_mock_server.Utils.Nested.{elems_of}
use psc_mock_server.Utils.PathPrefix.{IsQuoteFree, strip_path_quotes-eq_self}
use psc_mock_server.DataProvider.{Leaf, Snapshot}
use psc_mock_server.StoreBacked.{StoreBackedProvider}
use psc_mock_server.SystemConfig
use psc_mock_server.SystemConfig.Container.{atomic_prefix_lem}
use psc_mock_server.Registry
use psc_mock_server.Registry.{matches}
use psc_mock_server.Emit.{build_full_notifications}
use psc_mock_server.Emit.Full.{Says, Located, full_covers}
use psc_mock_server.Server.{server_provider, atomic_prefix}
use psc_mock_server.Server.Commits.{server_registry, sensor_prefix, config_prefix}

-- The answer of the second of two routes, where the first has none.
second_route :
    (a b : Bool) (o : Option Text) (c : Text)
    → (let rest : Option Text = if b then elim o [ some ap ↦ some ap | none ↦ none ] else none in
        if a then rest else rest)
      ≡ some c
    → o ≡ some c
second_route true true none c h = cc
second_route true true (some ap) c h = h
second_route true false o c h = cc
second_route false true none c h = cc
second_route false true (some ap) c h = h
second_route false false o c h = cc

module _ (sensor config : StoreBackedProvider) where
  -- Only the configuration names containers.
  container_of_config :
      (k c : Text)
      → Registry.atomic_prefix (server_registry sensor config) k ≡ some c
      → SystemConfig.atomic_prefix config k ≡ some c
  unfolding atomic_prefix Registry.atomic_prefix
  container_of_config k c h =
      second_route (matches k sensor_prefix) (matches k config_prefix)
        (SystemConfig.atomic_prefix config k) c h

  pub Located-server_registry :
      (k : Text) (o : Option Text)
      → IsQuoteFree k
      → Registry.atomic_prefix (server_registry sensor config) k ≡ o
      → Located o k
  Located-server_registry k none q h = tt
  Located-server_registry k (some c) q h =
      let named = ((atomic_prefix_lem config k c).0 (container_of_config k c h)).ends in
      (named.rest, rw (strip_path_quotes-eq_self k q) at named.splits, named.boundary)

  -- The server's notifications for a snapshot say each of its leaves with its value: the prefix
  -- of the notification and the path of the update have together the elements of the leaf's path,
  -- if that has no double quote.
  pub server-Says :
      (clock : Option Text → ℤ) (snap : Snapshot) (k : Text) (leaf : Leaf)
      → IsQuoteFree k
      → find k snap ≡ some leaf
      → Says
          (build_full_notifications clock snap (server_registry sensor config))
          (elems_of k)
          leaf.val
  server-Says clock snap k leaf q h =
      let registry = server_registry sensor config in
      full_covers clock registry snap k leaf
        (Located-server_registry k (Registry.atomic_prefix registry k) q refl) h
