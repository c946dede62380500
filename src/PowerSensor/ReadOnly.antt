-- ===== src/PowerSensor/ReadOnly.antt =====
-- The sensor provider declares no leaf of type Config, so that no client can write to it.
use psc_mock_server.Prelude.{◌≡◌, refl, false, List, [], ◌∷◌, arith}
use psc_mock_server.Prelude.Texts.{Text}
use psc_mock_server.Prelude.Int.{ℤ}
use psc_mock_server.OrderedMap.{OrderedMap, find}
use psc_mock_server.OrderedMap.Laws.{find-assign}
use psc_mock_server.Utils.{strip_path_quotes}
use psc_mock_server.DataProvider.{LeafType, operational, WriteBatch}
use psc_mock_server.StoreBacked.{
  StoreBackedProvider, new_provider, or_state, is_config, writable, init_from,
}
use psc_mock_server.PowerSensor.{Doubles, Walk, declare_walks, build_walks, new_power_sensor}

-- The schema declares no Config leaf.
abbrev pub NoConfig : OrderedMap LeafType → Type 0
NoConfig schema = (k : Text) → is_config (or_state (find k schema)) ≡ false

NoConfig-init_from :
    (now : ℤ) (walks : List Walk) (seed : WriteBatch) (p : StoreBackedProvider)
    → NoConfig p.schema
    → NoConfig (init_from (declare_walks now walks) seed p).schema
unfolding init_from declare_walks
NoConfig-init_from now [] seed p h = h
NoConfig-init_from now (w ∷ walks) seed p h =
    NoConfig-init_from now walks _ _
      (λ k. ground (arith, h k, find-assign (strip_path_quotes w.path) k operational p.schema))

pub new_power_sensor-NoConfig : (f : Doubles) (now : ℤ) → NoConfig (new_power_sensor f now).schema
unfolding new_power_sensor
new_power_sensor-NoConfig f now =
    NoConfig-init_from now (build_walks f) [] new_provider (λ k. unfold find in refl)

pub writable-NoConfig :
    (p : StoreBackedProvider) (xpath : Text) → NoConfig p.schema → writable p xpath ≡ false
unfolding writable
writable-NoConfig p xpath h = h (strip_path_quotes xpath)
