-- ===== src/Server.antt =====
-- The providers of the server as one type with a case for each class, and the registry that
-- `RunServer` of src/main.cpp builds.
pub mod Commits
pub mod Invariant
pub mod ReadBack
pub mod Delivery
pub mod Layout
pub mod System
pub mod Soundness
pub mod Clients
use psc_mock_server.Prelude.{Bool, Option, List, []}
use psc_mock_server.Prelude.Texts.{Text, codes}
use psc_mock_server.Prelude.Int.{ℤ}
use psc_mock_server.Gnmi.{Update, SubscriptionMode}
use psc_mock_server.DataProvider.{
  DataProvider, Snapshot, WriteBatch, default_preferred_mode, default_apply_batch,
  default_atomic_prefix,
}
use psc_mock_server.StoreBacked
use psc_mock_server.StoreBacked.{StoreBackedProvider}
use psc_mock_server.SystemConfig
use psc_mock_server.PowerSensor.{Doubles, new_power_sensor}
use psc_mock_server.Registry.{Registry, add_provider}

pub data Provider : Type 0 where
  power_sensor : StoreBackedProvider → Provider
  system_config : StoreBackedProvider → Provider

-- The base class that both extend.
abbrev pub base : Provider → StoreBackedProvider
base (power_sensor p) = p
base (system_config p) = p

unfoldable pub fill : Provider → List Update → Text → List Update
fill p = StoreBacked.fill (base p)

unfoldable pub snapshot : Provider → Text → Snapshot
snapshot p = StoreBacked.snapshot (base p)

unfoldable pub writable : Provider → Text → Bool
writable p = StoreBacked.writable (base p)

unfoldable pub preferred_mode : Provider → Text → SubscriptionMode
unfolding default_preferred_mode SystemConfig.preferred_mode
preferred_mode (power_sensor p) = default_preferred_mode p
preferred_mode (system_config p) = SystemConfig.preferred_mode p

abbrev keep_class : StoreBackedProvider × Bool → Provider × Bool
keep_class (p, accepted) = (system_config p, accepted)

unfoldable pub apply_batch : Provider → WriteBatch → Provider × Bool
unfolding default_apply_batch SystemConfig.apply_batch
apply_batch (power_sensor p) batch = default_apply_batch (power_sensor p) batch
apply_batch (system_config p) batch = keep_class (SystemConfig.apply_batch p batch)

unfoldable pub atomic_prefix : Provider → Text → Option Text
unfolding default_atomic_prefix SystemConfig.atomic_prefix
atomic_prefix (power_sensor p) = default_atomic_prefix p
atomic_prefix (system_config p) = SystemConfig.atomic_prefix p

instance abbrev pub server_provider : DataProvider Provider
server_provider = record {
  fill = fill;
  preferred_mode = preferred_mode;
  snapshot = snapshot;
  writable = writable;
  apply_batch = apply_batch;
  atomic_prefix = atomic_prefix;
}

-- The registry, from the times at which the two constructors run.
unfoldable pub new_registry : Doubles → ℤ → ℤ → Registry Provider
unfolding add_provider new_power_sensor SystemConfig.new_system_config
new_registry f sensor_time config_time =
    add_provider
      (add_provider [] (codes "/components/component")
        (power_sensor (new_power_sensor f sensor_time)))
      (codes "/system") (system_config (SystemConfig.new_system_config config_time))
