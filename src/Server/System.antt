-- ===== src/Server/System.antt =====
-- The running server of src/main.cpp: the registry of `RunServer`, whose configuration changes by the
-- Set RPC, and the thread of the power sensors, which writes to its provider.
use psc_mock_server.Prelude.{◌≡◌}
use psc_mock_server.Prelude.Int.{ℤ}
use psc_mock_server.Gnmi.Requests.{SetRequest}
use psc_mock_server.StoreBacked.{StoreBackedProvider}
use psc_mock_server.SystemConfig.{new_system_config}
use psc_mock_server.PowerSensor.{
  Doubles, Generator, Simulation, run_tick, build_walks, new_power_sensor,
}
use psc_mock_server.Registry.{Registry}
use psc_mock_server.Server.{Provider, server_provider}
use psc_mock_server.Server.Commits.{server_registry}
use psc_mock_server.SetRpc.{run}

module _ (f : Doubles) {R : Type 0} (g : Generator R) where
  -- The thread's variables with the provider that it writes to, and the other provider.
  pub record Running : Type 0 where
    pub simulation : Simulation f g
    pub config : StoreBackedProvider

  abbrev pub registry_of : Running → Registry Provider
  registry_of r = server_registry r.simulation.provider r.config

  -- The server behind the two constructors, with the walks that the thread is given.
  abbrev pub started : ℤ → ℤ → R → Running
  started s c rng = record {
    simulation = record { provider = new_power_sensor f s; walks = build_walks f; rng = rng };
    config = new_system_config c;
  }

  -- One event: a Set request, or a turn of the thread.
  pub data Event (before after : Running) : Type 0 where
    set_rpc :
        (now : ℤ) (request : SetRequest)
        → after.simulation ≡ before.simulation
        → registry_of after ≡ (run (registry_of before) now request).0
        → Event before after
    tick :
        (now : ℤ)
        → after ≡ record before { simulation = run_tick f g now before.simulation }
        → Event before after

  pub data Runs (start : Running) : Running → Type 0 where
    here : Runs start start
    next : {r r' : Running} → Runs start r → Event r r' → Runs start r'
