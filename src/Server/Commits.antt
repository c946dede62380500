-- ===== src/Server/Commits.antt =====
-- What one commit and one Set do to the server's registry.
use psc_mock_server.Prelude.{
  ◌≡◌, refl, ◌∙◌, ap, true, List, [], ◌∷◌, ◌++◌, arith, if◌then◌else◌, append-nil, is_empty, All,
  map,
}
use psc_mock_server.Prelude.Texts.{Text, codes}
use psc_mock_server.Prelude.Int.{ℤ}
use psc_mock_server.Gnmi.{ok, GnmiPath, Update, Status}
use psc_mock_server.Gnmi.Requests.{SetRequest, SetResponse}
use psc_mock_server.DataProvider.{WriteBatch, set_op, remove_op}
use psc_mock_server.LeafStore
use psc_mock_server.Utils.{gnmi_to_xpath}
use psc_mock_server.StoreBacked
use psc_mock_server.StoreBacked.{StoreBackedProvider, commit_stamped}
use psc_mock_server.SystemConfig.{new_system_config}
use psc_mock_server.PowerSensor.{Doubles, new_power_sensor}
use psc_mock_server.PowerSensor.ReadOnly.{NoConfig, writable-NoConfig}
use psc_mock_server.Registry.{Registry, matches}
use psc_mock_server.Registry.Routing.{is_writable}
use psc_mock_server.Registry.Writes.{owned, commit_each}
use psc_mock_server.Server.{
  Provider, power_sensor, system_config, server_provider, new_registry, apply_batch, writable,
}
use psc_mock_server.SetRpc.{run, prefix_text, update_path}
use psc_mock_server.SetRpc.Validation.{AcceptsDelete, AcceptsUpdate, IsValid, set_ok_iff}
use psc_mock_server.SetRpc.Transaction.{batch_of, run-IsValid, delete_op, update_op}

abbrev pub sensor_prefix : Text
sensor_prefix = codes "/components/component"

abbrev pub config_prefix : Text
config_prefix = codes "/system"

-- The registry of `RunServer` with its two providers in some state.
abbrev pub server_registry : StoreBackedProvider → StoreBackedProvider → Registry Provider
server_registry sensor config =
    (sensor_prefix, power_sensor sensor) ∷ (config_prefix, system_config config) ∷ []

pub new_registry_lem :
    (f : Doubles) (s c : ℤ)
    → new_registry f s c ≡ server_registry (new_power_sensor f s) (new_system_config c)
unfolding new_registry
new_registry_lem f s c = refl

commit_stamped-nil : (p : StoreBackedProvider) → commit_stamped p [] ≡ p
unfolding commit_stamped LeafStore.commit
commit_stamped-nil p = refl

module _ (sensor config : StoreBackedProvider) where
  both_routes :
      (a b : WriteBatch)
      → ◌≡◌ {A = Registry Provider}
          ((sensor_prefix, (if is_empty a then power_sensor sensor else power_sensor sensor))
            ∷ (
              config_prefix,
              (if is_empty b
                  then system_config config
                  else system_config (commit_stamped config b)),
            )
            ∷ [])
          (server_registry sensor (commit_stamped config b))
  both_routes [] [] = rw (commit_stamped-nil config)
  both_routes [] (op ∷ b) = refl
  both_routes (op ∷ a) [] = rw (commit_stamped-nil config)
  both_routes (op ∷ a) (op' ∷ b) = refl

  -- A commit leaves the sensors as they are, and gives the configuration the operations under its
  -- prefix.
  pub commit_each-server_registry :
      (batch : WriteBatch)
      → commit_each (server_registry sensor config) batch
        ≡ server_registry sensor (commit_stamped config (owned config_prefix batch))
  unfolding apply_batch
  commit_each-server_registry batch =
      both_routes (owned sensor_prefix batch) (owned config_prefix batch)

  -- Only the configuration accepts writes, and only under its prefix.
  pub writable_config :
      (xpath : Text)
      → NoConfig sensor.schema
      → is_writable (server_registry sensor config) xpath ≡ true
      → (matches xpath config_prefix ≡ true) × (StoreBacked.writable config xpath ≡ true)
  unfolding writable
  writable_config xpath h w = ground (arith, writable-NoConfig sensor xpath h)

  module _ (prefix : Text) (read_only : NoConfig sensor.schema) where
    owned_deletes :
        (paths : List GnmiPath) (rest : WriteBatch)
        → All (AcceptsDelete (server_registry sensor config) prefix) paths
        → owned config_prefix (map (delete_op prefix) paths ++ rest)
          ≡ map (delete_op prefix) paths ++ owned config_prefix rest
    unfolding remove_op
    owned_deletes [] rest h = refl
    owned_deletes (path ∷ paths) rest h =
        rw ((writable_config (prefix ++ gnmi_to_xpath path) read_only h.0.1).0)
          (ap (◌∷◌ (delete_op prefix path)) (owned_deletes paths rest h.1))

    owned_updates :
        (now : ℤ) (upds : List Update) (rest : WriteBatch)
        → All (AcceptsUpdate (server_registry sensor config) prefix) upds
        → owned config_prefix (map (update_op now prefix) upds ++ rest)
          ≡ map (update_op now prefix) upds ++ owned config_prefix rest
    unfolding set_op
    owned_updates now [] rest h = refl
    owned_updates now (upd ∷ upds) rest h =
        rw ((writable_config (update_path prefix upd) read_only h.0.2.1).0)
          (ap (◌∷◌ (update_op now prefix upd)) (owned_updates now upds rest h.1))

    -- The configuration owns every operation of a valid request.
    pub owned-batch_of :
        (now : ℤ) (request : SetRequest)
        → IsValid (server_registry sensor config) prefix request
        → owned config_prefix (batch_of now prefix request) ≡ batch_of now prefix request
    owned-batch_of now request v =
        let deletes = map (delete_op prefix) request.delete in
        let replaces = map (update_op now prefix) request.replace in
        let updates = map (update_op now prefix) request.update in
        let last : owned config_prefix updates ≡ updates =
          rw append-nil at (owned_updates now request.update [] v.updates) in
        owned_deletes request.delete (replaces ++ updates) v.deletes
        ∙ ap (λ (t : WriteBatch). deletes ++ t)
            (owned_updates now request.replace updates v.replaces
              ∙ ap (λ (t : WriteBatch). replaces ++ t) last)

-- A Set that the server accepts changes the configuration by the request's operations, each leaf
-- stamped with its declared type, and nothing else.
pub run-server_registry :
    (sensor config : StoreBackedProvider) (now : ℤ) (request : SetRequest)
    → NoConfig sensor.schema
    → (run (server_registry sensor config) now request).2 ≡ ok
    → (run (server_registry sensor config) now request).0
      ≡ server_registry sensor
          (commit_stamped config (batch_of now (prefix_text request.prefix) request))
run-server_registry sensor config now request read_only h =
    let r = server_registry sensor config in
    let prefix = prefix_text request.prefix in
    let (no_extension, valid) = (set_ok_iff r now request).0 h in
    ap (λ (t : Registry Provider × SetResponse × Status). t.0)
      (run-IsValid r now request no_extension valid)
    ∙ commit_each-server_registry sensor config (batch_of now prefix request)
    ∙ rw (owned-batch_of sensor config prefix read_only now request valid)
