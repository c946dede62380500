-- ===== src/Tests/SetTests.antt =====
-- The Set RPC on the server's registry.
use psc_mock_server.Prelude.{◌≡◌, ◌≢◌, ◌↔◌, refl, none, some, [], ◌∷◌, map}
use psc_mock_server.Prelude.Texts.{codes, eq_text, lt_text}
use psc_mock_server.Prelude.Int.{pos}
use psc_mock_server.Gnmi.{ok, string_val}
use psc_mock_server.Gnmi.Requests.{SetRequest}
use psc_mock_server.Utils.{gnmi_to_xpath, is_path_prefix, strip_path_quotes}
use psc_mock_server.DataProvider.{config, set_op, remove_op}
use psc_mock_server.StoreBacked.Writes.{Untouched}
use psc_mock_server.SystemConfig.{new_system_config}
use psc_mock_server.PowerSensor.{new_power_sensor}
use psc_mock_server.PowerSensor.ReadOnly.{NoConfig, new_power_sensor-NoConfig}
use psc_mock_server.Registry
use psc_mock_server.Registry.{Registry, matches, commit}
use psc_mock_server.Registry.Writes.{commit_each, commit_lem, any_owner, any_accepts}
use psc_mock_server.Server
use psc_mock_server.StoreBacked
use psc_mock_server.OrderedMap.{find, assign}
use psc_mock_server.Server.{Provider, server_provider, new_registry}
use psc_mock_server.Server.Commits.{server_registry}
use psc_mock_server.Server.Invariant.{set_rpc, Reach, here, next, IsServer, reachable-IsServer}
use psc_mock_server.Server.ReadBack.{
  config_leaf, config_leaf-update, config_leaf-delete, config_leaf-Untouched,
}
use psc_mock_server.SetRpc.{run}
use psc_mock_server.SetRpc.Validation.{IsValid, set_ok_iff, run-eq_self}
use psc_mock_server.SetRpc.Transaction.{run-IsValid, batch_of, results_of, update_op}
use psc_mock_server.Tests.Data.{
  sensor, settings, whole_numbers, hostname_request, hostname_update, hostname_path, timezone_path,
  elem, path_of,
}

abbrev server : Registry Provider
server = server_registry sensor settings

-- Every path of the request is writable.
accepted : (run server (pos 7) hostname_request).2 ≡ ok
unfolding run Registry.writable matches is_path_prefix strip_path_quotes gnmi_to_xpath
    Server.writable StoreBacked.writable find assign eq_text lt_text new_system_config
    new_power_sensor
accepted = refl

-- A Set of a sensor is refused.
abbrev sensor_request : SetRequest
sensor_request = record hostname_request {
  update =
      record {
        path = some (path_of (elem (codes "components") ∷ elem (codes "component") ∷ []));
        val = some (string_val []);
      }
      ∷ [];
}

refused : (run server (pos 7) sensor_request).2 ≢ ok
unfolding run Registry.writable matches is_path_prefix strip_path_quotes gnmi_to_xpath
    Server.writable StoreBacked.writable find assign eq_text lt_text new_system_config
    new_power_sensor
refused e = cc e

sensor_NoConfig : NoConfig sensor.schema
sensor_NoConfig = new_power_sensor-NoConfig whole_numbers (pos 1)

valid : (hostname_request.extension_size ≡ 0) × IsValid server [] hostname_request
valid = (set_ok_iff server (pos 7) hostname_request).0 accepted

set_ok_iff_example :
    ((run server (pos 7) hostname_request).2 ≡ ok)
    ↔ ((hostname_request.extension_size ≡ 0) × IsValid server [] hostname_request)
set_ok_iff_example = set_ok_iff server (pos 7) hostname_request

run-eq_self_example : (run server (pos 7) sensor_request).0 ≡ server
run-eq_self_example = run-eq_self server (pos 7) sensor_request refused

run-IsValid_example : run server (pos 7) hostname_request ≡ (
  commit_each server (batch_of (pos 7) [] hostname_request),
  record { prefix = none; response = results_of hostname_request; timestamp = pos 7 },
  ok,
)
run-IsValid_example = run-IsValid server (pos 7) hostname_request valid.0 valid.1

config_leaf-update_example :
    config_leaf (run server (pos 7) hostname_request).0 (gnmi_to_xpath hostname_path)
    ≡ some (record { val = string_val (codes "new"); collected_ns = pos 7; leaf_type = config })
config_leaf-update_example =
    config_leaf-update sensor settings (pos 7) hostname_request sensor_NoConfig accepted [] []
      hostname_update refl tt

delete-Untouched :
    Untouched (gnmi_to_xpath timezone_path) (map (update_op (pos 7) []) (hostname_update ∷ []))
unfolding set_op gnmi_to_xpath strip_path_quotes eq_text
delete-Untouched = (refl, tt)

config_leaf-delete_example :
    config_leaf (run server (pos 7) hostname_request).0 (gnmi_to_xpath timezone_path) ≡ none
config_leaf-delete_example =
    config_leaf-delete sensor settings (pos 7) hostname_request sensor_NoConfig accepted [] []
      timezone_path refl delete-Untouched

motd-Untouched :
    Untouched (codes "/system/config/motd-banner") (batch_of (pos 7) [] hostname_request)
unfolding set_op remove_op gnmi_to_xpath strip_path_quotes eq_text
motd-Untouched = (refl, (refl, tt))

config_leaf-Untouched_example :
    config_leaf (run server (pos 7) hostname_request).0 (codes "/system/config/motd-banner")
    ≡ config_leaf server (codes "/system/config/motd-banner")
config_leaf-Untouched_example =
    config_leaf-Untouched sensor settings (pos 7) hostname_request sensor_NoConfig accepted
      (codes "/system/config/motd-banner") motd-Untouched

after_set :
    Reach
      (new_registry whole_numbers (pos 1) (pos 1))
      (run (new_registry whole_numbers (pos 1) (pos 1)) (pos 7) hostname_request).0
after_set = next here (set_rpc (pos 7) hostname_request refl)

reachable-IsServer_example :
    IsServer
      (new_system_config (pos 1)).schema
      (run (new_registry whole_numbers (pos 1) (pos 1)) (pos 7) hostname_request).0
reachable-IsServer_example = reachable-IsServer whole_numbers (pos 1) (pos 1) after_set

commit_lem_example : commit server (batch_of (pos 7) [] hostname_request) ≡ (
  commit_each server (batch_of (pos 7) [] hostname_request),
  record {
    routed = any_owner server (batch_of (pos 7) [] hostname_request);
    applied = any_accepts server (batch_of (pos 7) [] hostname_request);
  },
)
commit_lem_example = commit_lem server (batch_of (pos 7) [] hostname_request)
