-- ===== src/Tests/GetTests.antt =====
-- The Get RPC, the registry's reads, and the partition into notifications.
use psc_mock_server.Prelude.{◌≡◌, ◌↔◌, ◌⊎◌, refl, true, some, All, ◌≤◌, ◌<◌, ◌^◌, ◌+◌, arith}
use psc_mock_server.Prelude.Texts.{Text, codes, lt_text, eq_text}
use psc_mock_server.Prelude.Int.{pos}
use psc_mock_server.OrderedMap.{find}
use psc_mock_server.OrderedMap.Sorted.{IsSorted}
use psc_mock_server.Gnmi.{ok, all, operational}
use psc_mock_server.Registry.{Registry}
use psc_mock_server.Server.{Provider, server_provider}
use psc_mock_server.Server.Commits.{server_registry}
use psc_mock_server.Emit.Heartbeat.{heartbeat_due, heartbeat_due_iff, heartbeat_due_large}
use psc_mock_server.GetRpc.{run, filter_by_data_type}
use psc_mock_server.GetRpc.Filter.{request_for, filter_exclusive}
use psc_mock_server.GetRpc.Answer.{IsSupported, HasAnswer, get_ok_iff}
use psc_mock_server.Tests.Data.{sensor, settings, hostname_get, current, leaf_at}

abbrev server : Registry Provider
server = server_registry sensor settings

get_ok_iff_example :
    ((run server (λ n c. pos 1) hostname_get).1 ≡ ok)
    ↔ (IsSupported hostname_get × All (HasAnswer server hostname_get) hostname_get.path)
get_ok_iff_example = get_ok_iff server hostname_get (λ n c. pos 1)

abbrev hostname : Text
hostname = codes "/system/config/hostname"

abbrev ntp : Text
ntp = codes "/system/ntp/servers/server[address=10.0.0.1]/config"

current-IsSorted : IsSorted current
unfolding lt_text
current-IsSorted = ((refl, tt), (tt, tt))

found_c : find (codes "/c") current ≡ some (leaf_at 3 2)
unfolding find eq_text
found_c = refl

filter_exclusive_example :
    (find (codes "/c") (filter_by_data_type operational current) ≡ some (leaf_at 3 2))
    ↔ ((operational ≡ request_for (leaf_at 3 2).leaf_type) ⊎ (operational ≡ all))
filter_exclusive_example =
    filter_exclusive current (codes "/c") (leaf_at 3 2) operational current-IsSorted found_c refl

heartbeat_due_iff_example : (heartbeat_due 5 (pos 1) (pos 9) ≡ true) ↔ ((0 < 5) × (1 + 5 ≤ 9))
heartbeat_due_iff_example = heartbeat_due_iff 5 1 9 (omega arith)

heartbeat_due_large_example : heartbeat_due (2 ^ 63) (pos 1) (pos 1) ≡ true
heartbeat_due_large_example =
    heartbeat_due_large (2 ^ 63) 1 1 (omega arith) (omega arith) (omega arith)
