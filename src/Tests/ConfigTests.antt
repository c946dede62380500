-- ===== src/Tests/ConfigTests.antt =====
-- The containers of the system configuration.
use psc_mock_server.Prelude.{◌≡◌, ◌↔◌, refl, none, some}
use psc_mock_server.Prelude.Texts.{Text, codes}
use psc_mock_server.Utils.{strip_path_quotes}
use psc_mock_server.StoreBacked.{new_provider}
use psc_mock_server.SystemConfig.{atomic_prefix}
use psc_mock_server.SystemConfig.Container.{IsContainer, atomic_prefix_lem}

abbrev port : Text
port = codes "/system/ntp/servers/server[address=\"a\"]/config/port"

abbrev container : Text
container = codes "/system/ntp/servers/server[address=a]/config"

container_found : atomic_prefix new_provider port ≡ some container
unfolding atomic_prefix strip_path_quotes
container_found = refl

-- A leaf outside the servers has no container, though its path holds `/config/`.
no_container : atomic_prefix new_provider (codes "/system/config/hostname") ≡ none
unfolding atomic_prefix strip_path_quotes
no_container = refl

atomic_prefix_lem_example :
    (atomic_prefix new_provider port ≡ some container)
    ↔ IsContainer (strip_path_quotes port) container
atomic_prefix_lem_example = atomic_prefix_lem new_provider port container
