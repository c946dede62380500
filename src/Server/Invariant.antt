-- ===== src/Server/Invariant.antt =====
-- The server's registry through Set requests and sensor ticks, in any order.
use psc_mock_server.Prelude.{◌≡◌, ◌≢◌, refl, ◌∙◌, inl, inr, ◌⊎◌}
use mathlib.Core.Path.{subst}
use psc_mock_server.Prelude.Int.{ℤ}
use psc_mock_server.Gnmi.{ok, Status, error}
use psc_mock_server.Gnmi.Requests.{SetRequest}
use psc_mock_server.DataProvider.{LeafType, WriteBatch}
use psc_mock_server.OrderedMap.{OrderedMap}
use psc_mock_server.StoreBacked.{StoreBackedProvider, commit_stamped}
use psc_mock_server.StoreBacked.Typed.{IsTyped, commit_stamped-IsTyped, init_leaves-IsTyped}
use psc_mock_server.SystemConfig.{declare_leaves, new_system_config}
use psc_mock_server.PowerSensor.{Doubles, declare_walks, build_walks, new_power_sensor}
use psc_mock_server.PowerSensor.ReadOnly.{NoConfig, new_power_sensor-NoConfig}
use psc_mock_server.Registry.{Registry}
use psc_mock_server.Server.{Provider, server_provider, new_registry}
use psc_mock_server.Server.Commits.{server_registry, new_registry_lem, run-server_registry}
use psc_mock_server.SetRpc.{run, prefix_text}
use psc_mock_server.SetRpc.Validation.{run-eq_self}
use psc_mock_server.SetRpc.Transaction.{batch_of}

pub Status-cases : (s : Status) → (s ≡ ok) ⊎ (s ≢ ok)
Status-cases ok = inl refl
Status-cases (error c m) = inr (λ e. cc)

-- One event at the server: a Set request, or a batch that the sensors' thread commits.
pub data Step (before after : Registry Provider) : Type 0 where
  set_rpc :
      (now : ℤ) (request : SetRequest) → after ≡ (run before now request).0 → Step before after
  tick :
      (sensor config : StoreBackedProvider) (batch : WriteBatch)
      → before ≡ server_registry sensor config
      → after ≡ server_registry (commit_stamped sensor batch) config
      → Step before after

pub data Reach (start : Registry Provider) : Registry Provider → Type 0 where
  here : Reach start start
  next : {r r' : Registry Provider} → Reach start r → Step r r' → Reach start r'

-- The two providers are well typed, the sensors are read-only, and the schema of the configuration
-- is the one that it was built with.
pub record IsServer (schema : OrderedMap LeafType) (r : Registry Provider) : Type 0 where
  pub sensor : StoreBackedProvider
  pub config : StoreBackedProvider
  pub shape : r ≡ server_registry sensor config
  pub sensor_typed : IsTyped sensor
  pub config_typed : IsTyped config
  pub read_only : NoConfig sensor.schema
  pub config_schema : config.schema ≡ schema

schema-commit_stamped :
    (p : StoreBackedProvider) (batch : WriteBatch) → (commit_stamped p batch).schema ≡ p.schema
unfolding commit_stamped
schema-commit_stamped p batch = refl

run-IsServer :
    (schema : OrderedMap LeafType) (sensor config : StoreBackedProvider) (now : ℤ)
    (request : SetRequest)
    → IsTyped sensor
    → IsTyped config
    → NoConfig sensor.schema
    → config.schema ≡ schema
    → IsServer schema (run (server_registry sensor config) now request).0
run-IsServer schema sensor config now request st ct ro cs =
    elim (Status-cases (run (server_registry sensor config) now request).2) [
      | inl accepted ↦
          let batch = batch_of now (prefix_text request.prefix) request in
          record {
            sensor = sensor;
            config = commit_stamped config batch;
            shape = run-server_registry sensor config now request ro accepted;
            sensor_typed = st;
            config_typed = commit_stamped-IsTyped config batch ct;
            read_only = ro;
            config_schema = schema-commit_stamped config batch ∙ cs;
          }
      | inr refused ↦ record {
        sensor = sensor;
        config = config;
        shape = run-eq_self (server_registry sensor config) now request refused;
        sensor_typed = st;
        config_typed = ct;
        read_only = ro;
        config_schema = cs;
      }
    ]

Step-IsServer :
    (schema : OrderedMap LeafType) {r r' : Registry Provider}
    → Step r r'
    → IsServer schema r
    → IsServer schema r'
unfolding commit_stamped
Step-IsServer schema (set_rpc now request e) v =
    rw (e, v.shape)
      (run-IsServer schema v.sensor v.config now request v.sensor_typed v.config_typed v.read_only
        v.config_schema)
Step-IsServer schema (tick sensor config batch b e) v =
    let s : v.sensor ≡ sensor = cc in
    let c : v.config ≡ config = cc in
    record {
      sensor = commit_stamped sensor batch;
      config = config;
      shape = e;
      sensor_typed = commit_stamped-IsTyped sensor batch (subst IsTyped s v.sensor_typed);
      config_typed = subst IsTyped c v.config_typed;
      read_only = subst (λ (p : StoreBackedProvider). NoConfig p.schema) s v.read_only;
      config_schema = subst (λ (p : StoreBackedProvider). p.schema ≡ schema) c v.config_schema;
    }

IsServer-new_registry :
    (f : Doubles) (s c : ℤ) → IsServer (new_system_config c).schema (new_registry f s c)
IsServer-new_registry f s c = record {
  sensor = new_power_sensor f s;
  config = new_system_config c;
  shape = new_registry_lem f s c;
  sensor_typed = unfold new_power_sensor in init_leaves-IsTyped (declare_walks s (build_walks f));
  config_typed = unfold new_system_config in init_leaves-IsTyped (declare_leaves c);
  read_only = new_power_sensor-NoConfig f s;
  config_schema = refl;
}

Reach-IsServer :
    (schema : OrderedMap LeafType) {start r : Registry Provider}
    → IsServer schema start
    → Reach start r
    → IsServer schema r
Reach-IsServer schema v here = v
Reach-IsServer schema v (next path step) = Step-IsServer schema step (Reach-IsServer schema v path)

-- Whatever Sets and ticks have happened since the start, in any order, the registry holds the two
-- providers with every leaf typed as its schema declares, no sensor leaf is of type Config, and the
-- configuration's schema is the declared one.
pub reachable-IsServer :
    (f : Doubles) (s c : ℤ) {r : Registry Provider}
    → Reach (new_registry f s c) r
    → IsServer (new_system_config c).schema r
reachable-IsServer f s c path =
    Reach-IsServer (new_system_config c).schema (IsServer-new_registry f s c) path
