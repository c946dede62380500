-- ===== src/Server/Soundness.antt =====
-- Whatever happens, the running server holds known paths only, and readings at those of the sensors.
use psc_mock_server.Prelude.{
  ◌≡◌, ◌∙◌, refl, sym, ap, true, false, Option, none, some, List, [], ◌∷◌, ◌++◌, map, All,
  All-append, All-Member, Member, Member-map, inl, inr, ℕ,
}
use mathlib.Core.Path.{subst}
use psc_mock_server.Prelude.Texts.{Text}
use psc_mock_server.Prelude.Int.{ℤ}
use psc_mock_server.OrderedMap.{find}
use psc_mock_server.Utils.{strip_path_quotes}
use psc_mock_server.Gnmi.{TypedValue, GnmiPath, Update}
use psc_mock_server.Gnmi.Requests.{SetRequest}
use psc_mock_server.DataProvider.{LeafType, set_op, remove_op}
use psc_mock_server.StoreBacked
use psc_mock_server.StoreBacked.{
  StoreBackedProvider, DeclaredLeaf, commit_stamped, is_config, or_state, schema_type,
}
use psc_mock_server.StoreBacked.Keys.{
  KeysIn, WritesIn, DeclaresIn, LeavesIn-commit_stamped, LeavesIn-init_leaves, KeysIn-init_leaves,
}
use psc_mock_server.SystemConfig.{declare_leaves, declare_defaults, new_system_config}
use psc_mock_server.PowerSensor.{
  Doubles, Generator, Walk, Simulation, run_tick, build_walks, build_walks_for, unit_walks,
  leaf_path,
}
use psc_mock_server.PowerSensor.ReadOnly.{NoConfig, new_power_sensor-NoConfig}
use psc_mock_server.PowerSensor.Walks.{InRange}
use psc_mock_server.PowerSensor.Readings.{
  IsSimulated, IsSimulated-run_tick, start-IsBuilt, new_power_sensor_readings,
}
use psc_mock_server.Server.{server_provider}
use psc_mock_server.Server.Commits.{server_registry, run-server_registry, writable_config}
use psc_mock_server.Server.Invariant.{Status-cases}
use psc_mock_server.Server.Layout.{IsSensor, IsSetting, sensor_paths, config_paths}
use psc_mock_server.SetRpc.{run, prefix_text, update_path}
use psc_mock_server.SetRpc.Validation.{AcceptsUpdate, IsValid, set_ok_iff, run-eq_self}
use psc_mock_server.SetRpc.Transaction.{batch_of, delete_op, update_op}
use psc_mock_server.Server.System.{
  Running, registry_of, started, Event, set_rpc, tick, Runs, here, next,
}

module _ (f : Doubles) {R : Type 0} (g : Generator R) where
  -- The thread is in order, the sensors are read-only, and the configuration holds and declares
  -- known paths.
  pub record IsSound (r : Running f g) : Type 0 where
    pub simulated : IsSimulated f g r.simulation
    pub read_only : NoConfig r.simulation.provider.schema
    pub known_leaves : KeysIn IsSetting r.config.store.leaves
    pub known_schema : KeysIn IsSetting r.config.schema

-- A writable path is declared.
writable_known :
    (p : StoreBackedProvider) (K : Text → Type 0) (xpath : Text) (o : Option LeafType)
    → KeysIn K p.schema
    → find (strip_path_quotes xpath) p.schema ≡ o
    → is_config (or_state o) ≡ true
    → K (strip_path_quotes xpath)
writable_known p K xpath none s e h = cc
writable_known p K xpath (some t) s e h = s (strip_path_quotes xpath) t e

abbrev AtSetting : Text → TypedValue → Type 0
AtSetting k v = IsSetting k

module _ (sensor config : StoreBackedProvider) (read_only : NoConfig sensor.schema)
    (schema : KeysIn IsSetting config.schema) (prefix : Text) where
  updates_known :
      (now : ℤ) (upds : List Update)
      → All (AcceptsUpdate (server_registry sensor config) prefix) upds
      → All (WritesIn AtSetting) (map (update_op now prefix) upds)
  unfolding set_op StoreBacked.writable schema_type
  updates_known now [] h = tt
  updates_known now (upd ∷ upds) h = (
    λ e.
        writable_known config IsSetting (update_path prefix upd)
          (find (strip_path_quotes (update_path prefix upd)) config.schema) schema refl
          (writable_config sensor config (update_path prefix upd) read_only h.0.2.1).1,
    updates_known now upds h.1,
  )

  deletes_known : (paths : List GnmiPath) → All (WritesIn AtSetting) (map (delete_op prefix) paths)
  unfolding remove_op
  deletes_known [] = tt
  deletes_known (path ∷ paths) = (λ e. cc, deletes_known paths)

  -- An accepted request writes known paths only.
  batch_known :
      (now : ℤ) (request : SetRequest)
      → IsValid (server_registry sensor config) prefix request
      → All (WritesIn AtSetting) (batch_of now prefix request)
  batch_known now request v =
      All-append (WritesIn AtSetting) (map (delete_op prefix) request.delete)
        (map (update_op now prefix) request.replace ++ map (update_op now prefix) request.update)
        (deletes_known request.delete)
        (All-append (WritesIn AtSetting) (map (update_op now prefix) request.replace)
          (map (update_op now prefix) request.update) (updates_known now request.replace v.replaces)
          (updates_known now request.update v.updates))

built_paths :
    (f : Doubles) → map (λ (w : Walk). strip_path_quotes w.path) (build_walks f) ≡ sensor_paths
unfolding build_walks build_walks_for unit_walks leaf_path strip_path_quotes
built_paths f = refl

pub walk-IsSensor :
    (f : Doubles) (w : Walk) → Member w (build_walks f) → IsSensor (strip_path_quotes w.path)
walk-IsSensor f w m =
    subst (Member (strip_path_quotes w.path)) (built_paths f)
      (Member-map (λ (w : Walk). strip_path_quotes w.path) (build_walks f) m)

declared_paths :
    (now : ℤ)
    → map (λ (d : DeclaredLeaf). strip_path_quotes d.path) (declare_leaves now) ≡ config_paths
unfolding declare_leaves declare_defaults strip_path_quotes
declared_paths now = refl

declared_known :
    (now : ℤ) (d : DeclaredLeaf)
    → Member d (declare_leaves now)
    → IsSetting (strip_path_quotes d.path)
declared_known now d m =
    subst (Member (strip_path_quotes d.path)) (declared_paths now)
      (Member-map (λ (d : DeclaredLeaf). strip_path_quotes d.path) (declare_leaves now) m)

-- A Set leaves the configuration with known paths.
set_known :
    (config : StoreBackedProvider) (sensor : StoreBackedProvider) (now : ℤ) (request : SetRequest)
    → NoConfig sensor.schema
    → KeysIn IsSetting config.store.leaves
    → KeysIn IsSetting config.schema
    → (after : StoreBackedProvider)
    → server_registry sensor after ≡ (run (server_registry sensor config) now request).0
    → KeysIn IsSetting after.store.leaves × KeysIn IsSetting after.schema
set_known config sensor now request ro leaves schema after e =
    let before = server_registry sensor config in
    let prefix = prefix_text request.prefix in
    let batch = batch_of now prefix request in
    elim (Status-cases (run before now request).2) [
      | inl accepted ↦
          let whole = e ∙ run-server_registry sensor config now request ro accepted in
          let same : commit_stamped config batch ≡ after = cc in
          subst
            (λ (p : StoreBackedProvider).
              KeysIn IsSetting p.store.leaves × KeysIn IsSetting p.schema)
            same
            (
              LeavesIn-commit_stamped AtSetting config batch leaves (
                  batch_known sensor config ro schema prefix now request
                    ((set_ok_iff before now request).0 accepted).1),
              unfold commit_stamped in schema,
            )
      | inr refused ↦
          let whole = e ∙ run-eq_self before now request refused in
          let same : config ≡ after = cc in
          subst
            (λ (p : StoreBackedProvider).
              KeysIn IsSetting p.store.leaves × KeysIn IsSetting p.schema)
            same (leaves, schema)
    ]

module _ (f : Doubles) {R : Type 0} (g : Generator R) where
  pub IsSound-started :
      (s c : ℤ) (rng : R) → All (InRange f) (build_walks f) → IsSound f g (started f g s c rng)
  IsSound-started s c rng range = record {
    simulated = record {
      in_range = range;
      built = start-IsBuilt f;
      readings = new_power_sensor_readings f s range;
    };
    read_only = new_power_sensor-NoConfig f s;
    known_leaves =
        unfold new_system_config in
        LeavesIn-init_leaves AtSetting (declare_leaves c)
          (All-Member (DeclaresIn AtSetting) (declare_leaves c) (λ d m v e. declared_known c d m));
    known_schema =
        unfold new_system_config in
        KeysIn-init_leaves IsSetting (declare_leaves c) (
          All-Member (λ (d : DeclaredLeaf). IsSetting (strip_path_quotes d.path)) (declare_leaves c)
            (declared_known c));
  }

  module _ (irrefl : (x : ℕ) → f.less x x ≡ false) where
    Event-IsSound : {r r' : Running f g} → Event f g r r' → IsSound f g r → IsSound f g r'
    Event-IsSound {r = r} {r' = r'} (set_rpc now request e h) v =
        let same : r'.simulation.provider ≡ r.simulation.provider =
          ap (λ (s : Simulation f g). s.provider) e in
        let shape =
          subst
            (λ (p : StoreBackedProvider).
              server_registry p r'.config ≡ (run (registry_of f g r) now request).0)
            same h in
        let (leaves, schema) =
          set_known r.config r.simulation.provider now request v.read_only v.known_leaves
            v.known_schema r'.config shape in
        record {
          simulated = subst (IsSimulated f g) (sym e) v.simulated;
          read_only = subst (λ (p : StoreBackedProvider). NoConfig p.schema) (sym same) v.read_only;
          known_leaves = leaves;
          known_schema = schema;
        }
    Event-IsSound {r = r} {r' = r'} (tick now e) v = subst (IsSound f g) (sym e) (record {
      simulated = IsSimulated-run_tick f g irrefl now r.simulation v.simulated;
      read_only = unfold run_tick commit_stamped in v.read_only;
      known_leaves = v.known_leaves;
      known_schema = v.known_schema;
    })

    pub Runs-IsSound :
        {start r : Running f g} → IsSound f g start → Runs f g start r → IsSound f g r
    Runs-IsSound v here = v
    Runs-IsSound v (next path event) = Event-IsSound event (Runs-IsSound v path)
