-- ===== src/Server/ReadBack.antt =====
-- What a client reads from the configuration after a Set.
use psc_mock_server.Prelude.{
  ◌≡◌, ◌∙◌, ap, true, Option, none, some, List, [], ◌∷◌, ◌++◌, arith, All, map, append_assoc,
}
use mathlib.Core.List.{map-append}
use mathlib.Core.Path.{subst}
use psc_mock_server.Prelude.Texts.{Text}
use psc_mock_server.Prelude.Int.{ℤ}
use psc_mock_server.Gnmi.{ok, Update, GnmiPath}
use psc_mock_server.Gnmi.Requests.{SetRequest}
use psc_mock_server.Utils.{gnmi_to_xpath}
use psc_mock_server.DataProvider.{Leaf, LeafType, config, WriteBatch}
use psc_mock_server.LeafStore
use psc_mock_server.StoreBacked
use psc_mock_server.StoreBacked.{StoreBackedProvider, is_config, schema_type, commit_stamped}
use psc_mock_server.StoreBacked.Writes.{Untouched, get-Untouched, get_last_set, get_last_remove}
use psc_mock_server.PowerSensor.ReadOnly.{NoConfig}
use psc_mock_server.Registry.{Registry}
use psc_mock_server.Server.{Provider, server_provider, system_config}
use psc_mock_server.Server.Commits.{server_registry, run-server_registry, writable_config}
use psc_mock_server.SetRpc.{run, prefix_text, update_path, val_or_unset}
use psc_mock_server.SetRpc.Validation.{set_ok_iff, AcceptsUpdate}
use psc_mock_server.SetRpc.Transaction.{batch_of, delete_op, update_op}

-- The configuration's leaf at a path, in a registry of the server's shape.
abbrev pub config_leaf : Registry Provider → Text → Option Leaf
config_leaf ((a, sensor) ∷ (b, system_config p) ∷ []) xpath = LeafStore.get p.store xpath
config_leaf _ xpath = none

All-last {ℓ κ} :
    {A : Type ℓ} (Q : A → Type κ) (xs : List A) (a : A) (ys : List A) → All Q (xs ++ a ∷ ys) → Q a
All-last Q [] a ys h = h.0
All-last Q (x ∷ xs) a ys h = All-last Q xs a ys h.1

config_type : (t : LeafType) → is_config t ≡ true → t ≡ config
config_type t h = ground arith

module _ (sensor settings : StoreBackedProvider) (now : ℤ) (request : SetRequest)
    (read_only : NoConfig sensor.schema)
    (accepted : (run (server_registry sensor settings) now request).2 ≡ ok) where
  abbrev before : Registry Provider
  before = server_registry sensor settings

  abbrev prefix : Text
  prefix = prefix_text request.prefix

  config_leaf-run :
      (xpath : Text)
      → config_leaf (run before now request).0 xpath
        ≡ LeafStore.get (commit_stamped settings (batch_of now prefix request)).store xpath
  config_leaf-run xpath =
      ap (λ (r : Registry Provider). config_leaf r xpath)
        (run-server_registry sensor settings now request read_only accepted)

  batch_split :
      (earlier later : List Update) (upd : Update)
      → request.update ≡ earlier ++ upd ∷ later
      → batch_of now prefix request
        ≡ (map (delete_op prefix) request.delete
            ++ (map (update_op now prefix) request.replace ++ map (update_op now prefix) earlier))
          ++ update_op now prefix upd ∷ map (update_op now prefix) later
  batch_split earlier later upd e =
      ap
        (λ (t : List Update).
          map (delete_op prefix) request.delete
          ++ (map (update_op now prefix) request.replace ++ map (update_op now prefix) t))
        e
      ∙ simp (map-append, append_assoc)

  -- After an accepted Set the path of an update that no later update of the request names again
  -- holds the value of that update, as a leaf of type Config that carries the time of the request.
  pub config_leaf-update :
      (earlier later : List Update) (upd : Update)
      → request.update ≡ earlier ++ upd ∷ later
      → Untouched (update_path prefix upd) (map (update_op now prefix) later)
      → config_leaf (run before now request).0 (update_path prefix upd)
        ≡ some (record { val = val_or_unset upd.val; collected_ns = now; leaf_type = config })
  config_leaf-update earlier later upd e untouched =
      let valid = ((set_ok_iff before now request).0 accepted).1 in
      let upd_valid =
        All-last (AcceptsUpdate before prefix) earlier upd later
          (subst (All (AcceptsUpdate before prefix)) e valid.updates) in
      let typed = config_type (schema_type settings (update_path prefix upd)) (
        unfold StoreBacked.writable in
        (writable_config sensor settings (update_path prefix upd) read_only upd_valid.2.1).1) in
      config_leaf-run (update_path prefix upd)
      ∙ ap
          (λ (b : WriteBatch).
            LeafStore.get (commit_stamped settings b).store (update_path prefix upd))
          (batch_split earlier later upd e)
      ∙ get_last_set settings (update_path prefix upd)
          (map (delete_op prefix) request.delete
            ++ (map (update_op now prefix) request.replace ++ map (update_op now prefix) earlier))
          (map (update_op now prefix) later) (val_or_unset upd.val) now untouched
      ∙ rw typed

  -- After an accepted Set a path to delete that the request neither deletes again later nor writes
  -- holds no leaf, whether or not it held one before.
  pub config_leaf-delete :
      (earlier later : List GnmiPath) (path : GnmiPath)
      → request.delete ≡ earlier ++ path ∷ later
      → Untouched (prefix ++ gnmi_to_xpath path) (
          map (delete_op prefix) later
          ++ (map (update_op now prefix) request.replace
              ++ map (update_op now prefix) request.update))
      → config_leaf (run before now request).0 (prefix ++ gnmi_to_xpath path) ≡ none
  config_leaf-delete earlier later path e untouched =
      let rest =
        map (update_op now prefix) request.replace ++ map (update_op now prefix) request.update in
      config_leaf-run (prefix ++ gnmi_to_xpath path)
      ∙ ap
          (λ (b : WriteBatch).
            LeafStore.get (commit_stamped settings b).store (prefix ++ gnmi_to_xpath path))
          (ap (λ (t : List GnmiPath). map (delete_op prefix) t ++ rest) e
            ∙ simp (map-append, append_assoc))
      ∙ get_last_remove settings (prefix ++ gnmi_to_xpath path) (map (delete_op prefix) earlier)
          (map (delete_op prefix) later ++ rest) untouched

  -- After an accepted Set a path that no operation of the request names holds what it held before.
  pub config_leaf-Untouched :
      (xpath : Text)
      → Untouched xpath (batch_of now prefix request)
      → config_leaf (run before now request).0 xpath ≡ config_leaf before xpath
  config_leaf-Untouched xpath untouched =
      config_leaf-run xpath ∙ get-Untouched settings xpath (batch_of now prefix request) untouched
