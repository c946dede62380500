-- ===== src/StoreBacked.antt =====
-- src/backend/store_backed_provider.hpp: a provider over a leaf store and a declared schema.
pub mod Typed
pub mod Writes
pub mod Keys
use psc_mock_server.Prelude.{ℕ, Bool, true, false, Option, none, some, List, [], ◌∷◌, if◌then◌else◌}
use psc_mock_server.Prelude.Texts.{Text}
use psc_mock_server.Prelude.Int.{ℤ}
use psc_mock_server.OrderedMap.{OrderedMap, find, assign}
use psc_mock_server.Gnmi.{TypedValue, Update}
use psc_mock_server.Utils.{strip_path_quotes}
use psc_mock_server.DataProvider.{
  LeafType, config, state, operational, Snapshot, Kind, set, remove, WriteOp, WriteBatch, add,
  batch_set,
}
use psc_mock_server.LeafStore
use psc_mock_server.LeafStore.{LeafStore, empty_store, commit, collect}

pub record StoreBackedProvider : Type 0 where
  pub store : LeafStore
  pub schema : OrderedMap LeafType

pub record DeclaredLeaf : Type 0 where
  pub path : Text
  pub leaf_type : LeafType
  pub value : Option TypedValue
  pub collected_ns : ℤ

-- The object before `initLeaves` has run.
abbrev pub new_provider : StoreBackedProvider
new_provider = record { store = empty_store; schema = [] }

unfoldable pub fill : StoreBackedProvider → List Update → Text → List Update
unfolding collect
fill p list xpath = (collect p.store xpath list).0

unfoldable pub snapshot : StoreBackedProvider → Text → Snapshot
snapshot p xpath = LeafStore.snapshot p.store xpath

abbrev pub or_state : Option LeafType → LeafType
or_state none = state
or_state (some t) = t

unfoldable pub schema_type : StoreBackedProvider → Text → LeafType
schema_type p xpath = or_state (find (strip_path_quotes xpath) p.schema)

-- `t == LeafType::Config`
abbrev pub is_config : LeafType → Bool
is_config config = true
is_config state = false
is_config operational = false

unfoldable pub writable : StoreBackedProvider → Text → Bool
unfolding schema_type
writable p xpath = is_config (schema_type p xpath)

-- `if (op.kind == Set) op.type = schemaType(op.xpath)`
unfoldable pub stamp_kind : Kind → StoreBackedProvider → WriteOp → WriteOp
unfolding schema_type
stamp_kind set p op = record op { leaf_type = schema_type p op.xpath }
stamp_kind remove p op = op

-- The loop of `commitStamped`.
unfoldable pub stamp_all : StoreBackedProvider → WriteBatch → WriteBatch → WriteBatch
unfolding add stamp_kind
stamp_all p [] stamped = stamped
stamp_all p (op ∷ ops) stamped = stamp_all p ops (add stamped (stamp_kind op.kind p op))

unfoldable pub commit_stamped : StoreBackedProvider → WriteBatch → StoreBackedProvider
unfolding stamp_all
commit_stamped p batch = record p { store = commit p.store (stamp_all p batch []) }

abbrev pub seed_value : WriteBatch → Text → Option TypedValue → ℤ → WriteBatch
seed_value seed path none ns = seed
seed_value seed path (some value) ns = batch_set seed path value ns

-- The loop of `initLeaves`, and the commit behind it.
unfoldable pub init_from :
    List DeclaredLeaf → WriteBatch → StoreBackedProvider → StoreBackedProvider
unfolding commit_stamped batch_set
init_from [] seed p = commit_stamped p seed
init_from (d ∷ decls) seed p =
    init_from decls (seed_value seed d.path d.value d.collected_ns)
      (record p { schema = assign (strip_path_quotes d.path) d.leaf_type p.schema })

unfoldable pub init_leaves : List DeclaredLeaf → StoreBackedProvider → StoreBackedProvider
unfolding init_from
init_leaves decls p = init_from decls [] p
