-- ===== src/Tests/StoreTests.antt =====
-- Stores, snapshots and differences.
use psc_mock_server.Prelude.{
  ◌≡◌, ◌≢◌, ◌↔◌, refl, true, not, none, some, List, [], ◌∷◌, ◌++◌, is_empty,
}
use psc_mock_server.Prelude.Texts.{codes, eq_text, lt_text}
use psc_mock_server.Prelude.Int.{pos}
use psc_mock_server.OrderedMap.{find}
use psc_mock_server.OrderedMap.Sorted.{IsSorted}
use psc_mock_server.Gnmi.{uint_val}
use psc_mock_server.Utils.{strip_path_quotes}
use psc_mock_server.DataProvider.{config, Leaf, set_op, remove_op}
use psc_mock_server.LeafStore
use psc_mock_server.LeafStore.{LeafStore, diff, selects}
use psc_mock_server.LeafStore.Commit.{verdict, settle, get-commit}
use psc_mock_server.LeafStore.Select.{collect-snapshot, updates_of}
use psc_mock_server.LeafStore.Diff.{value_at, contains, patch, diff_exact, patch-diff}
use psc_mock_server.StoreBacked
use psc_mock_server.StoreBacked.{DeclaredLeaf, StoreBackedProvider, new_provider, init_leaves}
use psc_mock_server.StoreBacked.Typed.{config-writable, init_leaves-IsTyped}
use psc_mock_server.Tests.Data.{previous, current, serialize}

sorted : IsSorted current
unfolding lt_text
sorted = ((refl, tt), (tt, tt))

patch-diff_example :
    value_at serialize (find (codes "/a") (patch (diff serialize previous current) previous))
    ≡ value_at serialize (find (codes "/a") current)
patch-diff_example = patch-diff serialize previous current (codes "/a") sorted

removed_is_listed : (diff serialize previous current).removed ≡ codes "/b" ∷ []
unfolding diff find eq_text
removed_is_listed = refl

diff_exact_example :
    ((leaf : Leaf)
      → (find (codes "/b") (diff serialize previous current).updated ≡ some leaf) ↔ (
          (find (codes "/b") current ≡ some leaf)
          × (value_at serialize (find (codes "/b") previous) ≢ some (serialize leaf.val))))
    × ((contains (codes "/b") (diff serialize previous current).removed ≡ true)
        ↔ ((find (codes "/b") previous ≢ none) × (find (codes "/b") current ≡ none)))
diff_exact_example = diff_exact serialize previous current (codes "/b") sorted

abbrev store : LeafStore
store = record { leaves = current }

get-commit_example :
    LeafStore.get
      (LeafStore.commit store
        (set_op (codes "/a") (uint_val 9) (pos 3) ∷ remove_op (codes "/c") ∷ []))
      (codes "/a")
    ≡ settle
        (verdict
          (strip_path_quotes (codes "/a"))
          (set_op (codes "/a") (uint_val 9) (pos 3) ∷ remove_op (codes "/c") ∷ []))
        (LeafStore.get store (codes "/a"))
get-commit_example =
    get-commit store (set_op (codes "/a") (uint_val 9) (pos 3) ∷ remove_op (codes "/c") ∷ [])
      (codes "/a")

collect-snapshot_example :
    ((LeafStore.collect store (codes "/a") []).0
      ≡ [] ++ updates_of (LeafStore.snapshot store (codes "/a")))
    × ((LeafStore.collect store (codes "/a") []).1
        ≡ not (is_empty (LeafStore.snapshot store (codes "/a"))))
collect-snapshot_example = collect-snapshot store (codes "/a") [] sorted

abbrev declared : List DeclaredLeaf
declared =
    record {
      path = codes "/x";
      leaf_type = config;
      value = some (uint_val 1);
      collected_ns = pos 1;
    }
    ∷ []

abbrev provider : StoreBackedProvider
provider = init_leaves declared new_provider

seeded : Leaf
seeded = record { val = uint_val 1; collected_ns = pos 1; leaf_type = config }

seeded_found : find (codes "/x") (StoreBacked.snapshot provider (codes "/x")) ≡ some seeded
unfolding seeded StoreBacked.snapshot LeafStore.snapshot selects init_leaves LeafStore.commit find
    psc_mock_server.OrderedMap.assign psc_mock_server.OrderedMap.emplace eq_text lt_text
    strip_path_quotes psc_mock_server.Utils.is_path_prefix
seeded_found = refl

config-writable_example :
    (seeded.leaf_type ≡ config) ↔ (StoreBacked.writable provider (codes "/x") ≡ true)
config-writable_example =
    config-writable provider (codes "/x") (codes "/x") seeded (init_leaves-IsTyped declared)
      seeded_found
