-- ===== src/LeafStore/Select.antt =====
-- What a query reads of the store.
use psc_mock_server.Prelude.{
  ◌≡◌, refl, sym, ◌∙◌, ap, true, none, List, [], ◌∷◌, ◌++◌, arith, if◌then◌else◌, Bool-cases, inl,
  inr, ltb, length, length-append, append-nil, append_assoc, is_empty, not,
}
use psc_mock_server.Prelude.Texts.{Text, eq_text_iff}
use psc_mock_server.OrderedMap.{OrderedMap, find, emplace}
use psc_mock_server.OrderedMap.Laws.{first, find-emplace}
use psc_mock_server.OrderedMap.Sorted.{IsSorted, IsSorted-emplace, Above, ext}
use psc_mock_server.Utils.{strip_path_quotes}
use psc_mock_server.Utils.PathPrefix.{is_path_prefix_refl}
use psc_mock_server.Gnmi.{Update}
use psc_mock_server.DataProvider.{Leaf, Snapshot, leaf_update}
use psc_mock_server.LeafStore.{LeafStore, selects, snapshot_from, snapshot, collect_from, collect}

find-snapshot_from :
    (query k : Text) (leaves : OrderedMap Leaf) (out : Snapshot)
    → find k (snapshot_from query leaves out)
      ≡ first (find k out) (if selects query k then find k leaves else none)
unfolding snapshot_from find
find-snapshot_from query k [] out = ground arith
find-snapshot_from query k ((path, leaf) ∷ leaves) out = ground (
  arith,
  eq_text_iff path k,
  find-emplace path k leaf out,
  find-snapshot_from query k leaves (if selects query path then emplace path leaf out else out),
)

-- A snapshot holds a path exactly when the query selects it and the store holds it, and then with
-- the leaf of the store.
pub find-snapshot :
    (store : LeafStore) (query k : Text)
    → find k (snapshot store query)
      ≡ (if selects (strip_path_quotes query) k then find k store.leaves else none)
unfolding snapshot find
find-snapshot store query k = find-snapshot_from (strip_path_quotes query) k store.leaves []

IsSorted-snapshot_from :
    (query : Text) (leaves : OrderedMap Leaf) (out : Snapshot)
    → IsSorted out
    → IsSorted (snapshot_from query leaves out)
unfolding snapshot_from
IsSorted-snapshot_from query [] out s = s
IsSorted-snapshot_from query ((path, leaf) ∷ leaves) out s =
    IsSorted-snapshot_from query leaves (if selects query path then emplace path leaf out else out)
      (ground (arith, IsSorted-emplace path leaf out s))

pub snapshot-IsSorted : (store : LeafStore) (query : Text) → IsSorted (snapshot store query)
unfolding snapshot
snapshot-IsSorted store query = IsSorted-snapshot_from (strip_path_quotes query) store.leaves [] tt

pub selects_self : (path : Text) → selects path path ≡ true
unfolding selects
selects_self path = rw (selects, is_path_prefix_refl path)

-- The entries of a map that a query selects.
abbrev pub selected : Text → OrderedMap Leaf → Snapshot
selected query [] = []
selected query ((path, leaf) ∷ leaves) =
    let rest = selected query leaves in if selects query path then (path, leaf) ∷ rest else rest

Above-selected :
    (query k : Text) (leaves : OrderedMap Leaf) → Above k leaves → Above k (selected query leaves)
Above-selected query k [] a = tt
Above-selected query k ((path, leaf) ∷ leaves) a = ground (arith, Above-selected query k leaves)

IsSorted-selected :
    (query : Text) (leaves : OrderedMap Leaf) → IsSorted leaves → IsSorted (selected query leaves)
IsSorted-selected query [] s = tt
IsSorted-selected query ((path, leaf) ∷ leaves) s =
    ground (arith, Above-selected query path leaves, IsSorted-selected query leaves)

find-selected :
    (query k : Text) (leaves : OrderedMap Leaf)
    → find k (selected query leaves) ≡ (if selects query k then find k leaves else none)
unfolding find
find-selected query k [] = ground arith
find-selected query k ((path, leaf) ∷ leaves) =
    ground (arith, eq_text_iff path k, find-selected query k leaves)

-- The snapshot of a well-formed store lists the selected entries in the store's order.
pub snapshot_lem :
    (store : LeafStore) (query : Text)
    → IsSorted store.leaves
    → snapshot store query ≡ selected (strip_path_quotes query) store.leaves
snapshot_lem store query s =
    ext (snapshot store query) (selected (strip_path_quotes query) store.leaves)
      (snapshot-IsSorted store query) (IsSorted-selected (strip_path_quotes query) store.leaves s)
      (λ k.
        find-snapshot store query k ∙ sym (find-selected (strip_path_quotes query) k store.leaves))

-- One update for each leaf of a snapshot, in its order.
abbrev pub updates_of : Snapshot → List Update
updates_of [] = []
updates_of ((path, leaf) ∷ snap) = leaf_update path leaf.val ∷ updates_of snap

collect_from_lem :
    (query : Text) (leaves : OrderedMap Leaf) (list : List Update)
    → collect_from query leaves list ≡ list ++ updates_of (selected query leaves)
unfolding collect_from
collect_from_lem query [] list = sym (append-nil list)
collect_from_lem query ((path, leaf) ∷ leaves) list = elim (Bool-cases (selects query path)) [
  | inl e ↦ rw e (
      collect_from_lem query leaves (list ++ leaf_update path leaf.val ∷ [])
      ∙ append_assoc list (leaf_update path leaf.val ∷ []) (updates_of (selected query leaves)))
  | inr e ↦ rw e (collect_from_lem query leaves list)
]

longer : (a b : List Update) → ltb (length a) (length (a ++ b)) ≡ not (is_empty b)
longer a [] = ground (arith, length-append a [])
longer a (u ∷ b) = ground (arith, length-append a (u ∷ b))

is_empty-updates_of : (snap : Snapshot) → is_empty (updates_of snap) ≡ is_empty snap
is_empty-updates_of [] = refl
is_empty-updates_of (entry ∷ snap) = refl

-- The two ways to read a well-formed store agree: `collect` appends one update for each leaf of the
-- snapshot of the same query, in its order, and answers whether the snapshot has a leaf.
pub collect-snapshot :
    (store : LeafStore) (query : Text) (list : List Update)
    → IsSorted store.leaves
    → ((collect store query list).0 ≡ list ++ updates_of (snapshot store query))
      × ((collect store query list).1 ≡ not (is_empty (snapshot store query)))
unfolding collect
collect-snapshot store query list s =
    let snap = selected (strip_path_quotes query) store.leaves in
    let after = collect_from_lem (strip_path_quotes query) store.leaves list in
    rw (snapshot_lem store query s, after)
      (refl, longer list (updates_of snap) ∙ ap not (is_empty-updates_of snap))
