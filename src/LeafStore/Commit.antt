-- ===== src/LeafStore/Commit.antt =====
-- What a committed batch leaves in the store: the last operation on each key decides.
use psc_mock_server.Prelude.{
  ◌≡◌, refl, ◌∙◌, ap, Option, none, some, [], ◌∷◌, ◌++◌, arith, if◌then◌else◌,
}
use psc_mock_server.Prelude.Texts.{Text, eq_text}
use psc_mock_server.OrderedMap.{OrderedMap, find}
use psc_mock_server.OrderedMap.Laws.{first, find-assign, find-erase}
use psc_mock_server.OrderedMap.Sorted.{IsSorted, IsSorted-assign, IsSorted-erase}
use psc_mock_server.Utils.{strip_path_quotes}
use psc_mock_server.DataProvider.{Leaf, Kind, set, remove, WriteOp, WriteBatch}
use psc_mock_server.LeafStore.{LeafStore, apply_kind, apply_op, apply_ops, commit, get}

-- The store key of an operation, and the leaf that it writes there, `none` for a removal.
abbrev pub key_of : WriteOp → Text
key_of op = strip_path_quotes op.xpath

abbrev pub leaf_of : WriteOp → Leaf
leaf_of op = record { val = op.val; collected_ns = op.collected_ns; leaf_type = op.leaf_type }

abbrev pub effect_at : Kind → Leaf → Option Leaf
effect_at set leaf = some leaf
effect_at remove leaf = none

-- What the batch says of a key: nothing, or what its last operation on that key leaves there.
abbrev pub verdict : Text → WriteBatch → Option (Option Leaf)
verdict k [] = none
verdict k (op ∷ ops) =
    first (verdict k ops)
      (if eq_text (key_of op) k then some (effect_at op.kind (leaf_of op)) else none)

-- What a reader finds at a key before which stood `old`.
abbrev pub settle {ℓ} : {A : Type ℓ} → Option A → A → A
settle (some now) old = now
settle none old = old

find-apply_kind :
    (kind : Kind) (k j : Text) (leaf : Leaf) (m : OrderedMap Leaf)
    → find j (apply_kind kind k leaf m) ≡ (if eq_text k j then effect_at kind leaf else find j m)
unfolding apply_kind
find-apply_kind set k j leaf m = find-assign k j leaf m
find-apply_kind remove k j leaf m = find-erase k j m

pub find-apply_ops :
    (j : Text) (ops : WriteBatch) (m : OrderedMap Leaf)
    → find j (apply_ops ops m) ≡ settle (verdict j ops) (find j m)
unfolding apply_ops apply_op
find-apply_ops j [] m = refl
find-apply_ops j (op ∷ ops) m =
    find-apply_ops j ops (apply_op op m)
    ∙ ground (arith, find-apply_kind op.kind (key_of op) j (leaf_of op) m)

-- After a commit a reader finds at each path what the last operation of the batch on that path left
-- there, and at a path that the batch does not name what was there before.
pub get-commit :
    (store : LeafStore) (batch : WriteBatch) (xpath : Text)
    → get (commit store batch) xpath
      ≡ settle (verdict (strip_path_quotes xpath) batch) (get store xpath)
unfolding get commit
get-commit store batch xpath = find-apply_ops (strip_path_quotes xpath) batch store.leaves

pub find-commit :
    (store : LeafStore) (batch : WriteBatch) (k : Text)
    → find k (commit store batch).leaves ≡ settle (verdict k batch) (find k store.leaves)
unfolding commit
find-commit store batch k = find-apply_ops k batch store.leaves

-- The keys of a store stand in order, as in a `std::map`.
abbrev pub IsWellFormed : LeafStore → Type 0
IsWellFormed store = IsSorted store.leaves

IsSorted-apply_kind :
    (kind : Kind) (k : Text) (leaf : Leaf) (m : OrderedMap Leaf)
    → IsSorted m
    → IsSorted (apply_kind kind k leaf m)
unfolding apply_kind
IsSorted-apply_kind set k leaf m s = IsSorted-assign k leaf m s
IsSorted-apply_kind remove k leaf m s = IsSorted-erase k m s

IsSorted-apply_ops :
    (ops : WriteBatch) (m : OrderedMap Leaf) → IsSorted m → IsSorted (apply_ops ops m)
unfolding apply_ops apply_op
IsSorted-apply_ops [] m s = s
IsSorted-apply_ops (op ∷ ops) m s =
    IsSorted-apply_ops ops (apply_op op m)
      (IsSorted-apply_kind op.kind (key_of op) (leaf_of op) m s)

pub commit-IsWellFormed :
    (store : LeafStore) (batch : WriteBatch)
    → IsWellFormed store
    → IsWellFormed (commit store batch)
unfolding commit
commit-IsWellFormed store batch s = IsSorted-apply_ops batch store.leaves s

apply_ops-append :
    (a b : WriteBatch) (m : OrderedMap Leaf) → apply_ops (a ++ b) m ≡ apply_ops b (apply_ops a m)
unfolding apply_ops
apply_ops-append [] b m = refl
apply_ops-append (op ∷ a) b m = apply_ops-append a b (apply_op op m)

-- Committing two batches one behind the other is committing their concatenation.
pub commit-append :
    (store : LeafStore) (a b : WriteBatch) → commit store (a ++ b) ≡ commit (commit store a) b
unfolding commit
commit-append store a b =
    ap (λ (m : OrderedMap Leaf). record { leaves = m }) (apply_ops-append a b store.leaves)
