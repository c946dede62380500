-- ===== src/StoreBacked/Typed.antt =====
-- Every leaf of a store-backed provider carries the type that its schema declares.
use psc_mock_server.Prelude.{
  ◌≡◌, ◌↔◌, refl, sym, ◌∙◌, true, Option, none, some, List, [], ◌∷◌, ◌++◌, arith, Bool-cases,
  Option-cases, inl, inr, append-nil, append_assoc,
}
use psc_mock_server.Prelude.Texts.{Text, eq_text, eq_text_sound}
use psc_mock_server.OrderedMap.{OrderedMap, find}
use psc_mock_server.OrderedMap.Sorted.{IsSorted}
use psc_mock_server.Utils.{strip_path_quotes}
use psc_mock_server.Utils.PathPrefix.{strip_path_quotes_idem}
use psc_mock_server.DataProvider.{
  LeafType, config, Leaf, Kind, set, remove, WriteOp, WriteBatch, add,
}
use psc_mock_server.LeafStore.Commit.{
  key_of, leaf_of, effect_at, verdict, settle, find-commit, commit-IsWellFormed,
}
use psc_mock_server.LeafStore.Select.{find-snapshot}
use psc_mock_server.StoreBacked.{
  StoreBackedProvider, DeclaredLeaf, new_provider, or_state, schema_type, is_config, writable,
  stamp_kind, stamp_all, commit_stamped, init_from, init_leaves, snapshot,
}

-- The declared type of a store key.
abbrev pub type_at : StoreBackedProvider → Text → LeafType
type_at p k = or_state (find k p.schema)

-- A leaf may stand at a key: the key has no quotes, and the type is that of the schema.
pub record Fits (p : StoreBackedProvider) (k : Text) (leaf : Leaf) : Type 0 where
  pub normal : strip_path_quotes k ≡ k
  pub typed : leaf.leaf_type ≡ type_at p k

-- The keys are in order, and every leaf fits its key.
pub record IsTyped (p : StoreBackedProvider) : Type 0 where
  pub sorted : IsSorted p.store.leaves
  pub fits : (k : Text) (leaf : Leaf) → find k p.store.leaves ≡ some leaf → Fits p k leaf

-- `commitStamped` commits this batch.
abbrev pub stamped : StoreBackedProvider → WriteBatch → WriteBatch
stamped p [] = []
stamped p (op ∷ ops) = stamp_kind op.kind p op ∷ stamped p ops

pub stamp_all_lem :
    (p : StoreBackedProvider) (ops out : WriteBatch) → stamp_all p ops out ≡ out ++ stamped p ops
unfolding stamp_all add
stamp_all_lem p [] out = sym (append-nil out)
stamp_all_lem p (op ∷ ops) out =
    stamp_all_lem p ops (out ++ stamp_kind op.kind p op ∷ [])
    ∙ append_assoc out (stamp_kind op.kind p op ∷ []) (stamped p ops)

stamp_Fits :
    (p : StoreBackedProvider) (op : WriteOp) (kind : Kind) (k : Text) (leaf : Leaf)
    → op.kind ≡ kind
    → eq_text (key_of (stamp_kind kind p op)) k ≡ true
    → effect_at (stamp_kind kind p op).kind (leaf_of (stamp_kind kind p op)) ≡ some leaf
    → Fits p k leaf
unfolding stamp_kind schema_type
stamp_Fits p op set k leaf i e h =
    let at : strip_path_quotes op.xpath ≡ k = eq_text_sound (strip_path_quotes op.xpath) k e in
    record {
      normal = rw (← at) (strip_path_quotes_idem op.xpath);
      typed = rw (← at) (ground arith);
    }
stamp_Fits p op remove k leaf i e h = ground arith

verdict-Fits :
    (p : StoreBackedProvider) (ops : WriteBatch) (k : Text) (leaf : Leaf)
    → verdict k (stamped p ops) ≡ some (some leaf)
    → Fits p k leaf
verdict-Fits p [] k leaf h = cc
verdict-Fits p (op ∷ ops) k leaf h = elim (Option-cases (verdict k (stamped p ops))) [
  | inl e ↦ elim (Bool-cases (eq_text (key_of (stamp_kind op.kind p op)) k)) [
    | inl f ↦ stamp_Fits p op op.kind k leaf refl f (ground arith)
    | inr f ↦ ground arith
  ]
  | inr (o, e) ↦ verdict-Fits p ops k leaf (ground arith)
]

settle-Fits :
    (p : StoreBackedProvider) (batch : WriteBatch) (k : Text) (leaf : Leaf)
    (o : Option (Option Leaf))
    → IsTyped p
    → verdict k (stamped p batch) ≡ o
    → settle o (find k p.store.leaves) ≡ some leaf
    → Fits p k leaf
settle-Fits p batch k leaf none t e h = t.fits k leaf h
settle-Fits p batch k leaf (some o) t e h = verdict-Fits p batch k leaf (cc)

-- Every write of a store-backed provider, whether a seed, a Set or a tick, keeps it well typed.
pub commit_stamped-IsTyped :
    (p : StoreBackedProvider) (batch : WriteBatch) → IsTyped p → IsTyped (commit_stamped p batch)
unfolding commit_stamped
commit_stamped-IsTyped p batch t = record {
  sorted = commit-IsWellFormed p.store (stamp_all p batch []) t.sorted;
  fits = λ k leaf h.
      let found = sym (find-commit p.store (stamp_all p batch []) k) ∙ h in
      let fit =
        settle-Fits p batch k leaf (verdict k (stamped p batch)) t refl
          (rw (stamp_all_lem p batch []) at found) in
      record { normal = fit.normal; typed = fit.typed };
}

init_from-IsTyped :
    (decls : List DeclaredLeaf) (seed : WriteBatch) (schema : OrderedMap LeafType)
    → IsTyped (init_from decls seed (record new_provider { schema = schema }))
unfolding init_from
init_from-IsTyped [] seed schema =
    commit_stamped-IsTyped (record new_provider { schema = schema }) seed
      (record { sorted = tt; fits = λ k leaf h. unfold find in cc h })
init_from-IsTyped (d ∷ decls) seed schema = init_from-IsTyped decls _ _

-- A provider that a constructor has initialised is well typed, whatever leaves it declares.
pub init_leaves-IsTyped : (decls : List DeclaredLeaf) → IsTyped (init_leaves decls new_provider)
unfolding init_leaves
init_leaves-IsTyped decls = init_from-IsTyped decls [] []

is_config_iff : (t : LeafType) → (t ≡ config) ↔ (is_config t ≡ true)
is_config_iff t = ground arith

-- In every snapshot of a well-typed provider the leaves of type Config are exactly those at paths
-- that a client may write.
pub config-writable :
    (p : StoreBackedProvider) (query k : Text) (leaf : Leaf)
    → IsTyped p
    → find k (snapshot p query) ≡ some leaf
    → (leaf.leaf_type ≡ config) ↔ (writable p k ≡ true)
unfolding snapshot writable schema_type
config-writable p query k leaf t h =
    let fit = t.fits k leaf (ground (arith, find-snapshot p.store query k)) in
    rw (fit.typed, fit.normal) (is_config_iff (type_at p k))
