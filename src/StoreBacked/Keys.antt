-- ===== src/StoreBacked/Keys.antt =====
-- The keys of a store-backed provider are those that it has declared, if no write names another.
use psc_mock_server.Prelude.{
  ◌≡◌, ◌∙◌, refl, sym, ap, Option, none, some, List, [], ◌∷◌, All, All-append, arith, inl, inr,
  Bool-cases, Option-cases,
}
use mathlib.Core.Path.{subst}
use psc_mock_server.Prelude.Texts.{Text, eq_text, eq_text_sound}
use psc_mock_server.OrderedMap.{OrderedMap, find, assign}
use psc_mock_server.OrderedMap.Laws.{find-assign}
use psc_mock_server.Utils.{strip_path_quotes}
use psc_mock_server.Gnmi.{TypedValue}
use psc_mock_server.DataProvider.{
  Snapshot, Leaf, Kind, set, remove, WriteOp, WriteBatch, set_op, batch_set, add,
}
use psc_mock_server.LeafStore.Commit.{key_of, leaf_of, effect_at, verdict, settle, find-commit}
use psc_mock_server.StoreBacked.{
  StoreBackedProvider, DeclaredLeaf, new_provider, stamp_kind, commit_stamped, init_from,
  init_leaves, seed_value,
}
use psc_mock_server.StoreBacked.Typed.{stamped, stamp_all_lem}

-- Every key of the map satisfies a predicate.
abbrev pub KeysIn : {V : Type 0} → (Text → Type 0) → OrderedMap V → Type 0
KeysIn {V = V} K m = (k : Text) (v : V) → find k m ≡ some v → K k

-- Every leaf satisfies a predicate of its key and its value.
abbrev pub LeavesIn : (Text → TypedValue → Type 0) → Snapshot → Type 0
LeavesIn Q m = (k : Text) (leaf : Leaf) → find k m ≡ some leaf → Q k leaf.val

-- The operation writes only where the predicate holds.
abbrev pub WritesIn : (Text → TypedValue → Type 0) → WriteOp → Type 0
WritesIn Q op = op.kind ≡ set → Q (key_of op) op.val

KeysIn-assign :
    {V : Type 0} (K : Text → Type 0) (k : Text) (v : V) (m : OrderedMap V)
    → K k
    → KeysIn K m
    → KeysIn K (assign k v m)
KeysIn-assign K k v m q w j u h = elim (Bool-cases (eq_text k j)) [
  | inl e ↦ subst K (eq_text_sound k j e) q
  | inr e ↦ w j u (rw (find-assign k j v m, e) at h)
]

-- A stamp leaves the key and the value as they are.
stamp_key :
    (p : StoreBackedProvider) (kind : Kind) (op : WriteOp)
    → key_of (stamp_kind kind p op) ≡ key_of op
unfolding stamp_kind
stamp_key p set op = refl
stamp_key p remove op = refl

stamp_effect :
    (p : StoreBackedProvider) (kind : Kind) (op : WriteOp) (leaf : Leaf)
    → op.kind ≡ kind
    → effect_at (stamp_kind kind p op).kind (leaf_of (stamp_kind kind p op)) ≡ some leaf
    → (op.kind ≡ set) × (op.val ≡ leaf.val)
unfolding stamp_kind
stamp_effect p set op leaf e h = ground arith
stamp_effect p remove op leaf e h = cc (rw e at h)

module _ (Q : Text → TypedValue → Type 0) where
  written_in :
      (op : WriteOp) (k : Text) (leaf : Leaf)
      → WritesIn Q op
      → key_of op ≡ k
      → (op.kind ≡ set) × (op.val ≡ leaf.val)
      → Q k leaf.val
  written_in op k leaf w e h = subst (λ x. Q x leaf.val) e (subst (Q (key_of op)) h.1 (w h.0))

  verdict_in :
      (p : StoreBackedProvider) (ops : WriteBatch) (k : Text) (leaf : Leaf)
      → All (WritesIn Q) ops
      → verdict k (stamped p ops) ≡ some (some leaf)
      → Q k leaf.val
  verdict_in p [] k leaf a h = cc
  verdict_in p (op ∷ ops) k leaf a h = elim (Option-cases (verdict k (stamped p ops))) [
    | inr (o, e) ↦ verdict_in p ops k leaf a.1 (e ∙ rw e at h)
    | inl e ↦ elim (Bool-cases (eq_text (key_of (stamp_kind op.kind p op)) k)) [
      | inl f ↦
          written_in op k leaf a.0
            (sym (stamp_key p op.kind op) ∙ eq_text_sound (key_of (stamp_kind op.kind p op)) k f)
            (stamp_effect p op.kind op leaf refl (cc (rw (e, f) at h)))
      | inr f ↦ cc (rw (e, f) at h)
    ]
  ]

  settle_in :
      (p : StoreBackedProvider) (ops : WriteBatch) (k : Text) (leaf : Leaf)
      (o : Option (Option Leaf))
      → All (WritesIn Q) ops
      → LeavesIn Q p.store.leaves
      → verdict k (stamped p ops) ≡ o
      → settle o (find k p.store.leaves) ≡ some leaf
      → Q k leaf.val
  settle_in p ops k leaf none a w e h = w k leaf h
  settle_in p ops k leaf (some o) a w e h = verdict_in p ops k leaf a (e ∙ ap some h)

  -- A commit whose writes satisfy a predicate keeps a store whose leaves do.
  pub LeavesIn-commit_stamped :
      (p : StoreBackedProvider) (batch : WriteBatch)
      → LeavesIn Q p.store.leaves
      → All (WritesIn Q) batch
      → LeavesIn Q (commit_stamped p batch).store.leaves
  unfolding commit_stamped
  LeavesIn-commit_stamped p batch w a k leaf h =
      settle_in p batch k leaf (verdict k (stamped p batch)) a w refl
        (rw (stamp_all_lem p batch []) at (sym (find-commit p.store _ k) ∙ h))

  -- A declared leaf, at its key, satisfies a predicate with its value, if it has one.
  abbrev pub DeclaresIn : DeclaredLeaf → Type 0
  DeclaresIn d = (v : TypedValue) → d.value ≡ some v → Q (strip_path_quotes d.path) v

  seed_in :
      (seed : WriteBatch) (d : DeclaredLeaf) (o : Option TypedValue)
      → All (WritesIn Q) seed
      → DeclaresIn d
      → d.value ≡ o
      → All (WritesIn Q) (seed_value seed d.path o d.collected_ns)
  unfolding batch_set add set_op
  seed_in seed d none a q e = a
  seed_in seed d (some v) a q e =
      All-append (WritesIn Q) seed (set_op d.path v d.collected_ns ∷ []) a ((λ h. q v e), tt)

  LeavesIn-init_from :
      (decls : List DeclaredLeaf) (seed : WriteBatch) (p : StoreBackedProvider)
      → All DeclaresIn decls
      → All (WritesIn Q) seed
      → LeavesIn Q p.store.leaves
      → LeavesIn Q (init_from decls seed p).store.leaves
  unfolding init_from
  LeavesIn-init_from [] seed p d a w = LeavesIn-commit_stamped p seed w a
  LeavesIn-init_from (x ∷ decls) seed p d a w =
      LeavesIn-init_from decls (seed_value seed x.path x.value x.collected_ns)
        (record p { schema = assign (strip_path_quotes x.path) x.leaf_type p.schema }) d.1
        (seed_in seed x x.value a d.0 refl) w

  -- A provider that a constructor has initialised holds declared leaves.
  pub LeavesIn-init_leaves :
      (decls : List DeclaredLeaf)
      → All DeclaresIn decls
      → LeavesIn Q (init_leaves decls new_provider).store.leaves
  unfolding init_leaves find
  LeavesIn-init_leaves decls d = LeavesIn-init_from decls [] new_provider d tt (λ k leaf e. cc)

module _ (K : Text → Type 0) where
  KeysIn-init_from :
      (decls : List DeclaredLeaf) (seed : WriteBatch) (p : StoreBackedProvider)
      → All (λ (d : DeclaredLeaf). K (strip_path_quotes d.path)) decls
      → KeysIn K p.schema
      → KeysIn K (init_from decls seed p).schema
  unfolding init_from commit_stamped
  KeysIn-init_from [] seed p d s = s
  KeysIn-init_from (x ∷ decls) seed p d s =
      KeysIn-init_from decls (seed_value seed x.path x.value x.collected_ns)
        (record p { schema = assign (strip_path_quotes x.path) x.leaf_type p.schema }) d.1
        (KeysIn-assign K (strip_path_quotes x.path) x.leaf_type p.schema d.0 s)

  -- Its schema has the declared paths as keys.
  pub KeysIn-init_leaves :
      (decls : List DeclaredLeaf)
      → All (λ (d : DeclaredLeaf). K (strip_path_quotes d.path)) decls
      → KeysIn K (init_leaves decls new_provider).schema
  unfolding init_leaves find
  KeysIn-init_leaves decls d = KeysIn-init_from decls [] new_provider d (λ k t e. cc)
