-- ===== src/StoreBacked/Writes.antt =====
-- What a stamped commit leaves at one path.
use psc_mock_server.Prelude.{◌≡◌, refl, ◌∙◌, false, none, some, [], ◌∷◌, ◌++◌, All}
use psc_mock_server.Prelude.Texts.{Text, eq_text, eq_text_refl}
use psc_mock_server.Prelude.Int.{ℤ}
use psc_mock_server.Gnmi.{TypedValue}
use psc_mock_server.Utils.{strip_path_quotes}
use psc_mock_server.DataProvider.{Kind, set, remove, WriteOp, WriteBatch, set_op, remove_op}
use psc_mock_server.LeafStore
use psc_mock_server.LeafStore.Commit.{key_of, leaf_of, effect_at, verdict, settle, get-commit}
use psc_mock_server.StoreBacked.{
  StoreBackedProvider, schema_type, stamp_kind, stamp_all, commit_stamped,
}
use psc_mock_server.StoreBacked.Typed.{stamped, stamp_all_lem}

-- No operation of the batch is on the key of the path.
abbrev pub Untouched : Text → WriteBatch → Type 0
Untouched xpath batch =
    All (λ (op : WriteOp). eq_text (key_of op) (strip_path_quotes xpath) ≡ false) batch

key_of-stamp_kind :
    (p : StoreBackedProvider) (op : WriteOp) (kind : Kind)
    → key_of (stamp_kind kind p op) ≡ key_of op
unfolding stamp_kind
key_of-stamp_kind p op set = refl
key_of-stamp_kind p op remove = refl

module _ (p : StoreBackedProvider) (xpath : Text) where
  verdict-Untouched :
      (ops : WriteBatch)
      → Untouched xpath ops
      → verdict (strip_path_quotes xpath) (stamped p ops) ≡ none
  verdict-Untouched [] h = refl
  verdict-Untouched (op ∷ ops) h =
      rw (verdict-Untouched ops h.1, key_of-stamp_kind p op op.kind, h.0)

  verdict_last :
      (before after : WriteBatch) (op : WriteOp)
      → key_of op ≡ strip_path_quotes xpath
      → Untouched xpath after
      → verdict (strip_path_quotes xpath) (stamped p (before ++ op ∷ after))
        ≡ some (effect_at (stamp_kind op.kind p op).kind (leaf_of (stamp_kind op.kind p op)))
  verdict_last [] after op e h = rw (
    verdict-Untouched after h,
    key_of-stamp_kind p op op.kind,
    e,
    eq_text_refl (strip_path_quotes xpath),
  )
  verdict_last (first_op ∷ before) after op e h = rw (verdict_last before after op e h)

  get-commit_stamped :
      (batch : WriteBatch)
      → LeafStore.get (commit_stamped p batch).store xpath
        ≡ settle (verdict (strip_path_quotes xpath) (stamped p batch)) (LeafStore.get p.store xpath)
  unfolding commit_stamped
  get-commit_stamped batch =
      get-commit p.store (stamp_all p batch []) xpath ∙ rw (stamp_all_lem p batch [])

  -- A path that no operation names keeps its leaf.
  pub get-Untouched :
      (batch : WriteBatch)
      → Untouched xpath batch
      → LeafStore.get (commit_stamped p batch).store xpath ≡ LeafStore.get p.store xpath
  get-Untouched batch h = rw (get-commit_stamped batch, verdict-Untouched batch h)

  -- A path holds what the last set on it wrote, with the declared type.
  pub get_last_set :
      (before after : WriteBatch) (value : TypedValue) (now : ℤ)
      → Untouched xpath after
      → LeafStore.get (commit_stamped p (before ++ set_op xpath value now ∷ after)).store xpath
        ≡ some (record { val = value; collected_ns = now; leaf_type = schema_type p xpath })
  unfolding set_op stamp_kind
  get_last_set before after value now h = rw (
    get-commit_stamped (before ++ set_op xpath value now ∷ after),
    verdict_last before after (set_op xpath value now) refl h,
  )

  -- A path whose last operation removes it is empty.
  pub get_last_remove :
      (before after : WriteBatch)
      → Untouched xpath after
      → LeafStore.get (commit_stamped p (before ++ remove_op xpath ∷ after)).store xpath ≡ none
  unfolding remove_op stamp_kind
  get_last_remove before after h = rw (
    get-commit_stamped (before ++ remove_op xpath ∷ after),
    verdict_last before after (remove_op xpath) refl h,
  )
