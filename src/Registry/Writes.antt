-- ===== src/Registry/Writes.antt =====
-- The write side of the registry: each provider gets the operations that its prefix owns.
use psc_mock_server.Prelude.{
  ◌≡◌, sym, ◌∙◌, Bool, true, false, ◌||◌, ◌&&◌, not, [], ◌∷◌, ◌++◌, arith, if◌then◌else◌,
  Bool-cases, inl, inr, select, is_empty, append-nil, append_assoc,
}
use psc_mock_server.Prelude.Texts.{Text}
use psc_mock_server.DataProvider.{DataProvider, WriteBatch, add}
use psc_mock_server.Registry.{Registry, WriteResult, matches, slice_for, commit_routes, commit}

-- The operations of a batch that a prefix owns, in batch order.
abbrev pub owned : Text → WriteBatch → WriteBatch
owned prefix batch = select (λ op. matches op.xpath prefix) batch

slice_for_lem :
    (prefix : Text) (ops slice : WriteBatch)
    → slice_for prefix ops slice ≡ slice ++ owned prefix ops
unfolding slice_for add
slice_for_lem prefix [] slice = sym (append-nil slice)
slice_for_lem prefix (op ∷ ops) slice = elim (Bool-cases (matches op.xpath prefix)) [
  | inl e ↦ rw e (
      slice_for_lem prefix ops (slice ++ op ∷ []) ∙ append_assoc slice (op ∷ []) (owned prefix ops))
  | inr e ↦ rw e (slice_for_lem prefix ops slice)
]

module _ {P : Type 0} ⦃i : DataProvider P⦄ where
  -- Every provider with its own operations applied, and untouched if it owns none.
  abbrev pub commit_each : Registry P → WriteBatch → Registry P
  commit_each [] batch = []
  commit_each ((prefix, provider) ∷ routes) batch =
      let slice = owned prefix batch in
      (prefix, (if is_empty slice then provider else (i.apply_batch provider slice).0))
      ∷ commit_each routes batch

  -- Some provider owns an operation; some provider accepted its operations.
  abbrev pub any_owner : Registry P → WriteBatch → Bool
  any_owner [] batch = false
  any_owner ((prefix, provider) ∷ routes) batch =
      not (is_empty (owned prefix batch)) || any_owner routes batch

  abbrev pub any_accepts : Registry P → WriteBatch → Bool
  any_accepts [] batch = false
  any_accepts ((prefix, provider) ∷ routes) batch =
      let slice = owned prefix batch in
      (not (is_empty slice) && (i.apply_batch provider slice).1) || any_accepts routes batch

  commit_routes_lem :
      (routes : Registry P) (batch : WriteBatch) (res : WriteResult)
      → commit_routes routes batch res ≡ (
        commit_each routes batch,
        record {
          routed = res.routed || any_owner routes batch;
          applied = res.applied || any_accepts routes batch;
        },
      )
  unfolding commit_routes
  commit_routes_lem [] batch res = ground arith
  commit_routes_lem ((prefix, provider) ∷ routes) batch res =
      rw (slice_for_lem prefix batch []) (elim (Bool-cases (is_empty (owned prefix batch))) [
        | inl none_owned ↦ rw none_owned (rw (commit_routes_lem routes batch res))
        | inr some_owned ↦
            let accepted = (i.apply_batch provider (owned prefix batch)).1 in
            let res' : WriteResult = record {
              routed = true;
              applied = if accepted then true else res.applied;
            } in
            rw some_owned (rw (commit_routes_lem routes batch res') (ground arith))
      ])

  -- A commit applies to every provider, once, exactly the operations that its prefix owns, in batch
  -- order; it is routed when some provider owns an operation, and applied when some provider
  -- accepts its operations.
  pub commit_lem :
      (registry : Registry P) (batch : WriteBatch)
      → commit registry batch ≡ (
        commit_each registry batch,
        record { routed = any_owner registry batch; applied = any_accepts registry batch },
      )
  unfolding commit
  commit_lem registry batch =
      commit_routes_lem registry batch (record { routed = false; applied = false })
