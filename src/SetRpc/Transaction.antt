-- ===== src/SetRpc/Transaction.antt =====
-- Phase 2 of Set: the batch that a valid request commits, and the results that it reports.
use psc_mock_server.Prelude.{◌≡◌, List, [], ◌∷◌, ◌++◌, arith, map, append-nil, append_assoc}
use psc_mock_server.Prelude.Texts.{Text}
use psc_mock_server.Prelude.Int.{ℤ}
use psc_mock_server.Gnmi.{GnmiPath, Update, ok}
use psc_mock_server.Gnmi.Requests.{SetRequest, UpdateResult, Operation, delete, replace, update}
use psc_mock_server.Utils.{gnmi_to_xpath}
use psc_mock_server.DataProvider.{
  DataProvider, WriteOp, WriteBatch, set_op, remove_op, batch_set, batch_remove,
}
use psc_mock_server.Registry.{Registry}
use psc_mock_server.Registry.Writes.{commit_each, commit_lem}
use psc_mock_server.SetRpc.{
  path_or_empty, val_or_unset, prefix_text, update_path, add_updates, add_deletes, build_batch,
  apply_request, run,
}
use psc_mock_server.SetRpc.Validation.{IsValid, validate_iff}

-- The operation for a path to delete, and for an update or replace.
abbrev pub delete_op : Text → GnmiPath → WriteOp
delete_op prefix path = remove_op (prefix ++ gnmi_to_xpath path)

abbrev pub update_op : ℤ → Text → Update → WriteOp
update_op now prefix upd = set_op (update_path prefix upd) (val_or_unset upd.val) now

abbrev pub result_of : Operation → Update → UpdateResult
result_of op upd = record { path = path_or_empty upd.path; op = op }

abbrev pub delete_result : GnmiPath → UpdateResult
delete_result path = record { path = path; op = delete }

-- The operations of a request: its deletes, then its replaces, then its updates.
abbrev pub batch_of : ℤ → Text → SetRequest → WriteBatch
batch_of now prefix request =
    map (delete_op prefix) request.delete
    ++ (map (update_op now prefix) request.replace ++ map (update_op now prefix) request.update)

abbrev pub results_of : SetRequest → List UpdateResult
results_of request =
    map delete_result request.delete
    ++ (map (result_of replace) request.replace ++ map (result_of update) request.update)

add_updates_lem :
    (op : Operation) (now : ℤ) (prefix : Text) (upds : List Update) (batch : WriteBatch)
    (responses : List UpdateResult)
    → add_updates op now prefix upds (batch, responses)
      ≡ (batch ++ map (update_op now prefix) upds, responses ++ map (result_of op) upds)
unfolding add_updates batch_set
add_updates_lem op now prefix [] batch responses = simp append-nil
add_updates_lem op now prefix (upd ∷ upds) batch responses =
    simp (add_updates_lem op now prefix upds, append_assoc)

add_deletes_lem :
    (prefix : Text) (paths : List GnmiPath) (batch : WriteBatch) (responses : List UpdateResult)
    → add_deletes prefix paths (batch, responses)
      ≡ (batch ++ map (delete_op prefix) paths, responses ++ map delete_result paths)
unfolding add_deletes batch_remove
add_deletes_lem prefix [] batch responses = simp append-nil
add_deletes_lem prefix (path ∷ paths) batch responses =
    simp (add_deletes_lem prefix paths, append_assoc)

build_batch_lem :
    (now : ℤ) (prefix : Text) (request : SetRequest)
    → build_batch now prefix request ≡ (batch_of now prefix request, results_of request)
unfolding build_batch
build_batch_lem now prefix request = simp (add_deletes_lem, add_updates_lem, append_assoc)

module _ {P : Type 0} ⦃i : DataProvider P⦄ (registry : Registry P) (now : ℤ)
    (request : SetRequest) where
  -- A valid Set commits the operations of the request to the providers that own them, deletes
  -- first, then replaces, then updates, and reports one result for each, in that order, with the
  -- request's prefix and the time that every written leaf carries.
  pub run-IsValid :
      request.extension_size ≡ 0
      → IsValid registry (prefix_text request.prefix) request
      → run registry now request ≡ (
        commit_each registry (batch_of now (prefix_text request.prefix) request),
        record { prefix = request.prefix; response = results_of request; timestamp = now },
        ok,
      )
  unfolding run apply_request
  run-IsValid no_extension valid =
      let batch = batch_of now (prefix_text request.prefix) request in
      ground (
        arith,
        (validate_iff registry (prefix_text request.prefix) request).1 valid,
        build_batch_lem now (prefix_text request.prefix) request,
        commit_lem registry batch,
      )
