-- ===== src/SetRpc.antt =====
-- src/gnmi/set.h and set.cpp: the Set RPC. It changes the registry's providers; `now` is what
-- `get_time_nanosec` returns.
pub mod Validation
pub mod Transaction
use psc_mock_server.Prelude.{
  ℕ, Bool, true, false, not, ◌||◌, Option, none, some, List, [], ◌∷◌, ◌++◌, if◌then◌else◌, ltb,
}
use psc_mock_server.Prelude.Texts.{Text}
use psc_mock_server.Prelude.Int.{ℤ, pos}
use psc_mock_server.Gnmi.{
  TypedValue, unset, GnmiPath, empty_path, Update, Status, ok, error, not_found, invalid_argument,
  unimplemented, path_not_found, path_is_read_only, update_missing_path_or_value,
  extensions_not_implemented,
}
use psc_mock_server.Gnmi.Requests.{
  SetRequest, SetResponse, UpdateResult, Operation, delete, replace, update,
}
use psc_mock_server.Utils.{gnmi_to_xpath}
use psc_mock_server.DataProvider.{DataProvider, WriteBatch, batch_set, batch_remove}
use psc_mock_server.Registry
use psc_mock_server.Registry.{Registry, WriteResult}

-- The reading of a field that may be unset.
abbrev pub path_or_empty : Option GnmiPath → GnmiPath
path_or_empty none = empty_path
path_or_empty (some path) = path

abbrev pub val_or_unset : Option TypedValue → TypedValue
val_or_unset none = unset
val_or_unset (some val) = val

abbrev has {ℓ} : {A : Type ℓ} → Option A → Bool
has none = false
has (some a) = true

-- The status for what the registry says of a path.
unfoldable pub writable_status : Text → WriteResult → Status
writable_status xpath wr =
    if not wr.routed
    then error not_found (path_not_found xpath)
    else if not wr.applied
    then error invalid_argument (path_is_read_only xpath)
    else ok

-- `prefix`: the printed prefix of the request, or the empty text
abbrev pub prefix_text : Option GnmiPath → Text
prefix_text none = []
prefix_text (some prefix) = gnmi_to_xpath prefix

-- The path of one operation, behind the prefix.
abbrev pub update_path : Text → Update → Text
update_path prefix upd = prefix ++ gnmi_to_xpath (path_or_empty upd.path)

-- Phase 2: the loops fill the batch and the responses. One update or replace:
unfoldable pub add_updates :
    Operation
    → ℤ
    → Text
    → List Update
    → WriteBatch × List UpdateResult
    → WriteBatch × List UpdateResult
unfolding batch_set
add_updates op now prefix [] acc = acc
add_updates op now prefix (upd ∷ upds) (batch, responses) = add_updates op now prefix upds (
  batch_set batch (update_path prefix upd) (val_or_unset upd.val) now,
  responses ++ (record { path = path_or_empty upd.path; op = op } ∷ []),
)

unfoldable pub add_deletes :
    Text → List GnmiPath → WriteBatch × List UpdateResult → WriteBatch × List UpdateResult
unfolding batch_remove
add_deletes prefix [] acc = acc
add_deletes prefix (path ∷ paths) (batch, responses) = add_deletes prefix paths (
  batch_remove batch (prefix ++ gnmi_to_xpath path),
  responses ++ (record { path = path; op = delete } ∷ []),
)

-- The batch and the responses of a whole request, in the order delete, replace, update.
unfoldable pub build_batch : ℤ → Text → SetRequest → WriteBatch × List UpdateResult
unfolding add_updates add_deletes
build_batch now prefix request =
    add_updates update now prefix request.update
      (add_updates replace now prefix request.replace (add_deletes prefix request.delete ([], [])))

module _ {P : Type 0} ⦃i : DataProvider P⦄ where
  unfoldable pub check_writable : Registry P → Text → Status
  unfolding writable_status
  check_writable registry xpath = writable_status xpath (Registry.writable registry xpath)

  unfoldable pub validate_write : Registry P → Update → Text → Status
  unfolding check_writable
  validate_write registry upd prefix =
      if not (has upd.path) || not (has upd.val)
      then error invalid_argument update_missing_path_or_value
      else check_writable registry (update_path prefix upd)

  -- The loops of phase 1: the first status that is not OK.
  unfoldable pub validate_deletes : Registry P → Text → List GnmiPath → Status
  unfolding check_writable
  validate_deletes registry prefix [] = ok
  validate_deletes registry prefix (path ∷ paths) =
      let rest = validate_deletes registry prefix paths in
      elim (check_writable registry (prefix ++ gnmi_to_xpath path)) [
        | ok ↦ rest
        | error c m ↦ error c m
      ]

  unfoldable pub validate_updates : Registry P → Text → List Update → Status
  unfolding validate_write
  validate_updates registry prefix [] = ok
  validate_updates registry prefix (upd ∷ upds) =
      let rest = validate_updates registry prefix upds in
      elim (validate_write registry upd prefix) [ ok ↦ rest | error c m ↦ error c m ]

  unfoldable pub validate : Registry P → Text → SetRequest → Status
  unfolding validate_deletes validate_updates
  validate registry prefix request = elim (validate_deletes registry prefix request.delete) [
    | error c m ↦ error c m
    | ok ↦ elim (validate_updates registry prefix request.replace) [
      | error c m ↦ error c m
      | ok ↦ validate_updates registry prefix request.update
    ]
  ]

  -- Phase 2, and what is returned: the registry, the response and the status.
  unfoldable pub apply_request : Registry P → ℤ → SetRequest → Registry P × SetResponse × Status
  unfolding build_batch
  apply_request registry now request =
      let (batch, responses) = build_batch now (prefix_text request.prefix) request in
      (
        (Registry.commit registry batch).0,
        record { prefix = request.prefix; response = responses; timestamp = now },
        ok,
      )

  -- `Set::run`
  unfoldable pub run : Registry P → ℤ → SetRequest → Registry P × SetResponse × Status
  unfolding validate apply_request
  run registry now request =
      if ltb 0 request.extension_size
      then (
        registry,
        record { prefix = none; response = []; timestamp = pos 0 },
        error unimplemented extensions_not_implemented,
      )
      else elim (validate registry (prefix_text request.prefix) request) [
        | error c m ↦ (
          registry,
          record { prefix = request.prefix; response = []; timestamp = now },
          error c m,
        )
        | ok ↦ apply_request registry now request
      ]
