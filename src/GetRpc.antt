-- ===== src/GetRpc.antt =====
-- src/gnmi/get.h and get.cpp: the Get RPC. `clock` is read as in Emit, for each requested path.
pub mod Filter
pub mod Answer
use psc_mock_server.Prelude.{
  ℕ, zero, suc, Bool, true, false, not, ◌&&◌, ◌||◌, Option, none, some, List, [], ◌∷◌, ◌++◌,
  if◌then◌else◌, ltb, is_empty,
}
use psc_mock_server.Prelude.Texts.{Text}
use psc_mock_server.Prelude.Int.{ℤ}
use psc_mock_server.Gnmi.{
  GnmiPath, Notification, Encoding, json, json_ietf, bytes, proto, ascii, unknown_encoding,
  DataType, all, config, state, operational, unknown_data_type, Status, ok, error, unimplemented,
  not_found, encoding_name, data_type_name, use_models_unsupported, extension_unsupported,
  path_not_implemented, path_has_no_data,
}
use psc_mock_server.Gnmi.Requests.{GetRequest}
use psc_mock_server.Utils.{gnmi_to_xpath, validate_gnmi_path}
use psc_mock_server.DataProvider.{DataProvider, LeafType, Snapshot}
use psc_mock_server.Registry
use psc_mock_server.Registry.{Registry, SnapResult}
use psc_mock_server.Emit.{build_full_notifications}

unfoldable pub matches_type : LeafType → DataType → Bool
matches_type LeafType.config config = true
matches_type LeafType.state config = false
matches_type LeafType.operational config = false
matches_type LeafType.config state = false
matches_type LeafType.state state = true
matches_type LeafType.operational state = false
matches_type LeafType.config operational = false
matches_type LeafType.state operational = false
matches_type LeafType.operational operational = true
matches_type leaf all = true
matches_type leaf (unknown_data_type n) = true

-- The loop of `filterByDataType`.
unfoldable pub erase_other : DataType → Snapshot → Snapshot
unfolding matches_type
erase_other t [] = []
erase_other t ((path, leaf) ∷ snap) =
    let rest = erase_other t snap in
    if matches_type leaf.leaf_type t then (path, leaf) ∷ rest else rest

unfoldable pub filter_by_data_type : DataType → Snapshot → Snapshot
unfolding erase_other
filter_by_data_type all snap = snap
filter_by_data_type t snap = erase_other t snap

abbrev pub is_json : Encoding → Bool
is_json json = true
is_json json_ietf = true
is_json _ = false

-- `GetRequest_DataType_IsValid`: the number is one of the enum's
abbrev pub is_valid_data_type : DataType → Bool
is_valid_data_type (unknown_data_type n) = false
is_valid_data_type _ = true

unfoldable pub verify_get_request : GetRequest → Status
verify_get_request request =
    if not (is_json request.encoding)
    then error unimplemented (encoding_name request.encoding)
    else if not (is_valid_data_type request.data_type)
    then error unimplemented (data_type_name request.data_type)
    else if ltb 0 request.use_models_size
    then error unimplemented use_models_unsupported
    else if ltb 0 request.extension_size
    then error unimplemented extension_unsupported
    else ok

unfoldable pub full_path : Option GnmiPath → GnmiPath → Text
full_path none path = gnmi_to_xpath path
full_path (some prefix) path = gnmi_to_xpath prefix ++ gnmi_to_xpath path

-- The request's prefix goes on every notification that is not atomic.
unfoldable pub add_prefix : Option GnmiPath → List Notification → List Notification
add_prefix none notes = notes
add_prefix (some prefix) [] = []
add_prefix (some prefix) (n ∷ notes) =
    (if not n.atomic then record n { prefix = some prefix } else n) ∷ add_prefix (some prefix) notes

module _ {P : Type 0} ⦃i : DataProvider P⦄ (registry : Registry P) where
  -- What `buildGetNotifications` does with the registry's answer.
  unfoldable pub answer :
      (Option Text → ℤ)
      → List Notification
      → Option GnmiPath
      → Text
      → DataType
      → SnapResult
      → List Notification × Status
  unfolding filter_by_data_type add_prefix
  answer clock out prefix fullpath t res =
      let snap = filter_by_data_type t res.snap in
      if not res.routed
      then (out, error unimplemented (path_not_implemented fullpath))
      else if is_empty snap
      then (out, error not_found (path_has_no_data fullpath))
      else (out ++ add_prefix prefix (build_full_notifications clock snap registry), ok)

  unfoldable pub build_get_notifications :
      (Option Text → ℤ)
      → List Notification
      → Option GnmiPath
      → GnmiPath
      → Encoding
      → DataType
      → List Notification × Status
  unfolding answer full_path
  build_get_notifications clock out prefix path encoding t =
      if not (is_json encoding)
      then (out, error unimplemented (encoding_name encoding))
      else elim (validate_gnmi_path path) [
        | error c m ↦ (out, error c m)
        | ok ↦
            let fullpath = full_path prefix path in
            answer clock out prefix fullpath t (Registry.snapshot registry fullpath)
      ]

  -- The loop of `run` over the requested paths; `clock` is given the number of paths left.
  unfoldable pub answer_paths :
      (ℕ → Option Text → ℤ)
      → GetRequest
      → List GnmiPath
      → ℕ
      → List Notification
      → List Notification × Status
  unfolding build_get_notifications
  answer_paths clock req [] n out = (out, ok)
  answer_paths clock req (path ∷ paths) n out =
      let (out', status) =
        build_get_notifications (clock n) out req.prefix path req.encoding req.data_type in
      elim status [ ok ↦ answer_paths clock req paths (suc n) out' | error c m ↦ (out', error c m) ]

  -- `Get::run`: the notifications of the response, and the status
  unfoldable pub run : (ℕ → Option Text → ℤ) → GetRequest → List Notification × Status
  unfolding answer_paths verify_get_request
  run clock req = elim (verify_get_request req) [
    | error c m ↦ ([], error c m)
    | ok ↦ answer_paths clock req req.path 0 []
  ]
