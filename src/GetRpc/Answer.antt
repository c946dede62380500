-- ===== src/GetRpc/Answer.antt =====
-- When a Get succeeds.
use psc_mock_server.Prelude.{
  ℕ, suc, ◌≡◌, ◌↔◌, refl, true, false, Option, List, [], ◌∷◌, arith, All, is_empty,
}
use psc_mock_server.Prelude.Texts.{Text}
use psc_mock_server.Prelude.Int.{ℤ}
use psc_mock_server.Gnmi.{GnmiPath, Notification, ok}
use psc_mock_server.Gnmi.Requests.{GetRequest}
use psc_mock_server.Utils.{validate_gnmi_path}
use psc_mock_server.DataProvider.{DataProvider}
use psc_mock_server.Registry
use psc_mock_server.Registry.{Registry}
use psc_mock_server.Registry.Routing.{is_routed, snapshot_lem}
use psc_mock_server.GetRpc.{
  is_json, is_valid_data_type, verify_get_request, full_path, filter_by_data_type,
  build_get_notifications, answer_paths, run,
}

-- The request is in the part of the protocol that the server implements.
pub record IsSupported (req : GetRequest) : Type 0 where
  pub encoding : is_json req.encoding ≡ true
  pub data_type : is_valid_data_type req.data_type ≡ true
  pub no_models : req.use_models_size ≡ 0
  pub no_extension : req.extension_size ≡ 0

module _ {P : Type 0} ⦃i : DataProvider P⦄ (registry : Registry P) (req : GetRequest) where
  -- The path is well formed, a provider owns it behind the request's prefix, and it has a leaf of the
  -- requested type.
  pub record HasAnswer (path : GnmiPath) : Type 0 where
    pub well_formed : validate_gnmi_path path ≡ ok
    pub routed : is_routed registry (full_path req.prefix path) ≡ true
    pub has_data :
        is_empty (
          filter_by_data_type req.data_type
            (Registry.snapshot registry (full_path req.prefix path)).snap)
        ≡ false

  verify_iff : (verify_get_request req ≡ ok) ↔ IsSupported req
  unfolding verify_get_request
  verify_iff = (λ h. ground arith, λ h. ground arith)

  build_iff :
      (clock : Option Text → ℤ) (out : List Notification) (path : GnmiPath)
      → is_json req.encoding ≡ true
      → ((build_get_notifications registry clock out req.prefix path req.encoding req.data_type).1
          ≡ ok)
        ↔ HasAnswer path
  unfolding build_get_notifications
  build_iff clock out path json =
      let r = (snapshot_lem registry (full_path req.prefix path) []).0 in
      (λ h. ground (arith, r), λ h. ground (arith, r))

  answer_paths_iff :
      (clock : ℕ → Option Text → ℤ) (paths : List GnmiPath) (n : ℕ) (out : List Notification)
      → is_json req.encoding ≡ true
      → ((answer_paths registry clock req paths n out).1 ≡ ok) ↔ All HasAnswer paths
  unfolding answer_paths
  answer_paths_iff clock [] n out json = (λ h. tt, λ h. refl)
  answer_paths_iff clock (path ∷ paths) n out json =
      let built =
        build_get_notifications registry (clock n) out req.prefix path req.encoding req.data_type in
      let b = build_iff (clock n) out path json in
      let r = answer_paths_iff clock paths (suc n) built.0 json in
      (λ h. ground (arith, b.0, r.0), λ h. ground (arith, b.1, r.1))

  -- A Get succeeds exactly when it is supported and every requested path is well formed, is owned by
  -- a provider, and has a leaf of the requested type.
  pub get_ok_iff :
      (clock : ℕ → Option Text → ℤ)
      → ((run registry clock req).1 ≡ ok) ↔ (IsSupported req × All HasAnswer req.path)
  unfolding run
  get_ok_iff clock =
      let v = verify_iff in
      let a = answer_paths_iff clock req.path 0 [] in
      (
        λ h. ground (arith, v.0, λ (j : is_json req.encoding ≡ true). (a j).0),
        λ h. ground (arith, v.1, λ (j : is_json req.encoding ≡ true). (a j).1),
      )
