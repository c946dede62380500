-- ===== src/SetRpc/Validation.antt =====
-- Phase 1 of Set: which requests pass, and that a request which fails changes nothing.
use psc_mock_server.Prelude.{
  ◌≡◌, ◌≢◌, ◌↔◌, refl, Bool, true, false, Option, none, some, List, [], ◌∷◌, ◌++◌, arith, All,
}
use psc_mock_server.Prelude.Texts.{Text}
use psc_mock_server.Prelude.Int.{ℤ}
use psc_mock_server.Gnmi.{GnmiPath, Update, ok}
use psc_mock_server.Gnmi.Requests.{SetRequest}
use psc_mock_server.Utils.{gnmi_to_xpath}
use psc_mock_server.DataProvider.{DataProvider}
use psc_mock_server.Registry.{Registry}
use psc_mock_server.Registry.Routing.{is_routed, is_writable, writable_lem}
use psc_mock_server.SetRpc.{
  prefix_text, update_path, writable_status, check_writable, validate_write, validate_deletes,
  validate_updates, validate, apply_request, run,
}

abbrev pub is_set {ℓ} : {A : Type ℓ} → Option A → Bool
is_set none = false
is_set (some a) = true

module _ {P : Type 0} ⦃i : DataProvider P⦄ (registry : Registry P) (prefix : Text) where
  -- Some provider owns the path and some owner accepts writes to it.
  abbrev pub Accepts : Text → Type 0
  Accepts xpath = (is_routed registry xpath ≡ true) × (is_writable registry xpath ≡ true)

  abbrev pub AcceptsDelete : GnmiPath → Type 0
  AcceptsDelete path = Accepts (prefix ++ gnmi_to_xpath path)

  -- The update has a path and a value, and its path is accepted.
  abbrev pub AcceptsUpdate : Update → Type 0
  AcceptsUpdate upd =
      (is_set upd.path ≡ true) × (is_set upd.val ≡ true) × (Accepts (update_path prefix upd))

  -- Everything that the request asks for can be done.
  pub record IsValid (request : SetRequest) : Type 0 where
    pub deletes : All AcceptsDelete request.delete
    pub replaces : All AcceptsUpdate request.replace
    pub updates : All AcceptsUpdate request.update

  check_writable_iff : (xpath : Text) → (check_writable registry xpath ≡ ok) ↔ Accepts xpath
  unfolding check_writable writable_status
  check_writable_iff xpath = (
    λ h. ground (arith, writable_lem registry xpath),
    λ h. ground (arith, writable_lem registry xpath),
  )

  validate_write_iff :
      (upd : Update) → (validate_write registry upd prefix ≡ ok) ↔ AcceptsUpdate upd
  unfolding validate_write
  validate_write_iff upd =
      let c = check_writable_iff (update_path prefix upd) in
      (λ h. ground (arith, c.0), λ h. ground (arith, c.1))

  validate_deletes_iff :
      (paths : List GnmiPath)
      → (validate_deletes registry prefix paths ≡ ok) ↔ All AcceptsDelete paths
  unfolding validate_deletes
  validate_deletes_iff [] = (λ h. tt, λ h. refl)
  validate_deletes_iff (path ∷ paths) =
      let c = check_writable_iff (prefix ++ gnmi_to_xpath path) in
      let r = validate_deletes_iff paths in
      (λ h. ground (arith, c.0, r.0), λ h. ground (arith, c.1, r.1))

  validate_updates_iff :
      (upds : List Update) → (validate_updates registry prefix upds ≡ ok) ↔ All AcceptsUpdate upds
  unfolding validate_updates
  validate_updates_iff [] = (λ h. tt, λ h. refl)
  validate_updates_iff (upd ∷ upds) =
      let c = validate_write_iff upd in
      let r = validate_updates_iff upds in
      (λ h. ground (arith, c.0, r.0), λ h. ground (arith, c.1, r.1))

  pub validate_iff :
      (request : SetRequest) → (validate registry prefix request ≡ ok) ↔ IsValid request
  unfolding validate
  validate_iff request =
      let d = validate_deletes_iff request.delete in
      let r = validate_updates_iff request.replace in
      let u = validate_updates_iff request.update in
      (λ h. ground (arith, d.0, r.0, u.0), λ h. ground (arith, d.1, r.1, u.1))

module _ {P : Type 0} ⦃i : DataProvider P⦄ (registry : Registry P) (now : ℤ)
    (request : SetRequest) where
  -- A Set succeeds exactly when it carries no extension and every path of it is owned by a provider
  -- and writable, each update and replace having a path and a value.
  pub set_ok_iff :
      ((run registry now request).2 ≡ ok)
      ↔ ((request.extension_size ≡ 0) × IsValid registry (prefix_text request.prefix) request)
  unfolding run apply_request
  set_ok_iff =
      let v = validate_iff registry (prefix_text request.prefix) request in
      (λ h. ground (arith, v.0), λ h. ground (arith, v.1))

  -- A Set that is refused leaves every provider as it was.
  pub run-eq_self : (run registry now request).2 ≢ ok → (run registry now request).0 ≡ registry
  unfolding run apply_request
  run-eq_self h = ground arith
