-- ===== src/Capabilities.antt =====
-- src/gnmi/capabilities.cpp: the Capabilities RPC. The version string comes from an option of the
-- proto file through a generated descriptor, which is the parameter `gnmi_version`.
use psc_mock_server.Prelude.{ℕ, ◌≡◌, ◌↔◌, ◌⊎◌, true, List, [], ◌∷◌, ◌++◌, if◌then◌else◌, ltb, arith}
use psc_mock_server.Prelude.Texts.{Text, codes}
use psc_mock_server.Gnmi.{
  Encoding, json, json_ietf, Status, ok, error, unimplemented, extensions_not_implemented,
}
use psc_mock_server.Gnmi.Requests.{ModelData}
use psc_mock_server.GetRpc.{is_json}

pub record CapabilityResponse : Type 0 where
  pub supported_models : List ModelData
  pub supported_encodings : List Encoding
  pub gnmi_version : Text

abbrev pub supported_models : List ModelData
supported_models =
    record {
      name = codes "openconfig-platform";
      organization = codes "OpenConfig working group";
      version = codes "2021-01-18";
    }
    ∷ record {
      name = codes "openconfig-platform-psu";
      organization = codes "OpenConfig working group";
      version = codes "2018-11-21";
    }
    ∷ []

abbrev pub empty_response : CapabilityResponse
empty_response = record { supported_models = []; supported_encodings = []; gnmi_version = [] }

-- the loop over the table
unfoldable pub add_models : List ModelData → List ModelData → List ModelData
add_models [] list = list
add_models (m ∷ models) list = add_models models (list ++ m ∷ [])

unfoldable pub capabilities : Text → ℕ → CapabilityResponse × Status
unfolding add_models
capabilities gnmi_version extension_size =
    if ltb 0 extension_size
    then (empty_response, error unimplemented extensions_not_implemented)
    else (
      record {
        supported_models = add_models supported_models [];
        supported_encodings = json_ietf ∷ json ∷ [];
        gnmi_version = gnmi_version;
      },
      ok,
    )

abbrev pub IsListed : Encoding → List Encoding → Type 0
IsListed e [] = ⊥
IsListed e (x ∷ xs) = (e ≡ x) ⊎ IsListed e xs

-- The encodings that Capabilities advertises are exactly those that pass the
-- encoding test of Get.
pub advertised_iff :
    (gnmi_version : Text) (e : Encoding)
    → IsListed e (capabilities gnmi_version 0).0.supported_encodings ↔ (is_json e ≡ true)
unfolding capabilities
advertised_iff gnmi_version e = (λ h. ground arith, λ h. ground arith)
