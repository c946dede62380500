-- ===== src/Gnmi/Requests.antt =====
-- The request and response messages of the Get, Set, Capabilities and Subscribe RPCs.
use psc_mock_server.Prelude.{ℕ, Bool, Option, List}
use psc_mock_server.Prelude.Texts.{Text}
use psc_mock_server.Prelude.Int.{ℤ}
use psc_mock_server.Gnmi.{GnmiPath, Update, Notification, Encoding, SubscriptionMode, DataType}

-- `use_models` and `extension` are read by their sizes only.
pub record GetRequest : Type 0 where
  pub prefix : Option GnmiPath
  pub path : List GnmiPath
  pub data_type : DataType
  pub encoding : Encoding
  pub use_models_size : ℕ
  pub extension_size : ℕ

-- `union_replace` is a field of the message that the server does not read.
pub record SetRequest : Type 0 where
  pub prefix : Option GnmiPath
  pub delete : List GnmiPath
  pub replace : List Update
  pub update : List Update
  pub union_replace : List Update
  pub extension_size : ℕ

pub data Operation : Type 0 where
  delete replace update : Operation

pub record UpdateResult : Type 0 where
  pub path : GnmiPath
  pub op : Operation

pub record SetResponse : Type 0 where
  pub prefix : Option GnmiPath
  pub response : List UpdateResult
  pub timestamp : ℤ

pub record Subscription : Type 0 where
  pub path : GnmiPath
  pub mode : SubscriptionMode
  pub sample_interval : ℕ
  pub heartbeat_interval : ℕ

pub data ListMode : Type 0 where
  stream once poll : ListMode
  unknown_list_mode : ℤ → ListMode

pub record SubscriptionList : Type 0 where
  pub prefix : Option GnmiPath
  pub subscription : List Subscription
  pub mode : ListMode
  pub encoding : Encoding
  pub updates_only : Bool

-- The `request` oneof.
pub data RequestCase : Type 0 where
  subscribe : SubscriptionList → RequestCase
  poll_trigger not_set : RequestCase

pub record SubscribeRequest : Type 0 where
  pub request : RequestCase
  pub extension_size : ℕ

pub data SubscribeResponse : Type 0 where
  update : Notification → SubscribeResponse
  sync_response : SubscribeResponse

pub record ModelData : Type 0 where
  pub name : Text
  pub organization : Text
  pub version : Text
