-- ===== src/Gnmi.antt =====
-- The messages of proto/gnmi.proto that the handlers read and write, and gRPC's `Status`.
pub mod Requests
use psc_mock_server.Prelude.{ℕ, Bool, true, false, Option, none, some, List, []}
use psc_mock_server.Prelude.Texts.{Text}
use psc_mock_server.Prelude.Int.{ℤ, pos}

-- The `value` oneof. A double is its 64-bit pattern. `other_val` holds the number and the encoded
-- bytes of a field that the server passes on unread (bytes, float, decimal, leaf list, any, JSON,
-- ASCII, proto bytes), and `unset` is a message with no field.
pub data TypedValue : Type 0 where
  unset : TypedValue
  string_val : Text → TypedValue
  int_val : ℤ → TypedValue
  uint_val : ℕ → TypedValue
  bool_val : Bool → TypedValue
  double_val : ℕ → TypedValue
  other_val : ℕ → Text → TypedValue

-- `key` is a protobuf map: its entries in the order in which an iteration visits them.
pub record PathElem : Type 0 where
  pub name : Text
  pub key : List (Text × Text)

pub record GnmiPath : Type 0 where
  pub origin : Text
  pub elem : List PathElem
  pub target : Text

abbrev pub empty_path : GnmiPath
empty_path = record { origin = []; elem = []; target = [] }

-- `none` is a field that is not set.
pub record Update : Type 0 where
  pub path : Option GnmiPath
  pub val : Option TypedValue

pub record Notification : Type 0 where
  pub timestamp : ℤ
  pub prefix : Option GnmiPath
  pub update : List Update
  pub delete : List GnmiPath
  pub atomic : Bool

abbrev pub new_notification : Notification
new_notification = record {
  timestamp = pos 0;
  prefix = none;
  update = [];
  delete = [];
  atomic = false;
}

-- A proto3 enum is open: any other number can arrive.
pub data Encoding : Type 0 where
  json bytes proto ascii json_ietf : Encoding
  unknown_encoding : ℤ → Encoding

pub data SubscriptionMode : Type 0 where
  target_defined on_change sample : SubscriptionMode
  unknown_mode : ℤ → SubscriptionMode

pub data DataType : Type 0 where
  all config state operational : DataType
  unknown_data_type : ℤ → DataType

-- The codes of `grpc::StatusCode` that the server returns.
pub data StatusCode : Type 0 where
  invalid_argument not_found unimplemented unauthenticated unknown : StatusCode

-- The error messages, one constructor for each text in the source with the value that it prints.
pub data Message : Type 0 where
  empty_element_name empty_key_name : Message
  path_not_implemented path_has_no_data path_not_found path_is_read_only : Text → Message
  update_missing_path_or_value extensions_not_implemented : Message
  encoding_name : Encoding → Message
  data_type_name : DataType → Message
  use_models_unsupported extension_unsupported : Message
  sample_interval_too_large : Message
  list_already_received unknown_request_content needs_subscription_list : Message
  unknown_subscription_mode : Message
  no_username_field no_password_field invalid_username_password : Message

-- `grpc::Status`: `Status::OK`, or a code with a message.
pub data Status : Type 0 where
  ok : Status
  error : StatusCode → Message → Status
