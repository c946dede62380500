-- ===== src/Service.antt =====
-- `Subscribe::run` of src/gnmi/subscribe.cpp, where the first request of a call chooses the handler,
-- and the methods of src/gnmi/gnmi.h and gnmi.cpp, which run the RPCs on the service's registry.
use psc_mock_server.Prelude.{ℕ, Option, some, List, [], ◌∷◌, if◌then◌else◌, ltb}
use psc_mock_server.Prelude.Texts.{Text}
use psc_mock_server.Prelude.Int.{ℤ}
use psc_mock_server.Gnmi.{
  TypedValue, Notification, Status, error, unimplemented, invalid_argument, unknown,
  extensions_not_implemented, needs_subscription_list, unknown_subscription_mode,
}
use psc_mock_server.Gnmi.Requests.{
  SetRequest, SetResponse, GetRequest, SubscriptionList, RequestCase, subscribe, poll_trigger,
  not_set, SubscribeRequest, ListMode, stream, once, poll, unknown_list_mode,
}
use psc_mock_server.DataProvider.{DataProvider}
use psc_mock_server.Registry.{Registry}
use psc_mock_server.SetRpc
use psc_mock_server.GetRpc
use psc_mock_server.Subscribe.{World, Call, new_call, try_cancel, handle_once, handle_poll}
use psc_mock_server.Streaming.{handle_stream}

-- The request object before anything is read.
abbrev pub new_request : SubscribeRequest
new_request = record { request = not_set; extension_size = 0 }

-- `stream->Read(&request)`, whose answer is not looked at: with nothing to read the request stays
-- as it is.
unfoldable pub first_request : List SubscribeRequest → SubscribeRequest
first_request [] = new_request
first_request (r ∷ requests) = r

abbrev pub later_requests : List SubscribeRequest → List SubscribeRequest
later_requests [] = []
later_requests (r ∷ requests) = requests

module _ {P : Type 0} ⦃i : DataProvider P⦄ (w : World P) (serialize : TypedValue → Text) where
  unfoldable pub run_mode :
      ℕ → ListMode → SubscriptionList → List SubscribeRequest → Call → Option (Status × Call)
  run_mode fuel stream list requests call = handle_stream w serialize fuel list call
  run_mode fuel once list requests call = some (handle_once w list call)
  run_mode fuel poll list requests call = some (handle_poll w list requests call)
  run_mode fuel (unknown_list_mode n) list requests call =
      some (error unknown unknown_subscription_mode, call)

  unfoldable pub run_case : ℕ → RequestCase → List SubscribeRequest → Call → Option (Status × Call)
  unfolding run_mode try_cancel
  run_case fuel (subscribe list) requests call = run_mode fuel list.mode list requests call
  run_case fuel poll_trigger requests call =
      some (error invalid_argument needs_subscription_list, try_cancel call)
  run_case fuel not_set requests call =
      some (error invalid_argument needs_subscription_list, try_cancel call)

  -- `Subscribe::run`, given what the client sends until it closes its side
  unfoldable pub run : ℕ → List SubscribeRequest → Call → Option (Status × Call)
  unfolding first_request run_case
  run fuel requests call =
      let first = first_request requests in
      if ltb 0 first.extension_size
      then some (error unimplemented extensions_not_implemented, call)
      else run_case fuel first.request (later_requests requests) call

-- `GNMIService`
pub record GnmiService (P : Type 0) : Type 0 where
  pub registry : Registry P

module _ {P : Type 0} ⦃i : DataProvider P⦄ where
  unfoldable pub set_rpc : GnmiService P → ℤ → SetRequest → GnmiService P × SetResponse × Status
  set_rpc service now request =
      let (registry, response, status) = SetRpc.run service.registry now request in
      (record { registry = registry }, response, status)

  unfoldable pub get_rpc :
      GnmiService P → (ℕ → Option Text → ℤ) → GetRequest → List Notification × Status
  get_rpc service clock request = GetRpc.run service.registry clock request

  -- The service's registry is the one that the world shows at each moment.
  unfoldable pub subscribe_rpc :
      World P → (TypedValue → Text) → ℕ → List SubscribeRequest → Option (Status × Call)
  unfolding run
  subscribe_rpc w serialize fuel requests = run w serialize fuel requests new_call
