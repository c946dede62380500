-- ===== src/Tests/SubscribeTests.antt =====
-- The Subscribe RPC on the server's registry, while another thread writes.
use psc_mock_server.Prelude.{
  ℕ, ◌+◌, ◌≤◌, ◌<◌, ◌≡◌, ◌≢◌, ◌↔◌, ◌∙◌, ap, sym, refl, Bool, true, false, none, some, List, [], ◌∷◌,
  ◌++◌, map, leb, ltb, arith, if◌then◌else◌,
}
use psc_mock_server.Prelude.Texts.{Text, codes, eq_text, lt_text}
use psc_mock_server.Prelude.Int.{pos}
use psc_mock_server.OrderedMap.{find, assign, emplace, merge}
use psc_mock_server.Gnmi.{ok, json, on_change, uint_val}
use psc_mock_server.Gnmi.Requests.{
  Subscription, SubscriptionList, SubscribeRequest, SubscribeResponse, sync_response, stream,
  poll_trigger, not_set,
}
use psc_mock_server.Utils.{gnmi_to_xpath, is_path_prefix, strip_path_quotes, validate_gnmi_path}
use psc_mock_server.Utils.Nested.{elems_of}
use psc_mock_server.Utils.PathPrefix.{IsQuoteFree, strip_path_quotes-IsQuoteFree}
use psc_mock_server.LeafStore
use psc_mock_server.LeafStore.{selects}
use psc_mock_server.LeafStore.Diff.{SameValues, value_at}
use psc_mock_server.StoreBacked
use psc_mock_server.StoreBacked.{StoreBackedProvider}
use psc_mock_server.Registry
use psc_mock_server.Registry.{Registry, matches}
use psc_mock_server.Emit.{build_full_notifications, build_change_notifications}
use psc_mock_server.Emit.Changes.{change_silent_iff}
use psc_mock_server.Emit.Full.{Says}
use psc_mock_server.Server
use psc_mock_server.Server.{Provider, server_provider}
use psc_mock_server.Server.Commits.{server_registry}
use psc_mock_server.Server.Delivery.{Located-server_registry, server-Says}
use psc_mock_server.Subscribe.{World, Call, new_call, emit, handle_once, handle_poll}
use psc_mock_server.Subscribe.Answers.{IsAnswerable, leaf_read, notes_of}
use psc_mock_server.Subscribe.Polling.{
  syncs, poll_status, leading_polls, once_lem, once-Says, poll_lem,
}
use psc_mock_server.Streaming.{
  OnChangeSub, turn_notifications, turned, handle_stream, check_intervals,
}
use psc_mock_server.Streaming.Turns.{seen, beats, turn_silent_iff}
use psc_mock_server.Streaming.Ends.{Ends, Ends-handle_stream}
use psc_mock_server.Streaming.Quiet.{IsStill, first_delivery, quiet_stream}
use psc_mock_server.Tests.Data.{sensor, serialize, leaf_at, previous, current, hostname_path}

abbrev hostname : Text
hostname = codes "/system/config/hostname"

-- The configuration with one leaf.
abbrev holding : ℕ → StoreBackedProvider
holding v = record { store = record { leaves = (hostname, leaf_at v 2) ∷ [] }; schema = [] }

abbrev server_at : ℕ → Registry Provider
server_at v = server_registry sensor (holding v)

-- A write lands between the first moment and the second; the client cancels at the fifth.
abbrev world : World Provider
world = record {
  registry = λ m. server_at (if ltb 0 m then 4 else 3);
  time = λ m. pos m;
  unix_time = λ m o. pos m;
  is_cancelled = λ m. leb 5 m;
}

abbrev hostname_sub : Subscription
hostname_sub = record {
  path = hostname_path;
  mode = on_change;
  sample_interval = 0;
  heartbeat_interval = 0;
}

abbrev list : SubscriptionList
list = record {
  prefix = none;
  subscription = hostname_sub ∷ [];
  mode = stream;
  encoding = json;
  updates_only = false;
}

quote_free : IsQuoteFree hostname
unfolding strip_path_quotes
quote_free = strip_path_quotes-IsQuoteFree hostname

routed : (m : ℕ) → IsAnswerable world list m
unfolding gnmi_to_xpath is_path_prefix matches strip_path_quotes validate_gnmi_path
routed m = (refl, (refl, refl, tt))

read_first : leaf_read world list.subscription 0 hostname ≡ some (leaf_at 3 2)
unfolding gnmi_to_xpath is_path_prefix matches strip_path_quotes Server.snapshot
    StoreBacked.snapshot LeafStore.snapshot selects find assign emplace merge eq_text lt_text
read_first = refl

server-Says_example :
    Says
      (build_full_notifications (λ o. pos 1) (holding 3).store.leaves (server_at 3))
      (elems_of hostname)
      (uint_val 3)
unfolding find eq_text
server-Says_example =
    server-Says sensor (holding 3) (λ o. pos 1) (holding 3).store.leaves hostname (leaf_at 3 2)
      quote_free refl

once_lem_example :
    (((handle_once world list new_call).0 ≡ ok) ↔ IsAnswerable world list 0)
    × ((handle_once world list new_call).0 ≢ ok
        → ((handle_once world list new_call).1.sent ≡ [])
          × ((handle_once world list new_call).1.try_cancelled ≡ true))
once_lem_example = once_lem world list new_call

once-Says_example :
    ((handle_once world list new_call).1.sent
      ≡ map SubscribeResponse.update (notes_of world list 0) ++ sync_response ∷ [])
    × Says (notes_of world list 0) (elems_of hostname) (uint_val 3)
once-Says_example =
    once-Says world list new_call hostname (leaf_at 3 2) (routed 0) refl
      (λ n.
        Located-server_registry sensor (holding (if ltb 0 n then 4 else 3)) hostname
          (Registry.atomic_prefix (world.registry n) hostname) quote_free refl)
      read_first

change_silent_iff_example :
    (build_change_notifications (λ o. pos 1) serialize previous current (server_at 3) ≡ [])
    ↔ SameValues serialize previous current
change_silent_iff_example = change_silent_iff (server_at 3) serialize (λ o. pos 1) previous current

abbrev polls : List SubscribeRequest
polls =
    record { request = poll_trigger; extension_size = 0 }
    ∷ record { request = not_set; extension_size = 0 }
    ∷ []

poll_lem_example :
    ((handle_poll world list polls new_call).0 ≡ poll_status polls)
    × (syncs (handle_poll world list polls new_call).1.sent ≡ 0 + 1 + leading_polls polls)
poll_lem_example = poll_lem world list polls new_call routed

abbrev watched : OnChangeSub
watched = record {
  sub = hostname_sub;
  query = hostname;
  prev = (holding 3).store.leaves;
  last_heartbeat = pos 0;
}

turn_silent_iff_example :
    ((turn_notifications world serialize watched 1 ≡ []) ↔ (
      (beats world serialize watched 1 ≡ false)
      × SameValues serialize watched.prev (seen world serialize watched 1)))
    × ((turned world serialize watched 1).prev ≡ seen world serialize watched 1)
turn_silent_iff_example = turn_silent_iff world serialize watched 1

cancelled : (m : ℕ) → 5 ≤ m → world.is_cancelled m ≡ true
cancelled m h = ground arith

Ends-handle_stream_example : Ends world serialize (handle_stream world serialize 6 list new_call)
Ends-handle_stream_example =
    Ends-handle_stream world serialize 5 6 list new_call cancelled (omega arith)

-- Behind the write nothing changes.
written : (m : ℕ) → 0 < m → ltb 0 m ≡ true
written m h = ground arith

still : (start : ℕ) → 0 < start → IsStill world serialize start
still start h query m k j =
    ap
      (λ (b : Bool).
        value_at serialize (find j (Registry.snapshot (server_at (if b then 4 else 3)) query).snap))
      (written start h ∙ sym (written m (omega arith)))

begins :
    ((first_delivery world serialize list new_call).0 ≡ ok)
    × (0 < (first_delivery world serialize list new_call).1.moment)
unfolding emit gnmi_to_xpath is_path_prefix matches strip_path_quotes validate_gnmi_path
    Registry.snapshot build_full_notifications merge Server.snapshot StoreBacked.snapshot
    LeafStore.snapshot selects emplace find assign Registry.atomic_prefix Server.atomic_prefix
begins = (refl, omega arith)

checked : check_intervals list.subscription ≡ ok
unfolding check_intervals
checked = refl

quiet_stream_example :
    (after : Call) × (handle_stream world serialize 6 list new_call ≡ some (ok, after))
    × (after.sent ≡ (first_delivery world serialize list new_call).1.sent ++ sync_response ∷ [])
quiet_stream_example =
    quiet_stream world serialize 5 6 list new_call
      (still (first_delivery world serialize list new_call).1.moment begins.1) ((refl, refl), tt)
      checked begins.0 cancelled (omega arith)
